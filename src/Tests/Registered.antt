-- ===== src/Tests/Registered.antt =====
-- A registration and a login of the small suite, step by step.
use opaque_vx.Keypair.{derive_random}
use opaque_vx.KeyExchange.Shared.Start.{generate_ke1, generate_nonce}
use opaque_vx.Hash.{mac_update_iter}
use opaque_vx.Envelope.Seal.{seal}
use opaque_vx.Oprf.{from_voprf}
use opaque_vx.Prelude.{◌≡◌, refl, none, some, [], ◌∷◌, Bytes, Option, replicate}
use opaque_vx.Prelude.Results.{ok, guard, map_err, unwrap}
use opaque_vx.Masked.{MaskedResponse}
use opaque_vx.KeyExchange.Serialized.{Identifiers, from_identifiers, identifier_slices}
use opaque_vx.Envelope.{Envelope, internal, build_inner_envelope_internal, construct_aad, seal_raw}
use opaque_vx.Opaque.{
  LocalSetup, ClientRegistrationStartResult, ServerRegistrationStartResult,
  ClientRegistrationFinishResult, ClientLoginStartResult, ServerLoginStartResult,
  get_password_derived_key, oprf_key_from_key_material,
}
use opaque_vx.Opaque.RegisterClient.{client_registration_start, client_registration_finish, blind}
use opaque_vx.Opaque.RegisterServer.{
  server_registration_start, server_registration_finish, evaluate,
  server_registration_start_with_key_material,
}
use opaque_vx.Opaque.LoginClient.{client_login_start}
use opaque_vx.Opaque.LoginServer.{server_login_start}
use opaque_vx.Tests.{suite}
use opaque_vx.KeyExchange.TripleDh.{ke2_builder, build_ke2, generate_ke2_input}
use opaque_vx.KeyExchange.Shared.Start.{ke2_builder_common}
use opaque_vx.Opaque.ServerFinish.{server_login_build}
use opaque_vx.KeyExchange.Shared.{
  derive_keys, derive_secrets, hkdf_expand_label_extracted, hkdf_expand_label, compute_ke2_macs,
  input_ikms, to_iter, ke1_slices, transcript,
}
use opaque_vx.Envelope.{dummy_envelope}
use opaque_vx.Hash.{chain_iter}
use opaque_vx.Masked.{masked_slices}
use opaque_vx.KeyExchange.Serialized.{
  context_slices, from_identifier, identifier_slices, request_parts, request_slices, response_parts,
  response_slices,
}
use opaque_vx.Messages.Login.{to_request_parts}
use opaque_vx.Opaque.LoginServer.{server_login_builder, builder_with_key_material}
use opaque_vx.Opaque.{key_material_info, oprf_key_material}
use opaque_vx.Opaque.Setup.{dummy}
use opaque_vx.KeyExchange.Serialized.{from_context}
use opaque_vx.Serialization.{i2osp, concat_ext, take_array}
use opaque_vx.Serialization.Integers.{be_bytes, leading_zeros, i2osp}
use opaque_vx.Masking.{mask_response, xor_pad}
use opaque_vx.Envelope.{serialize_envelope}
use opaque_vx.Prelude.{xor_into}
use opaque_vx.Prelude.Results.{bind, ok_or}
use opaque_vx.Masked.{deserialize_take_masked}

abbrev pub ids : Identifiers
ids = record { client = some (7 ∷ 8 ∷ []); server = none }

abbrev pub context : Option Bytes
context = some (5 ∷ [])

abbrev pub password : Bytes
password = 1 ∷ 2 ∷ []

abbrev pub credential_identifier : Bytes
credential_identifier = 9 ∷ []

abbrev pub setup : LocalSetup suite
setup = record { oprf_seed = 4 ∷ []; keypair = record { pk = 4; sk = 3 }; dummy_pk = 6 }

abbrev pub envelope : Envelope
envelope = record { mode = internal; nonce = replicate 32 20; hmac = 3445 ∷ [] }

abbrev pub masked : MaskedResponse
masked = record { nonce = 5910 ∷ replicate 31 5894; hash = 5894 ∷ []; pk = 6759 ∷ [] }

abbrev pub begun : ClientRegistrationStartResult suite
begun = record {
  message = record { blinded_element = 13 };
  state = record { oprf_client = 10; blinded_element = 13 };
}

abbrev pub replied : ServerRegistrationStartResult suite
replied = record { message = record { evaluation_element = 730; server_s_pk = 4 } }

abbrev pub registered : ClientRegistrationFinishResult suite
registered = record {
  message = record { envelope = envelope; masking_key = 2451 ∷ []; client_s_pk = 3109 };
  export_key = 3019 ∷ [];
  server_s_pk = 4;
}

abbrev pub requested : ClientLoginStartResult suite
requested = record {
  message = record {
    blinded_element = 33;
    ke1_message = record { client_nonce = replicate 32 32; client_e_pk = 32 };
  };
  state = record {
    oprf_client = 30;
    ke1_state = record { client_e_sk = 31; client_nonce = replicate 32 32 };
    credential_request = record {
      blinded_element = 33;
      ke1_message = record { client_nonce = replicate 32 32; client_e_pk = 32 };
    };
  };
}

abbrev pub responded : ServerLoginStartResult suite
responded = record {
  message = record {
    evaluation_element = 750;
    masking_nonce = replicate 32 41;
    masked_response = masked;
    ke2_message = record { server_nonce = replicate 32 43; server_e_pk = 43; mac = 419758 ∷ [] };
  };
  state = record { ke2_state = record { session_key = 211366 ∷ []; expected_mac = 839492 ∷ [] } };
}

pub begins : client_registration_start suite password 10 ≡ ok (begun, 11)
unfolding client_registration_start bind blind from_voprf map_err
begins = refl

pub replies : server_registration_start suite setup begun.message credential_identifier ≡ ok replied
unfolding server_registration_start bind oprf_key_material ok_or
    server_registration_start_with_key_material evaluate oprf_key_from_key_material from_voprf
    map_err key_material_info
replies = refl

pub registers :
    client_registration_finish suite begun.state password replied.message
      (record { identifiers = ids; ksf = none })
      20
    ≡ ok (registered, 21)
unfolding client_registration_finish bind guard get_password_derived_key from_voprf map_err ok_or
    seal build_inner_envelope_internal from_identifiers i2osp leading_zeros seal_raw mac_update_iter
    construct_aad identifier_slices be_bytes
registers = refl

pub requests : client_login_start suite password 30 ≡ ok (requested, 33)
unfolding client_login_start bind blind from_voprf map_err generate_ke1 derive_random unwrap
    generate_nonce
requests = refl

pub responds :
    server_login_start suite setup
      (some (server_registration_finish suite registered.message))
      requested.message
      credential_identifier
      (record { context = context; identifiers = ids })
      40
    ≡ ok (responded, 44)
unfolding server_login_start server_login_builder key_material_info oprf_key_material
    builder_with_key_material server_registration_finish dummy from_context i2osp leading_zeros
    be_bytes mask_response xor_pad serialize_envelope concat_ext xor_into deserialize_take_masked
    take_array bind ok_or from_identifiers evaluate oprf_key_from_key_material from_voprf map_err
    ke2_builder ke2_builder_common derive_random unwrap server_login_build build_ke2 derive_keys
    derive_secrets hkdf_expand_label_extracted hkdf_expand_label compute_ke2_macs generate_nonce
    dummy_envelope chain_iter context_slices from_identifier identifier_slices request_parts
    request_slices response_parts response_slices input_ikms to_iter ke1_slices transcript
    to_request_parts masked_slices generate_ke2_input
responds = refl
