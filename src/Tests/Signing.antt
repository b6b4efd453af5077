-- ===== src/Tests/Signing.antt =====
-- Examples of the theorems on SIGMA-I.
use opaque_vx.Prelude.{ℕ, ◌≡◌, refl, ◌==◌, ◌+◌, [], ◌∷◌, replicate, arith}
use opaque_vx.Prelude.Results.{ok, bind, guard, unwrap, ok_or}
use opaque_vx.Errors.{invalid_login_error}
use opaque_vx.Keypair.{derive_random}
use opaque_vx.Masked.{masked_slices}
use opaque_vx.Serialization.Integers.{be_bytes, i2osp, leading_zeros}
use opaque_vx.KeyExchange.Serialized.{
  response_slices, identifier_slices, request_slices, context_slices,
}
use opaque_vx.Hash.{chain_iter, mac_update_iter}
use opaque_vx.KeyExchange.Trait.{GenerateKe2Result, GenerateKe3Result}
use opaque_vx.KeyExchange.Shared.{
  transcript, ke1_slices, to_iter, derive_keys, derive_secrets, hkdf_expand_label,
  hkdf_expand_label_extracted, input_ikms,
}
use opaque_vx.KeyExchange.Shared.Start.{generate_nonce}
use opaque_vx.KeyExchange.SigmaI.Messages.{
  Message, server_role, sign_message, verify_message, build_message, to_cached, hash_message,
}
use opaque_vx.KeyExchange.SigmaI.Signed.{
  peer_builder, peer_message, verify_message-sign_message, hash_message_lem,
}
use opaque_vx.KeyExchange.SigmaI.Protocol.{SignatureProtocol, SignatureLaws}
use opaque_vx.KeyExchange.SigmaI.{
  Ke2Builder, Ke2State, Ke2Message, Ke3Message, sigma_ke2_builder, sigma_build_ke2,
  sigma_generate_ke2_input, identifier_mac, sigma_generate_ke3, sigma_finish_ke,
}
use opaque_vx.KeyExchange.SigmaI.Agreement.{sigma_finish_ke-sigma_generate_ke3}
use opaque_vx.Tests.{
  sums, take_one, sum_oprf, sum_group, sum_diffie_hellman, sum_hash,
  sum_diffie_hellman-DiffieHellmanLaws, sum_group-GroupLaws,
}
use opaque_vx.Tests.Registered.{ids}
use opaque_vx.Tests.Exchange.{identifiers, context, response, named, ke1, started}

-- A signature is the sum of the key and of the message.
abbrev sum_signature : SignatureProtocol sum_group
sum_signature = record {
  Signature = ℕ;
  VerifyState = ℕ;
  sign = λ sk m r. (
    (
      sk + sums (sign_message m),
      sums (verify_message (build_message (peer_builder m) (to_cached m))),
    ),
    r,
  );
  verify = λ pk builder state signature. guard (pk + state == signature + 1) invalid_login_error;
  serialize_signature = λ s. s ∷ [];
  deserialize_take_signature = take_one;
  serialize_verify_state = λ s. s ∷ [];
  deserialize_take_verify_state = take_one;
}

sum_signature-SignatureLaws : SignatureLaws sum_signature sum_group-GroupLaws.SkIsValid
unfolding guard
sum_signature-SignatureLaws = record {
  verify-sign = λ sk own_sk signed own r own_r valid same.
      let total : sk + 1 + sums (sign_message signed) ≡ sk + sums (sign_message signed) + 1 =
        omega arith in
      rw (same) (ground arith);
}

abbrev message : Message
message = record {
  role = server_role;
  context = context;
  identifiers = identifiers;
  cache = record {
    credential_request = 33 ∷ [];
    ke1_message = record { client_nonce = replicate 32 31; client_e_pk = 31 ∷ [] };
    credential_response = response;
    server_nonce = replicate 32 43;
    server_e_pk = 43 ∷ [];
    server_mac = 209997 ∷ [];
  };
}

abbrev builder : Ke2Builder sum_group sum_group
builder = record {
  transcript = message;
  server_nonce = replicate 32 43;
  client_s_pk = 3109;
  server_e_pk = 43;
  expected_mac = 209985 ∷ [];
  session_key = 208146 ∷ [];
}

abbrev ke2 : GenerateKe2Result (Ke2State sum_signature) (Ke2Message sum_signature sum_group)
ke2 =
    let input = (sum_signature.sign 3 message 0).0 in
    record {
      state = record {
        client_s_pk = 3109;
        session_key = 208146 ∷ [];
        verify_state = input.1;
        expected_mac = 209985 ∷ [];
      };
      message = record {
        server_nonce = replicate 32 43;
        server_e_pk = 43;
        signature = input.0;
        mac = 209997 ∷ [];
      };
    }

built :
    sigma_ke2_builder sum_oprf sum_group sum_signature sum_group sum_diffie_hellman sum_hash
      (33 ∷ [])
      ke1.message
      response
      3109
      identifiers
      context
      42
    ≡ ok (builder, 44)
unfolding sigma_ke2_builder bind derive_random unwrap generate_nonce transcript chain_iter
    response_slices masked_slices identifier_slices ke1_slices request_slices context_slices to_iter
    derive_keys derive_secrets hkdf_expand_label_extracted i2osp leading_zeros ok_or
    hkdf_expand_label input_ikms be_bytes identifier_mac mac_update_iter
built = refl

answered :
    sigma_build_ke2 sum_oprf sum_group sum_signature sum_group sum_diffie_hellman sum_hash builder
      (sigma_generate_ke2_input sum_oprf sum_group sum_signature sum_group sum_diffie_hellman
        sum_hash builder 3 0).0
    ≡ ok ke2
unfolding sigma_build_ke2 sigma_generate_ke2_input
answered = refl

sigma_finish_ke-sigma_generate_ke3_example :
    (ke3 : GenerateKe3Result (Ke3Message sum_signature)) × (r4' : ℕ) × (sigma_generate_ke3 sum_oprf
        sum_group sum_signature sum_group sum_diffie_hellman sum_hash
        (33 ∷ [])
        ke1.message
        response
        ke1.state
        ke2.message
        4
        3108
        identifiers
        context
        50
      ≡ ok (ke3, r4'))
    × (sigma_finish_ke sum_oprf sum_group sum_signature sum_group sum_diffie_hellman sum_hash
          ke2.state ke3.message ids context
        ≡ ok ke3.session_key)
sigma_finish_ke-sigma_generate_ke3_example =
    sigma_finish_ke-sigma_generate_ke3 sum_oprf sum_group sum_signature sum_group sum_diffie_hellman
      sum_hash sum_diffie_hellman-DiffieHellmanLaws sum_signature-SignatureLaws (33 ∷ []) response
      3108 3 ids identifiers context 30 32 42 44 0 50 ke1 builder ke2 tt tt named started built
      answered

verify_message-sign_message_example :
    verify_message (build_message (peer_builder message) (to_cached message))
    ≡ sign_message (peer_message message)
verify_message-sign_message_example = verify_message-sign_message message

hash_message_lem_example :
    ((hash_message sum_hash message).sign ≡ chain_iter sum_hash sum_hash.new (sign_message message))
    × ((hash_message sum_hash message).verify
        ≡ chain_iter sum_hash sum_hash.new (sign_message (peer_message message)))
hash_message_lem_example = hash_message_lem sum_hash message
