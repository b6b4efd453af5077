-- ===== src/Tests/Encoded.antt =====
-- Examples of the theorems on the encodings of messages and states: each with bytes behind it.
use opaque_vx.Prelude.{◌≡◌, refl, [], ◌∷◌, ◌++◌, Bytes}
use opaque_vx.Prelude.Results.{ok}
use opaque_vx.KeyExchange.TripleDh.Encodings.{triple_dh_encodings, triple_dh_encodings_laws}
use opaque_vx.KeyExchange.Trait.{Encodings, EncodingsLaws}
use opaque_vx.Envelope.Sealed.{Sealed}
use opaque_vx.Messages.Registration.{
  serialize_registration_response, deserialize_registration_response, serialize_registration_upload,
  deserialize_registration_upload,
}
use opaque_vx.Messages.Login.{
  serialize_credential_request, deserialize_take_credential_request, serialize_credential_response,
  deserialize_credential_response,
}
use opaque_vx.Opaque.Setup.{local_key, local_seed, serialize_setup, deserialize_setup}
use opaque_vx.Opaque.States.{serialize_client_login, deserialize_client_login}
use opaque_vx.Opaque.Codecs.{
  deserialize_setup-serialize_setup, deserialize_registration_upload-serialize_registration_upload,
  deserialize_registration_response-serialize_registration_response,
  deserialize_take_credential_request-serialize_credential_request,
  deserialize_client_login-serialize_client_login,
  deserialize_credential_response-serialize_credential_response,
}
use opaque_vx.Tests.{
  suite, sum_oprf, sum_group, sum_hash, sum_diffie_hellman, sum_group-GroupLaws,
  sum_oprf-OprfEncodings,
}
use opaque_vx.Tests.Registered.{setup, envelope, replied, registered, requested, responded}

abbrev rest : Bytes
rest = 1 ∷ 2 ∷ []

abbrev codec : Encodings suite.key_exchange
codec = triple_dh_encodings sum_oprf sum_group sum_diffie_hellman sum_hash

abbrev codec_laws : EncodingsLaws suite.key_exchange codec
codec_laws =
    triple_dh_encodings_laws sum_oprf sum_group sum_diffie_hellman sum_hash sum_group-GroupLaws

sealed : Sealed sum_oprf envelope
sealed = record { mode = refl; length-nonce = refl; length-hmac = refl }

deserialize_setup-serialize_setup_example :
    deserialize_setup suite
      (local_key sum_oprf sum_group)
      (local_seed sum_oprf ⊥)
      (serialize_setup suite (local_key sum_oprf sum_group) (local_seed sum_oprf ⊥) setup ++ rest)
    ≡ ok setup
deserialize_setup-serialize_setup_example =
    deserialize_setup-serialize_setup suite sum_group-GroupLaws setup rest refl refl tt tt

deserialize_registration_upload-serialize_registration_upload_example :
    deserialize_registration_upload suite
      (serialize_registration_upload suite registered.message ++ rest)
    ≡ ok registered.message
deserialize_registration_upload-serialize_registration_upload_example =
    deserialize_registration_upload-serialize_registration_upload suite sum_group-GroupLaws
      registered.message rest tt refl sealed

deserialize_registration_response-serialize_registration_response_example :
    deserialize_registration_response suite
      (serialize_registration_response suite replied.message ++ rest)
    ≡ ok replied.message
deserialize_registration_response-serialize_registration_response_example =
    deserialize_registration_response-serialize_registration_response suite sum_group-GroupLaws
      sum_oprf-OprfEncodings replied.message rest tt

deserialize_take_credential_request-serialize_credential_request_example :
    deserialize_take_credential_request suite codec
      (serialize_credential_request suite codec requested.message ++ rest)
    ≡ ok (requested.message, rest)
deserialize_take_credential_request-serialize_credential_request_example =
    deserialize_take_credential_request-serialize_credential_request suite sum_oprf-OprfEncodings
      codec codec_laws requested.message rest (refl, tt)

deserialize_client_login-serialize_client_login_example :
    deserialize_client_login suite codec
      (serialize_client_login suite codec requested.state ++ rest)
    ≡ ok requested.state
deserialize_client_login-serialize_client_login_example =
    deserialize_client_login-serialize_client_login suite sum_oprf-OprfEncodings codec codec_laws
      requested.state rest (refl, tt) (refl, tt)

deserialize_credential_response-serialize_credential_response_example :
    deserialize_credential_response suite codec
      (serialize_credential_response suite codec responded.message ++ rest)
    ≡ ok responded.message
deserialize_credential_response-serialize_credential_response_example =
    deserialize_credential_response-serialize_credential_response suite sum_oprf-OprfEncodings codec
      codec_laws responded.message rest refl refl refl refl (refl, refl, tt)
