-- ===== src/Opaque/Codecs.antt =====
-- The encodings of the messages and states read back.
use opaque_vx.Prelude.{
  ℕ, Bytes, ◌≡◌, ◌++◌, length, take-append_len, drop-append_len, append_assoc, length-append, arith,
  le→ltb,
}
use opaque_vx.Prelude.Results.{ok, passes}
use opaque_vx.Serialization.{take_array-append, concat_ext-eq-cat}
use opaque_vx.Oprf.{OprfCs, OprfEncodings, from_voprf}
use opaque_vx.Group.{GroupLaws}
use opaque_vx.Keypair.{serialize_key_pair, deserialize_take_key_pair}
use opaque_vx.Envelope.Sealed.{Sealed}
use opaque_vx.Envelope.Codec.{deserialize_take_envelope-serialize_envelope}
use opaque_vx.Masked.{nonce_len, serialize_masked, deserialize_take_masked}
use opaque_vx.KeyExchange.Trait.{Encodings, EncodingsLaws}
use opaque_vx.CipherSuite.{CipherSuite}
use opaque_vx.Messages.{
  RegistrationResponse, RegistrationUpload, CredentialRequest, CredentialResponse,
}
use opaque_vx.Messages.Registration.{
  at_least, serialize_registration_response, deserialize_registration_response,
  serialize_registration_upload, deserialize_registration_upload,
}
use opaque_vx.Messages.Login.{
  serialize_credential_request, deserialize_take_credential_request, serialize_credential_response,
  deserialize_credential_response,
}
use opaque_vx.Opaque.{LocalSetup, ClientRegistration, ClientLogin}
use opaque_vx.Opaque.States.{
  serialize_client_registration, deserialize_client_registration, serialize_client_login,
  deserialize_client_login,
}
use opaque_vx.Opaque.Setup.{
  local_key, local_seed, serialize_setup, deserialize_setup, deserialize_take_setup,
}

pub at_least-append :
    (o : OprfCs) (len : ℕ) (front rest : Bytes)
    → length front ≡ len
    → at_least o len (front ++ rest) ≡ ok tt
at_least-append o len front rest h =
    rw (
      ← h,
      le→ltb (length (front ++ rest)) (length front) (omega (arith, length-append front rest)),
    )

module _ (cs : CipherSuite) (laws : GroupLaws cs.key_exchange.group) where
  -- A server setup that keeps its own keys, whose seed is as long as the hash, whose key pair belongs
  -- together and whose keys are valid, reads back, whatever follows it.
  pub deserialize_setup-serialize_setup :
      (setup : LocalSetup cs) (rest : Bytes)
      → length setup.oprf_seed ≡ cs.oprf.hash.output_size
      → setup.keypair.pk ≡ cs.key_exchange.group.public_key setup.keypair.sk
      → laws.SkIsValid setup.keypair.sk
      → laws.PkIsValid setup.dummy_pk
      → deserialize_setup cs (local_key cs.oprf cs.key_exchange.group) (local_seed cs.oprf ⊥) (
          serialize_setup cs (local_key cs.oprf cs.key_exchange.group) (local_seed cs.oprf ⊥) setup
          ++ rest)
        ≡ ok setup
  unfolding deserialize_setup deserialize_take_setup serialize_setup serialize_key_pair
      deserialize_take_key_pair
  deserialize_setup-serialize_setup setup rest seed paired valid dummy_valid =
      simp
        (
          append_assoc,
          take_array-append cs.oprf.hash.output_size "OPRF seed" setup.oprf_seed _ seed,
          laws.take_sk setup.keypair.sk _ valid,
          laws.take_pk setup.dummy_pk _ dummy_valid,
          passes,
        )
        (cc)

  -- A registered record, with its public key, its masking key and its envelope as registration makes
  -- them, reads back, whatever follows it.
  pub deserialize_registration_upload-serialize_registration_upload :
      (upload : RegistrationUpload cs) (rest : Bytes)
      → laws.PkIsValid upload.client_s_pk
      → length upload.masking_key ≡ cs.oprf.hash.output_size
      → Sealed cs.oprf upload.envelope
      → deserialize_registration_upload cs (serialize_registration_upload cs upload ++ rest)
        ≡ ok upload
  unfolding serialize_registration_upload deserialize_registration_upload
  deserialize_registration_upload-serialize_registration_upload upload rest valid key sealed =
      simp (
        append_assoc,
        take_array-append cs.oprf.hash.output_size "masking key" upload.masking_key _ key,
        laws.take_pk upload.client_s_pk _ valid,
        deserialize_take_envelope-serialize_envelope cs.oprf upload.envelope rest sealed.mode
            sealed.length-nonce sealed.length-hmac,
        passes,
      )

  -- The server's answer to a registration, with a valid key, reads back, whatever follows it.
  pub deserialize_registration_response-serialize_registration_response :
      OprfEncodings cs.oprf
      → (response : RegistrationResponse cs) (rest : Bytes) → laws.PkIsValid response.server_s_pk
      → deserialize_registration_response cs (serialize_registration_response cs response ++ rest)
        ≡ ok response
  unfolding serialize_registration_response deserialize_registration_response from_voprf
  deserialize_registration_response-serialize_registration_response encodings response rest valid =
      let measured =
        encodings.length-serialize_elem (cs.oprf.evaluation_value response.evaluation_element) in
      simp (
        append_assoc,
        at_least-append cs.oprf cs.oprf.elem_len _ _ measured,
        take-append_len _ _ _ measured,
        drop-append_len _ _ _ measured,
        encodings.evaluation_read response.evaluation_element,
        laws.take_pk response.server_s_pk _ valid,
        passes,
      )

module _ (cs : CipherSuite) (oprf_encodings : OprfEncodings cs.oprf) where
  -- The client's state of registration reads back.
  pub deserialize_client_registration-serialize_client_registration :
      (state : ClientRegistration cs)
      → deserialize_client_registration cs (serialize_client_registration cs state) ≡ ok state
  unfolding serialize_client_registration deserialize_client_registration from_voprf
  deserialize_client_registration-serialize_client_registration state =
      let measured = oprf_encodings.length-client_serialize state.oprf_client in
      simp (
        at_least-append cs.oprf cs.oprf.client_len _ _ measured,
        take-append_len _ _ _ measured,
        drop-append_len _ _ _ measured,
        oprf_encodings.client_read state.oprf_client,
        oprf_encodings.blinded_serialize_lem state.blinded_element,
        oprf_encodings.blinded_read state.blinded_element,
        passes,
      )

  module _ (e : Encodings cs.key_exchange) (laws : EncodingsLaws cs.key_exchange e) where
    -- The client's first message of login reads back where its part of the key exchange is valid, and
    -- the slice moves past it.
    pub deserialize_take_credential_request-serialize_credential_request :
        (request : CredentialRequest cs) (rest : Bytes)
        → laws.Ke1MessageIsValid request.ke1_message
        → deserialize_take_credential_request cs e
            (serialize_credential_request cs e request ++ rest)
          ≡ ok (request, rest)
    unfolding serialize_credential_request deserialize_take_credential_request from_voprf
    deserialize_take_credential_request-serialize_credential_request request rest valid =
        let measured =
          oprf_encodings.length-serialize_elem (cs.oprf.blinded_value request.blinded_element) in
        simp (
          append_assoc,
          at_least-append cs.oprf cs.oprf.elem_len _ _ measured,
          take-append_len _ _ _ measured,
          drop-append_len _ _ _ measured,
          oprf_encodings.blinded_read request.blinded_element,
          laws.take_ke1_message request.ke1_message rest valid,
          passes,
        )

    -- The client's state of login reads back where its parts of the key exchange are valid.
    pub deserialize_client_login-serialize_client_login :
        (state : ClientLogin cs) (rest : Bytes)
        → laws.Ke1MessageIsValid state.credential_request.ke1_message
        → laws.Ke1StateIsValid state.ke1_state
        → deserialize_client_login cs e (serialize_client_login cs e state ++ rest) ≡ ok state
    unfolding serialize_client_login deserialize_client_login from_voprf
    deserialize_client_login-serialize_client_login state rest valid valid' =
        let measured = oprf_encodings.length-client_serialize state.oprf_client in
        simp (
          append_assoc,
          at_least-append cs.oprf cs.oprf.client_len _ _ measured,
          take-append_len _ _ _ measured,
          drop-append_len _ _ _ measured,
          oprf_encodings.client_read state.oprf_client,
          deserialize_take_credential_request-serialize_credential_request state.credential_request
              _ valid,
          laws.take_ke1_state state.ke1_state rest valid',
          passes,
        )

    -- The server's answer to a login reads back, where its nonce and its masked response have the
    -- lengths that the server gives them and its part of the key exchange is valid.
    pub deserialize_credential_response-serialize_credential_response :
        (response : CredentialResponse cs) (rest : Bytes)
        → length response.masking_nonce ≡ nonce_len
        → length response.masked_response.nonce ≡ nonce_len
        → length response.masked_response.hash ≡ cs.oprf.hash.output_size
        → length response.masked_response.pk ≡ cs.key_exchange.group.pk_len
        → laws.Ke2MessageIsValid response.ke2_message
        → deserialize_credential_response cs e (serialize_credential_response cs e response ++ rest)
          ≡ ok response
    unfolding serialize_credential_response deserialize_credential_response serialize_masked
        deserialize_take_masked from_voprf
    deserialize_credential_response-serialize_credential_response response rest masking nonce hash
          pk valid =
        let measured =
          oprf_encodings.length-serialize_elem
            (cs.oprf.evaluation_value response.evaluation_element) in
        simp (
          concat_ext-eq-cat,
          append_assoc,
          at_least-append cs.oprf cs.oprf.elem_len _ _ measured,
          take-append_len _ _ _ measured,
          drop-append_len _ _ _ measured,
          oprf_encodings.evaluation_read response.evaluation_element,
          take_array-append nonce_len "masking nonce" response.masking_nonce _ masking,
          take_array-append nonce_len "masked nonce" response.masked_response.nonce _ nonce,
          take_array-append cs.oprf.hash.output_size "masked hash" response.masked_response.hash _
              hash,
          take_array-append cs.key_exchange.group.pk_len "masked public key"
              response.masked_response.pk _ pk,
          laws.take_ke2_message response.ke2_message rest valid,
          passes,
        )
