-- ===== src/Opaque/States.antt =====
-- opaque.rs: the encodings of the states that both sides keep between two steps.
use opaque_vx.Prelude.{Bytes, take, drop}
use opaque_vx.Prelude.Results.{Result, ok, ◌>>=◌, ◌>>◌}
use opaque_vx.Serialization.{cat}
use opaque_vx.Oprf.{Failure, from_voprf}
use opaque_vx.KeyExchange.Trait.{Encodings}
use opaque_vx.CipherSuite.{CipherSuite}
use opaque_vx.Messages.Registration.{
  at_least, serialize_registration_upload, deserialize_registration_upload,
}
use opaque_vx.Messages.Login.{serialize_credential_request, deserialize_take_credential_request}
use opaque_vx.Opaque.{ClientRegistration, ServerRegistration, ClientLogin, ServerLogin}

module _ (cs : CipherSuite) where
  unfoldable pub serialize_client_registration : ClientRegistration cs → Bytes
  serialize_client_registration self =
      cat (cs.oprf.client_serialize self.oprf_client)
        (cs.oprf.blinded_serialize self.blinded_element)

  unfoldable pub deserialize_client_registration :
      Bytes → Result (Failure cs.oprf) (ClientRegistration cs)
  deserialize_client_registration input = do
    at_least cs.oprf cs.oprf.client_len input
    oprf_client ← from_voprf cs.oprf (cs.oprf.client_deserialize (take cs.oprf.client_len input))
    blinded_element ←
        from_voprf cs.oprf (cs.oprf.blinded_deserialize (drop cs.oprf.client_len input))
    ok (record { oprf_client = oprf_client; blinded_element = blinded_element })

  unfoldable pub serialize_server_registration : ServerRegistration cs → Bytes
  serialize_server_registration self = serialize_registration_upload cs self

  unfoldable pub deserialize_server_registration :
      Bytes → Result (Failure cs.oprf) (ServerRegistration cs)
  deserialize_server_registration input = deserialize_registration_upload cs input

  module _ (encodings : Encodings cs.key_exchange) where
    unfoldable pub serialize_client_login : ClientLogin cs → Bytes
    serialize_client_login self =
        cat
          (cat (cs.oprf.client_serialize self.oprf_client)
            (serialize_credential_request cs encodings self.credential_request))
          (encodings.serialize_ke1_state self.ke1_state)

    unfoldable pub deserialize_client_login : Bytes → Result (Failure cs.oprf) (ClientLogin cs)
    deserialize_client_login input = do
      at_least cs.oprf cs.oprf.client_len input
      oprf_client ← from_voprf cs.oprf (cs.oprf.client_deserialize (take cs.oprf.client_len input))
      credential_request ←
          deserialize_take_credential_request cs encodings (drop cs.oprf.client_len input)
      ke1_state ← encodings.deserialize_take_ke1_state credential_request.1
      ok (record {
        oprf_client = oprf_client;
        ke1_state = ke1_state.0;
        credential_request = credential_request.0;
      })

    unfoldable pub serialize_server_login : ServerLogin cs → Bytes
    serialize_server_login self = encodings.serialize_ke2_state self.ke2_state

    unfoldable pub deserialize_server_login : Bytes → Result (Failure cs.oprf) (ServerLogin cs)
    deserialize_server_login bytes = do
      ke2_state ← encodings.deserialize_take_ke2_state bytes
      ok (record { ke2_state = ke2_state.0 })
