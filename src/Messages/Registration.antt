-- ===== src/Messages/Registration.antt =====
-- messages.rs: the encodings of the registration messages.
use opaque_vx.Prelude.{ℕ, Bytes, ltb, length, take, drop, if◌then◌else◌}
use opaque_vx.Prelude.Results.{Result, ok, err, ◌>>=◌, ◌>>◌}
use opaque_vx.Errors.{serialization_error}
use opaque_vx.Serialization.{take_array, cat}
use opaque_vx.Oprf.{OprfCs, Failure, from_voprf}
use opaque_vx.Envelope.{serialize_envelope}
use opaque_vx.Envelope.Codec.{deserialize_take_envelope}
use opaque_vx.CipherSuite.{CipherSuite}
use opaque_vx.Messages.{RegistrationRequest, RegistrationResponse, RegistrationUpload}

-- `if input.len() < len { return Err(SerializationError) }`
abbrev pub at_least : (o : OprfCs) → ℕ → Bytes → Result (Failure o) (Unit {0})
at_least o len input = if ltb (length input) len then err serialization_error else ok tt

module _ (cs : CipherSuite) where
  unfoldable pub serialize_registration_request : RegistrationRequest cs → Bytes
  serialize_registration_request self =
      cs.oprf.serialize_elem (cs.oprf.blinded_value self.blinded_element)

  -- The whole input is read, what follows the element included.
  unfoldable pub deserialize_registration_request :
      Bytes → Result (Failure cs.oprf) (RegistrationRequest cs)
  deserialize_registration_request input = do
    at_least cs.oprf cs.oprf.elem_len input
    blinded_element ← from_voprf cs.oprf (cs.oprf.blinded_deserialize input)
    ok (record { blinded_element = blinded_element })

  unfoldable pub serialize_registration_response : RegistrationResponse cs → Bytes
  serialize_registration_response self =
      cat (cs.oprf.serialize_elem (cs.oprf.evaluation_value self.evaluation_element))
        (cs.key_exchange.group.serialize_pk self.server_s_pk)

  unfoldable pub deserialize_registration_response :
      Bytes → Result (Failure cs.oprf) (RegistrationResponse cs)
  deserialize_registration_response input = do
    at_least cs.oprf cs.oprf.elem_len input
    evaluation_element ←
        from_voprf cs.oprf (cs.oprf.evaluation_deserialize (take cs.oprf.elem_len input))
    server_s_pk ← cs.key_exchange.group.deserialize_take_pk (drop cs.oprf.elem_len input)
    ok (record { evaluation_element = evaluation_element; server_s_pk = server_s_pk.0 })

  unfoldable pub serialize_registration_upload : RegistrationUpload cs → Bytes
  serialize_registration_upload self =
      cat (cat (cs.key_exchange.group.serialize_pk self.client_s_pk) self.masking_key)
        (serialize_envelope cs.oprf self.envelope)

  unfoldable pub deserialize_registration_upload :
      Bytes → Result (Failure cs.oprf) (RegistrationUpload cs)
  deserialize_registration_upload input = do
    client_s_pk ← cs.key_exchange.group.deserialize_take_pk input
    masking_key ← take_array cs.oprf.hash.output_size "masking key" client_s_pk.1
    envelope ← deserialize_take_envelope cs.oprf masking_key.1
    ok (record { envelope = envelope.0; masking_key = masking_key.0; client_s_pk = client_s_pk.0 })
