-- ===== src/Messages/Login.antt =====
-- messages.rs: the encodings of the login messages.
use opaque_vx.Prelude.{Bytes, take, drop}
use opaque_vx.Prelude.Results.{Result, ok, ◌>>=◌, ◌>>◌}
use opaque_vx.Prelude.Act.{Act}
use opaque_vx.Serialization.{take_array, cat}
use opaque_vx.Oprf.{Failure, from_voprf}
use opaque_vx.Masked.{nonce_len, serialize_masked, deserialize_take_masked}
use opaque_vx.KeyExchange.Serialized.{
  SerializedCredentialRequest, SerializedCredentialResponse, request_parts, response_parts,
}
use opaque_vx.KeyExchange.Trait.{Encodings}
use opaque_vx.CipherSuite.{CipherSuite}
use opaque_vx.Messages.{CredentialRequest, CredentialResponse, CredentialFinalization}
use opaque_vx.Messages.Registration.{at_least}

module _ (cs : CipherSuite) where
  -- `CredentialRequest::to_parts`
  unfoldable pub to_request_parts : CredentialRequest cs → SerializedCredentialRequest
  to_request_parts self = request_parts cs.oprf self.blinded_element

  -- `CredentialResponse::to_parts`
  unfoldable pub to_response_parts : CredentialResponse cs → SerializedCredentialResponse
  to_response_parts self =
      response_parts cs.oprf self.evaluation_element self.masking_nonce self.masked_response

  -- The encodings, with those of the key exchange's messages.
  module _ (encodings : Encodings cs.key_exchange) where
    unfoldable pub serialize_credential_request : CredentialRequest cs → Bytes
    serialize_credential_request self =
        cat (cs.oprf.serialize_elem (cs.oprf.blinded_value self.blinded_element))
          (encodings.serialize_ke1_message self.ke1_message)

    unfoldable pub deserialize_take_credential_request :
        Act (Failure cs.oprf) Bytes (CredentialRequest cs)
    deserialize_take_credential_request input = do
      at_least cs.oprf cs.oprf.elem_len input
      blinded_element ←
          from_voprf cs.oprf (cs.oprf.blinded_deserialize (take cs.oprf.elem_len input))
      ke1_message ← encodings.deserialize_take_ke1_message (drop cs.oprf.elem_len input)
      ok (record { blinded_element = blinded_element; ke1_message = ke1_message.0 }, ke1_message.1)

    unfoldable pub deserialize_credential_request :
        Bytes → Result (Failure cs.oprf) (CredentialRequest cs)
    deserialize_credential_request input = do
      result ← deserialize_take_credential_request input
      ok result.0

    unfoldable pub serialize_credential_response : CredentialResponse cs → Bytes
    serialize_credential_response self =
        cat
          (cat
            (cat (cs.oprf.serialize_elem (cs.oprf.evaluation_value self.evaluation_element))
              self.masking_nonce)
            (serialize_masked self.masked_response))
          (encodings.serialize_ke2_message self.ke2_message)

    unfoldable pub deserialize_credential_response :
        Bytes → Result (Failure cs.oprf) (CredentialResponse cs)
    deserialize_credential_response input = do
      at_least cs.oprf cs.oprf.elem_len input
      evaluation_element ←
          from_voprf cs.oprf (cs.oprf.evaluation_deserialize (take cs.oprf.elem_len input))
      masking_nonce ← take_array nonce_len "masking nonce" (drop cs.oprf.elem_len input)
      masked_response ← deserialize_take_masked cs.oprf cs.key_exchange.group masking_nonce.1
      ke2_message ← encodings.deserialize_take_ke2_message masked_response.1
      ok (record {
        evaluation_element = evaluation_element;
        masking_nonce = masking_nonce.0;
        masked_response = masked_response.0;
        ke2_message = ke2_message.0;
      })

    unfoldable pub serialize_credential_finalization : CredentialFinalization cs → Bytes
    serialize_credential_finalization self = encodings.serialize_ke3_message self.ke3_message

    unfoldable pub deserialize_credential_finalization :
        Bytes → Result (Failure cs.oprf) (CredentialFinalization cs)
    deserialize_credential_finalization input = do
      ke3_message ← encodings.deserialize_take_ke3_message input
      ok (record { ke3_message = ke3_message.0 })
