-- ===== src/KeyExchange/Serialized/Codec.antt =====
-- key_exchange/mod.rs: the encodings of the serialized request and response.
use opaque_vx.Prelude.{Bytes, ◌++◌, ◌≡◌, length, append_assoc}
use opaque_vx.Prelude.Results.{ok, passes}
use opaque_vx.Prelude.Act.{Act, pure, ◌>>=◌}
use opaque_vx.Serialization.{take_array, cat, take_array-append, concat_ext-eq-cat}
use opaque_vx.Oprf.{OprfCs, Failure}
use opaque_vx.Group.{Group}
use opaque_vx.Masked.{serialize_masked, deserialize_take_masked}
use opaque_vx.KeyExchange.Serialized.{
  SerializedCredentialRequest, SerializedCredentialResponse, nonce_len,
}

unfoldable pub serialize_request_parts : SerializedCredentialRequest → Bytes
serialize_request_parts self = self

unfoldable pub serialize_response_parts : SerializedCredentialResponse → Bytes
serialize_response_parts self =
    cat (cat self.evaluation_element self.masking_nonce) (serialize_masked self.masked_response)

module _ (o : OprfCs) where
  unfoldable pub deserialize_take_request_parts : Act (Failure o) Bytes SerializedCredentialRequest
  deserialize_take_request_parts bytes = take_array o.elem_len "blinded element" bytes

  module _ (g : Group o) where
    unfoldable pub deserialize_take_response_parts :
        Act (Failure o) Bytes SerializedCredentialResponse
    deserialize_take_response_parts = do
      evaluation_element ← take_array o.elem_len "evaluation element"
      masking_nonce ← take_array nonce_len "masking nonce"
      masked_response ← deserialize_take_masked o g
      pure (record {
        evaluation_element = evaluation_element;
        masking_nonce = masking_nonce;
        masked_response = masked_response;
      })

    -- The serialized response, with its parts of their lengths, reads back, and the slice moves past
    -- it.
    pub deserialize_take_response_parts-serialize_response_parts :
        (response : SerializedCredentialResponse) (rest : Bytes)
        → length response.evaluation_element ≡ o.elem_len
        → length response.masking_nonce ≡ nonce_len
        → length response.masked_response.nonce ≡ nonce_len
        → length response.masked_response.hash ≡ o.hash.output_size
        → length response.masked_response.pk ≡ g.pk_len
        → deserialize_take_response_parts (serialize_response_parts response ++ rest)
          ≡ ok (response, rest)
    unfolding serialize_response_parts deserialize_take_response_parts serialize_masked
        deserialize_take_masked
    deserialize_take_response_parts-serialize_response_parts response rest element masking nonce
          hash pk =
        simp (
          concat_ext-eq-cat,
          append_assoc,
          take_array-append o.elem_len "evaluation element" response.evaluation_element _ element,
          take_array-append nonce_len "masking nonce" response.masking_nonce _ masking,
          take_array-append nonce_len "masked nonce" response.masked_response.nonce _ nonce,
          take_array-append o.hash.output_size "masked hash" response.masked_response.hash _ hash,
          take_array-append g.pk_len "masked public key" response.masked_response.pk rest pk,
          passes,
        )
