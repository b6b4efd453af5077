-- ===== src/Masking.antt =====
-- opaque.rs: `mask_response` and `unmask_response`.
pub mod RoundTrip
pub mod Totality
use opaque_vx.Prelude.{ℕ, ◌+◌, List, [], ◌∷◌, ◌++◌, Bytes, bytes, flatten, xor_into}
use opaque_vx.Prelude.Results.{Result, ok, ok_or, map_err, ◌>>=◌}
use opaque_vx.Errors.{library_error, hkdf_error, serialization_error}
use opaque_vx.Oprf.{OprfCs, Failure}
use opaque_vx.Group.{Group}
use opaque_vx.Keypair.{PublicKey}
use opaque_vx.Masked.{MaskedResponse, nonce_len, masked_slices, deserialize_take_masked}
use opaque_vx.Envelope.{Envelope, serialize_envelope}
use opaque_vx.Envelope.Codec.{deserialize_take_envelope}

abbrev pub str_credential_response_pad : Bytes
str_credential_response_pad = bytes "CredentialResponsePad"

module _ (o : OprfCs) (g : Group o) where
  -- `MaskedResponseLen`
  abbrev pub masked_response_len : ℕ
  masked_response_len = o.hash.output_size + nonce_len + g.pk_len

  unfoldable pub xor_pad : Bytes → Bytes → Result (Failure o) Bytes
  xor_pad masking_key masking_nonce = do
    hkdf ← ok_or (library_error hkdf_error) (o.hash.from_prk masking_key)
    ok_or (library_error hkdf_error) (
        o.hash.expand_multi_info hkdf (masking_nonce ∷ str_credential_response_pad ∷ [])
          masked_response_len)

  unfoldable pub mask_response :
      Bytes → Bytes → PublicKey g → Envelope → Result (Failure o) MaskedResponse
  mask_response masking_key masking_nonce server_s_pk envelope = do
    pad ← xor_pad masking_key masking_nonce
    let slice = xor_into pad (g.serialize_pk server_s_pk ++ serialize_envelope o envelope)
    result ← deserialize_take_masked o g slice
    ok result.0

  unfoldable pub unmask_response :
      Bytes → Bytes → MaskedResponse → Result (Failure o) (PublicKey g × Envelope)
  unmask_response masking_key masking_nonce masked_response = do
    pad ← xor_pad masking_key masking_nonce
    let slice = xor_into pad (flatten (masked_slices masked_response))
    server_s_pk ← map_err (λ _. serialization_error) (g.deserialize_take_pk slice)
    envelope ← deserialize_take_envelope o server_s_pk.1
    ok (server_s_pk.0, envelope.0)
