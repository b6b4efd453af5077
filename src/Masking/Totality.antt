-- ===== src/Masking/Totality.antt =====
-- opaque.rs: masking with a masking key as long as the hash.
use opaque_vx.Prelude.{
  ◌+◌, ◌*◌, ◌≤◌, ◌++◌, Bytes, ◌≡◌, length, xor_into, length-xor_into, arith, length-append, ap, inl,
  inr, ◌∙◌, [], ◌∷◌, ◌⊎◌, refl, flatten,
}
use opaque_vx.Prelude.Results.{ok, err, passes, bind, bind_ok, map_err}
use opaque_vx.Serialization.{take_array, take_array_lem, take_array-eq-ok}
use opaque_vx.Oprf.{OprfCs}
use opaque_vx.Hash.{HashLaws}
use opaque_vx.Group.{Group, TakesKeys}
use opaque_vx.Keypair.{PublicKey}
use opaque_vx.Masked.{MaskedResponse, nonce_len, masked_slices, deserialize_take_masked}
use opaque_vx.Envelope.{Envelope, internal, serialize_envelope}
use opaque_vx.Envelope.Codec.{deserialize_take_envelope}
use opaque_vx.Errors.{serialization_error}
use opaque_vx.Masking.{
  masked_response_len, xor_pad, mask_response, unmask_response, str_credential_response_pad,
}

module _ (o : OprfCs) (g : Group o) where
  -- A slice that is long enough is cut.
  take_array_total :
      (len : _) (name : _) (input : Bytes)
      → len ≤ length input
      → (front back : Bytes) × (take_array {V = o.Error} {W = o.InternalError} len name input
          ≡ ok (front, back))
        × (length input ≡ len + length back)
  take_array_total len name input long =
      elim (take_array_lem {V = o.Error} {W = o.InternalError} len name input) [
        | inl (short, _) ↦ absurd (omega arith)
        | inr (front, back, cut, measured, joined) ↦
            (front, back, cut, omega (arith, length-append front back, ap length joined))
      ]

  deserialize_take_masked_total :
      (input : Bytes)
      → length input ≡ masked_response_len o g
      → (masked : MaskedResponse) × (rest : Bytes) × (deserialize_take_masked o g input
          ≡ ok (masked, rest))
  unfolding deserialize_take_masked
  deserialize_take_masked_total input measured =
      let (nonce, b1, e1, m1) = take_array_total nonce_len "masked nonce" input (omega arith) in
      let (hash, b2, e2, m2) = take_array_total o.hash.output_size "masked hash" b1 (omega arith) in
      let (pk, b3, e3, m3) = take_array_total g.pk_len "masked public key" b2 (omega arith) in
      (record { nonce = nonce; hash = hash; pk = pk }, b3, simp (e1, e2, e3, passes))

  pub mask_response_total :
      HashLaws o.hash
      → masked_response_len o g ≤ 255 * o.hash.output_size
      → (masking_key masking_nonce : Bytes) (server_s_pk : PublicKey g) (envelope : Envelope)
      → length masking_key ≡ o.hash.output_size
      → (masked : MaskedResponse) × (mask_response o g masking_key masking_nonce server_s_pk
            envelope
          ≡ ok masked)
  unfolding mask_response xor_pad
  mask_response_total laws fits masking_key masking_nonce server_s_pk envelope measured =
      let (hkdf, keyed) = laws.from_prk_total masking_key (omega arith) in
      let (pad, padded) =
        laws.expand_multi_info_total hkdf (masking_nonce ∷ str_credential_response_pad ∷ []) _
          fits in
      let clear = g.serialize_pk server_s_pk ++ serialize_envelope o envelope in
      let pad_length = laws.length-expand_multi_info hkdf _ _ pad padded in
      let (masked, rest, read) =
        deserialize_take_masked_total (xor_into pad clear)
          (length-xor_into pad clear ∙ pad_length) in
      (masked, simp (keyed, padded, read, passes))

  -- The parts of a masked response have their lengths.
  pub mask_response-lengths :
      (masking_key masking_nonce : Bytes) (server_s_pk : PublicKey g) (envelope : Envelope)
      (masked : MaskedResponse)
      → mask_response o g masking_key masking_nonce server_s_pk envelope ≡ ok masked
      → (length masked.nonce ≡ nonce_len)
        × (length masked.hash ≡ o.hash.output_size)
        × (length masked.pk ≡ g.pk_len)
  unfolding mask_response deserialize_take_masked
  mask_response-lengths masking_key masking_nonce server_s_pk envelope masked h =
      bind_ok _ _ h λ pad padded h1. bind_ok _ _ h1 λ result read h2.
        bind_ok _ _ read λ nonce e1 r1. bind_ok _ _ r1 λ hash e2 r2. bind_ok _ _ r2 λ pk e3 r3.
          let same : record { nonce = nonce.0; hash = hash.0; pk = pk.0 } ≡ masked = cc in
          rw (← same) (
            (take_array-eq-ok _ _ _ _ _ e1).0,
            (take_array-eq-ok _ _ _ _ _ e2).0,
            (take_array-eq-ok _ _ _ _ _ e3).0,
          )

module _ (o : OprfCs) (g : Group o) where
  deserialize_take_envelope_total :
      (input : Bytes)
      → length input ≡ nonce_len + o.hash.output_size
      → (envelope : Envelope) × (rest : Bytes) × (deserialize_take_envelope o input
          ≡ ok (envelope, rest))
        × (envelope.mode ≡ internal)
  unfolding deserialize_take_envelope
  deserialize_take_envelope_total input measured =
      let (nonce, b1, e1, m1) = take_array_total o g nonce_len "nonce" input (omega arith) in
      let (hmac, b2, e2, m2) = take_array_total o g o.hash.output_size "hmac" b1 (omega arith) in
      (record { mode = internal; nonce = nonce; hmac = hmac }, b2, simp (e1, e2, passes), refl)

  -- Under any key of the hash's length a masked response reads as a public key and an envelope, or does
  -- not read as a public key, which is a serialization error.
  pub unmask_response_outcome :
      HashLaws o.hash
      → masked_response_len o g ≤ 255 * o.hash.output_size
      → TakesKeys g
      → (masking_key masking_nonce : Bytes) (masked : MaskedResponse)
      → length masking_key ≡ o.hash.output_size
      → ((pk : PublicKey g) × (envelope : Envelope) × (unmask_response o g masking_key masking_nonce
              masked
            ≡ ok (pk, envelope))
          × (envelope.mode ≡ internal)
          × (length (g.serialize_pk pk) ≡ g.pk_len))
        ⊎ (unmask_response o g masking_key masking_nonce masked ≡ err serialization_error)
  unfolding unmask_response xor_pad map_err bind
  unmask_response_outcome laws fits takes masking_key masking_nonce masked measured =
      let (hkdf, keyed) = laws.from_prk_total masking_key (omega arith) in
      let (pad, padded) =
        laws.expand_multi_info_total hkdf (masking_nonce ∷ str_credential_response_pad ∷ []) _
          fits in
      let pad_length = laws.length-expand_multi_info hkdf _ _ pad padded in
      let clear = xor_into pad (flatten (masked_slices masked)) in
      let clear_length = length-xor_into pad (flatten (masked_slices masked)) ∙ pad_length in
      elim (takes clear) [
        | inl (pk, rest, read, cut, written) ↦
            let (envelope, rest', opened, mode) =
              deserialize_take_envelope_total rest (omega (arith, clear_length, cut)) in
            inl (pk, envelope, simp (keyed, padded, read, opened, passes), mode, written)
        | inr (e, unread) ↦ inr (simp (keyed, padded, unread, passes))
      ]
