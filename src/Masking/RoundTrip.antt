-- ===== src/Masking/RoundTrip.antt =====
-- Unmasking what was masked.
use opaque_vx.Prelude.{
  flatten, [], ◌∷◌, ◌++◌, Bytes, xor_into, length, ◌≡◌, arith, length-append, length-xor_into,
  xor_into_twice, append-nil, refl, subst, sym, ◌∙◌, ap,
}
use opaque_vx.Prelude.Results.{ok, bind_ok, passes, ok_or-eq-ok}
use opaque_vx.Serialization.{take_array-eq-ok, concat_ext, concat_ext-eq-cat}
use opaque_vx.Oprf.{OprfCs}
use opaque_vx.Hash.{HashLaws}
use opaque_vx.Group.{Group, GroupLaws}
use opaque_vx.Keypair.{PublicKey}
use opaque_vx.Masked.{MaskedResponse, nonce_len, masked_slices, deserialize_take_masked}
use opaque_vx.Envelope.{Envelope, serialize_envelope, internal}
use opaque_vx.Envelope.Codec.{
  deserialize_take_envelope, deserialize_take_envelope-serialize_envelope,
}
use opaque_vx.Masking.{masked_response_len, xor_pad, mask_response, unmask_response}

length-zero : (xs : Bytes) → length xs ≡ 0 → xs ≡ []
length-zero [] h = refl
length-zero (x ∷ xs) h = absurd (omega arith)

module _ (o : OprfCs) (g : Group o) where
  -- Reading a masked response cuts the input into its parts.
  flatten-masked_slices :
      (input rest : Bytes) (masked : MaskedResponse)
      → deserialize_take_masked o g input ≡ ok (masked, rest)
      → length input ≡ masked_response_len o g
      → flatten (masked_slices masked) ≡ input
  unfolding deserialize_take_masked masked_slices
  flatten-masked_slices input rest masked h measured = bind_ok _ _ h λ nonce e1 h1.
      bind_ok _ _ h1 λ hash e2 h2. bind_ok _ _ h2 λ pk e3 h3.
        let (n1, j1) = take_array-eq-ok _ _ _ _ _ e1 in
        let (n2, j2) = take_array-eq-ok _ _ _ _ _ e2 in
        let (n3, j3) = take_array-eq-ok _ _ _ _ _ e3 in
        let none_left : length pk.1 ≡ 0 = omega (
          arith,
          length-append nonce.0 nonce.1,
          length-append hash.0 hash.1,
          length-append pk.0 pk.1,
          ap length j1,
          ap length j2,
          ap length j3,
        ) in
        let empty : pk.1 ≡ [] = length-zero pk.1 none_left in
        let same : record { nonce = nonce.0; hash = hash.0; pk = pk.0 } ≡ masked = cc in
        rw (← same) cc

  length-xor_pad :
      HashLaws o.hash
      → (masking_key masking_nonce pad : Bytes) → xor_pad o g masking_key masking_nonce ≡ ok pad
      → length pad ≡ masked_response_len o g
  unfolding xor_pad
  length-xor_pad laws masking_key masking_nonce pad h =
      bind_ok _ _ h λ hkdf e h'. laws.length-expand_multi_info hkdf _ _ pad (ok_or-eq-ok _ _ h')

  -- What is masked is as long as the pad.
  length-clear :
      (laws : GroupLaws g)
      → (server_s_pk : PublicKey g) (envelope : Envelope) → laws.PkIsValid server_s_pk
      → length envelope.nonce ≡ nonce_len
      → length envelope.hmac ≡ o.hash.output_size
      → length (g.serialize_pk server_s_pk ++ serialize_envelope o envelope)
        ≡ masked_response_len o g
  unfolding serialize_envelope
  length-clear laws server_s_pk envelope valid nonce hmac = omega (
    arith,
    laws.length-serialize_pk server_s_pk valid,
    length-append (g.serialize_pk server_s_pk) (concat_ext envelope.nonce envelope.hmac),
    ap length (concat_ext-eq-cat envelope.nonce envelope.hmac),
    length-append envelope.nonce envelope.hmac,
  )

  module _ (laws : HashLaws o.hash) (group_laws : GroupLaws g) where
    -- A sealed envelope, with its nonce and tag of their lengths, that was masked with the server's
    -- key: unmasking under the same masking key and nonce succeeds and gives the key and the envelope.
    pub unmask_response-mask_response :
        (masking_key masking_nonce : Bytes) (server_s_pk : PublicKey g) (envelope : Envelope)
        (masked : MaskedResponse)
        → group_laws.PkIsValid server_s_pk
        → envelope.mode ≡ internal
        → length envelope.nonce ≡ nonce_len
        → length envelope.hmac ≡ o.hash.output_size
        → mask_response o g masking_key masking_nonce server_s_pk envelope ≡ ok masked
        → unmask_response o g masking_key masking_nonce masked ≡ ok (server_s_pk, envelope)
    unfolding mask_response unmask_response
    unmask_response-mask_response masking_key masking_nonce server_s_pk envelope masked valid mode
          nonce hmac h =
        bind_ok _ _ h λ pad padded h1. bind_ok _ _ h1 λ result read h2.
          let clear = g.serialize_pk server_s_pk ++ serialize_envelope o envelope in
          let pad_length : length pad ≡ masked_response_len o g =
            length-xor_pad laws _ _ pad padded in
          let clear_length : length clear ≡ masked_response_len o g =
            length-clear group_laws server_s_pk envelope valid nonce hmac in
          let flat : flatten (masked_slices masked) ≡ xor_into pad clear =
            flatten-masked_slices _ result.1 masked (cc) (length-xor_into pad clear ∙ pad_length) in
          let whole =
            subst (λ b. deserialize_take_envelope o b ≡ ok (envelope, []))
              (append-nil (serialize_envelope o envelope))
              (deserialize_take_envelope-serialize_envelope o envelope [] mode nonce hmac) in
          simp (
            padded,
            flat,
            xor_into_twice pad clear (pad_length ∙ sym clear_length),
            group_laws.take_pk server_s_pk (serialize_envelope o envelope) valid,
            whole,
            passes,
          )
