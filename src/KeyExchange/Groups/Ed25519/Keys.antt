-- ===== src/KeyExchange/Groups/Ed25519/Keys.antt =====
-- key_exchange/group/ed25519.rs: the encodings of keys and signatures.
use opaque_vx.Prelude.{
  ℕ, false, Bool-cases, Option, some, none, Bytes, length, ◌≡◌, ◌++◌, append_assoc, ap, sym, subst,
  ◌∙◌, inl, inr, refl,
}
use opaque_vx.Prelude.Results.{Result, ok, passes, bind_ok, ok_or-eq-ok}
use opaque_vx.Serialization.{take_array-append, take_array-eq-ok}
use opaque_vx.Oprf.{OprfCs, InternalFailure}
use opaque_vx.Group.{GroupLaws}
use opaque_vx.KeyExchange.Groups.Edwards.{Edwards, EdwardsEncodings}
use opaque_vx.KeyExchange.Groups.Ed25519.{
  VerifyingKey, SigningKey, Signature, signing_key_from_bytes, verifying_key_from_bytes,
  not_identity, deserialize_take_ed25519_pk, deserialize_take_ed25519_sk, random_ed25519_sk,
  deserialize_take_ed25519_signature, serialize_ed25519_signature, ed25519,
}
use opaque_vx.KeyExchange.Groups.Ed25519.Signed.{IsMade}

module _ (c : Edwards) where
  -- A verifying key is a point that is not the identity, with its encoding of 32 bytes.
  pub record IsPoint (pk : VerifyingKey c) : Type 0 where
    pub length-compressed : length pk.compressed ≡ 32
    pub decompressed : c.decompress pk.compressed ≡ some pk.point
    pub proper : c.is_identity pk.point ≡ false

  not_identity-eq-some :
      (found : Option c.EdwardsPoint) (point : c.EdwardsPoint)
      → not_identity c found ≡ some point
      → (found ≡ some point) × (c.is_identity point ≡ false)
  not_identity-eq-some none point h = cc
  not_identity-eq-some (some p) point h = elim (Bool-cases (c.is_identity p)) [
    | inl identity ↦
        let nothing : ◌≡◌ {A = Option c.EdwardsPoint} none (some point) = rw identity at h in cc
    | inr proper ↦
        let same : ◌≡◌ {A = Option c.EdwardsPoint} (some p) (some point) = rw proper at h in
        let kept : p ≡ point = cc in (same, rw (← kept) proper)
  ]

  module _ (o : OprfCs) where
    verifying_key_from_bytes-compressed :
        (pk : VerifyingKey c) → IsPoint pk → verifying_key_from_bytes c o pk.compressed ≡ ok pk
    unfolding verifying_key_from_bytes
    verifying_key_from_bytes-compressed pk valid = simp (valid.decompressed, valid.proper, passes)

    module _ (laws : EdwardsEncodings c) where
      pub made-IsPoint : (seed : Bytes) → IsPoint (signing_key_from_bytes c seed).verifying_key
      unfolding signing_key_from_bytes
      made-IsPoint seed = record {
        length-compressed = laws.length-compress _;
        decompressed = laws.decompress-compress _;
        proper = laws.clamped seed;
      }

      pub take_made :
          (sk : SigningKey c) (rest : Bytes)
          → IsMade c sk
          → deserialize_take_ed25519_sk c o (sk.sk ++ rest) ≡ ok (sk, rest)
      unfolding deserialize_take_ed25519_sk signing_key_from_bytes
      take_made sk rest (seed, measured, made) =
          subst (λ k. deserialize_take_ed25519_sk c o (k.sk ++ rest) ≡ ok (k, rest)) (sym made)
            (simp (take_array-append 32 "secret key" seed rest measured, passes))

      pub length-made : (sk : SigningKey c) → IsMade c sk → length sk.sk ≡ 32
      unfolding signing_key_from_bytes
      length-made sk (seed, measured, made) = subst (λ k. length k.sk ≡ 32) (sym made) measured

      pub derived-IsMade :
          (seed : Bytes) (sk : SigningKey c)
          → length seed ≡ 32
          → ◌≡◌ {A = Result (InternalFailure o) (SigningKey c)}
              (ok (signing_key_from_bytes c seed))
              (ok sk)
          → IsMade c sk
      derived-IsMade seed sk measured derived = (seed, measured, cc)

      pub made_key-IsPoint : (sk : SigningKey c) → IsMade c sk → IsPoint sk.verifying_key
      made_key-IsPoint sk (seed, measured, made) =
          subst (λ k. IsPoint k.verifying_key) (sym made) (made-IsPoint seed)

      pub take_point :
          (pk : VerifyingKey c) (rest : Bytes)
          → IsPoint pk
          → deserialize_take_ed25519_pk c o (pk.compressed ++ rest) ≡ ok (pk, rest)
      unfolding deserialize_take_ed25519_pk
      take_point pk rest valid = simp (
        take_array-append 32 "public key" pk.compressed rest valid.length-compressed,
        verifying_key_from_bytes-compressed pk valid,
        passes,
      )

      pub random-IsMade :
          ((n : ℕ) (r : o.Rng) → length (o.fill_bytes n r).0 ≡ n)
          → (rng : o.Rng) → IsMade c (random_ed25519_sk c o rng).0
      unfolding random_ed25519_sk
      random-IsMade filled rng = ((o.fill_bytes 32 rng).0, filled 32 rng, refl)

      -- Ed25519 is a group: what its keys are made of, and that they read back.
      abbrev pub ed25519-GroupLaws : GroupLaws (ed25519 c o)
      ed25519-GroupLaws = record {
        SkIsValid = IsMade c;
        PkIsValid = IsPoint;
        random_sk-SkIsValid = random-IsMade;
        derive_scalar-SkIsValid = derived-IsMade;
        public_key-PkIsValid = made_key-IsPoint;
        length-serialize_pk = λ pk valid. valid.length-compressed;
        take_pk = take_point;
        length-serialize_sk = length-made;
        take_sk = take_made;
      }

    -- Whatever bytes are taken for a public key, they are the encoding of a point that is not the
    -- identity, and they are the bytes that the key is written as.
    pub deserialize_take_ed25519_pk-eq-ok :
        (input rest : Bytes) (pk : VerifyingKey c)
        → deserialize_take_ed25519_pk c o input ≡ ok (pk, rest)
        → (input ≡ pk.compressed ++ rest) × IsPoint pk
    unfolding deserialize_take_ed25519_pk verifying_key_from_bytes
    deserialize_take_ed25519_pk-eq-ok input rest pk h = bind_ok _ _ h λ taken e h1.
        bind_ok _ _ h1 λ key made h2. bind_ok _ _ made λ point found h3.
          let (measured, joined) = take_array-eq-ok 32 "public key" input taken.0 taken.1 e in
          let (read, proper) =
            not_identity-eq-some (c.decompress taken.0) point (ok_or-eq-ok _ _ found) in
          let bytes : taken.0 ≡ pk.compressed = cc in
          let end : taken.1 ≡ rest = cc in
          let same : point ≡ pk.point = cc in
          (
            sym joined ∙ ap (λ b. b ++ taken.1) bytes ∙ ap (λ b. pk.compressed ++ b) end,
            record {
              length-compressed = rw (← bytes) measured;
              decompressed = rw (← bytes, ← same) read;
              proper = rw (← same) proper;
            },
          )

module _ (c : Edwards) (o : OprfCs) (laws : EdwardsEncodings c) where
  -- A signature whose first half has 32 bytes reads back, and the slice moves past it.
  pub take_ed25519_signature :
      (s : Signature c) (rest : Bytes)
      → length s.r ≡ 32
      → deserialize_take_ed25519_signature c o (serialize_ed25519_signature c s ++ rest)
        ≡ ok (s, rest)
  unfolding deserialize_take_ed25519_signature serialize_ed25519_signature
  take_ed25519_signature s rest measured = simp (
    append_assoc,
    take_array-append 32 "signature R" s.r _ measured,
    take_array-append 32 "signature s" (c.to_bytes s.s) rest (laws.length-to_bytes s.s),
    laws.from_canonical_bytes-to_bytes,
    passes,
  )
