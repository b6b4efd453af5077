-- ===== src/Examples/DigitalLocker/Sealing.antt =====
-- examples/digital_locker.rs: encrypting and decrypting.
use opaque_vx.Prelude.{
  ℕ, Bytes, ◌≡◌, ◌≤◌, ◌++◌, length, take, ltb, le→ltb, take-append_len, drop-append_len,
  length-append, arith, Bool-cases, inl, inr,
}
use opaque_vx.Prelude.Results.{
  ok, ok_first, unwrap, unwrap-eq-ok, ok_or-eq-ok, passes, ok-injective,
}
use opaque_vx.Prelude.Act.{lift_ok}
use opaque_vx.Oprf.{OprfCs}
use opaque_vx.Examples.DigitalLocker.{encrypt}
use opaque_vx.Examples.DigitalLocker.Cipher.{Aead, AeadLaws, slice_to, slice_from, decrypt}

slice_to_total :
    {E : Type 0} (n : ℕ) (b : Bytes) → n ≤ length b → slice_to {E = E} n b ≡ ok (take n b)
unfolding slice_to
slice_to_total n b long = rw (le→ltb (length b) n long)

slice_to-append :
    {E : Type 0} (n : ℕ) (a b : Bytes) → length a ≡ n → slice_to {E = E} n (a ++ b) ≡ ok a
slice_to-append n a b measured =
    rw
      (slice_to_total n (a ++ b) (omega (arith, length-append a b)), take-append_len n a b measured)

slice_from-append :
    {E : Type 0} (n : ℕ) (a b : Bytes) → length a ≡ n → slice_from {E = E} n (a ++ b) ≡ ok b
unfolding slice_from
slice_from-append n a b measured =
    rw (
      le→ltb (length (a ++ b)) n (omega (arith, length-append a b)),
      drop-append_len n a b measured,
    )

-- A slice that was taken is taken in a caller with other errors.
slice_to-other :
    {E F : Type 0} (n : ℕ) (b front : Bytes)
    → slice_to {E = E} n b ≡ ok front
    → slice_to {E = F} n b ≡ ok front
unfolding slice_to
slice_to-other n b front h = elim (Bool-cases (ltb (length b) n)) [
  | inl short ↦ let h' = rw short at h in absurd (cc)
  | inr long ↦ let h' = rw long at h in let same = ok-injective h' in rw (long, same)
]

module _ (aead : Aead) (laws : AeadLaws aead) (o : OprfCs)
    (filled : (n : ℕ) (r : o.Rng) → length (o.fill_bytes n r).0 ≡ n) where
  -- What was encrypted under a key is decrypted under it.
  pub decrypt-encrypt :
      {E F : Type 0} (key plaintext ciphertext : Bytes) (r r' : o.Rng)
      → encrypt aead o {E = E} key plaintext r ≡ ok (ciphertext, r')
      → decrypt aead {E = F} key ciphertext ≡ ok plaintext
  unfolding encrypt decrypt unwrap
  decrypt-encrypt {E} {F} key plaintext ciphertext r r' h = lift_ok _ _ _ h λ cipher_key sliced h1.
      lift_ok _ _ _ (ok_first _ _ h1) λ sealed encrypted h2.
        let nonce = (o.fill_bytes 12 r).0 in
        let joined : nonce ++ sealed ≡ ciphertext = cc in
        let opens =
          laws.decrypt-encrypt (aead.new cipher_key) nonce plaintext sealed
            (ok_or-eq-ok _ _ (unwrap-eq-ok _ encrypted)) in
        rw (← joined) (
          simp (
            slice_to-other {E = E} {F = F} 32 key cipher_key sliced,
            slice_to-append {E = F} 12 nonce sealed (filled 12 r),
            slice_from-append {E = F} 12 nonce sealed (filled 12 r),
            opens,
            passes,
          ))

  -- A key of at least 32 bytes encrypts every plaintext that is not too long.
  pub encrypt_total :
      {E : Type 0} (key plaintext : Bytes) (r : o.Rng)
      → 32 ≤ length key
      → length plaintext ≤ aead.max
      → (ciphertext : Bytes) × (r' : o.Rng) × (encrypt aead o {E = E} key plaintext r
          ≡ ok (ciphertext, r'))
  unfolding encrypt unwrap
  encrypt_total {E} key plaintext r long fits =
      let nonce = o.fill_bytes 12 r in
      let (sealed, encrypted) =
        laws.encrypt_total (aead.new (take 32 key)) nonce.0 plaintext fits in
      (nonce.0 ++ sealed, nonce.1, simp (slice_to_total {E = E} 32 key long, encrypted, passes))
