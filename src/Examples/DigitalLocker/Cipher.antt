-- ===== src/Examples/DigitalLocker/Cipher.antt =====
-- examples/digital_locker.rs: what it takes of the crate chacha20poly1305, and decryption.
use opaque_vx.Prelude.{ℕ, Option, some, Bytes, length, take, drop, ltb, if◌then◌else◌, ◌≡◌, ◌≤◌}
use opaque_vx.Prelude.Results.{Result, ok, panic, unwrap, ok_or, ◌>>=◌}

-- `ChaCha20Poly1305`: `new` takes a key of 32 bytes, and `max` is the length of the longest plaintext.
pub record Aead : Type 1 where
  pub Cipher : Type 0
  pub new : Bytes → Cipher
  pub max : ℕ
  pub encrypt : Cipher → Bytes → Bytes → Option Bytes
  pub decrypt : Cipher → Bytes → Bytes → Option Bytes

-- `&b[..n]` and `&b[n..]`
unfoldable pub slice_to : {E : Type 0} → ℕ → Bytes → Result E Bytes
slice_to n b = if ltb (length b) n then panic else ok (take n b)

unfoldable pub slice_from : {E : Type 0} → ℕ → Bytes → Result E Bytes
slice_from n b = if ltb (length b) n then panic else ok (drop n b)

unfoldable pub decrypt : (aead : Aead) {E : Type 0} → Bytes → Bytes → Result E Bytes
decrypt aead key ciphertext = do
  cipher_key ← slice_to 32 key
  nonce ← slice_to 12 ciphertext
  rest ← slice_from 12 ciphertext
  unwrap {E = Unit {0}} (ok_or tt (aead.decrypt (aead.new cipher_key) nonce rest))

-- What the crate documents: it encrypts every plaintext that is not too long, and decrypts with the
-- same key and nonce to the plaintext.
pub record AeadLaws (aead : Aead) : Type 0 where
  pub encrypt_total :
      (c : aead.Cipher) (nonce plaintext : Bytes)
      → length plaintext ≤ aead.max
      → (ciphertext : Bytes) × (aead.encrypt c nonce plaintext ≡ some ciphertext)
  pub decrypt-encrypt :
      (c : aead.Cipher) (nonce plaintext ciphertext : Bytes)
      → aead.encrypt c nonce plaintext ≡ some ciphertext
      → aead.decrypt c nonce ciphertext ≡ some plaintext
