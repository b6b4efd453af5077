-- ===== src/Hash.antt =====
-- hash.rs and the crates digest, hkdf and hmac, at one hash function: the operations that the
-- library calls, as parameters, and what it relies on.
use opaque_vx.Prelude.{ℕ, ◌*◌, ◌≤◌, ◌≡◌, Bool, Option, some, List, [], ◌∷◌, Bytes, bytes_eq, length}

pub record Hash : Type 1 where
  -- `OutputSize`, in bytes
  pub output_size : ℕ
  -- `H::new`, `update` and `finalize` of `digest::Digest`
  pub Hasher : Type 0
  pub new : Hasher
  pub update : Hasher → Bytes → Hasher
  pub finalize : Hasher → Bytes
  -- `hkdf::SimpleHkdf`: the last argument of the two expansions is the length of the output
  pub Hkdf : Type 0
  pub from_prk : Bytes → Option Hkdf
  pub expand : Hkdf → Bytes → ℕ → Option Bytes
  pub expand_multi_info : Hkdf → List Bytes → ℕ → Option Bytes
  -- `hkdf::SimpleHkdfExtract` with no salt: `finalize` gives the pseudorandom key and its `Hkdf`
  pub HkdfExtract : Type 0
  pub extract_new : HkdfExtract
  pub input_ikm : HkdfExtract → Bytes → HkdfExtract
  pub extract_finalize : HkdfExtract → Bytes × Hkdf
  -- `hmac::SimpleHmac`
  pub Hmac : Type 0
  pub new_from_slice : Bytes → Option Hmac
  pub mac_update : Hmac → Bytes → Hmac
  pub mac_finalize : Hmac → Bytes
  pub verify : Hmac → Bytes → Bool

-- What the crates document. An HKDF key is at least as long as the hash, an HKDF output is at most
-- 255 hashes long and fills the buffer that it is given, an HMAC key has any length, and `verify` compares with the tag of `finalize`.
pub record HashLaws (h : Hash) : Type 0 where
  pub length-finalize : (s : h.Hasher) → length (h.finalize s) ≡ h.output_size
  pub from_prk_total :
      (prk : Bytes) → h.output_size ≤ length prk → (k : h.Hkdf) × (h.from_prk prk ≡ some k)
  pub expand_total :
      (k : h.Hkdf) (info : Bytes) (n : ℕ)
      → n ≤ 255 * h.output_size
      → (okm : Bytes) × (h.expand k info n ≡ some okm)
  pub length-expand :
      (k : h.Hkdf) (info : Bytes) (n : ℕ) (okm : Bytes)
      → h.expand k info n ≡ some okm
      → length okm ≡ n
  pub expand_multi_info_total :
      (k : h.Hkdf) (infos : List Bytes) (n : ℕ)
      → n ≤ 255 * h.output_size
      → (okm : Bytes) × (h.expand_multi_info k infos n ≡ some okm)
  pub length-expand_multi_info :
      (k : h.Hkdf) (infos : List Bytes) (n : ℕ) (okm : Bytes)
      → h.expand_multi_info k infos n ≡ some okm
      → length okm ≡ n
  pub length-extract_finalize :
      (e : h.HkdfExtract) → length (h.extract_finalize e).0 ≡ h.output_size
  pub new_from_slice_total : (key : Bytes) → (m : h.Hmac) × (h.new_from_slice key ≡ some m)
  pub length-mac_finalize : (m : h.Hmac) → length (h.mac_finalize m) ≡ h.output_size
  pub verify_lem : (m : h.Hmac) (tag : Bytes) → h.verify m tag ≡ bytes_eq (h.mac_finalize m) tag

module _ (h : Hash) where
  -- serialization/mod.rs: `hasher.chain_iter(pieces)`, `hasher.update_iter(pieces)`
  unfoldable pub chain_iter : h.Hasher → List Bytes → h.Hasher
  chain_iter s [] = s
  chain_iter s (piece ∷ pieces) = chain_iter (h.update s piece) pieces

  -- serialization/mod.rs: `mac.update_iter(pieces)`
  unfoldable pub mac_update_iter : h.Hmac → List Bytes → h.Hmac
  mac_update_iter m [] = m
  mac_update_iter m (piece ∷ pieces) = mac_update_iter (h.mac_update m piece) pieces
