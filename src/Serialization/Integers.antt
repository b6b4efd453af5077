-- ===== src/Serialization/Integers.antt =====
-- serialization/mod.rs: `i2osp` and `os2ip`, on a 64-bit machine.
pub mod Digits
pub mod RoundTrip
use opaque_vx.Prelude.{
  ℕ, zero, suc, ◌+◌, ◌-◌, ◌*◌, ◌/◌, ◌%◌, ◌^◌, ◌≤◌, ◌<◌, ◌≡◌, refl, [], ◌∷◌, ◌++◌, arith, ltb,
  if◌then◌else◌, Bytes, length, drop, replicate,
}
use opaque_vx.Prelude.Results.{Result, ok, err}
use opaque_vx.Errors.{ProtocolError, serialization_error}

abbrev pub sizeof_usize : ℕ
sizeof_usize = 8

-- `x.leading_zeros()` at a width of `w` bits.
unfoldable pub leading_zeros : ℕ → ℕ → ℕ
leading_zeros zero x = 0
leading_zeros (suc w) x = if ltb x (2 ^ w) then suc (leading_zeros w x) else 0

-- The `n` lowest bytes of `x`, highest first: `x.to_be_bytes()` at `n = 8`.
unfoldable pub be_bytes : ℕ → ℕ → Bytes
be_bytes zero x = []
be_bytes (suc n) x = be_bytes n (x / 256) ++ x % 256 ∷ []

-- `from_be_bytes`
unfoldable pub from_be_bytes : ℕ → Bytes → ℕ
from_be_bytes acc [] = acc
from_be_bytes acc (b ∷ bs) = from_be_bytes (acc * 256 + b) bs

module _ {V W : Type 0} where
  -- `i2osp::<L>(input)`: a slice of `output` from `L - 8` on is overwritten by the last `L` bytes.
  unfoldable pub i2osp : ℕ → ℕ → Result (ProtocolError V W ⊥) Bytes
  i2osp len input =
      if ltb len (sizeof_usize - leading_zeros 64 input / 8)
      then err serialization_error
      else ok (
          replicate (len - sizeof_usize) 0
          ++ drop (sizeof_usize - len) (be_bytes sizeof_usize input))

  unfoldable pub os2ip : Bytes → Result (ProtocolError V W ⊥) ℕ
  os2ip input =
      if ltb sizeof_usize (length input)
      then err serialization_error
      else ok (from_be_bytes 0 (replicate (sizeof_usize - length input) 0 ++ input))
