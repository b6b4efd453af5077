-- ===== src/Serialization/Integers/Digits.antt =====
-- Base 256 digits and the count of leading zero bits, for serialization/mod.rs.
use opaque_vx.Prelude.{
  ℕ, zero, suc, ◌+◌, ◌-◌, ◌*◌, ◌/◌, ◌%◌, ◌^◌, ◌≤◌, ◌<◌, ◌≡◌, refl, ap, [], ◌∷◌, ◌++◌, append-nil,
  append_assoc, arith, lt→ltb, le→ltb, ◌↔◌, Bytes, length, length-append, drop, drop-append_le,
  replicate,
}
use native.Mathlib.Nat.{pow-suc, pow-le-pow_right}
use native.Mathlib.Decide.{dec_le, dec_lt}
use native.Mathlib.Numerals.{towards_suc}
use opaque_vx.Serialization.Integers.{leading_zeros, be_bytes, from_be_bytes}

leading_zeros-le : (w x : ℕ) → leading_zeros w x ≤ w
unfolding leading_zeros
leading_zeros-le zero x = omega arith
leading_zeros-le (suc w) x = ground (arith, leading_zeros-le w x)

-- `x` fits into `b` bits exactly when the other bits are leading zeros.
pub fits_iff : (w b x : ℕ) → b ≤ w → x < 2 ^ w → (w ≤ leading_zeros w x + b) ↔ (x < 2 ^ b)
unfolding leading_zeros
fits_iff zero zero x h k = (λ _. k, λ _. omega arith)
fits_iff zero (suc b) x h k = absurd (omega arith)
fits_iff (suc w) b x h k = elim (dec_le b w) [
  | yes part ↦ elim (dec_lt x (2 ^ w)) [
    | yes small ↦
        let (f, g) = fits_iff w b x part small in
        rw (lt→ltb x (2 ^ w) small) (λ e. f (omega arith), λ e. let r = g e in omega arith)
    | no large ↦ rw (le→ltb x (2 ^ w) (omega arith)) (
      λ e. absurd (omega arith),
      λ e. absurd (omega (arith, pow-le-pow_right {n = 2} (omega arith) part)),
    )
  ]
  | no whole ↦ let full : b ≡ suc w = omega arith in (λ e. rw full k, λ e. omega arith)
]

pub two-pow-eight_mul : (n : ℕ) → 2 ^ (8 * n) ≡ 256 ^ n
two-pow-eight_mul zero = refl
two-pow-eight_mul (suc n) =
    let eight : 8 * suc n ≡ 8 * n + 8 = omega arith in
    rw (eight, pow-suc 256 n) (simp towards_suc (omega (arith, two-pow-eight_mul n)))

pub length-be_bytes : (n x : ℕ) → length (be_bytes n x) ≡ n
unfolding be_bytes
length-be_bytes zero x = refl
length-be_bytes (suc n) x =
    omega (arith, length-append (be_bytes n (x / 256)) (x % 256 ∷ []), length-be_bytes n (x / 256))

drop_all : (n : ℕ) (xs : Bytes) → length xs ≤ n → drop n xs ≡ []
drop_all zero [] h = refl
drop_all zero (x ∷ xs) h = elim h [ ]
drop_all (suc n) [] h = refl
drop_all (suc n) (x ∷ xs) h = drop_all n xs (omega arith)

replicate_snoc : (n a : ℕ) → replicate n a ++ a ∷ [] ≡ replicate (suc n) a
replicate_snoc zero a = refl
replicate_snoc (suc n) a = ap (◌∷◌ a) (replicate_snoc n a)

suc-sub-suc : (m n : ℕ) → suc m - suc n ≡ m - n
suc-sub-suc m n = omega arith

-- Dropping the front leaves the digits at the end.
pub drop-be_bytes : (m n x : ℕ) → n ≤ m → drop (m - n) (be_bytes m x) ≡ be_bytes n x
unfolding be_bytes
drop-be_bytes m zero x h = drop_all (m - 0) (be_bytes m x) (omega (arith, length-be_bytes m x))
drop-be_bytes zero (suc n) x h = elim h [ ]
drop-be_bytes (suc m) (suc n) x h = rw (
  suc-sub-suc m n,
  drop-append_le (m - n) (be_bytes m (x / 256)) (x % 256 ∷ [])
      (omega (arith, length-be_bytes m (x / 256))),
  drop-be_bytes m n (x / 256) (omega arith),
)

be_bytes_zero : (n : ℕ) → be_bytes n 0 ≡ replicate n 0
unfolding be_bytes
be_bytes_zero zero = refl
be_bytes_zero (suc n) = rw (be_bytes_zero n) (replicate_snoc n 0)

-- More digits than `x` has are zeros in front.
pub be_bytes_pad :
    (m n x : ℕ) → n ≤ m → x < 256 ^ n → be_bytes m x ≡ replicate (m - n) 0 ++ be_bytes n x
unfolding be_bytes
be_bytes_pad m zero x h k =
    let z : x ≡ 0 = omega arith in
    let same : m - 0 ≡ m = omega arith in rw (z, same, append-nil) (be_bytes_zero m)
be_bytes_pad zero (suc n) x h k = elim h [ ]
be_bytes_pad (suc m) (suc n) x h k =
    rw (suc-sub-suc m n, be_bytes_pad m n (x / 256) (omega arith) (omega (arith, pow-suc 256 n)))
      (append_assoc (replicate (m - n) 0) (be_bytes n (x / 256)) (x % 256 ∷ []))

pub from_be_bytes-append :
    (acc : ℕ) (xs ys : Bytes)
    → from_be_bytes acc (xs ++ ys) ≡ from_be_bytes (from_be_bytes acc xs) ys
unfolding from_be_bytes
from_be_bytes-append acc [] ys = refl
from_be_bytes-append acc (x ∷ xs) ys = from_be_bytes-append (acc * 256 + x) xs ys

pub from_be_bytes-be_bytes : (n x : ℕ) → x < 256 ^ n → from_be_bytes 0 (be_bytes n x) ≡ x
unfolding be_bytes from_be_bytes
from_be_bytes-be_bytes zero x h = omega arith
from_be_bytes-be_bytes (suc n) x h =
    rw
      (
        from_be_bytes-append 0 (be_bytes n (x / 256)) (x % 256 ∷ []),
        from_be_bytes-be_bytes n (x / 256) (omega (arith, pow-suc 256 n)),
        from_be_bytes,
      )
      (omega arith)
