-- ===== src/Prelude/Xor.antt =====
-- `^` on bytes and the loop `for (x1, x2) in a.iter_mut().zip(b) { *x1 ^= x2 }`.
use Prim.Native.Nat.{
  ℕ, zero, suc, ◌+◌, ◌*◌, ◌/◌, ◌%◌, ◌≤◌, ◌<◌, bit_xor, digits, bit_xor-bitwise, differ,
}
use mathlib.Core.Path.{◌≡◌, refl, ap, ap₂}
use mathlib.Core.List.{[], ◌∷◌}
use native.Mathlib.Omega.{arith}
use opaque_vx.Prelude.ByteStrings.{Bytes, length}

abbrev xor_digits : ℕ → ℕ → ℕ → ℕ
xor_digits n a b = digits (λ y. y) differ n a b

xor_digits_fuel : (n m a b : ℕ) → a ≤ n → a ≤ m → xor_digits n a b ≡ xor_digits m a b
xor_digits_fuel zero zero a b p q = refl
xor_digits_fuel zero (suc m) zero b p q = refl
xor_digits_fuel zero (suc m) (suc a) b p q = absurd (omega arith)
xor_digits_fuel (suc n) zero zero b p q = refl
xor_digits_fuel (suc n) zero (suc a) b p q = absurd (omega arith)
xor_digits_fuel (suc n) (suc m) zero b p q = refl
xor_digits_fuel (suc n) (suc m) (suc a) b p q =
    omega (arith, xor_digits_fuel n m (suc a / 2) (b / 2) (omega arith) (omega arith))

differ_add : (p q : ℕ) → p < 2 → q < 2 → differ p q ≡ (p + q) % 2
differ_add zero zero h k = refl
differ_add zero (suc zero) h k = refl
differ_add zero (suc (suc q)) h k = absurd (omega arith)
differ_add (suc zero) zero h k = refl
differ_add (suc zero) (suc zero) h k = refl
differ_add (suc zero) (suc (suc q)) h k = absurd (omega arith)
differ_add (suc (suc p)) q h k = absurd (omega arith)

zero-bit_xor : (b : ℕ) → bit_xor 0 b ≡ b
zero-bit_xor b = bit_xor-bitwise 0 b

bit_xor_step : (a b : ℕ) → bit_xor a b ≡ bit_xor (a / 2) (b / 2) * 2 + (a % 2 + b % 2) % 2
bit_xor_step zero b = omega (arith, zero-bit_xor b, zero-bit_xor (b / 2))
bit_xor_step (suc a) b = omega (
  arith,
  bit_xor-bitwise (suc a) b,
  bit_xor-bitwise (suc a / 2) (b / 2),
  xor_digits_fuel a (suc a / 2) (suc a / 2) (b / 2) (omega arith) (omega arith),
  differ_add (suc a % 2) (b % 2) (omega arith) (omega arith),
)

bit_xor_twice_fuel : (n a b : ℕ) → a ≤ n → bit_xor a (bit_xor a b) ≡ b
bit_xor_twice_fuel n zero b h = omega (arith, zero-bit_xor (bit_xor 0 b), zero-bit_xor b)
bit_xor_twice_fuel zero (suc a) b h = absurd (omega arith)
bit_xor_twice_fuel (suc n) (suc a) b h =
    let c : ℕ = bit_xor (suc a) b in
    let half : c / 2 ≡ bit_xor (suc a / 2) (b / 2) = omega (arith, bit_xor_step (suc a) b) in
    omega (
      arith,
      bit_xor_step (suc a) b,
      bit_xor_step (suc a) c,
      ap (bit_xor (suc a / 2)) half,
      bit_xor_twice_fuel n (suc a / 2) (b / 2) (omega arith),
    )

pub bit_xor_twice : (a b : ℕ) → bit_xor a (bit_xor a b) ≡ b
bit_xor_twice a b = bit_xor_twice_fuel a a b (omega arith)

-- The loop: it stops with the shorter of the two, and leaves the rest of `a`.
unfoldable pub xor_into : Bytes → Bytes → Bytes
xor_into [] ys = []
xor_into (x ∷ xs) [] = x ∷ xs
xor_into (x ∷ xs) (y ∷ ys) = bit_xor x y ∷ xor_into xs ys

pub length-xor_into : (xs ys : Bytes) → length (xor_into xs ys) ≡ length xs
unfolding xor_into
length-xor_into [] ys = refl
length-xor_into (x ∷ xs) [] = refl
length-xor_into (x ∷ xs) (y ∷ ys) = ap suc (length-xor_into xs ys)

-- The same pad takes the mask off again.
pub xor_into_twice : (pad ys : Bytes) → length pad ≡ length ys → xor_into pad (xor_into pad ys) ≡ ys
unfolding xor_into
xor_into_twice [] [] h = refl
xor_into_twice [] (y ∷ ys) h = absurd (omega arith)
xor_into_twice (x ∷ xs) [] h = absurd (omega arith)
xor_into_twice (x ∷ xs) (y ∷ ys) h =
    ap₂ ◌∷◌ (bit_xor_twice x y) (xor_into_twice xs ys (omega arith))
