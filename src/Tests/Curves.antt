-- ===== src/Tests/Curves.antt =====
-- Examples of the theorems on the groups and on the signature protocols.
use mathlib.Core.WellFounded.{Acc}
use opaque_vx.Serialization.Arrays.{take_array}
use opaque_vx.Prelude.{
  ℕ, ◌≡◌, refl, sym, subst, ◌==◌, ◌%◌, ◌+◌, ◌++◌, [], ◌∷◌, Bool, true, false, not, ◌&&◌, Option,
  some, none, Bytes, replicate, arith, if◌then◌else◌, ◌*◌, ◌-◌, bytes_eq,
}
use opaque_vx.Prelude.Results.{ok, bind, ok_or}
use opaque_vx.KeyExchange.SigmaI.Protocol.{SignatureLaws}
use opaque_vx.KeyExchange.SigmaI.Ecdsa.{
  EcdsaCurve, EcdsaLaws, ecdsa, ecdsa_verify-ecdsa_sign_message,
}
use opaque_vx.KeyExchange.SigmaI.HashEddsa.{hash_eddsa}
use opaque_vx.KeyExchange.Groups.Edwards.{Edwards, EdwardsLaws}
use opaque_vx.KeyExchange.Groups.Ed25519.{
  VerifyingKey, signing_key_from_bytes, ed25519_sign, ed25519_verify, ed25519_hash_eddsa,
  deserialize_take_ed25519_pk, verifying_key_from_bytes,
}
use opaque_vx.KeyExchange.Groups.Ed25519.Signed.{
  IsMade, ed25519_verify-ed25519_sign, hash_verify-hash_sign,
}
use opaque_vx.KeyExchange.Groups.Ed25519.Keys.{IsPoint, deserialize_take_ed25519_pk-eq-ok}
use opaque_vx.KeyExchange.Groups.Curve25519.{
  Montgomery, deserialize_take_curve25519_sk, scalar_from_bytes,
}
use opaque_vx.KeyExchange.Groups.Curve25519.Keys.{IsScalar, deserialize_take_curve25519_sk-eq-ok}
use opaque_vx.KeyExchange.Groups.Ristretto255.{Ristretto, Redraws, random_ristretto_sk, draw_scalar}
use opaque_vx.KeyExchange.Groups.Ristretto255.Keys.{random_ristretto_sk_nonzero}
use opaque_vx.Tests.{sum, sum_hash, sum_oprf, sum_group, sum_group-GroupLaws}

abbrev xor : Bool → Bool → Bool
xor true b = not b
xor false b = b

abbrev bit : Bool → ℕ
bit true = 1
bit false = 0

abbrev read_point : Bytes → Option Bool
read_point [] = none
read_point (x ∷ xs) = if x == 0 then some false else if x == 1 then some true else none

-- The integers modulo two as a curve: the points are a group on which they act as a ring.
abbrev parity : Edwards
parity = record {
  sha512 = sum_hash;
  EdwardsPoint = Bool;
  Scalar = Bool;
  mul_base = λ s. s;
  compress = λ p. replicate 32 (bit p);
  decompress = read_point;
  is_identity = not;
  neg = λ p. p;
  vartime_double_scalar_mul_basepoint = λ a p b. xor (a && p) b;
  mul = λ a b. a && b;
  add = xor;
  from_hash = λ h. h % 2 == 1;
  from_canonical_bytes = read_point;
  to_bytes = λ s. replicate 32 (bit s);
  expanded_secret_key = λ seed. (true, seed);
}

xor_assoc : (p q r : Bool) → xor (xor p q) r ≡ xor p (xor q r)
xor_assoc true true true = refl
xor_assoc true true false = refl
xor_assoc true false r = refl
xor_assoc false q r = refl

and-xor : (a b p : Bool) → xor a b && p ≡ xor (a && p) (b && p)
and-xor true true true = refl
and-xor true true false = refl
and-xor true false true = refl
and-xor true false false = refl
and-xor false b p = refl

and_assoc : (a b p : Bool) → (a && b) && p ≡ a && (b && p)
and_assoc true b p = refl
and_assoc false b p = refl

xor_self : (p : Bool) → xor p p ≡ false
xor_self true = refl
xor_self false = refl

and_true : (a : Bool) → a ≡ a && true
and_true true = refl
and_true false = refl

parity-EdwardsLaws : EdwardsLaws parity
parity-EdwardsLaws = record {
  point_add = xor;
  identity = false;
  act = λ a p. a && p;
  basepoint = true;
  point_add_assoc = xor_assoc;
  identity-point_add = λ p. refl;
  neg-point_add = xor_self;
  act-add = λ a b. and-xor a b true;
  act-mul = λ a b. and_assoc a b true;
  act-neg = λ a p. refl;
  mul_base_lem = and_true;
  vartime_double_scalar_mul_basepoint_lem = λ a p b. rw (← and_true b) refl;
}

ed25519_verify-ed25519_sign_example :
    ed25519_verify parity sum_oprf
      (signing_key_from_bytes parity (replicate 32 5)).verifying_key
      true
      ((1 ∷ []) ∷ (2 ∷ []) ∷ [])
      (ed25519_sign parity
        (signing_key_from_bytes parity (replicate 32 5))
        true
        ((1 ∷ []) ∷ (2 ∷ []) ∷ []))
    ≡ ok tt
ed25519_verify-ed25519_sign_example =
    ed25519_verify-ed25519_sign parity parity-EdwardsLaws sum_oprf (replicate 32 5) true
      ((1 ∷ []) ∷ (2 ∷ []) ∷ [])

hash_verify-hash_sign_example :
    SignatureLaws (hash_eddsa (ed25519_hash_eddsa parity sum_oprf)) (IsMade parity)
hash_verify-hash_sign_example = hash_verify-hash_sign parity parity-EdwardsLaws sum_oprf

abbrev pk : VerifyingKey parity
pk = record { point = true; compressed = replicate 32 1 }

taken : deserialize_take_ed25519_pk parity sum_oprf (replicate 33 1) ≡ ok (pk, 1 ∷ [])
unfolding deserialize_take_ed25519_pk bind take_array verifying_key_from_bytes ok_or
taken = refl

deserialize_take_ed25519_pk-eq-ok_example :
    (replicate {A = ℕ} 33 1 ≡ pk.compressed ++ 1 ∷ []) × IsPoint parity pk
deserialize_take_ed25519_pk-eq-ok_example =
    deserialize_take_ed25519_pk-eq-ok parity sum_oprf (replicate 33 1) (1 ∷ []) pk taken

abbrev first : Bytes → ℕ
first [] = 0
first (x ∷ xs) = x

-- A signature is the sum of the key and of the digest.
abbrev sum_curve : EcdsaCurve sum_group
sum_curve = record {
  Signature = ℕ;
  signature_len = 1;
  field_bytes_len = 1;
  sign_prehashed_rfc6979 = λ sk pre_hash ad. sk + sum pre_hash;
  verify_prehashed = λ pk pre_hash s. pk + sum pre_hash == s + 1;
  to_bytes = λ s. s ∷ [];
  from_bytes = λ b. some (first b);
}

sum_curve-EcdsaLaws : EcdsaLaws sum_curve sum_group-GroupLaws.SkIsValid
sum_curve-EcdsaLaws = record {
  verify_prehashed-sign_prehashed_rfc6979 = λ sk pre_hash ad valid. ground arith;
  length-to_bytes = λ s. refl;
  from_bytes-to_bytes = λ s. refl;
}

ecdsa_verify-ecdsa_sign_message_example :
    SignatureLaws (ecdsa sum_curve sum_hash) sum_group-GroupLaws.SkIsValid
ecdsa_verify-ecdsa_sign_message_example =
    ecdsa_verify-ecdsa_sign_message sum_curve sum_hash sum_group-GroupLaws.SkIsValid
      sum_curve-EcdsaLaws

abbrev even : Bytes → Bytes
even [] = []
even (x ∷ xs) = (x - x % 2) ∷ xs

-- Clamping makes the first byte even.
abbrev clamped_curve : Montgomery
clamped_curve = record {
  is_identity = λ b. sum b == 0;
  clamp_integer = even;
  mul_base_clamped = λ b. replicate 32 9;
  mul_clamped = λ p b. (sum p * sum b) ∷ [];
}

read_scalar :
    deserialize_take_curve25519_sk sum_oprf clamped_curve (replicate 32 6 ++ 7 ∷ [])
    ≡ ok (replicate 32 6, 7 ∷ [])
unfolding deserialize_take_curve25519_sk bind take_array scalar_from_bytes bytes_eq
read_scalar = refl

deserialize_take_curve25519_sk-eq-ok_example :
    (◌≡◌ {A = Bytes} (replicate 32 6 ++ 7 ∷ []) (replicate 32 6 ++ 7 ∷ []))
    × IsScalar sum_oprf clamped_curve (replicate 32 6)
deserialize_take_curve25519_sk-eq-ok_example =
    deserialize_take_curve25519_sk-eq-ok sum_oprf clamped_curve (replicate 32 6 ++ 7 ∷ []) (7 ∷ [])
      (replicate 32 6) read_scalar

abbrev numbers : Ristretto sum_oprf
numbers = record {
  RistrettoPoint = ℕ;
  Scalar = ℕ;
  basepoint = 1;
  mul = λ p s. p * s;
  compress = λ p. replicate 32 p;
  decompress = λ b. some (first b);
  is_identity = λ p. p == 0;
  is_zero = λ s. s == 0;
  from_bytes_mod_order_wide = first;
  to_bytes = λ s. replicate 32 s;
  from_canonical_bytes = λ b. some (first b);
  derive_key = λ seed info. ok 1;
}

-- The generator at one draws a scalar at once, and the one at zero draws zero first.
at_one : Acc (Redraws numbers) 1
unfolding draw_scalar
at_one = Acc.intro 1 (λ rng drawn. let never : ◌≡◌ {A = Bool} false true = drawn.0 in cc)

at_zero : Acc (Redraws numbers) 0
unfolding draw_scalar
at_zero = Acc.intro 0 (λ rng drawn. subst (λ r. Acc (Redraws numbers) r) (sym drawn.1) at_one)

random_ristretto_sk_nonzero_example : (random_ristretto_sk numbers 0 at_zero).0 == 0 ≡ false
random_ristretto_sk_nonzero_example = random_ristretto_sk_nonzero numbers 0 at_zero
