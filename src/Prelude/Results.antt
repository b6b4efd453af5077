-- ===== src/Prelude/Results.antt =====
-- A `Result` is a Rust `Result`, with panics as a third outcome; `>>=` is `?`.
use mathlib.Core.Path.{◌≡◌, refl}
use mathlib.Core.Bool.{Bool, true, false}
use opaque_vx.Prelude.Tests.{if◌then◌else◌}
use mathlib.Core.Option.{Option, none, some}

pub data Result {ℓ κ} (E : Type ℓ) (A : Type κ) : Type (ℓ ⊔ κ) where
  ok : A → Result E A
  err : E → Result E A
  panic : Result E A

module _ {ℓ κ ℓ'} {E : Type ℓ} {A : Type κ} {B : Type ℓ'} where
  unfoldable pub bind : Result E A → (A → Result E B) → Result E B
  bind (ok a) f = f a
  bind (err e) f = err e
  bind panic f = panic

  infixl 5 ◌>>=◌
  abbrev pub ◌>>=◌ : Result E A → (A → Result E B) → Result E B
  m >>= f = bind m f

  unfoldable pub map_err : (A → B) → Result A E → Result B E
  map_err f (ok a) = ok a
  map_err f (err e) = err (f e)
  map_err f panic = panic

  -- `r.unwrap()` and `r.expect(..)`: the error of the caller is another.
  unfoldable pub unwrap : Result E A → Result B A
  unwrap (ok a) = ok a
  unwrap (err e) = panic
  unwrap panic = panic

  -- What a successful `?` chain went through: the value of its first step.
  pub bind_ok {κ'} :
      (m : Result E A) (f : A → Result E B) {b : B} {C : Type κ'}
      → bind m f ≡ ok b
      → ((a : A) → m ≡ ok a → f a ≡ ok b → C)
      → C
  unfolding bind
  bind_ok (ok a) f h k = k a refl h
  bind_ok (err e) f h k = absurd (cc)
  bind_ok panic f h k = absurd (cc)

  pub ok-bind : (a : A) (f : A → Result E B) → bind (ok a) f ≡ f a
  unfolding bind
  ok-bind a f = refl

  pub ok_first : (a : A) (f : A → Result E B) {r : Result E B} → bind (ok a) f ≡ r → f a ≡ r
  unfolding bind
  ok_first a f h = h

  pub map_err-eq-ok : (f : A → B) (m : Result A E) {a : E} → map_err f m ≡ ok a → m ≡ ok a
  unfolding map_err
  map_err-eq-ok f (ok a) h = cc
  map_err-eq-ok f (err e) h = cc
  map_err-eq-ok f panic h = cc

  pub map_err-ok : (f : A → B) (a : E) → map_err f (ok a) ≡ ok a
  unfolding map_err
  map_err-ok f a = refl

  pub unwrap-eq-ok : (m : Result E A) {a : A} → unwrap m ≡ ok a → m ≡ ok a
  unfolding unwrap
  unwrap-eq-ok (ok a) h = cc
  unwrap-eq-ok (err e) h = cc
  unwrap-eq-ok panic h = cc

module _ {ℓ κ} {E : Type ℓ} {A : Type κ} where
  unfoldable pub ok_or : E → Option A → Result E A
  ok_or e none = err e
  ok_or e (some a) = ok a

  pub ok_or-eq-ok : (e : E) (o : Option A) {a : A} → ok_or e o ≡ ok a → o ≡ some a
  unfolding ok_or
  ok_or-eq-ok e none h = cc
  ok_or-eq-ok e (some a) h = cc

  pub ok_or-some : (e : E) (a : A) → ok_or e (some a) ≡ ok a
  unfolding ok_or
  ok_or-some e a = refl

pub ok-injective {ℓ κ} :
    {E : Type ℓ} {A : Type κ} {a b : A} → ◌≡◌ {A = Result E A} (ok a) (ok b) → a ≡ b
ok-injective h = cc

unfoldable pub guard {ℓ} : {E : Type ℓ} → Bool → E → Result E (Unit {0})
guard true e = ok tt
guard false e = err e

pub guard-eq-ok {ℓ} : {E : Type ℓ} (b : Bool) (e : E) {u : Unit {0}} → guard b e ≡ ok u → b ≡ true
unfolding guard
guard-eq-ok true e h = refl
guard-eq-ok false e h = cc

-- A guard before a result is a test.
pub guard-bind {ℓ κ} :
    {E : Type ℓ} {B : Type κ} (b : Bool) (e : E) (k : Result E B)
    → bind (guard b e) (λ _. k) ≡ (if b then k else err e)
unfolding guard bind
guard-bind true e k = refl
guard-bind false e k = refl

infixl 5 ◌>>◌
abbrev pub ◌>>◌ {ℓ κ} : {E : Type ℓ} {B : Type κ} → Result E (Unit {0}) → Result E B → Result E B
m >> k = bind m λ _. k

-- Steps that succeed are passed.
pub ruleset passes = (ok-bind, map_err-ok, ok_or-some)
