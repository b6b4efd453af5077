-- ===== src/Prelude/Act.antt =====
-- Actions: a `Result` that threads a state, which is the input slice that a `deserialize_take`
-- advances, or the random generator. The state is lost with an error, since `?` returns early and
-- no caller reads it afterwards.
use opaque_vx.Prelude.Results.{Result, ok, err, panic, bind}
use mathlib.Core.Path.{◌≡◌, refl}

abbrev pub Act {ℓ} : Type ℓ → Type ℓ → Type ℓ → Type ℓ
Act E S A = S → Result E (A × S)

module _ {ℓ} {E S A : Type ℓ} where
  abbrev pub pure : A → Act E S A
  pure a s = ok (a, s)

  -- A step that does not touch the state.
  abbrev pub lift : Result E A → Act E S A
  lift r s = bind r (λ a. ok (a, s))

  -- A step that cannot fail.
  abbrev pub total : (S → A × S) → Act E S A
  total f s = ok (f s)

module _ {ℓ} {E S A B : Type ℓ} where
  infixl 5 ◌>>=◌
  abbrev pub ◌>>=◌ : Act E S A → (A → Act E S B) → Act E S B
  ◌>>=◌ m f s = bind (m s) (λ p. f p.0 p.1)

  -- What a successful action went through, where its first step does not touch the state.
  pub lift_ok {κ} :
      (r : Result E A) (f : A × S → Result E (B × S)) (s : S) {b : B × S} {C : Type κ}
      → bind (bind r (λ a. ok (a, s))) f ≡ ok b
      → ((a : A) → r ≡ ok a → f (a, s) ≡ ok b → C)
      → C
  unfolding bind
  lift_ok (ok a) f s h k = k a refl h
  lift_ok (err e) f s h k = absurd (cc)
  lift_ok panic f s h k = absurd (cc)

  -- A step that does not touch the state leaves it for the next, which is asked at that state only.
  pub lift_cong :
      (r : Result E A) (f g : A × S → Result E (B × S)) (s : S)
      → ((a : A) → f (a, s) ≡ g (a, s))
      → bind (bind r (λ a. ok (a, s))) f ≡ bind (bind r (λ a. ok (a, s))) g
  unfolding bind
  lift_cong (ok a) f g s h = h a
  lift_cong (err e) f g s h = refl
  lift_cong panic f g s h = refl
