-- ===== src/Serialization/Arrays.antt =====
-- serialization/mod.rs: `take_array`, `cat`, `concat_ext` and `update_iter`. A `GenericArray` of
-- length `L` is a byte string; that its length is `L` is stated where it matters.
use native.Mathlib.Decide.{dec_lt}
use opaque_vx.Prelude.{
  ℕ, ◌<◌, String, ltb, if◌then◌else◌, Bytes, length, take, drop, replicate, ◌++◌, ◌≡◌, ◌⊎◌, inl,
  inr, arith, lt→ltb, le→ltb, length-append, take-append, drop-append, length-take,
  take-append-drop,
}
use opaque_vx.Prelude.Results.{ok, err}
use opaque_vx.Prelude.Act.{Act}
use opaque_vx.Errors.{ProtocolError, size_error}

module _ {V W : Type 0} where
  -- `bytes.take_array::<L>(name)`
  unfoldable pub take_array : ℕ → String → Act (ProtocolError V W ⊥) Bytes Bytes
  take_array len name input =
      if ltb (length input) len
      then err (size_error name len (length input))
      else ok (take len input, drop len input)

-- `a.cat(b)`
abbrev pub cat : Bytes → Bytes → Bytes
cat a b = a ++ b

-- `a.concat_ext(&b)`: an array of the joint length is made first, then its two parts are written.
unfoldable pub concat_ext : Bytes → Bytes → Bytes
concat_ext a b =
    let output = replicate (length b) 0 ++ replicate (length a) 0 in
    let written = a ++ drop (length a) output in take (length a) written ++ b

pub concat_ext-eq-cat : (a b : Bytes) → concat_ext a b ≡ cat a b
unfolding concat_ext
concat_ext-eq-cat a b = rw take-append

-- What was put in front of a slice is taken off again, and the slice moves past it.
module _ {V W : Type 0} where
  pub take_array-append :
      (len : ℕ) (name : String) (xs rest : Bytes)
      → length xs ≡ len
      → take_array {V = V} {W = W} len name (xs ++ rest) ≡ ok (xs, rest)
  unfolding take_array
  take_array-append len name xs rest h = rw (
    ← h,
    le→ltb (length (xs ++ rest)) (length xs) (omega (arith, length-append xs rest)),
    take-append,
    drop-append,
  )

  -- `take_array` takes exactly `len` bytes, and fails, with both lengths, on a shorter slice only.
  pub take_array_lem :
      (len : ℕ) (name : String) (input : Bytes)
      → ((length input < len)
          × (take_array {V = V} {W = W} len name input ≡ err (size_error name len (length input))))
        ⊎ ((front back : Bytes) × (take_array {V = V} {W = W} len name input ≡ ok (front, back))
            × (length front ≡ len)
            × (front ++ back ≡ input))
  unfolding take_array
  take_array_lem len name input = elim (dec_lt (length input) len) [
    | yes short ↦ inl (short, rw (lt→ltb _ _ short))
    | no long ↦ inr (
      take len input,
      drop len input,
      rw (le→ltb (length input) len (omega arith)),
      length-take len input (omega arith),
      take-append-drop len input,
    )
  ]

  -- What a successful `take_array` says of its input.
  pub take_array-eq-ok :
      (len : ℕ) (name : String) (input front back : Bytes)
      → take_array {V = V} {W = W} len name input ≡ ok (front, back)
      → (length front ≡ len) × (front ++ back ≡ input)
  take_array-eq-ok len name input front back h = elim (take_array_lem len name input) [
    | inl (_, e) ↦ cc
    | inr (front', back', e, measured, joined) ↦
        let same_front : front' ≡ front = cc in
        let same_back : back' ≡ back = cc in
        (rw (← same_front) measured, rw (← same_front, ← same_back) joined)
  ]
