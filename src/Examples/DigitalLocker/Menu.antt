-- ===== src/Examples/DigitalLocker/Menu.antt =====
-- examples/digital_locker.rs: the loop of `main`, one step for each choice of the menu. Reading and
-- printing are left out; the generator of the operating system is in any state at each step.
pub mod Table
use opaque_vx.Prelude.{
  ℕ, zero, suc, bytes, bytes_eq, false, ◌+◌, ◌-◌, ◌*◌, ◌^◌, ◌≤◌, ◌≡◌, Bool, Option, none, some,
  List, [], ◌∷◌, ◌++◌, Bytes, length, ltb, ◌==◌, ◌&&◌, if◌then◌else◌,
}
use opaque_vx.Prelude.Results.{ok, err}
use opaque_vx.KeyExchange.Trait.{Encodings}
use opaque_vx.CipherSuite.{CipherSuite, Rng}
use opaque_vx.Opaque.{LocalSetup}
use opaque_vx.Examples.Utf8.{within}
use opaque_vx.Examples.DigitalLocker.{Locker, register_locker, open_locker}
use opaque_vx.Examples.DigitalLocker.Cipher.{Aead}

-- `xs.get(i)`
abbrev pub get {ℓ} : {A : Type ℓ} → List A → ℕ → Option A
get [] i = none
get (x ∷ xs) zero = some x
get (x ∷ xs) (suc i) = get xs i

-- Decimal digits, without overflow of 64 bits.
unfoldable pub parse_digits : ℕ → Bytes → Option ℕ
parse_digits value [] = some value
parse_digits value (x ∷ xs) =
    let next = value * 10 + (x - 48) in
    let rest = parse_digits next xs in if within 48 57 x && ltb next (2 ^ 64) then rest else none

-- `s.parse::<usize>()`: digits, after a plus sign or without.
unfoldable pub parse_usize : Bytes → Option ℕ
parse_usize [] = none
parse_usize (x ∷ []) = if x == 43 then none else parse_digits 0 (x ∷ [])
parse_usize (x ∷ y ∷ ys) = if x == 43 then parse_digits 0 (y ∷ ys) else parse_digits 0 (x ∷ y ∷ ys)

-- The two options of the menu, with the two strings that are read for each, and any other line.
pub data Request : Type 0 where
  register_option : (password secret_message : Bytes) → Request
  open_option : (locker password : Bytes) → Request
  other_option : (line : Bytes) → Request

-- What the loop prints for a request.
pub data Shown : Type 0 where
  invalid_option : Shown
  registered : Shown
  could_not_find : Shown
  success : (contents : Bytes) → Shown
  could_not_open : (message : Bytes) → Shown

module _ (aead : Aead) (cs : CipherSuite) (e : Encodings cs.key_exchange)
    (setup : LocalSetup cs) where
  -- One round of the loop, from the registered lockers to the lockers after it.
  pub data Step : List Locker → Request → Shown → List Locker → Type 0 where
    invalid :
        (lockers : List Locker) (line : Bytes)
        → bytes_eq line (bytes "1") ≡ false
        → bytes_eq line (bytes "2") ≡ false
        → Step lockers (other_option line) invalid_option lockers
    registers :
        (lockers : List Locker) (password secret_message : Bytes) (locker : Locker) (r r' : Rng cs)
        → register_locker aead cs {E = ⊥} setup (length lockers) password secret_message r
          ≡ ok (locker, r')
        → Step lockers (register_option password secret_message) registered (lockers ++ locker ∷ [])
    no_number :
        (lockers : List Locker) (line password : Bytes)
        → parse_usize line ≡ none
        → Step lockers (open_option line password) could_not_find lockers
    out_of_range :
        (lockers : List Locker) (line password : Bytes) (locker_index : ℕ)
        → parse_usize line ≡ some locker_index
        → length lockers ≤ locker_index
        → Step lockers (open_option line password) could_not_find lockers
    opens :
        (lockers : List Locker) (line password : Bytes) (locker_index : ℕ) (locker : Locker)
        (contents : Bytes) (r r' : Rng cs)
        → parse_usize line ≡ some locker_index
        → get lockers locker_index ≡ some locker
        → open_locker aead cs e setup locker_index password locker r ≡ ok (contents, r')
        → Step lockers (open_option line password) (success contents) lockers
    refuses :
        (lockers : List Locker) (line password : Bytes) (locker_index : ℕ) (locker : Locker)
        (message : Bytes) (r : Rng cs)
        → parse_usize line ≡ some locker_index
        → get lockers locker_index ≡ some locker
        → open_locker aead cs e setup locker_index password locker r ≡ err message
        → Step lockers (open_option line password) (could_not_open message) lockers
