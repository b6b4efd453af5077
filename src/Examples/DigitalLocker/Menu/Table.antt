-- ===== src/Examples/DigitalLocker/Menu/Table.antt =====
-- examples/digital_locker.rs: the loop of `main` as a table of passwords and messages.
use opaque_vx.Prelude.{
  ℕ, zero, suc, ◌≤◌, ◌≡◌, ◌⊎◌, inl, inr, none, some, List, [], ◌∷◌, ◌++◌, Bytes, length, refl, ap,
  ◌∙◌, true, length-append, arith, subst,
}
use opaque_vx.Prelude.Results.{ok}
use opaque_vx.Serialization.Integers.{be_bytes}
use opaque_vx.KeyExchange.Serialized.{from_context, SerializedContext}
use opaque_vx.KeyExchange.Trait.{Encodings}
use opaque_vx.CipherSuite.{CipherSuite, Rng}
use opaque_vx.Opaque.{LocalSetup}
use opaque_vx.Opaque.SuiteLaws.{SuiteLaws}
use opaque_vx.Examples.Utf8.{is_utf8}
use opaque_vx.Examples.Wire.{Blindable}
use opaque_vx.Examples.DigitalLocker.{Locker, open_locker}
use opaque_vx.Examples.DigitalLocker.Cipher.{Aead, AeadLaws}
use opaque_vx.Examples.DigitalLocker.Opened.{Holds, register_locker-Holds, open_locker-Holds}
use opaque_vx.Examples.DigitalLocker.Menu.{
  get, parse_usize, Request, register_option, open_option, other_option, Shown, success, Step,
  invalid, registers, no_number, out_of_range, opens, refuses,
}

module _ {ℓ} {A : Type ℓ} where
  get-append : (xs ys : List A) (i : ℕ) (x : A) → get xs i ≡ some x → get (xs ++ ys) i ≡ some x
  get-append [] ys i x h = cc
  get-append (y ∷ xs) ys zero x h = h
  get-append (y ∷ xs) ys (suc i) x h = get-append xs ys i x h

  get-last : (xs : List A) (x : A) → get (xs ++ x ∷ []) (length xs) ≡ some x
  get-last [] x = refl
  get-last (y ∷ xs) x = get-last xs x

  -- An entry of a list with one more is one of the list or the last.
  get-snoc :
      (xs : List A) (y : A) (i : ℕ) (x : A)
      → get (xs ++ y ∷ []) i ≡ some x
      → (get xs i ≡ some x) ⊎ ((i ≡ length xs) × (y ≡ x))
  get-snoc [] y zero x h = inr (refl, cc)
  get-snoc [] y (suc i) x h = cc
  get-snoc (z ∷ xs) y zero x h = inl h
  get-snoc (z ∷ xs) y (suc i) x h = elim (get-snoc xs y i x h) [
    | inl found ↦ inl found
    | inr (last, same) ↦ inr (omega arith, same)
  ]

  get-length : (xs : List A) (i : ℕ) (x : A) → get xs i ≡ some x → length xs ≤ i → ⊥
  get-length [] i x h long = cc
  get-length (y ∷ xs) zero x h long = omega arith
  get-length (y ∷ xs) (suc i) x h long = get-length xs i x h (omega arith)

-- The table of a run: the passwords and messages of its registrations, in their order.
abbrev pub recorded : List (Bytes × Bytes) → Request → List (Bytes × Bytes)
recorded entries (register_option password secret_message) =
    entries ++ (password, secret_message) ∷ []
recorded entries (open_option locker password) = entries
recorded entries (other_option line) = entries

module _ (aead : Aead) (cs : CipherSuite) (e : Encodings cs.key_exchange)
    (setup : LocalSetup cs) where
  -- The lockers that the loop reaches from none, with the table of the registrations on the way.
  pub data Reached : List (Bytes × Bytes) → List Locker → Type 0 where
    none_yet : Reached [] []
    after :
        {entries : List (Bytes × Bytes)} {lockers lockers' : List Locker} {request : Request}
        {shown : Shown}
        → Reached entries lockers
        → Step aead cs e setup lockers request shown lockers'
        → Reached (recorded entries request) lockers'

  module _ (aead_laws : AeadLaws aead) (laws : SuiteLaws cs e)
      (paired : setup.keypair.pk ≡ cs.key_exchange.group.public_key setup.keypair.sk)
      (valid : laws.group_laws.SkIsValid setup.keypair.sk) where
    abbrev HoldsAt : ℕ → Bytes → Bytes → Locker → Type 0
    HoldsAt = Holds aead aead_laws cs e laws setup paired valid

    -- Each entry has its locker, which holds its message under its password, and there are no others.
    pub record HoldsAll (entries : List (Bytes × Bytes)) (lockers : List Locker) : Type 0 where
      pub as_many : length entries ≡ length lockers
      pub held :
          (i : ℕ) (password secret_message : Bytes)
          → get entries i ≡ some (password, secret_message)
          → (locker : Locker) × (get lockers i ≡ some locker)
            × HoldsAt i password secret_message locker

    one_more :
        (entries : List (Bytes × Bytes)) (lockers : List Locker) (password secret_message : Bytes)
        (locker : Locker)
        → HoldsAll entries lockers
        → HoldsAt (length lockers) password secret_message locker
        → HoldsAll (entries ++ (password, secret_message) ∷ []) (lockers ++ locker ∷ [])
    one_more entries lockers password secret_message locker all holds = record {
      as_many = omega (
        arith,
        all.as_many,
        length-append entries ((password, secret_message) ∷ []),
        length-append lockers (locker ∷ []),
      );
      held = λ i p s found. elim (get-snoc entries (password, secret_message) i (p, s) found) [
        | inl old ↦
            let (locker', at, holds') = all.held i p s old in
            (locker', get-append lockers (locker ∷ []) i locker' at, holds')
        | inr (last, same) ↦
            let here : i ≡ length lockers = last ∙ all.as_many in
            (
              locker,
              rw here (get-last lockers locker),
              subst (λ q. HoldsAt i q.0 q.1 locker) same (rw here holds),
            )
      ];
    }

    -- At a server with a valid key pair, over a suite and a cipher whose laws hold: in every state that
    -- the loop reaches, each registration has its locker, at its number, which
    -- holds the message under the password, and there are no other lockers.
    pub Reached-HoldsAll :
        {entries : List (Bytes × Bytes)} {lockers : List Locker}
        → Reached entries lockers
        → HoldsAll entries lockers
    Reached-HoldsAll none_yet = record { as_many = refl; held = λ i p s found. absurd (cc) }
    Reached-HoldsAll (after reached (registers _ password secret_message locker r r' h)) =
        one_more _ _ password secret_message locker (Reached-HoldsAll reached) (
          register_locker-Holds aead aead_laws cs e laws setup paired valid _ password
            secret_message locker {E = ⊥} r r' h)
    Reached-HoldsAll (after reached (invalid _ _ _ _)) = Reached-HoldsAll reached
    Reached-HoldsAll (after reached (no_number _ _ _ _)) = Reached-HoldsAll reached
    Reached-HoldsAll (after reached (out_of_range _ _ _ _ _ _)) = Reached-HoldsAll reached
    Reached-HoldsAll (after reached (opens _ _ _ _ _ _ _ _ _ _ _)) = Reached-HoldsAll reached
    Reached-HoldsAll (after reached (refuses _ _ _ _ _ _ _ _ _ _)) = Reached-HoldsAll reached

    -- Where the locker of a number opens to a message from every generator, no step shows another.
    only_success :
        (lockers lockers' : List Locker) (line password secret_message : Bytes) (i : ℕ)
        (locker : Locker) (shown : Shown)
        → parse_usize line ≡ some i
        → get lockers i ≡ some locker
        → ((r : Rng cs)
            → (r' : Rng cs) × (open_locker aead cs e setup i password locker r
                ≡ ok (secret_message, r')))
        → Step aead cs e setup lockers (open_option line password) shown lockers'
        → (shown ≡ success secret_message) × (lockers' ≡ lockers)
    only_success lockers lockers' line password secret_message i locker shown parsed at opened
          (no_number _ _ _ h) =
        absurd (cc)
    only_success lockers lockers' line password secret_message i locker shown parsed at opened
          (out_of_range _ _ _ i' h long) =
        let same : i' ≡ i = cc in absurd (get-length lockers i locker at (rw (← same) long))
    only_success lockers lockers' line password secret_message i locker shown parsed at opened
          (opens _ _ _ i' locker' contents r r' h at' done) =
        let reopened = (opened r).1 in
        let same_index : i' ≡ i = cc in
        let same_locker : locker' ≡ locker = cc in
        let same : contents ≡ secret_message = cc in (ap success same, refl)
    only_success lockers lockers' line password secret_message i locker shown parsed at opened
          (refuses _ _ _ i' locker' message r h at' done) =
        let reopened = (opened r).1 in
        let same_index : i' ≡ i = cc in let same_locker : locker' ≡ locker = cc in absurd (cc)

    -- The loop refines its table: in every reachable state, an entry's number and password show the
    -- entry's message. A step shows it, from any generator, and every step shows it and nothing else,
    -- and changes nothing. The conditions: the laws of the suite and of the cipher hold, the server's
    -- key pair is valid, the OPRF blinds the password and its key for the number takes no element to
    -- itself, the hash has at least 32 bytes, the contents are not too long for the cipher, and the
    -- message is a text.
    pub open_option-recorded :
        {entries : List (Bytes × Bytes)} {lockers : List Locker}
        → Reached entries lockers
        → (line password secret_message : Bytes) (i : ℕ) (context : SerializedContext)
        → parse_usize line ≡ some i
        → get entries i ≡ some (password, secret_message)
        → Blindable cs setup password (be_bytes 8 i)
        → from_context cs.oprf none ≡ ok context
        → 32 ≤ cs.key_exchange.hash.output_size
        → ((locker : Locker) → get lockers i ≡ some locker → length locker.contents ≤ aead.max)
        → is_utf8 secret_message ≡ true
        → Rng cs
        → Step aead cs e setup lockers (open_option line password) (success secret_message) lockers
          × ((shown : Shown) (lockers' : List Locker)
              → Step aead cs e setup lockers (open_option line password) shown lockers'
              → (shown ≡ success secret_message) × (lockers' ≡ lockers))
    open_option-recorded {entries} {lockers} reached line password secret_message i context parsed
          at blindable in_context long fits utf8 r =
        let (locker, found, holds) = (Reached-HoldsAll reached).held i password secret_message at in
        let opened =
          open_locker-Holds aead aead_laws cs e laws setup paired valid i password secret_message
            locker context holds blindable in_context long (fits locker found) utf8 in
        (
          opens lockers line password i locker secret_message r (opened r).0 parsed found
              (opened r).1,
          λ shown lockers' step.
              only_success lockers lockers' line password secret_message i locker shown parsed found
                opened step,
        )
