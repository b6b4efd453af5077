-- ===== src/Examples/SimpleLogin/Accounts.antt =====
-- examples/simple_login.rs: the loop of `main` as a table of usernames and passwords.
use opaque_vx.Prelude.{
  Bool-cases, inl, inr, true, none, some, List, [], Bytes, bytes_eq, bytes_eq_refl, ◌≡◌, refl,
  subst, bytes_eq_sound,
}
use opaque_vx.Prelude.Results.{ok, bind_ok, unwrap, unwrap-eq-ok, passes}
use opaque_vx.KeyExchange.Serialized.{from_context, SerializedContext}
use opaque_vx.KeyExchange.Trait.{Encodings}
use opaque_vx.CipherSuite.{CipherSuite, Rng}
use opaque_vx.Opaque.{LocalSetup, ServerRegistration}
use opaque_vx.Opaque.Enrolled.{Enrolled}
use opaque_vx.Opaque.SuiteLaws.{SuiteLaws}
use opaque_vx.Opaque.RegisterServer.{server_registration_finish}
use opaque_vx.Opaque.States.{serialize_server_registration, deserialize_server_registration}
use opaque_vx.Examples.Wire.{
  no_identifiers, Blindable, registered_over_wire, read_over_wire, logged_in,
}
use opaque_vx.Examples.SimpleLogin.{
  or_false, account_registration, account_login, insert, lookup, Request, register_option,
  login_option, other_option, Shown, login_success, Step, invalid, registers, succeeds, fails,
  unknown,
}

-- The table of a run: the passwords of its registrations, the last one of each username.
abbrev pub recorded : List (Bytes × Bytes) → Request → List (Bytes × Bytes)
recorded entries (register_option username password) = insert username password entries
recorded entries (login_option username password) = entries
recorded entries (other_option line) = entries

module _ (cs : CipherSuite) (e : Encodings cs.key_exchange) (setup : LocalSetup cs) where
  -- The users that the loop reaches from none, with the table of the registrations on the way.
  pub data Reached : List (Bytes × Bytes) → List (Bytes × Bytes) → Type 0 where
    none_yet : Reached [] []
    after :
        {entries users users' : List (Bytes × Bytes)} {request : Request} {shown : Shown}
        → Reached entries users
        → Step cs e setup users request shown users'
        → Reached (recorded entries request) users'

  module _ (laws : SuiteLaws cs e)
      (paired : setup.keypair.pk ≡ cs.key_exchange.group.public_key setup.keypair.sk)
      (valid : laws.group_laws.SkIsValid setup.keypair.sk) where
    -- The file of an account is the record of the user with its password.
    record Account (username password password_file : Bytes) : Type 0 where
      pub file : ServerRegistration cs
      pub export_key : Bytes
      pub user : Enrolled cs setup password username no_identifiers none file export_key
      pub filed : password_file ≡ serialize_server_registration cs file

    account_registration-Account :
        (username password password_file : Bytes) (r : Rng cs)
        → account_registration cs setup username password r ≡ ok password_file
        → Account username password password_file
    unfolding account_registration server_registration_finish serialize_server_registration
    account_registration-Account username password password_file r h =
        bind_ok _ _ h λ begun begins h1. bind_ok _ _ h1 λ request read h2.
          bind_ok _ _ h2 λ replied replies h3. bind_ok _ _ h3 λ response read' h4.
            bind_ok _ _ h4 λ registered registers h5. bind_ok _ _ h5 λ upload read'' h6.
              let user =
                registered_over_wire cs e laws setup paired valid password username r begun.1
                  begun.1 registered.1 begun.0 request replied response registered.0
                  (unwrap-eq-ok _ begins) (unwrap-eq-ok _ read) (unwrap-eq-ok _ replies)
                  (unwrap-eq-ok _ read') (unwrap-eq-ok _ registers) in
              let same =
                read_over_wire cs e laws setup paired valid password _ registered.0.message upload _
                  user (unwrap-eq-ok _ read'') in
              record {
                file = registered.0.message;
                export_key = registered.0.export_key;
                user = user;
                filed = cc;
              }

    account_login-Account :
        (username password password_file : Bytes) (context : SerializedContext)
        → Account username password password_file
        → Blindable cs setup password username
        → from_context cs.oprf none ≡ ok context
        → (r : Rng cs) → account_login cs e setup username password password_file r ≡ ok true
    unfolding account_login serialize_server_registration deserialize_server_registration unwrap
        or_false
    account_login-Account username password password_file context account blindable in_context r =
        let login =
          logged_in cs e laws setup paired valid password username context account.file
            account.export_key account.user blindable in_context r in
        simp (
          login.requests, account.filed, login.file_reads, login.request_reads, login.responds,
          login.response_reads, login.finishes, login.finalization_reads, login.accepts,
          bytes_eq_refl, passes,
        )

    -- Each username of the table has its account.
    abbrev HoldsAll : List (Bytes × Bytes) → List (Bytes × Bytes) → Type 0
    HoldsAll entries users =
        (username password : Bytes)
        → lookup username entries ≡ some password
        → (password_file : Bytes) × (lookup username users ≡ some password_file)
          × Account username password password_file

    one_more :
        (entries users : List (Bytes × Bytes)) (username password password_file : Bytes)
        → HoldsAll entries users
        → Account username password password_file
        → HoldsAll (insert username password entries) (insert username password_file users)
    unfolding lookup
    one_more entries users username password password_file all account name p found =
        elim (Bool-cases (bytes_eq username name)) [
          | inl same ↦
              let kept : some password ≡ some p = rw same at found in
              let last : password ≡ p = cc in
              let key : username ≡ name = bytes_eq_sound _ _ same in
              (
                password_file,
                rw same,
                subst (λ q. Account name q password_file) last (rw (← key) account),
              )
          | inr other ↦
              let kept : lookup name entries ≡ some p = rw other at found in
              let (file, found', account') = all name p kept in (file, rw (other, found'), account')
        ]

    Reached-HoldsAll :
        {entries users : List (Bytes × Bytes)} → Reached entries users → HoldsAll entries users
    unfolding lookup
    Reached-HoldsAll none_yet = λ username password found. absurd (cc)
    Reached-HoldsAll (after reached (invalid _ _ _ _)) = Reached-HoldsAll reached
    Reached-HoldsAll (after reached (registers _ username password password_file r h)) =
        one_more _ _ username password password_file (Reached-HoldsAll reached)
          (account_registration-Account username password password_file r h)
    Reached-HoldsAll (after reached (succeeds _ _ _ _ _ _ _)) = Reached-HoldsAll reached
    Reached-HoldsAll (after reached (fails _ _ _ _ _ _ _)) = Reached-HoldsAll reached
    Reached-HoldsAll (after reached (unknown _ _ _ _)) = Reached-HoldsAll reached

    -- Where every login to an account succeeds, no step shows anything else.
    only_success :
        (users users' : List (Bytes × Bytes)) (username password password_file : Bytes)
        (shown : Shown)
        → lookup username users ≡ some password_file
        → ((r : Rng cs) → account_login cs e setup username password password_file r ≡ ok true)
        → Step cs e setup users (login_option username password) shown users'
        → (shown ≡ login_success) × (users' ≡ users)
    only_success users users' username password password_file shown found login
          (succeeds _ _ _ file r found' done) =
        (refl, refl)
    only_success users users' username password password_file shown found login
          (fails _ _ _ file r found' done) =
        let succeeded = login r in let same : file ≡ password_file = cc in absurd (cc)
    only_success users users' username password password_file shown found login
          (unknown _ _ _ found') =
        absurd (cc)

    -- The loop refines its table: in every reachable state, a username and its last password log in. A
    -- step shows the success, from any generator, and every step shows it and nothing else, and changes
    -- nothing. The conditions: the laws of the suite hold, the server's key pair is valid, and the OPRF
    -- blinds the password and its key for the username takes no element to itself.
    pub login_option-recorded :
        {entries users : List (Bytes × Bytes)}
        → Reached entries users
        → (username password : Bytes) (context : SerializedContext)
        → lookup username entries ≡ some password
        → Blindable cs setup password username
        → from_context cs.oprf none ≡ ok context
        → Rng cs
        → Step cs e setup users (login_option username password) login_success users
          × ((shown : Shown) (users' : List (Bytes × Bytes))
              → Step cs e setup users (login_option username password) shown users'
              → (shown ≡ login_success) × (users' ≡ users))
    login_option-recorded {entries} {users} reached username password context at blindable
          in_context r =
        let (password_file, found, account) = Reached-HoldsAll reached username password at in
        let login =
          account_login-Account username password password_file context account blindable
            in_context in
        (
          succeeds users username password password_file r found (login r),
          λ shown users' step.
              only_success users users' username password password_file shown found login step,
        )
