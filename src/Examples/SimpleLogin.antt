-- ===== src/Examples/SimpleLogin.antt =====
-- examples/simple_login.rs: accounts with passwords, and the loop of `main`, one step for each choice of
-- the menu. Reading and printing are left out; the generator of the operating system is in any state at
-- each step. A Rust `String` is its UTF-8 here.
pub mod Accounts
use opaque_vx.Prelude.{
  Bool, true, false, Option, none, some, List, [], ◌∷◌, Bytes, bytes, bytes_eq, ◌≡◌, if◌then◌else◌,
}
use opaque_vx.Prelude.Results.{Result, ok, err, panic, unwrap, ◌>>=◌}
use opaque_vx.Hash.{Hash}
use opaque_vx.Oprf.{OprfCs}
use opaque_vx.Group.{Group, DiffieHellman}
use opaque_vx.KeyExchange.Trait.{Encodings}
use opaque_vx.KeyExchange.TripleDh.{triple_dh}
use opaque_vx.CipherSuite.{CipherSuite, Rng, Ksf}
use opaque_vx.Messages.Registration.{
  serialize_registration_request, deserialize_registration_request, serialize_registration_response,
  deserialize_registration_response, serialize_registration_upload, deserialize_registration_upload,
}
use opaque_vx.Messages.Login.{
  serialize_credential_request, deserialize_credential_request, serialize_credential_response,
  deserialize_credential_response, serialize_credential_finalization,
  deserialize_credential_finalization,
}
use opaque_vx.Opaque.{LocalSetup}
use opaque_vx.Opaque.RegisterClient.{client_registration_start, client_registration_finish}
use opaque_vx.Opaque.RegisterServer.{server_registration_start, server_registration_finish}
use opaque_vx.Opaque.LoginClient.{client_login_start, client_login_finish}
use opaque_vx.Opaque.LoginServer.{server_login_start}
use opaque_vx.Opaque.ServerFinish.{server_login_finish}
use opaque_vx.Opaque.States.{serialize_server_registration, deserialize_server_registration}
use opaque_vx.Examples.Wire.{no_identifiers, default_parameters}

-- `DefaultCipherSuite`, whose group and hash a feature of the crate chooses, and whose key stretching
-- is that of the crate argon2.
abbrev pub default_cipher_suite :
    (o : OprfCs) (g : Group o) → DiffieHellman g → Hash → Ksf o → CipherSuite
default_cipher_suite o g d h argon2 = record {
  oprf = o;
  key_exchange = triple_dh o g d h;
  ksf = argon2;
}

-- `if result.is_err() { return false }`
unfoldable pub or_false {ℓ} :
    {E : Type 0} {A : Type ℓ} → Result E A → (A → Result ⊥ Bool) → Result ⊥ Bool
or_false (ok a) continue = continue a
or_false (err e) continue = ok false
or_false panic continue = panic

module _ (cs : CipherSuite) where
  unfoldable pub account_registration : LocalSetup cs → Bytes → Bytes → Rng cs → Result ⊥ Bytes
  account_registration server_setup username password client_rng = do
    client_start ← unwrap (client_registration_start cs password client_rng)
    let request_bytes = serialize_registration_request cs client_start.0.message
    request ← unwrap (deserialize_registration_request cs request_bytes)
    server_start ← unwrap (server_registration_start cs server_setup request username)
    let response_bytes = serialize_registration_response cs server_start.message
    response ← unwrap (deserialize_registration_response cs response_bytes)
    client_finish ← unwrap (
        client_registration_finish cs client_start.0.state password response
          (record { identifiers = no_identifiers; ksf = none }) client_start.1)
    let message_bytes = serialize_registration_upload cs client_finish.0.message
    upload ← unwrap (deserialize_registration_upload cs message_bytes)
    let password_file = server_registration_finish cs upload
    ok (serialize_server_registration cs password_file)

  unfoldable pub account_login :
      Encodings cs.key_exchange → LocalSetup cs → Bytes → Bytes → Bytes → Rng cs → Result ⊥ Bool
  account_login e server_setup username password password_file_bytes rng = do
    client_start ← unwrap (client_login_start cs password rng)
    let request_bytes = serialize_credential_request cs e client_start.0.message
    password_file ← unwrap (deserialize_server_registration cs password_file_bytes)
    request ← unwrap (deserialize_credential_request cs e request_bytes)
    server_start ← unwrap (
        server_login_start cs server_setup (some password_file) request username default_parameters
          client_start.1)
    let response_bytes = serialize_credential_response cs e server_start.0.message
    response ← unwrap (deserialize_credential_response cs e response_bytes)
    or_false
        (client_login_finish cs client_start.0.state password response
          (record { context = none; identifiers = no_identifiers; ksf = none }) server_start.1)
        λ client_finish. do
          let finalization_bytes = serialize_credential_finalization cs e client_finish.0.message
          finalization ← unwrap (deserialize_credential_finalization cs e finalization_bytes)
          server_finish ←
              unwrap (server_login_finish cs server_start.0.state finalization default_parameters)
          ok (bytes_eq client_finish.0.session_key server_finish.session_key)

-- `HashMap::insert` and `HashMap::get`, at the keys that are strings.
abbrev pub insert : Bytes → Bytes → List (Bytes × Bytes) → List (Bytes × Bytes)
insert key value entries = (key, value) ∷ entries

unfoldable pub lookup : Bytes → List (Bytes × Bytes) → Option Bytes
lookup key [] = none
lookup key (entry ∷ entries) = if bytes_eq entry.0 key then some entry.1 else lookup key entries

-- The two options of the menu, with the two strings that are read for each, and any other line.
pub data Request : Type 0 where
  register_option : (username password : Bytes) → Request
  login_option : (username password : Bytes) → Request
  other_option : (line : Bytes) → Request

-- What the loop prints for a request.
pub data Shown : Type 0 where
  invalid_option registered login_success incorrect_password could_not_find : Shown

module _ (cs : CipherSuite) (e : Encodings cs.key_exchange) (setup : LocalSetup cs) where
  -- One round of the loop, from the registered users to the users after it.
  pub data Step : List (Bytes × Bytes) → Request → Shown → List (Bytes × Bytes) → Type 0 where
    invalid :
        (users : List (Bytes × Bytes)) (line : Bytes)
        → bytes_eq line (bytes "1") ≡ false
        → bytes_eq line (bytes "2") ≡ false
        → Step users (other_option line) invalid_option users
    registers :
        (users : List (Bytes × Bytes)) (username password password_file : Bytes) (r : Rng cs)
        → account_registration cs setup username password r ≡ ok password_file
        → Step users
            (register_option username password)
            registered
            (insert username password_file users)
    succeeds :
        (users : List (Bytes × Bytes)) (username password password_file : Bytes) (r : Rng cs)
        → lookup username users ≡ some password_file
        → account_login cs e setup username password password_file r ≡ ok true
        → Step users (login_option username password) login_success users
    fails :
        (users : List (Bytes × Bytes)) (username password password_file : Bytes) (r : Rng cs)
        → lookup username users ≡ some password_file
        → account_login cs e setup username password password_file r ≡ ok false
        → Step users (login_option username password) incorrect_password users
    unknown :
        (users : List (Bytes × Bytes)) (username password : Bytes)
        → lookup username users ≡ none
        → Step users (login_option username password) could_not_find users
