-- ===== src/Examples/DigitalLocker.antt =====
-- examples/digital_locker.rs: a locker whose contents only its password reveals. The crate
-- chacha20poly1305 is a parameter, and every generator is the one of the operating system. A Rust
-- `String` is its UTF-8 here.
pub mod Cipher
pub mod Sealing
pub mod Opened
pub mod Menu
use opaque_vx.Prelude.{
  ℕ, Option, some, none, Bytes, bytes, length, take, drop, ltb, if◌then◌else◌, ◌++◌, List, [], ◌∷◌,
}
use opaque_vx.Prelude.Results.{Result, ok, err, panic, bind, unwrap, ok_or, map_err}
use opaque_vx.Prelude.Act.{Act, pure, lift, total, ◌>>=◌}
use opaque_vx.Serialization.Integers.{be_bytes}
use opaque_vx.Hash.{Hash}
use opaque_vx.Oprf.{OprfCs}
use opaque_vx.Group.{Group, DiffieHellman}
use opaque_vx.KeyExchange.Serialized.{Identifiers}
use opaque_vx.KeyExchange.Trait.{Encodings}
use opaque_vx.KeyExchange.TripleDh.{triple_dh}
use opaque_vx.CipherSuite.{CipherSuite, Rng, identity}
use opaque_vx.Messages.Registration.{
  serialize_registration_request, deserialize_registration_request, serialize_registration_response,
  deserialize_registration_response, serialize_registration_upload, deserialize_registration_upload,
}
use opaque_vx.Messages.Login.{
  serialize_credential_request, deserialize_credential_request, serialize_credential_response,
  deserialize_credential_response, serialize_credential_finalization,
  deserialize_credential_finalization,
}
use opaque_vx.Opaque.{
  LocalSetup, ClientRegistrationFinishParameters, ClientLoginFinishParameters,
  ServerLoginParameters,
}
use opaque_vx.Opaque.RegisterClient.{client_registration_start, client_registration_finish}
use opaque_vx.Opaque.RegisterServer.{server_registration_start, server_registration_finish}
use opaque_vx.Opaque.LoginClient.{client_login_start, client_login_finish}
use opaque_vx.Opaque.LoginServer.{server_login_start}
use opaque_vx.Opaque.ServerFinish.{server_login_finish}
use opaque_vx.Opaque.States.{serialize_server_registration, deserialize_server_registration}
use opaque_vx.Examples.DigitalLocker.Cipher.{Aead, slice_to, decrypt}
use opaque_vx.Examples.Wire.{no_identifiers, default_parameters}
use opaque_vx.Examples.Utf8.{from_utf8}

-- `DefaultCipherSuite`, whose group and hash a feature of the crate chooses.
abbrev pub default_cipher_suite : (o : OprfCs) (g : Group o) → DiffieHellman g → Hash → CipherSuite
default_cipher_suite o g d h = record {
  oprf = o;
  key_exchange = triple_dh o g d h;
  ksf = identity o;
}

pub record Locker : Type 0 where
  pub contents : Bytes
  pub password_file : Bytes

module _ (aead : Aead) where
  unfoldable pub encrypt : (o : OprfCs) {E : Type 0} → Bytes → Bytes → Act E o.Rng Bytes
  encrypt o key plaintext = do
    cipher_key ← lift (slice_to 32 key)
    nonce_bytes ← total (o.fill_bytes 12)
    ciphertext ← lift (
        unwrap {E = Unit {0}} (ok_or tt (aead.encrypt (aead.new cipher_key) nonce_bytes plaintext)))
    pure (nonce_bytes ++ ciphertext)

  module _ (cs : CipherSuite) where
    -- Registration, and the encryption of the message under the export key. Whatever fails is
    -- unwrapped.
    unfoldable pub register_locker :
        {E : Type 0} → LocalSetup cs → ℕ → Bytes → Bytes → Act E (Rng cs) Locker
    register_locker server_setup locker_id password secret_message = do
      client_start ← λ rng. unwrap (client_registration_start cs password rng)
      let request_bytes = serialize_registration_request cs client_start.message
      request ← lift (unwrap (deserialize_registration_request cs request_bytes))
      server_start ←
          lift (unwrap (server_registration_start cs server_setup request (be_bytes 8 locker_id)))
      let response_bytes = serialize_registration_response cs server_start.message
      response ← lift (unwrap (deserialize_registration_response cs response_bytes))
      client_finish ← λ rng. unwrap (
          client_registration_finish cs client_start.state password response
            (record { identifiers = no_identifiers; ksf = none }) rng)
      let message_bytes = serialize_registration_upload cs client_finish.message
      ciphertext ← encrypt cs.oprf client_finish.export_key secret_message
      upload ← lift (unwrap (deserialize_registration_upload cs message_bytes))
      let password_file = server_registration_finish cs upload
      pure (record {
        contents = ciphertext;
        password_file = serialize_server_registration cs password_file;
      })

    -- Login, and the decryption of the contents, which the server sends under the session key. Only
    -- the client's last step may fail; all else is unwrapped.
    unfoldable pub open_locker :
        Encodings cs.key_exchange → LocalSetup cs → ℕ → Bytes → Locker → Act Bytes (Rng cs) Bytes
    open_locker e server_setup locker_id password locker = do
      client_start ← λ rng. unwrap (client_login_start cs password rng)
      let request_bytes = serialize_credential_request cs e client_start.message
      password_file ← lift (unwrap (deserialize_server_registration cs locker.password_file))
      request ← lift (unwrap (deserialize_credential_request cs e request_bytes))
      server_start ← λ rng. unwrap (
          server_login_start cs server_setup (some password_file) request (be_bytes 8 locker_id)
            default_parameters rng)
      let response_bytes = serialize_credential_response cs e server_start.message
      response ← lift (unwrap (deserialize_credential_response cs e response_bytes))
      client_finish ← λ rng.
          map_err (λ _. bytes "Incorrect password, please try again.")
            (client_login_finish cs client_start.state password response
              (record { context = none; identifiers = no_identifiers; ksf = none }) rng)
      let finalization_bytes = serialize_credential_finalization cs e client_finish.message
      finalization ← lift (unwrap (deserialize_credential_finalization cs e finalization_bytes))
      server_finish ←
          lift (unwrap (server_login_finish cs server_start.state finalization default_parameters))
      encrypted_contents ← encrypt cs.oprf server_finish.session_key locker.contents
      inner ← lift (decrypt aead client_finish.session_key encrypted_contents)
      plaintext ← lift (decrypt aead client_finish.export_key inner)
      lift (from_utf8 plaintext)
