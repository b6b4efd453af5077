-- ===== src/Examples/DigitalLocker/Opened.antt =====
-- examples/digital_locker.rs: opening a locker that was registered.
use opaque_vx.Prelude.{ℕ, Bytes, ◌≡◌, ◌≤◌, length, true, none}
use opaque_vx.Prelude.Results.{ok, bind_ok, unwrap, unwrap-eq-ok, passes, map_err}
use opaque_vx.Prelude.Act.{lift_ok}
use opaque_vx.Serialization.Integers.{be_bytes}
use opaque_vx.KeyExchange.Serialized.{from_context, SerializedContext}
use opaque_vx.KeyExchange.Trait.{Encodings}
use opaque_vx.CipherSuite.{CipherSuite, Rng}
use opaque_vx.Opaque.{LocalSetup, ServerRegistration}
use opaque_vx.Opaque.Enrolled.{Enrolled}
use opaque_vx.Opaque.SuiteLaws.{SuiteLaws}
use opaque_vx.Opaque.RegisterServer.{server_registration_finish}
use opaque_vx.Opaque.States.{serialize_server_registration, deserialize_server_registration}
use opaque_vx.Examples.Utf8.{is_utf8, from_utf8}
use opaque_vx.Examples.Wire.{
  no_identifiers, Blindable, registered_over_wire, read_over_wire, logged_in,
}
use opaque_vx.Examples.DigitalLocker.{Locker, register_locker, open_locker}
use opaque_vx.Examples.DigitalLocker.Cipher.{Aead, AeadLaws, decrypt}
use opaque_vx.Examples.DigitalLocker.Sealing.{decrypt-encrypt, encrypt_total}

module _ (aead : Aead) (aead_laws : AeadLaws aead) (cs : CipherSuite)
    (e : Encodings cs.key_exchange) (laws : SuiteLaws cs e) (setup : LocalSetup cs)
    (paired : setup.keypair.pk ≡ cs.key_exchange.group.public_key setup.keypair.sk)
    (valid : laws.group_laws.SkIsValid setup.keypair.sk) (locker_id : ℕ)
    (password secret_message : Bytes) (locker : Locker) where
  -- A locker that holds a message under a password: its file is the record of the user with this
  -- password, whose export key decrypts the contents.
  pub record Holds : Type 0 where
    pub file : ServerRegistration cs
    pub export_key : Bytes
    pub user : Enrolled cs setup password (be_bytes 8 locker_id) no_identifiers none file export_key
    pub filed : locker.password_file ≡ serialize_server_registration cs file
    pub decrypts : decrypt aead {E = Bytes} export_key locker.contents ≡ ok secret_message

  pub register_locker-Holds :
      {E : Type 0} (r r' : Rng cs)
      → register_locker aead cs {E = E} setup locker_id password secret_message r ≡ ok (locker, r')
      → Holds
  unfolding register_locker server_registration_finish serialize_server_registration
  register_locker-Holds {E} r r' h = bind_ok _ _ h λ begun begins h1.
      lift_ok _ _ _ h1 λ request read h2. lift_ok _ _ _ h2 λ replied replies h3.
        lift_ok _ _ _ h3 λ response read' h4. bind_ok _ _ h4 λ registered registers h5.
          bind_ok _ _ h5 λ ciphertext encrypted h6. lift_ok _ _ _ h6 λ upload read'' h7.
            let user =
              registered_over_wire cs e laws setup paired valid password (be_bytes 8 locker_id) r
                begun.1 begun.1 registered.1 begun.0 request replied response registered.0
                (unwrap-eq-ok _ begins) (unwrap-eq-ok _ read) (unwrap-eq-ok _ replies)
                (unwrap-eq-ok _ read') (unwrap-eq-ok _ registers) in
            let same =
              read_over_wire cs e laws setup paired valid password _ registered.0.message upload _
                user (unwrap-eq-ok _ read'') in
            let contents : ciphertext.0 ≡ locker.contents = cc in
            record {
              file = registered.0.message;
              export_key = registered.0.export_key;
              user = user;
              filed = cc;
              decrypts = rw (← contents) (
                  decrypt-encrypt aead aead_laws cs.oprf laws.oprf_laws.length-fill_bytes {E = E}
                    {F = Bytes} registered.0.export_key secret_message ciphertext.0 registered.1
                    ciphertext.1 encrypted);
            }

  -- A locker that holds a message opens to it.
  pub open_locker-Holds :
      (context : SerializedContext)
      → Holds
      → Blindable cs setup password (be_bytes 8 locker_id)
      → from_context cs.oprf none ≡ ok context
      → 32 ≤ cs.key_exchange.hash.output_size
      → length locker.contents ≤ aead.max
      → is_utf8 secret_message ≡ true
      → (r : Rng cs)
      → (r' : Rng cs) × (open_locker aead cs e setup locker_id password locker r
          ≡ ok (secret_message, r'))
  unfolding open_locker from_utf8 serialize_server_registration deserialize_server_registration
      unwrap map_err
  open_locker-Holds context holds blindable in_context long fits utf8 r =
      let login =
        logged_in cs e laws setup paired valid password (be_bytes 8 locker_id) context holds.file
          holds.export_key holds.user blindable in_context r in
      let filled = laws.oprf_laws.length-fill_bytes in
      let (sent, r4, encrypts) =
        encrypt_total aead aead_laws cs.oprf filled {E = Bytes} login.finished.session_key
          locker.contents login.r3 (rw (login.length-session_key) long) fits in
      let received =
        decrypt-encrypt aead aead_laws cs.oprf filled {E = Bytes} {F = Bytes}
          login.finished.session_key locker.contents sent login.r3 r4 encrypts in
      let opens : decrypt aead {E = Bytes} login.finished.export_key locker.contents
          ≡ ok secret_message =
        rw (login.same_export_key) holds.decrypts in
      (
        r4,
        simp (
          login.requests, holds.filed, login.file_reads, login.request_reads, login.responds,
          login.response_reads, login.finishes, login.finalization_reads, login.accepts, encrypts,
          received, opens, utf8, passes,
        ),
      )
