-- ===== src/Lib.antt =====
-- The OPAQUE protocol library of this repository (crate `opaque-vx`): password authentication where
-- the server never learns the password.
--
-- The program's parts. A cipher suite (src/ciphersuite.rs) chooses an oblivious pseudorandom function,
-- a key exchange and a key stretching function. In registration (src/opaque.rs), the client blinds its
-- password, the server evaluates it under a key derived from its seed and the user's credential
-- identifier, and the client unblinds, seals an envelope (src/envelope.rs) and uploads it. In login the
-- server sends the envelope and its public key masked, the client unmasks and opens them, and both run
-- the key exchange (src/key_exchange/) over a transcript of all messages. The messages
-- (src/messages.rs) and the states between two steps are encoded as fixed-length byte strings.
--
-- The files, and what they model:
--   Prelude             bytes, tests, xor; Prelude.Results is Rust's `Result` with panics, Prelude.Act
--                       threads a random generator or an input slice through fallible steps
--   Errors              src/errors.rs: `InternalError`, `ProtocolError`, `into_custom`
--   Serialization       src/serialization/mod.rs: `i2osp`, `os2ip`, `take_array`, `cat`, `concat_ext`
--   Hash, Oprf, Group   the crates digest, hkdf, hmac, rand and voprf, and the traits `Group`
--                       (src/key_exchange/group/mod.rs) and `DiffieHellman`, as records of operations,
--                       each with a record of the laws that it documents
--   Masked, Masking     src/opaque.rs: `MaskedResponse`, `mask_response`, `unmask_response`
--   Keypair             src/keypair.rs: key pairs and their encodings
--   KeyExchange         src/key_exchange/: Serialized and Trait are mod.rs, Shared is shared.rs, TripleDh
--                       is tripledh.rs, TripleDhKem is tripledh_kem.rs: Mechanism is the trait
--                       `KemCoreWrapper`, Adapter its instance for the crate ml-kem; SigmaI is
--                       sigma_i/mod.rs, its Messages are sigma_i/message.rs and its Protocol is the
--                       trait `SignatureProtocol`; its Ecdsa, HashEddsa, PureEddsa and PreHash are the
--                       files of these names and sigma_i/shared.rs. Groups are the instances of `Group`
--                       in group/: Ed25519 (with its EdDSA), Curve25519, Ristretto255, EllipticCurve,
--                       each over a record of what the curve crate does
--   Envelope            src/envelope.rs: `seal`, `open`, `seal_raw`, `open_raw` and the key derivation
--   CipherSuite         src/ciphersuite.rs and src/ksf.rs
--   Messages            src/messages.rs: the messages and their encodings
--   Opaque              src/opaque.rs: Setup is `ServerSetup`; RegisterClient, RegisterServer,
--                       LoginClient, LoginServer and ServerFinish are the steps of both sides, named
--                       after the type and the function (`ClientLogin::finish` is
--                       `client_login_finish`); States are the encodings of the
--                       states; Totality, Produced, Liveness, Readable and SuiteLaws are about which
--                       steps can fail and about the encodings of what is sent, Outcomes about all the
--                       ways in which the client's last steps end, Refusals about unknown users
--   Examples            examples/: DigitalLocker is digital_locker.rs (Cipher is its use of the crate
--                       chacha20poly1305, Menu the loop of `main` as a step relation, Menu.Table the
--                       table that the loop refines) and SimpleLogin is simple_login.rs (Accounts is
--                       its table); Wire has the exchanges of both, Utf8 is `String::from_utf8`
--   Tests               a small cipher suite whose laws hold, a whole run of it, and the examples
--
-- How the code is rendered. A byte string is a list of numbers; a `GenericArray` of length `L` is a
-- byte string, and that its length is `L` is a hypothesis where it matters. A `usize` has 64 bits,
-- and the bound 2 ^ 64 is written where an operation depends on it. A function that takes `&mut R`
-- takes the generator's state and returns the next; one that takes `&mut &[u8]` takes the slice and
-- returns what is left. `?` is `>>=`, and the conversions of errors that `?` applies are written out.
-- `unwrap` is a panic. No definition needs fuel: the loops of the code run over a list, except the
-- one of `Ristretto255::random_sk`, which draws until a scalar is not zero and is defined where that
-- happens (by accessibility), and those of the examples' `main`, which need not end and are
-- relations. Keys are valid by the way they are made, since their fields are private: a group's laws
-- come with what its valid keys are, and the round trips of keys are on valid ones. Secrets that are
-- wiped (`Zeroize`), constant-time comparison and the serde instances have no counterpart. The
-- branches under `cfg(test)` are left out.
--
-- Not modelled: the Argon2 instance of `Ksf` and the instance of `voprf::Group` in
-- src/key_exchange/group/ristretto255.rs, which only call their crates, the serde instances, and the
-- documentation and re-exports of src/lib.rs. Of examples/, the terminal input and output,
-- and what each loop prints before it reads a line.
pub mod Prelude
pub mod Errors
pub mod Serialization
pub mod Hash
pub mod Oprf
pub mod Group
pub mod Masked
pub mod Keypair
pub mod KeyExchange
pub mod Envelope
pub mod Masking
pub mod CipherSuite
pub mod Messages
pub mod Opaque
pub mod Examples
pub mod Tests
