-- ===== src/KeyExchange/SigmaI/Protocol.antt =====
-- key_exchange/sigma_i/mod.rs: the trait `SignatureProtocol`, and what the exchange relies on.
use opaque_vx.Prelude.{Bytes, ◌≡◌, ◌++◌}
use opaque_vx.Prelude.Results.{Result, ok}
use opaque_vx.Prelude.Act.{Act}
use opaque_vx.Oprf.{OprfCs, Failure}
use opaque_vx.Group.{Group}
use opaque_vx.KeyExchange.SigmaI.Messages.{
  Message, MessageBuilder, sign_message, verify_message, build_message, to_cached,
}
use opaque_vx.KeyExchange.SigmaI.Signed.{peer_builder}

pub record SignatureProtocol {o : OprfCs} (g : Group o) : Type 1 where
  pub Signature : Type 0
  pub VerifyState : Type 0
  pub sign : g.Sk → Message → o.Rng → (Signature × VerifyState) × o.Rng
  pub verify : g.Pk → MessageBuilder → VerifyState → Signature → Result (Failure o) (Unit {0})
  pub serialize_signature : Signature → Bytes
  pub deserialize_take_signature : Act (Failure o) Bytes Signature
  pub serialize_verify_state : VerifyState → Bytes
  pub deserialize_take_verify_state : Act (Failure o) Bytes VerifyState

-- A signature by a valid key verifies under the maker's public key, for a side whose own message says that this is
-- what the peer signs.
pub record SignatureLaws {o : OprfCs} {g : Group o} (s : SignatureProtocol g)
    (SkIsValid : g.Sk → Type 0) : Type 0 where
  pub verify-sign :
      (sk own_sk : g.Sk) (signed own : Message) (r own_r : o.Rng)
      → SkIsValid sk
      → verify_message (build_message (peer_builder own) (to_cached own)) ≡ sign_message signed
      → s.verify
          (g.public_key sk)
          (peer_builder own)
          (s.sign own_sk own own_r).0.1
          (s.sign sk signed r).0.0
        ≡ ok tt

-- Valid signatures and states read back from the front of a slice, which moves past them.
pub record SignatureEncodingLaws {o : OprfCs} {g : Group o} (s : SignatureProtocol g) : Type 1 where
  pub SignatureIsValid : s.Signature → Type 0
  pub VerifyStateIsValid : s.VerifyState → Type 0
  pub take_signature :
      (signature : s.Signature) (rest : Bytes)
      → SignatureIsValid signature
      → s.deserialize_take_signature (s.serialize_signature signature ++ rest)
        ≡ ok (signature, rest)
  pub take_verify_state :
      (state : s.VerifyState) (rest : Bytes)
      → VerifyStateIsValid state
      → s.deserialize_take_verify_state (s.serialize_verify_state state ++ rest) ≡ ok (state, rest)
