-- ===== src/KeyExchange/SigmaI/HashEddsa.antt =====
-- key_exchange/sigma_i/hash_eddsa.rs: HashEdDSA, for a group that implements it.
use opaque_vx.Prelude.{Bytes}
use opaque_vx.Prelude.Results.{Result}
use opaque_vx.Prelude.Act.{Act}
use opaque_vx.Oprf.{OprfCs, Failure}
use opaque_vx.Group.{Group}
use opaque_vx.KeyExchange.SigmaI.Messages.{Message}
use opaque_vx.KeyExchange.SigmaI.Protocol.{SignatureProtocol}

pub record HashEddsaImpl {o : OprfCs} (g : Group o) : Type 1 where
  pub Signature : Type 0
  pub VerifyState : Type 0
  pub sign : g.Sk → Message → Signature × VerifyState
  pub verify : g.Pk → VerifyState → Signature → Result (Failure o) (Unit {0})
  pub deserialize_take_signature : Act (Failure o) Bytes Signature
  pub serialize_signature : Signature → Bytes
  pub serialize_verify_state : VerifyState → Bytes
  pub deserialize_take_verify_state : Act (Failure o) Bytes VerifyState

-- `impl SignatureProtocol for HashEddsa<G>`; the generator and the builder are not used.
unfoldable pub hash_eddsa : {o : OprfCs} {g : Group o} → HashEddsaImpl g → SignatureProtocol g
hash_eddsa e = record {
  Signature = e.Signature;
  VerifyState = e.VerifyState;
  sign = λ sk message rng. (e.sign sk message, rng);
  verify = λ pk message_builder state signature. e.verify pk state signature;
  serialize_signature = e.serialize_signature;
  deserialize_take_signature = e.deserialize_take_signature;
  serialize_verify_state = e.serialize_verify_state;
  deserialize_take_verify_state = e.deserialize_take_verify_state;
}
