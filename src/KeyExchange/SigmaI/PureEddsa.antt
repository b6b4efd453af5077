-- ===== src/KeyExchange/SigmaI/PureEddsa.antt =====
-- key_exchange/sigma_i/pure_eddsa.rs: PureEdDSA, for a group that implements it.
use opaque_vx.Prelude.{Bytes}
use opaque_vx.Prelude.Results.{Result}
use opaque_vx.Prelude.Act.{Act}
use opaque_vx.Hash.{Hash}
use opaque_vx.Oprf.{OprfCs, Failure}
use opaque_vx.Group.{Group}
use opaque_vx.KeyExchange.SigmaI.Messages.{Message, MessageBuilder, CachedMessage}
use opaque_vx.KeyExchange.SigmaI.Codec.{serialize_cached_message, deserialize_take_cached_message}
use opaque_vx.KeyExchange.SigmaI.Protocol.{SignatureProtocol}

pub record PureEddsaImpl {o : OprfCs} (g : Group o) : Type 1 where
  pub Signature : Type 0
  pub sign : g.Sk → Message → Signature × CachedMessage
  pub verify : g.Pk → MessageBuilder → CachedMessage → Signature → Result (Failure o) (Unit {0})
  pub deserialize_take_signature : Act (Failure o) Bytes Signature
  pub serialize_signature : Signature → Bytes

-- `impl SignatureProtocol for PureEddsa<G>`; the generator is not used. `ke` is the group of the
-- ephemeral keys and `h` the hash of the exchange, which the encoding of the state depends on.
unfoldable pub pure_eddsa :
    {o : OprfCs} {g : Group o} → PureEddsaImpl g → Group o → Hash → SignatureProtocol g
pure_eddsa {o} {g} e ke h = record {
  Signature = e.Signature;
  VerifyState = CachedMessage;
  sign = λ sk message rng. (e.sign sk message, rng);
  verify = e.verify;
  serialize_signature = e.serialize_signature;
  deserialize_take_signature = e.deserialize_take_signature;
  serialize_verify_state = serialize_cached_message;
  deserialize_take_verify_state = deserialize_take_cached_message o g ke h;
}
