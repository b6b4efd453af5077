-- ===== src/KeyExchange/Shared/Codec.antt =====
-- key_exchange/shared.rs: the encodings of `Ke1State`, `Ke1Message` and `Ke1MessageIter`.
use opaque_vx.Prelude.{Bytes}
use opaque_vx.Prelude.Act.{Act, pure, ◌>>=◌}
use opaque_vx.Serialization.{take_array, cat}
use opaque_vx.Oprf.{OprfCs, Failure}
use opaque_vx.Group.{Group}
use opaque_vx.KeyExchange.Serialized.{nonce_len}
use opaque_vx.KeyExchange.Shared.{Ke1State, Ke1Message, Ke1MessageIter}

module _ {o : OprfCs} (g : Group o) where
  unfoldable pub serialize_ke1_state : Ke1State g → Bytes
  serialize_ke1_state self = cat (g.serialize_sk self.client_e_sk) self.client_nonce

  unfoldable pub deserialize_take_ke1_state : Act (Failure o) Bytes (Ke1State g)
  deserialize_take_ke1_state = do
    client_e_sk ← g.deserialize_take_sk
    client_nonce ← take_array nonce_len "client nonce"
    pure (record { client_e_sk = client_e_sk; client_nonce = client_nonce })

  unfoldable pub serialize_ke1_message : Ke1Message g → Bytes
  serialize_ke1_message self = cat self.client_nonce (g.serialize_pk self.client_e_pk)

  unfoldable pub deserialize_take_ke1_message : Act (Failure o) Bytes (Ke1Message g)
  deserialize_take_ke1_message = do
    client_nonce ← take_array nonce_len "client nonce"
    client_e_pk ← g.deserialize_take_pk
    pure (record { client_nonce = client_nonce; client_e_pk = client_e_pk })

  unfoldable pub deserialize_take_ke1_iter : Act (Failure o) Bytes Ke1MessageIter
  deserialize_take_ke1_iter = do
    client_nonce ← take_array nonce_len "client nonce"
    client_e_pk ← take_array g.pk_len "client ephemeral public key"
    pure (record { client_nonce = client_nonce; client_e_pk = client_e_pk })

unfoldable pub serialize_ke1_iter : Ke1MessageIter → Bytes
serialize_ke1_iter self = cat self.client_nonce self.client_e_pk
