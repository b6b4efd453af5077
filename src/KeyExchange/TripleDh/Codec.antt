-- ===== src/KeyExchange/TripleDh/Codec.antt =====
-- key_exchange/tripledh.rs: the encodings of `Ke2State`, `Ke2Message` and `Ke3Message`.
use opaque_vx.Prelude.{Bytes}
use opaque_vx.Prelude.Act.{Act, pure, ◌>>=◌}
use opaque_vx.Serialization.{take_array, cat}
use opaque_vx.Hash.{Hash}
use opaque_vx.Oprf.{OprfCs, Failure}
use opaque_vx.Group.{Group}
use opaque_vx.KeyExchange.Serialized.{nonce_len}
use opaque_vx.KeyExchange.TripleDh.{Ke2State, Ke2Message, Ke3Message}

unfoldable pub serialize_ke2_state : Ke2State → Bytes
serialize_ke2_state self = cat self.session_key self.expected_mac

unfoldable pub serialize_ke2_message : {o : OprfCs} (g : Group o) → Ke2Message g → Bytes
serialize_ke2_message g self =
    cat (cat self.server_nonce (g.serialize_pk self.server_e_pk)) self.mac

unfoldable pub serialize_ke3_message : Ke3Message → Bytes
serialize_ke3_message self = self.mac

module _ (o : OprfCs) (h : Hash) where
  unfoldable pub deserialize_take_ke2_state : Act (Failure o) Bytes Ke2State
  deserialize_take_ke2_state = do
    session_key ← take_array h.output_size "session key"
    expected_mac ← take_array h.output_size "expected mac"
    pure (record { session_key = session_key; expected_mac = expected_mac })

  unfoldable pub deserialize_take_ke2_message : (g : Group o) → Act (Failure o) Bytes (Ke2Message g)
  deserialize_take_ke2_message g = do
    server_nonce ← take_array nonce_len "server nonce"
    server_e_pk ← g.deserialize_take_pk
    mac ← take_array h.output_size "mac"
    pure (record { server_nonce = server_nonce; server_e_pk = server_e_pk; mac = mac })

  unfoldable pub deserialize_take_ke3_message : Act (Failure o) Bytes Ke3Message
  deserialize_take_ke3_message = do
    mac ← take_array h.output_size "mac"
    pure (record { mac = mac })
