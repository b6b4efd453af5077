-- ===== src/KeyExchange/TripleDhKem/Codec.antt =====
-- key_exchange/tripledh_kem.rs: the encodings of the states and messages.
use opaque_vx.Prelude.{Bytes}
use opaque_vx.Prelude.Act.{Act, pure, ◌>>=◌}
use opaque_vx.Serialization.{take_array, cat}
use opaque_vx.Hash.{Hash}
use opaque_vx.Oprf.{OprfCs, Failure}
use opaque_vx.Group.{Group}
use opaque_vx.KeyExchange.Shared.Codec.{
  serialize_ke1_state, deserialize_take_ke1_state, serialize_ke1_message,
  deserialize_take_ke1_message,
}
use opaque_vx.KeyExchange.TripleDh.Codec.{
  serialize_ke2_state, deserialize_take_ke2_state, serialize_ke2_message,
  deserialize_take_ke2_message,
}
use opaque_vx.KeyExchange.TripleDhKem.Mechanism.{Kem}
use opaque_vx.KeyExchange.TripleDhKem.{KemKe1State, KemKe1Message, KemKe2State, KemKe2Message}

module _ {o : OprfCs} (g : Group o) (k : Kem o) where
  unfoldable pub serialize_kem_ke1_state : KemKe1State g k → Bytes
  serialize_kem_ke1_state self =
      cat (serialize_ke1_state g self.dh_state)
        (k.serialize_decapsulation_key self.kem_decapsulation_key)

  unfoldable pub deserialize_take_kem_ke1_state : Act (Failure o) Bytes (KemKe1State g k)
  deserialize_take_kem_ke1_state = do
    dh_state ← deserialize_take_ke1_state g
    kem_decapsulation_key ← k.deserialize_decapsulation_key
    pure (record { dh_state = dh_state; kem_decapsulation_key = kem_decapsulation_key })

  unfoldable pub serialize_kem_ke1_message : KemKe1Message g → Bytes
  serialize_kem_ke1_message self =
      cat (serialize_ke1_message g self.dh_message) self.kem_encapsulation_key

  unfoldable pub deserialize_take_kem_ke1_message : Act (Failure o) Bytes (KemKe1Message g)
  deserialize_take_kem_ke1_message = do
    dh_message ← deserialize_take_ke1_message g
    kem_encapsulation_key ← take_array k.encapsulation_key_len "kem encapsulation key"
    pure (record { dh_message = dh_message; kem_encapsulation_key = kem_encapsulation_key })

  unfoldable pub serialize_kem_ke2_state : KemKe2State → Bytes
  serialize_kem_ke2_state self =
      cat (cat (serialize_ke2_state self.base_state) self.kem_encapsulation_key)
        self.server_kem_ciphertext

  unfoldable pub deserialize_take_kem_ke2_state : (h : Hash) → Act (Failure o) Bytes KemKe2State
  deserialize_take_kem_ke2_state h = do
    base_state ← deserialize_take_ke2_state o h
    kem_encapsulation_key ← take_array k.encapsulation_key_len "kem encapsulation key"
    server_kem_ciphertext ← take_array k.ciphertext_len "kem ciphertext"
    pure (record {
      base_state = base_state;
      kem_encapsulation_key = kem_encapsulation_key;
      server_kem_ciphertext = server_kem_ciphertext;
    })

  unfoldable pub serialize_kem_ke2_message : KemKe2Message g → Bytes
  serialize_kem_ke2_message self = cat (serialize_ke2_message g self.dh_message) self.kem_ciphertext

  unfoldable pub deserialize_take_kem_ke2_message :
      (h : Hash) → Act (Failure o) Bytes (KemKe2Message g)
  deserialize_take_kem_ke2_message h = do
    dh_message ← deserialize_take_ke2_message o h g
    kem_ciphertext ← take_array k.ciphertext_len "kem ciphertext"
    pure (record { dh_message = dh_message; kem_ciphertext = kem_ciphertext })
