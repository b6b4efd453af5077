-- ===== src/KeyExchange/TripleDhKem/Encodings.antt =====
-- key_exchange/tripledh_kem.rs: the encodings of the states and messages, and that they read back.
use opaque_vx.Prelude.{Bytes, ◌≡◌, length, append_assoc, ◌++◌}
use opaque_vx.Prelude.Results.{ok, passes}
use opaque_vx.Serialization.{take_array-append}
use opaque_vx.Hash.{Hash}
use opaque_vx.Oprf.{OprfCs}
use opaque_vx.Group.{Group, GroupLaws, DiffieHellman}
use opaque_vx.KeyExchange.Serialized.{nonce_len}
use opaque_vx.KeyExchange.Trait
use opaque_vx.KeyExchange.TripleDh.Codec.{serialize_ke3_message, deserialize_take_ke3_message}
use opaque_vx.KeyExchange.TripleDh.Encodings.{
  take_ke1_state, take_ke1_message, take_ke2_state, take_ke3_message,
  deserialize_take_ke2_message-serialize_ke2_message,
}
use opaque_vx.KeyExchange.TripleDhKem.Mechanism.{Kem, KemEncodingLaws}
use opaque_vx.KeyExchange.TripleDhKem.{
  KemKe1State, KemKe1Message, KemKe2State, KemKe2Message, triple_dh_kem,
}
use opaque_vx.KeyExchange.TripleDhKem.Codec.{
  serialize_kem_ke1_state, deserialize_take_kem_ke1_state, serialize_kem_ke1_message,
  deserialize_take_kem_ke1_message, serialize_kem_ke2_state, deserialize_take_kem_ke2_state,
  serialize_kem_ke2_message, deserialize_take_kem_ke2_message,
}

module _ (o : OprfCs) (g : Group o) (d : DiffieHellman g) (h : Hash) (k : Kem o) where
  abbrev pub triple_dh_kem_encodings : Trait.Encodings (triple_dh_kem o g d h k)
  triple_dh_kem_encodings = record {
    serialize_ke1_state = serialize_kem_ke1_state g k;
    deserialize_take_ke1_state = deserialize_take_kem_ke1_state g k;
    serialize_ke1_message = serialize_kem_ke1_message g k;
    deserialize_take_ke1_message = deserialize_take_kem_ke1_message g k;
    serialize_ke2_state = serialize_kem_ke2_state g k;
    deserialize_take_ke2_state = deserialize_take_kem_ke2_state g k h;
    serialize_ke2_message = serialize_kem_ke2_message g k;
    deserialize_take_ke2_message = deserialize_take_kem_ke2_message g k h;
    serialize_ke3_message = serialize_ke3_message;
    deserialize_take_ke3_message = deserialize_take_ke3_message o h;
  }

  module _ (laws : GroupLaws g) where
    pub take_kem_ke1_state :
        KemEncodingLaws k
        → (s : KemKe1State g k) (rest : Bytes) → length s.dh_state.client_nonce ≡ nonce_len
        → laws.SkIsValid s.dh_state.client_e_sk
        → deserialize_take_kem_ke1_state g k (serialize_kem_ke1_state g k s ++ rest) ≡ ok (s, rest)
    unfolding serialize_kem_ke1_state deserialize_take_kem_ke1_state
    take_kem_ke1_state kem_laws s rest nonce valid = simp (
      append_assoc,
      take_ke1_state o g d h laws s.dh_state _ nonce valid,
      kem_laws.take_decapsulation_key,
      passes,
    )

    pub take_kem_ke1_message :
        (m : KemKe1Message g) (rest : Bytes)
        → length m.dh_message.client_nonce ≡ nonce_len
        → length m.kem_encapsulation_key ≡ k.encapsulation_key_len
        → laws.PkIsValid m.dh_message.client_e_pk
        → deserialize_take_kem_ke1_message g k (serialize_kem_ke1_message g k m ++ rest)
          ≡ ok (m, rest)
    unfolding serialize_kem_ke1_message deserialize_take_kem_ke1_message
    take_kem_ke1_message m rest nonce key valid = simp (
      append_assoc,
      take_ke1_message o g d h laws m.dh_message _ nonce valid,
      take_array-append k.encapsulation_key_len "kem encapsulation key" m.kem_encapsulation_key rest
          key,
      passes,
    )

    pub take_kem_ke2_state :
        (s : KemKe2State) (rest : Bytes)
        → length s.base_state.session_key ≡ h.output_size
        → length s.base_state.expected_mac ≡ h.output_size
        → length s.kem_encapsulation_key ≡ k.encapsulation_key_len
        → length s.server_kem_ciphertext ≡ k.ciphertext_len
        → deserialize_take_kem_ke2_state g k h (serialize_kem_ke2_state g k s ++ rest)
          ≡ ok (s, rest)
    unfolding serialize_kem_ke2_state deserialize_take_kem_ke2_state
    take_kem_ke2_state s rest key mac ek ciphertext = simp (
      append_assoc,
      take_ke2_state o g d h laws s.base_state _ key mac,
      take_array-append k.encapsulation_key_len "kem encapsulation key" s.kem_encapsulation_key _
          ek,
      take_array-append k.ciphertext_len "kem ciphertext" s.server_kem_ciphertext rest ciphertext,
      passes,
    )

    -- The server's message of the exchange with a key encapsulation reads back, where its nonce, its
    -- MAC and its ciphertext have their lengths, and the slice moves past it.
    pub take_kem_ke2_message :
        (m : KemKe2Message g) (rest : Bytes)
        → length m.dh_message.server_nonce ≡ nonce_len
        → length m.dh_message.mac ≡ h.output_size
        → length m.kem_ciphertext ≡ k.ciphertext_len
        → laws.PkIsValid m.dh_message.server_e_pk
        → deserialize_take_kem_ke2_message g k h (serialize_kem_ke2_message g k m ++ rest)
          ≡ ok (m, rest)
    unfolding serialize_kem_ke2_message deserialize_take_kem_ke2_message
    take_kem_ke2_message m rest nonce mac ciphertext valid = simp (
      append_assoc,
      deserialize_take_ke2_message-serialize_ke2_message o g d h laws m.dh_message _ nonce mac
          valid,
      take_array-append k.ciphertext_len "kem ciphertext" m.kem_ciphertext rest ciphertext,
      passes,
    )

    abbrev pub triple_dh_kem_encodings_laws :
        KemEncodingLaws k → Trait.EncodingsLaws (triple_dh_kem o g d h k) triple_dh_kem_encodings
    triple_dh_kem_encodings_laws kem_laws = record {
      Ke1StateIsValid =
          λ s. (length s.dh_state.client_nonce ≡ nonce_len) × laws.SkIsValid s.dh_state.client_e_sk;
      Ke1MessageIsValid = λ m.
          (length m.dh_message.client_nonce ≡ nonce_len)
          × (length m.kem_encapsulation_key ≡ k.encapsulation_key_len)
          × laws.PkIsValid m.dh_message.client_e_pk;
      Ke2StateIsValid = λ s.
          (length s.base_state.session_key ≡ h.output_size)
          × (length s.base_state.expected_mac ≡ h.output_size)
          × (length s.kem_encapsulation_key ≡ k.encapsulation_key_len)
          × (length s.server_kem_ciphertext ≡ k.ciphertext_len);
      Ke2MessageIsValid = λ m.
          (length m.dh_message.server_nonce ≡ nonce_len)
          × (length m.dh_message.mac ≡ h.output_size)
          × (length m.kem_ciphertext ≡ k.ciphertext_len)
          × laws.PkIsValid m.dh_message.server_e_pk;
      Ke3MessageIsValid = λ m. length m.mac ≡ h.output_size;
      take_ke1_state = λ s rest valid. take_kem_ke1_state kem_laws s rest valid.0 valid.1;
      take_ke1_message = λ m rest valid. take_kem_ke1_message m rest valid.0 valid.1 valid.2;
      take_ke2_state = λ s rest valid. take_kem_ke2_state s rest valid.0 valid.1 valid.2 valid.3;
      take_ke2_message =
          λ m rest valid. take_kem_ke2_message m rest valid.0 valid.1 valid.2 valid.3;
      take_ke3_message = take_ke3_message o g d h laws;
    }
