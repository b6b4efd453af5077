-- ===== src/KeyExchange/TripleDh/Encodings.antt =====
-- key_exchange/tripledh.rs and shared.rs: the encodings of the states and messages, and that they read
-- back.
use opaque_vx.Prelude.{Bytes, ◌≡◌, length, append_assoc, ◌++◌}
use opaque_vx.Prelude.Results.{ok, passes}
use opaque_vx.Serialization.{take_array-append}
use opaque_vx.Hash.{Hash}
use opaque_vx.Oprf.{OprfCs}
use opaque_vx.Group.{Group, GroupLaws, DiffieHellman}
use opaque_vx.KeyExchange.Serialized.{nonce_len}
use opaque_vx.KeyExchange.Trait
use opaque_vx.KeyExchange.Shared.{Ke1State, Ke1Message}
use opaque_vx.KeyExchange.Shared.Codec.{
  serialize_ke1_state, deserialize_take_ke1_state, serialize_ke1_message,
  deserialize_take_ke1_message,
}
use opaque_vx.KeyExchange.TripleDh.{Ke2State, Ke2Message, Ke3Message, triple_dh}
use opaque_vx.KeyExchange.TripleDh.Codec.{
  serialize_ke2_state, deserialize_take_ke2_state, serialize_ke2_message,
  deserialize_take_ke2_message, serialize_ke3_message, deserialize_take_ke3_message,
}

module _ (o : OprfCs) (g : Group o) (d : DiffieHellman g) (h : Hash) where
  abbrev pub triple_dh_encodings : Trait.Encodings (triple_dh o g d h)
  triple_dh_encodings = record {
    serialize_ke1_state = serialize_ke1_state g;
    deserialize_take_ke1_state = deserialize_take_ke1_state g;
    serialize_ke1_message = serialize_ke1_message g;
    deserialize_take_ke1_message = deserialize_take_ke1_message g;
    serialize_ke2_state = serialize_ke2_state;
    deserialize_take_ke2_state = deserialize_take_ke2_state o h;
    serialize_ke2_message = serialize_ke2_message g;
    deserialize_take_ke2_message = deserialize_take_ke2_message o h g;
    serialize_ke3_message = serialize_ke3_message;
    deserialize_take_ke3_message = deserialize_take_ke3_message o h;
  }

  module _ (laws : GroupLaws g) where
    pub take_ke1_state :
        (s : Ke1State g) (rest : Bytes)
        → length s.client_nonce ≡ nonce_len
        → laws.SkIsValid s.client_e_sk
        → deserialize_take_ke1_state g (serialize_ke1_state g s ++ rest) ≡ ok (s, rest)
    unfolding serialize_ke1_state deserialize_take_ke1_state
    take_ke1_state s rest nonce valid = simp (
      append_assoc,
      laws.take_sk s.client_e_sk _ valid,
      take_array-append nonce_len "client nonce" s.client_nonce rest nonce,
      passes,
    )

    pub take_ke1_message :
        (m : Ke1Message g) (rest : Bytes)
        → length m.client_nonce ≡ nonce_len
        → laws.PkIsValid m.client_e_pk
        → deserialize_take_ke1_message g (serialize_ke1_message g m ++ rest) ≡ ok (m, rest)
    unfolding serialize_ke1_message deserialize_take_ke1_message
    take_ke1_message m rest nonce valid = simp (
      append_assoc,
      take_array-append nonce_len "client nonce" m.client_nonce _ nonce,
      laws.take_pk m.client_e_pk _ valid,
      passes,
    )

    -- The server's message of the key exchange reads back, where its nonce and its MAC have their
    -- lengths, and the slice moves past it.
    pub deserialize_take_ke2_message-serialize_ke2_message :
        (m : Ke2Message g) (rest : Bytes)
        → length m.server_nonce ≡ nonce_len
        → length m.mac ≡ h.output_size
        → laws.PkIsValid m.server_e_pk
        → deserialize_take_ke2_message o h g (serialize_ke2_message g m ++ rest) ≡ ok (m, rest)
    unfolding serialize_ke2_message deserialize_take_ke2_message
    deserialize_take_ke2_message-serialize_ke2_message m rest nonce mac valid = simp (
      append_assoc,
      take_array-append nonce_len "server nonce" m.server_nonce _ nonce,
      laws.take_pk m.server_e_pk _ valid,
      take_array-append h.output_size "mac" m.mac rest mac,
      passes,
    )

    pub take_ke2_state :
        (s : Ke2State) (rest : Bytes)
        → length s.session_key ≡ h.output_size
        → length s.expected_mac ≡ h.output_size
        → deserialize_take_ke2_state o h (serialize_ke2_state s ++ rest) ≡ ok (s, rest)
    unfolding serialize_ke2_state deserialize_take_ke2_state
    take_ke2_state s rest key mac = simp (
      append_assoc,
      take_array-append h.output_size "session key" s.session_key _ key,
      take_array-append h.output_size "expected mac" s.expected_mac rest mac,
      passes,
    )

    pub take_ke3_message :
        (m : Ke3Message) (rest : Bytes)
        → length m.mac ≡ h.output_size
        → deserialize_take_ke3_message o h (serialize_ke3_message m ++ rest) ≡ ok (m, rest)
    unfolding serialize_ke3_message deserialize_take_ke3_message
    take_ke3_message m rest mac =
        simp (take_array-append h.output_size "mac" m.mac rest mac, passes)

    abbrev pub triple_dh_encodings_laws :
        Trait.EncodingsLaws (triple_dh o g d h) triple_dh_encodings
    triple_dh_encodings_laws = record {
      Ke1StateIsValid = λ s. (length s.client_nonce ≡ nonce_len) × laws.SkIsValid s.client_e_sk;
      Ke1MessageIsValid = λ m. (length m.client_nonce ≡ nonce_len) × laws.PkIsValid m.client_e_pk;
      Ke2StateIsValid =
          λ s. (length s.session_key ≡ h.output_size) × (length s.expected_mac ≡ h.output_size);
      Ke2MessageIsValid = λ m.
          (length m.server_nonce ≡ nonce_len)
          × (length m.mac ≡ h.output_size)
          × laws.PkIsValid m.server_e_pk;
      Ke3MessageIsValid = λ m. length m.mac ≡ h.output_size;
      take_ke1_state = λ s rest valid. take_ke1_state s rest valid.0 valid.1;
      take_ke1_message = λ m rest valid. take_ke1_message m rest valid.0 valid.1;
      take_ke2_state = λ s rest valid. take_ke2_state s rest valid.0 valid.1;
      take_ke2_message = λ m rest valid.
          deserialize_take_ke2_message-serialize_ke2_message m rest valid.0 valid.1 valid.2;
      take_ke3_message = take_ke3_message;
    }
