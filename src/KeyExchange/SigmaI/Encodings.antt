-- ===== src/KeyExchange/SigmaI/Encodings.antt =====
-- key_exchange/sigma_i/mod.rs: the encodings of the states and messages read back.
use opaque_vx.Prelude.{Bytes, ◌≡◌, length, append_assoc, ◌++◌}
use opaque_vx.Prelude.Results.{ok, passes}
use opaque_vx.Serialization.{take_array-append}
use opaque_vx.Hash.{Hash}
use opaque_vx.Oprf.{OprfCs}
use opaque_vx.Group.{Group, GroupLaws, DiffieHellman}
use opaque_vx.KeyExchange.Serialized.{nonce_len}
use opaque_vx.KeyExchange.Trait
use opaque_vx.KeyExchange.Shared.Codec.{
  serialize_ke1_state, deserialize_take_ke1_state, serialize_ke1_message,
  deserialize_take_ke1_message,
}
use opaque_vx.KeyExchange.Serialized.Codec.{
  serialize_request_parts, deserialize_take_request_parts,
  deserialize_take_response_parts-serialize_response_parts,
}
use opaque_vx.KeyExchange.Shared.Codec.{serialize_ke1_iter, deserialize_take_ke1_iter}
use opaque_vx.KeyExchange.SigmaI.Messages.{CachedMessage}
use opaque_vx.KeyExchange.SigmaI.Codec.{serialize_cached_message, deserialize_take_cached_message}
use opaque_vx.KeyExchange.TripleDh.Encodings.{take_ke1_state, take_ke1_message}
use opaque_vx.KeyExchange.SigmaI.Protocol.{SignatureProtocol, SignatureEncodingLaws}
use opaque_vx.KeyExchange.SigmaI.{Ke2State, Ke2Message, Ke3Message, sigma_i}
use opaque_vx.KeyExchange.SigmaI.Codec.{
  serialize_sigma_ke2_state, deserialize_take_sigma_ke2_state, serialize_sigma_ke2_message,
  deserialize_take_sigma_ke2_message, serialize_sigma_ke3_message,
  deserialize_take_sigma_ke3_message,
}

module _ (o : OprfCs) (g : Group o) (sig : SignatureProtocol g) (ke : Group o)
    (d : DiffieHellman ke) (h : Hash) where
  abbrev pub sigma_i_encodings : Trait.Encodings (sigma_i o g sig ke d h)
  sigma_i_encodings = record {
    serialize_ke1_state = serialize_ke1_state ke;
    deserialize_take_ke1_state = deserialize_take_ke1_state ke;
    serialize_ke1_message = serialize_ke1_message ke;
    deserialize_take_ke1_message = deserialize_take_ke1_message ke;
    serialize_ke2_state = serialize_sigma_ke2_state g sig;
    deserialize_take_ke2_state = deserialize_take_sigma_ke2_state g sig h;
    serialize_ke2_message = serialize_sigma_ke2_message g sig ke;
    deserialize_take_ke2_message = deserialize_take_sigma_ke2_message g sig ke h;
    serialize_ke3_message = serialize_sigma_ke3_message g sig;
    deserialize_take_ke3_message = deserialize_take_sigma_ke3_message g sig h;
  }

  module _ (laws : GroupLaws ke) (sig_laws : SignatureEncodingLaws sig) where
    -- SIGMA-I's message of the server reads back, where its nonce and its MAC have their lengths, and
    -- the slice moves past it.
    pub take_sigma_ke2_message :
        (m : Ke2Message sig ke) (rest : Bytes)
        → length m.server_nonce ≡ nonce_len
        → length m.mac ≡ h.output_size
        → laws.PkIsValid m.server_e_pk
        → sig_laws.SignatureIsValid m.signature
        → deserialize_take_sigma_ke2_message g sig ke h
            (serialize_sigma_ke2_message g sig ke m ++ rest)
          ≡ ok (m, rest)
    unfolding serialize_sigma_ke2_message deserialize_take_sigma_ke2_message
    take_sigma_ke2_message m rest nonce mac valid signature_valid = simp (
      append_assoc,
      take_array-append nonce_len "server nonce" m.server_nonce _ nonce,
      laws.take_pk m.server_e_pk _ valid,
      sig_laws.take_signature m.signature _ signature_valid,
      take_array-append h.output_size "mac" m.mac rest mac,
      passes,
    )

    pub take_sigma_ke2_state :
        (g_laws : GroupLaws g)
        → (s : Ke2State sig) (rest : Bytes) → length s.session_key ≡ h.output_size
        → length s.expected_mac ≡ h.output_size
        → g_laws.PkIsValid s.client_s_pk
        → sig_laws.VerifyStateIsValid s.verify_state
        → deserialize_take_sigma_ke2_state g sig h (serialize_sigma_ke2_state g sig s ++ rest)
          ≡ ok (s, rest)
    unfolding serialize_sigma_ke2_state deserialize_take_sigma_ke2_state
    take_sigma_ke2_state g_laws s rest key mac valid state_valid = simp (
      append_assoc,
      g_laws.take_pk s.client_s_pk _ valid,
      take_array-append h.output_size "session key" s.session_key _ key,
      sig_laws.take_verify_state s.verify_state _ state_valid,
      take_array-append h.output_size "expected mac" s.expected_mac rest mac,
      passes,
    )

    pub take_sigma_ke3_message :
        (m : Ke3Message sig) (rest : Bytes)
        → length m.mac ≡ h.output_size
        → sig_laws.SignatureIsValid m.signature
        → deserialize_take_sigma_ke3_message g sig h (serialize_sigma_ke3_message g sig m ++ rest)
          ≡ ok (m, rest)
    unfolding serialize_sigma_ke3_message deserialize_take_sigma_ke3_message
    take_sigma_ke3_message m rest mac signature_valid = simp (
      append_assoc,
      sig_laws.take_signature m.signature _ signature_valid,
      take_array-append h.output_size "mac" m.mac rest mac,
      passes,
    )

    abbrev pub sigma_i_encodings_laws :
        GroupLaws g → Trait.EncodingsLaws (sigma_i o g sig ke d h) sigma_i_encodings
    sigma_i_encodings_laws g_laws = record {
      Ke1StateIsValid = λ s. (length s.client_nonce ≡ nonce_len) × laws.SkIsValid s.client_e_sk;
      Ke1MessageIsValid = λ m. (length m.client_nonce ≡ nonce_len) × laws.PkIsValid m.client_e_pk;
      Ke2StateIsValid = λ s.
          (length s.session_key ≡ h.output_size)
          × (length s.expected_mac ≡ h.output_size)
          × g_laws.PkIsValid s.client_s_pk
          × sig_laws.VerifyStateIsValid s.verify_state;
      Ke2MessageIsValid = λ m.
          (length m.server_nonce ≡ nonce_len)
          × (length m.mac ≡ h.output_size)
          × laws.PkIsValid m.server_e_pk
          × sig_laws.SignatureIsValid m.signature;
      Ke3MessageIsValid =
          λ m. (length m.mac ≡ h.output_size) × sig_laws.SignatureIsValid m.signature;
      take_ke1_state = λ s rest valid. take_ke1_state o ke d h laws s rest valid.0 valid.1;
      take_ke1_message = λ m rest valid. take_ke1_message o ke d h laws m rest valid.0 valid.1;
      take_ke2_state =
          λ s rest valid. take_sigma_ke2_state g_laws s rest valid.0 valid.1 valid.2 valid.3;
      take_ke2_message =
          λ m rest valid. take_sigma_ke2_message m rest valid.0 valid.1 valid.2 valid.3;
      take_ke3_message = λ m rest valid. take_sigma_ke3_message m rest valid.0 valid.1;
    }

-- What a side keeps to verify with reads back, where all its parts have their lengths, and the slice moves
-- past it.
pub take_cached_message :
    (o : OprfCs) (g ke : Group o) (h : Hash) (m : CachedMessage) (rest : Bytes)
    → length m.credential_request ≡ o.elem_len
    → length m.ke1_message.client_nonce ≡ nonce_len
    → length m.ke1_message.client_e_pk ≡ ke.pk_len
    → length m.credential_response.evaluation_element ≡ o.elem_len
    → length m.credential_response.masking_nonce ≡ nonce_len
    → length m.credential_response.masked_response.nonce ≡ nonce_len
    → length m.credential_response.masked_response.hash ≡ o.hash.output_size
    → length m.credential_response.masked_response.pk ≡ g.pk_len
    → length m.server_nonce ≡ nonce_len
    → length m.server_e_pk ≡ ke.pk_len
    → length m.server_mac ≡ h.output_size
    → deserialize_take_cached_message o g ke h (serialize_cached_message m ++ rest) ≡ ok (m, rest)
unfolding serialize_cached_message deserialize_take_cached_message serialize_request_parts
    deserialize_take_request_parts serialize_ke1_iter deserialize_take_ke1_iter
take_cached_message o g ke h m rest request nonce1 pk1 element masking nonce hash pk nonce2 pk2
      mac =
    simp (
      append_assoc,
      take_array-append o.elem_len "blinded element" m.credential_request _ request,
      take_array-append nonce_len "client nonce" m.ke1_message.client_nonce _ nonce1,
      take_array-append ke.pk_len "client ephemeral public key" m.ke1_message.client_e_pk _ pk1,
      deserialize_take_response_parts-serialize_response_parts o g m.credential_response _ element
          masking nonce hash pk,
      take_array-append nonce_len "server nonce" m.server_nonce _ nonce2,
      take_array-append ke.pk_len "serialized server ephemeral key" m.server_e_pk _ pk2,
      take_array-append h.output_size "server mac" m.server_mac rest mac,
      passes,
    )
