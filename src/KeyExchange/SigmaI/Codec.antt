-- ===== src/KeyExchange/SigmaI/Codec.antt =====
-- key_exchange/sigma_i/mod.rs and message.rs: the encodings.
use opaque_vx.Prelude.{Bytes}
use opaque_vx.Prelude.Act.{Act, pure, ◌>>=◌}
use opaque_vx.Serialization.{take_array, cat}
use opaque_vx.Hash.{Hash}
use opaque_vx.Oprf.{OprfCs, Failure}
use opaque_vx.Group.{Group}
use opaque_vx.KeyExchange.Serialized.{nonce_len}
use opaque_vx.KeyExchange.Serialized.Codec.{
  serialize_request_parts, deserialize_take_request_parts, serialize_response_parts,
  deserialize_take_response_parts,
}
use opaque_vx.KeyExchange.Shared.Codec.{serialize_ke1_iter, deserialize_take_ke1_iter}
use opaque_vx.KeyExchange.SigmaI.Messages.{CachedMessage}
use opaque_vx.KeyExchange.SigmaI.Protocol.{SignatureProtocol}
use opaque_vx.KeyExchange.SigmaI.{Ke2State, Ke2Message, Ke3Message}

unfoldable pub serialize_cached_message : CachedMessage → Bytes
serialize_cached_message self =
    cat
      (cat
        (cat
          (cat
            (cat (serialize_request_parts self.credential_request)
              (serialize_ke1_iter self.ke1_message))
            (serialize_response_parts self.credential_response))
          self.server_nonce)
        self.server_e_pk)
      self.server_mac

-- `g` is the group of the cipher suite, whose key the masked response holds.
unfoldable pub deserialize_take_cached_message :
    (o : OprfCs) (g ke : Group o) (h : Hash) → Act (Failure o) Bytes CachedMessage
deserialize_take_cached_message o g ke h = do
  credential_request ← deserialize_take_request_parts o
  ke1_message ← deserialize_take_ke1_iter ke
  credential_response ← deserialize_take_response_parts o g
  server_nonce ← take_array nonce_len "server nonce"
  server_e_pk ← take_array ke.pk_len "serialized server ephemeral key"
  server_mac ← take_array h.output_size "server mac"
  pure (record {
    credential_request = credential_request;
    ke1_message = ke1_message;
    credential_response = credential_response;
    server_nonce = server_nonce;
    server_e_pk = server_e_pk;
    server_mac = server_mac;
  })

module _ {o : OprfCs} (g : Group o) (sig : SignatureProtocol g) where
  unfoldable pub serialize_sigma_ke2_state : Ke2State sig → Bytes
  serialize_sigma_ke2_state self =
      cat
        (cat (cat (g.serialize_pk self.client_s_pk) self.session_key)
          (sig.serialize_verify_state self.verify_state))
        self.expected_mac

  unfoldable pub deserialize_take_sigma_ke2_state :
      (h : Hash) → Act (Failure o) Bytes (Ke2State sig)
  deserialize_take_sigma_ke2_state h = do
    client_s_pk ← g.deserialize_take_pk
    session_key ← take_array h.output_size "session key"
    verify_state ← sig.deserialize_take_verify_state
    expected_mac ← take_array h.output_size "expected mac"
    pure (record {
      client_s_pk = client_s_pk;
      session_key = session_key;
      verify_state = verify_state;
      expected_mac = expected_mac;
    })

  unfoldable pub serialize_sigma_ke3_message : Ke3Message sig → Bytes
  serialize_sigma_ke3_message self = cat (sig.serialize_signature self.signature) self.mac

  unfoldable pub deserialize_take_sigma_ke3_message :
      (h : Hash) → Act (Failure o) Bytes (Ke3Message sig)
  deserialize_take_sigma_ke3_message h = do
    signature ← sig.deserialize_take_signature
    mac ← take_array h.output_size "mac"
    pure (record { signature = signature; mac = mac })

  unfoldable pub serialize_sigma_ke2_message : (ke : Group o) → Ke2Message sig ke → Bytes
  serialize_sigma_ke2_message ke self =
      cat
        (cat (cat self.server_nonce (ke.serialize_pk self.server_e_pk))
          (sig.serialize_signature self.signature))
        self.mac

  unfoldable pub deserialize_take_sigma_ke2_message :
      (ke : Group o) (h : Hash) → Act (Failure o) Bytes (Ke2Message sig ke)
  deserialize_take_sigma_ke2_message ke h = do
    server_nonce ← take_array nonce_len "server nonce"
    server_e_pk ← ke.deserialize_take_pk
    signature ← sig.deserialize_take_signature
    mac ← take_array h.output_size "mac"
    pure (record {
      server_nonce = server_nonce;
      server_e_pk = server_e_pk;
      signature = signature;
      mac = mac;
    })
