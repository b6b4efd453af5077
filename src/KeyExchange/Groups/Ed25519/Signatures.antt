-- ===== src/KeyExchange/Groups/Ed25519/Signatures.antt =====
-- key_exchange/group/ed25519.rs: the encodings SIGMA-I uses of an EdDSA over Ed25519.
use opaque_vx.Prelude.{Bool, List, Bytes, length, ◌≡◌}
use opaque_vx.Oprf.{OprfCs}
use opaque_vx.Group.{Group}
use opaque_vx.Hash.{Hash}
use opaque_vx.KeyExchange.Serialized.{nonce_len}
use opaque_vx.KeyExchange.Groups.Edwards.{Edwards, EdwardsEncodings}
use opaque_vx.KeyExchange.Groups.Ed25519.{
  SigningKey, ed25519, ed25519_sign, ed25519_pure_eddsa, ed25519_hash_eddsa,
}
use opaque_vx.KeyExchange.Groups.Ed25519.Keys.{take_ed25519_signature}
use opaque_vx.KeyExchange.SigmaI.Messages.{CachedMessage}
use opaque_vx.KeyExchange.SigmaI.PreHash.{take_pre_hash}
use opaque_vx.KeyExchange.SigmaI.PureEddsa.{pure_eddsa}
use opaque_vx.KeyExchange.SigmaI.HashEddsa.{hash_eddsa}
use opaque_vx.KeyExchange.SigmaI.Protocol.{SignatureEncodingLaws}
use opaque_vx.KeyExchange.SigmaI.Encodings.{take_cached_message}

-- A cached message whose parts have the lengths that the exchange gives them.
pub record IsMeasured {o : OprfCs} (g ke : Group o) (h : Hash) (m : CachedMessage) : Type 0 where
  pub request : length m.credential_request ≡ o.elem_len
  pub client_nonce : length m.ke1_message.client_nonce ≡ nonce_len
  pub client_e_pk : length m.ke1_message.client_e_pk ≡ ke.pk_len
  pub evaluation : length m.credential_response.evaluation_element ≡ o.elem_len
  pub masking_nonce : length m.credential_response.masking_nonce ≡ nonce_len
  pub masked_nonce : length m.credential_response.masked_response.nonce ≡ nonce_len
  pub masked_hash : length m.credential_response.masked_response.hash ≡ o.hash.output_size
  pub masked_pk : length m.credential_response.masked_response.pk ≡ g.pk_len
  pub server_nonce : length m.server_nonce ≡ nonce_len
  pub server_e_pk : length m.server_e_pk ≡ ke.pk_len
  pub server_mac : length m.server_mac ≡ h.output_size

module _ (c : Edwards) (laws : EdwardsEncodings c) where
  -- The first half of a signature that was made has 32 bytes.
  pub length-ed25519_sign :
      (sk : SigningKey c) (pre_hash : Bool) (message : List Bytes)
      → length (ed25519_sign c sk pre_hash message).r ≡ 32
  unfolding ed25519_sign
  length-ed25519_sign sk pre_hash message = laws.length-compress _

  module _ (o : OprfCs) where
    pub ed25519_hash-SignatureEncodingLaws :
        SignatureEncodingLaws (hash_eddsa (ed25519_hash_eddsa c o))
    unfolding hash_eddsa
    ed25519_hash-SignatureEncodingLaws = record {
      SignatureIsValid = λ s. length s.r ≡ 32;
      VerifyStateIsValid = λ state. length state ≡ c.sha512.output_size;
      take_signature = take_ed25519_signature c o laws;
      take_verify_state = take_pre_hash o c.sha512;
    }

    pub ed25519_pure-SignatureEncodingLaws :
        (ke : Group o) (h : Hash) → SignatureEncodingLaws (pure_eddsa (ed25519_pure_eddsa c o) ke h)
    unfolding pure_eddsa
    ed25519_pure-SignatureEncodingLaws ke h = record {
      SignatureIsValid = λ s. length s.r ≡ 32;
      VerifyStateIsValid = IsMeasured (ed25519 c o) ke h;
      take_signature = take_ed25519_signature c o laws;
      take_verify_state = λ m rest v.
          take_cached_message o (ed25519 c o) ke h m rest v.request v.client_nonce v.client_e_pk
            v.evaluation v.masking_nonce v.masked_nonce v.masked_hash v.masked_pk v.server_nonce
            v.server_e_pk v.server_mac;
    }
