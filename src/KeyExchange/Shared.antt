-- ===== src/KeyExchange/Shared.antt =====
-- key_exchange/shared.rs: the messages of the client's first step, the transcript and the keys.
pub mod Start
pub mod Codec
pub mod Agreement
pub mod Transcript
pub mod Totality
pub mod Fresh
use opaque_vx.Prelude.{ℕ, ◌+◌, List, [], ◌∷◌, Bytes, bytes, length}
use opaque_vx.Prelude.Results.{Result, ok, ok_or, guard, ◌>>=◌, ◌>>◌}
use opaque_vx.Errors.{library_error, hkdf_error, hmac_error, invalid_login_error}
use opaque_vx.Serialization.{i2osp}
use opaque_vx.Hash.{Hash, chain_iter}
use opaque_vx.Oprf.{OprfCs, Failure}
use opaque_vx.Group.{Group}
use opaque_vx.Keypair.{PublicKey, PrivateKey}
use opaque_vx.KeyExchange.Serialized.{
  SerializedIdentifiers, SerializedContext, SerializedCredentialRequest,
  SerializedCredentialResponse, context_slices, identifier_slices, request_slices, response_slices,
}

abbrev pub str_client_mac : Bytes
str_client_mac = bytes "ClientMAC"

abbrev pub str_handshake_secret : Bytes
str_handshake_secret = bytes "HandshakeSecret"

abbrev pub str_server_mac : Bytes
str_server_mac = bytes "ServerMAC"

abbrev pub str_session_key : Bytes
str_session_key = bytes "SessionKey"

abbrev pub str_opaque : Bytes
str_opaque = bytes "OPAQUE-"

module _ {o : OprfCs} where
  pub record Ke1State (g : Group o) : Type 0 where
    pub client_e_sk : PrivateKey g
    pub client_nonce : Bytes

  pub record Ke1Message (g : Group o) : Type 0 where
    pub client_nonce : Bytes
    pub client_e_pk : PublicKey g

-- The message with its key serialized.
pub record Ke1MessageIter : Type 0 where
  pub client_nonce : Bytes
  pub client_e_pk : Bytes

unfoldable pub to_iter : {o : OprfCs} (g : Group o) → Ke1Message g → Ke1MessageIter
to_iter g self = record {
  client_nonce = self.client_nonce;
  client_e_pk = g.serialize_pk self.client_e_pk;
}

-- `Ke1MessageIter::iter`
unfoldable pub ke1_slices : Ke1MessageIter → List Bytes
ke1_slices self = self.client_nonce ∷ self.client_e_pk ∷ []

pub record DerivedKeys : Type 0 where
  pub session_key : Bytes
  pub km2 : Bytes
  pub km3 : Bytes

module _ (h : Hash) where
  -- The hash state after the whole transcript.
  unfoldable pub transcript :
      SerializedContext
      → SerializedIdentifiers
      → SerializedCredentialRequest
      → Ke1MessageIter
      → SerializedCredentialResponse
      → Bytes
      → Bytes
      → h.Hasher
  transcript context identifiers credential_request ke1_message credential_response server_nonce
        server_e_pk =
      let h1 = chain_iter h h.new (context_slices context) in
      let h2 = chain_iter h h1 (identifier_slices identifiers.client) in
      let h3 = chain_iter h h2 (request_slices credential_request) in
      let h4 = chain_iter h h3 (ke1_slices ke1_message) in
      let h5 = chain_iter h h4 (identifier_slices identifiers.server) in
      let h6 = chain_iter h h5 (response_slices credential_response) in
      h.update (h.update h6 server_nonce) server_e_pk

  -- The loop over `ikms` in `derive_keys`.
  unfoldable pub input_ikms : h.HkdfExtract → List Bytes → h.HkdfExtract
  input_ikms hkdf [] = hkdf
  input_ikms hkdf (ikm ∷ ikms) = input_ikms (h.input_ikm hkdf ikm) ikms

module _ (o : OprfCs) (h : Hash) where
  unfoldable pub hkdf_expand_label_extracted : h.Hkdf → Bytes → Bytes → Result (Failure o) Bytes
  hkdf_expand_label_extracted hkdf label context = do
    len ← i2osp 2 h.output_size
    label_length ← i2osp 1 (length str_opaque + length label)
    context_len ← i2osp 1 (length context)
    ok_or (library_error hkdf_error) (
        h.expand_multi_info hkdf
          (len ∷ label_length ∷ str_opaque ∷ label ∷ context_len ∷ context ∷ []) h.output_size)

  unfoldable pub hkdf_expand_label : Bytes → Bytes → Bytes → Result (Failure o) Bytes
  hkdf_expand_label secret label context = do
    hkdf ← ok_or (library_error hkdf_error) (h.from_prk secret)
    hkdf_expand_label_extracted hkdf label context

  unfoldable pub derive_secrets : h.Hkdf → Bytes → Bytes → Result (Failure o) Bytes
  derive_secrets hkdf label hashed_derivation_transcript =
      hkdf_expand_label_extracted hkdf label hashed_derivation_transcript

  unfoldable pub derive_keys : List Bytes → Bytes → Result (Failure o) DerivedKeys
  derive_keys ikms hashed_derivation_transcript = do
    let extracted_ikm = (h.extract_finalize (input_ikms h h.extract_new ikms)).1
    handshake_secret ←
        derive_secrets extracted_ikm str_handshake_secret hashed_derivation_transcript
    session_key ← derive_secrets extracted_ikm str_session_key hashed_derivation_transcript
    km2 ← hkdf_expand_label handshake_secret str_server_mac []
    km3 ← hkdf_expand_label handshake_secret str_client_mac []
    ok (record { session_key = session_key; km2 = km2; km3 = km3 })

  -- The hasher that was updated, the server's MAC and the one that is expected of the client.
  unfoldable pub compute_ke2_macs :
      h.Hasher → DerivedKeys → Bytes → Result (Failure o) (h.Hasher × Bytes × Bytes)
  compute_ke2_macs transcript_hasher derived_keys transcript_digest = do
    mac_hasher ← ok_or (library_error hmac_error) (h.new_from_slice derived_keys.km2)
    let mac = h.mac_finalize (h.mac_update mac_hasher transcript_digest)
    let transcript_hasher' = h.update transcript_hasher mac
    let finalized_transcript = h.finalize transcript_hasher'
    expected_mac_hasher ← ok_or (library_error hmac_error) (h.new_from_slice derived_keys.km3)
    ok (
      transcript_hasher',
      mac,
      h.mac_finalize (h.mac_update expected_mac_hasher finalized_transcript),
    )

  -- The keys, and the client's MAC, if the server's MAC is right.
  unfoldable pub finalize_ke3_transcript :
      h.Hasher → List Bytes → Bytes → Result (Failure o) (DerivedKeys × Bytes)
  finalize_ke3_transcript transcript_hasher shared_secrets server_mac = do
    let transcript_digest = h.finalize transcript_hasher
    derived_keys ← derive_keys shared_secrets transcript_digest
    server_mac_hasher ← ok_or (library_error hmac_error) (h.new_from_slice derived_keys.km2)
    guard (h.verify (h.mac_update server_mac_hasher transcript_digest) server_mac)
        invalid_login_error
    let finalized_transcript = h.finalize (h.update transcript_hasher server_mac)
    client_mac_hasher ← ok_or (library_error hmac_error) (h.new_from_slice derived_keys.km3)
    ok (derived_keys, h.mac_finalize (h.mac_update client_mac_hasher finalized_transcript))
