-- ===== src/KeyExchange/Shared/Totality.antt =====
-- key_exchange/shared.rs: the key derivation and the MACs, on every input.
use opaque_vx.Prelude.{
  ℕ, ◌+◌, ◌^◌, ◌<◌, List, [], ◌∷◌, Bytes, bytes_eq, length, ◌≡◌, arith, lt→ltb, if◌then◌else◌,
}
use opaque_vx.Prelude.Results.{ok, err, guard-bind, passes}
use opaque_vx.Errors.{invalid_login_error}
use opaque_vx.Serialization.{i2osp}
use opaque_vx.Serialization.Integers.{be_bytes}
use opaque_vx.Serialization.Integers.RoundTrip.{i2osp_lem}
use opaque_vx.Hash.{Hash, HashLaws}
use opaque_vx.Oprf.{OprfCs}
use opaque_vx.KeyExchange.Shared.{
  DerivedKeys, str_opaque, str_handshake_secret, str_session_key, str_server_mac, str_client_mac,
  hkdf_expand_label_extracted, hkdf_expand_label, derive_secrets, derive_keys, compute_ke2_macs,
  finalize_ke3_transcript, input_ikms,
}

i2osp_total :
    {V W : Type 0} (len input : ℕ)
    → input < 2 ^ 64
    → input < 256 ^ len
    → i2osp {V = V} {W = W} len input ≡ ok (be_bytes len input)
i2osp_total {V} {W} len input small fits =
    rw (i2osp_lem {V = V} {W = W} len input small, lt→ltb input (256 ^ len) fits)

module _ (o : OprfCs) (h : Hash) (laws : HashLaws h) (small : h.output_size < 256) where
  hkdf_expand_label_extracted_total :
      (hkdf : h.Hkdf) (label context : Bytes)
      → length label < 240
      → length context < 256
      → (okm : Bytes) × (hkdf_expand_label_extracted o h hkdf label context ≡ ok okm)
        × (length okm ≡ h.output_size)
  unfolding hkdf_expand_label_extracted
  hkdf_expand_label_extracted_total hkdf label context short short' =
      let len =
        i2osp_total {V = o.Error} {W = o.InternalError} 2 h.output_size (omega arith)
          (omega arith) in
      let label_length =
        i2osp_total {V = o.Error} {W = o.InternalError} 1 (length str_opaque + length label)
          (omega arith) (omega arith) in
      let context_len =
        i2osp_total {V = o.Error} {W = o.InternalError} 1 (length context) (omega arith)
          (omega arith) in
      let (okm, expands) =
        laws.expand_multi_info_total hkdf
          (be_bytes 2 h.output_size
            ∷ be_bytes 1 (length str_opaque + length label)
            ∷ str_opaque
            ∷ label
            ∷ be_bytes 1 (length context)
            ∷ context
            ∷ [])
          h.output_size (omega arith) in
      (
        okm,
        simp (len, label_length, context_len, expands, passes),
        laws.length-expand_multi_info hkdf _ h.output_size okm expands,
      )

  hkdf_expand_label_total :
      (secret label context : Bytes)
      → length secret ≡ h.output_size
      → length label < 240
      → length context < 256
      → (okm : Bytes) × (hkdf_expand_label o h secret label context ≡ ok okm)
        × (length okm ≡ h.output_size)
  unfolding hkdf_expand_label
  hkdf_expand_label_total secret label context measured short short' =
      let (hkdf, keyed) = laws.from_prk_total secret (omega arith) in
      let (okm, expands, l) = hkdf_expand_label_extracted_total hkdf label context short short' in
      (okm, simp (keyed, expands, passes), l)

  -- The keys are derived from any secrets and any transcript, and each is as long as the hash.
  pub derive_keys_total :
      (ikms : List Bytes) (digest : Bytes)
      → length digest ≡ h.output_size
      → (keys : DerivedKeys) × (derive_keys o h ikms digest ≡ ok keys)
        × (length keys.session_key ≡ h.output_size)
        × (length keys.km2 ≡ h.output_size)
        × (length keys.km3 ≡ h.output_size)
  unfolding derive_keys derive_secrets
  derive_keys_total ikms digest measured =
      let hkdf = (h.extract_finalize (input_ikms h h.extract_new ikms)).1 in
      let (handshake, e1, l1) =
        hkdf_expand_label_extracted_total hkdf str_handshake_secret digest (omega arith)
          (omega arith) in
      let (session, e2, l2) =
        hkdf_expand_label_extracted_total hkdf str_session_key digest (omega arith) (omega arith) in
      let (km2, e3, l3) =
        hkdf_expand_label_total handshake str_server_mac [] l1 (omega arith) (omega arith) in
      let (km3, e4, l4) =
        hkdf_expand_label_total handshake str_client_mac [] l1 (omega arith) (omega arith) in
      (
        record { session_key = session; km2 = km2; km3 = km3 },
        simp (e1, e2, e3, e4, passes),
        l2,
        l3,
        l4,
      )

  pub compute_ke2_macs_total :
      (hasher : h.Hasher) (keys : DerivedKeys) (digest : Bytes)
      → (mac expected : Bytes) × (compute_ke2_macs o h hasher keys digest
          ≡ ok (h.update hasher mac, mac, expected))
        × (length mac ≡ h.output_size)
        × (length expected ≡ h.output_size)
  unfolding compute_ke2_macs
  compute_ke2_macs_total hasher keys digest =
      let (m2, keyed2) = laws.new_from_slice_total keys.km2 in
      let (m3, keyed3) = laws.new_from_slice_total keys.km3 in
      (
        h.mac_finalize (h.mac_update m2 digest),
        h.mac_finalize (
            h.mac_update m3
              (h.finalize (h.update hasher (h.mac_finalize (h.mac_update m2 digest))))),
        simp (keyed2, keyed3, passes),
        laws.length-mac_finalize _,
        laws.length-mac_finalize _,
      )

  -- For hashes of less than 256 bytes: for each transcript and secrets there is one MAC, of the length
  -- of the hash, that the client takes, with its keys and its answer; any other is an invalid login,
  -- and no other error happens.
  pub finalize_ke3_transcript_lem :
      (hasher : h.Hasher) (secrets : List Bytes)
      → (mac : Bytes) × (keys : DerivedKeys) × (answer : Bytes → Bytes) × (length mac
          ≡ h.output_size)
        × ((server_mac : Bytes)
            → finalize_ke3_transcript o h hasher secrets server_mac ≡ (
                if bytes_eq mac server_mac
                then ok (keys, answer server_mac)
                else err invalid_login_error))
  unfolding finalize_ke3_transcript
  finalize_ke3_transcript_lem hasher secrets =
      let (keys, derived, _, _, _) =
        derive_keys_total secrets (h.finalize hasher) (laws.length-finalize hasher) in
      let (m2, keyed2) = laws.new_from_slice_total keys.km2 in
      let (m3, keyed3) = laws.new_from_slice_total keys.km3 in
      (
        h.mac_finalize (h.mac_update m2 (h.finalize hasher)),
        keys,
        λ server_mac. h.mac_finalize (h.mac_update m3 (h.finalize (h.update hasher server_mac))),
        laws.length-mac_finalize _,
        λ server_mac. simp (derived, keyed2, keyed3, laws.verify_lem, passes) (guard-bind _ _ _),
      )
