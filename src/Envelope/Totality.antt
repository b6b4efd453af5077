-- ===== src/Envelope/Totality.antt =====
-- envelope.rs: sealing and opening on every input.
use opaque_vx.Prelude.{
  ℕ, ◌*◌, ◌≤◌, ◌<◌, Option, none, some, Bytes, List, [], ◌∷◌, length, ◌≡◌, ◌⊎◌, inl, inr,
  Bool-cases, arith,
}
use opaque_vx.Prelude.Results.{ok, err, passes, bind, guard, map_err}
use opaque_vx.Errors.{library_error, seal_open_hmac_error}
use opaque_vx.Serialization.{i2osp}
use opaque_vx.Serialization.Integers.{be_bytes}
use opaque_vx.Serialization.Integers.RoundTrip.{i2osp_lem}
use opaque_vx.Hash.{HashLaws, mac_update_iter}
use opaque_vx.Oprf.{OprfCs}
use opaque_vx.Group.{Group}
use opaque_vx.Keypair.{PublicKey}
use opaque_vx.KeyExchange.Serialized.{
  Identifiers, owned, borrowed, SerializedContext, SerializedIdentifier, SerializedIdentifiers,
  nonce_len, unwrap_or_empty, from_context, from_identifier, from_identifiers, identifier_slices,
}
use opaque_vx.Envelope.{
  Envelope, InnerEnvelopeMode, internal, str_auth_key, str_export_key, str_private_key,
  construct_aad, seal_raw, open_raw, build_inner_envelope_internal, recover_keys_internal,
  recover_by_mode, OpenedEnvelope, open_envelope,
}
use opaque_vx.Envelope.Seal.{seal}

-- A name that is not given is the key, and fits its length prefix.
abbrev pub IsShort : Option Bytes → Type 0
IsShort given = length (unwrap_or_empty given) < 65536

module _ (o : OprfCs) where
  i2osp_short :
      (n : ℕ)
      → n < 65536
      → (octets : Bytes) × (i2osp {V = o.Error} {W = o.InternalError} 2 n ≡ ok octets)
  i2osp_short n h =
      (be_bytes 2 n, ground (arith, i2osp_lem {V = o.Error} {W = o.InternalError} 2 n))

  pub from_context_total :
      (given : Option Bytes)
      → IsShort given
      → (context : SerializedContext) × (from_context o given ≡ ok context)
  unfolding from_context
  from_context_total given short =
      let (octets, fits) = i2osp_short _ short in
      (record { length = octets; context = unwrap_or_empty given }, simp (fits, passes))

  from_identifier_total :
      (id : Option Bytes) (pk : Bytes)
      → IsShort id
      → length pk < 65536
      → (identifier : SerializedIdentifier) × (from_identifier o id pk ≡ ok identifier)
  unfolding from_identifier
  from_identifier_total none pk short small =
      let (octets, fits) = i2osp_short _ small in
      (record { length = octets; identifier = owned pk }, simp (fits, passes))
  from_identifier_total (some id) pk short small =
      let (octets, fits) = i2osp_short _ short in
      (record { length = octets; identifier = borrowed id }, simp (fits, passes))

  from_identifiers_total :
      (ids : Identifiers) (client_pk server_pk : Bytes)
      → IsShort ids.client
      → IsShort ids.server
      → length client_pk < 65536
      → length server_pk < 65536
      → (identifiers : SerializedIdentifiers) × (from_identifiers o ids client_pk server_pk
          ≡ ok identifiers)
  unfolding from_identifiers
  from_identifiers_total ids client_pk server_pk c s small small' =
      let (client, named) = from_identifier_total ids.client client_pk c small in
      let (server, named') = from_identifier_total ids.server server_pk s small' in
      (record { client = client; server = server }, simp (named, named', passes))

  module _ (laws : HashLaws o.hash) (hasher : o.hash.Hkdf) (nonce : Bytes) (aad : List Bytes) where
    seal_raw_total :
        (mode : InnerEnvelopeMode)
        → (sealed : Envelope × Bytes) × (seal_raw o hasher nonce aad mode ≡ ok sealed)
    unfolding seal_raw
    seal_raw_total mode =
        let (auth, e1) =
          laws.expand_multi_info_total hasher (nonce ∷ str_auth_key ∷ []) o.hash.output_size
            (omega arith) in
        let (export, e2) =
          laws.expand_multi_info_total hasher (nonce ∷ str_export_key ∷ []) o.hash.output_size
            (omega arith) in
        let (hmac, e3) = laws.new_from_slice_total auth in
        (
          (
            record {
              mode = mode;
              nonce = nonce;
              hmac =
                  o.hash.mac_finalize (mac_update_iter o.hash (o.hash.mac_update hmac nonce) aad);
            },
            export,
          ),
          simp (e1, e2, e3, passes),
        )

  -- Opening gives the export key or refuses the tag, and nothing else.
  open_raw_outcome :
      HashLaws o.hash
      → (self : Envelope) (hasher : o.hash.Hkdf) (aad : List Bytes)
      → ((export_key : Bytes) × (open_raw o self hasher aad ≡ ok export_key))
        ⊎ (open_raw o self hasher aad ≡ err seal_open_hmac_error)
  unfolding open_raw guard bind
  open_raw_outcome laws self hasher aad =
      let (auth, e1) =
        laws.expand_multi_info_total hasher (self.nonce ∷ str_auth_key ∷ []) o.hash.output_size
          (omega arith) in
      let (export_key, e2) =
        laws.expand_multi_info_total hasher (self.nonce ∷ str_export_key ∷ []) o.hash.output_size
          (omega arith) in
      let (hmac, e3) = laws.new_from_slice_total auth in
      elim (Bool-cases (
        o.hash.verify (mac_update_iter o.hash (o.hash.mac_update hmac self.nonce) aad) self.hmac)) [
          | inl right ↦ inl (export_key, simp (e1, e2, e3, right, passes))
          | inr wrong ↦ inr (simp (e1, e2, e3, wrong, passes))
        ]

-- What the envelope needs of the group and the hash: a seed fits HKDF and derives a key whose public
-- key is written in its length, which fits a length prefix.
pub record EnvelopeFits {o : OprfCs} (g : Group o) : Type 0 where
  pub seed_fits : g.sk_len ≤ 255 * o.hash.output_size
  pub derives :
      (seed : Bytes)
      → length seed ≡ g.sk_len
      → (sk : g.Sk) × (g.derive_scalar seed ≡ ok sk)
        × (length (g.serialize_pk (g.public_key sk)) ≡ g.pk_len)
  pub pk_fits : g.pk_len < 65536

module _ (o : OprfCs) (g : Group o) (laws : HashLaws o.hash) (fits : EnvelopeFits g) where
  keys_total :
      (hasher : o.hash.Hkdf) (nonce : Bytes)
      → (sk : g.Sk) × (recover_keys_internal o g hasher nonce
          ≡ ok (record { pk = g.public_key sk; sk = sk }))
        × (build_inner_envelope_internal o g hasher nonce ≡ ok (g.public_key sk))
        × (length (g.serialize_pk (g.public_key sk)) < 65536)
  unfolding recover_keys_internal build_inner_envelope_internal
  keys_total hasher nonce =
      let (seed, e) =
        laws.expand_multi_info_total hasher (nonce ∷ str_private_key ∷ []) g.sk_len
          fits.seed_fits in
      let (sk, d, written) = fits.derives seed (laws.length-expand_multi_info hasher _ _ seed e) in
      let small : length (g.serialize_pk (g.public_key sk)) < 65536 = rw written fits.pk_fits in
      (sk, simp (e, d, passes), simp (e, d, passes), small)

  module _ (ids : Identifiers) (c : IsShort ids.client) (s : IsShort ids.server) where
    -- The client seals from every state of the generator.
    pub seal_total :
        (hasher : o.hash.Hkdf) (server_s_pk : PublicKey g) (r : o.Rng)
        → length (g.serialize_pk server_s_pk) ≡ g.pk_len
        → (sealed : Envelope × PublicKey g × Bytes) × (r' : o.Rng) × (seal o g hasher server_s_pk
              ids r
            ≡ ok (sealed, r'))
    unfolding seal
    seal_total hasher server_s_pk r written =
        let nonce = o.fill_bytes nonce_len r in
        let (sk, _, built, small) = keys_total hasher nonce.0 in
        let (identifiers, named) =
          from_identifiers_total o ids (g.serialize_pk (g.public_key sk))
            (g.serialize_pk server_s_pk) c s small (rw written fits.pk_fits) in
        let (sealed, raw) =
          seal_raw_total o laws hasher nonce.0
            (construct_aad (identifier_slices identifiers.client)
              (identifier_slices identifiers.server) (g.serialize_pk server_s_pk))
            internal in
        ((sealed.0, g.public_key sk, sealed.1), nonce.1, simp (built, named, raw, passes))

    -- An envelope in the mode that is read opens, or its tag is refused, and nothing else.
    pub open_envelope_outcome :
        (envelope : Envelope) (hasher : o.hash.Hkdf) (server_s_pk : PublicKey g)
        → envelope.mode ≡ internal
        → length (g.serialize_pk server_s_pk) ≡ g.pk_len
        → ((opened : OpenedEnvelope o g) × (open_envelope o g envelope hasher server_s_pk ids
              ≡ ok opened))
          ⊎ (open_envelope o g envelope hasher server_s_pk ids
              ≡ err (library_error seal_open_hmac_error))
    unfolding open_envelope recover_by_mode map_err bind
    open_envelope_outcome envelope hasher server_s_pk mode written =
        let (sk, recovered, _, small) = keys_total hasher envelope.nonce in
        let (identifiers, named) =
          from_identifiers_total o ids (g.serialize_pk (g.public_key sk))
            (g.serialize_pk server_s_pk) c s small (rw written fits.pk_fits) in
        elim (open_raw_outcome o laws envelope hasher (
          construct_aad (identifier_slices identifiers.client)
            (identifier_slices identifiers.server) (g.serialize_pk server_s_pk))) [
              | inl (export_key, opens) ↦ inl (
                record {
                  client_static_keypair = record { pk = g.public_key sk; sk = sk };
                  export_key = export_key;
                  identifiers = identifiers;
                },
                simp (mode, recover_by_mode, recovered, named, opens, passes),
              )
              | inr refused ↦ inr (simp (mode, recover_by_mode, recovered, named, refused))
            ]
