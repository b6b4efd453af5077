-- ===== src/Envelope/RoundTrip.antt =====
-- Opening what was sealed.
use opaque_vx.Prelude.{Bytes, arith, ◌≡◌, List, true, length, bytes_eq_refl, ◌∙◌}
use opaque_vx.Prelude.Results.{
  ok, bind, ok_or, guard, passes, bind_ok, ok_first, map_err-eq-ok, ok_or-eq-ok,
}
use opaque_vx.Prelude.Act.{lift_ok}
use opaque_vx.Hash.{HashLaws}
use opaque_vx.Oprf.{OprfCs}
use opaque_vx.Group.{Group}
use opaque_vx.Keypair.{PublicKey, PrivateKey}
use opaque_vx.KeyExchange.Serialized.{Identifiers, from_identifiers}
use opaque_vx.Envelope.{
  Envelope, InnerEnvelopeMode, internal, seal_raw, open_raw, build_inner_envelope_internal,
  recover_keys_internal, OpenedEnvelope, open_envelope, recover_by_mode,
}
use opaque_vx.Envelope.Seal.{seal}

module _ (o : OprfCs) (laws : HashLaws o.hash) where
  verifies : (m : o.hash.Hmac) → o.hash.verify m (o.hash.mac_finalize m) ≡ true
  verifies m = laws.verify_lem m (o.hash.mac_finalize m) ∙ bytes_eq_refl (o.hash.mac_finalize m)

  -- What was sealed opens under the same key and associated data, to the same export key.
  open_raw-seal_raw :
      (hasher : o.hash.Hkdf) (nonce : Bytes) (aad : List Bytes) (mode : InnerEnvelopeMode)
      (envelope : Envelope) (export_key : Bytes)
      → seal_raw o hasher nonce aad mode ≡ ok (envelope, export_key)
      → (open_raw o envelope hasher aad ≡ ok export_key)
        × (envelope.mode ≡ mode)
        × (envelope.nonce ≡ nonce)
  unfolding seal_raw open_raw bind ok_or guard
  open_raw-seal_raw hasher nonce aad mode envelope export_key h = grind (arith, verifies)

module _ (o : OprfCs) (g : Group o) where
  -- The key pair that opening recovers has the public key that sealing published.
  recover-build :
      HashLaws o.hash
      → (hasher : o.hash.Hkdf) (nonce : Bytes) {pk : PublicKey g}
      → build_inner_envelope_internal o g hasher nonce ≡ ok pk
      → (sk : PrivateKey g) × (recover_keys_internal o g hasher nonce
          ≡ ok (record { pk = pk; sk = sk }))
        × (g.public_key sk ≡ pk)
        × ((seed : Bytes) × (length seed ≡ g.sk_len) × (g.derive_scalar seed ≡ ok sk))
  unfolding build_inner_envelope_internal recover_keys_internal
  recover-build laws hasher nonce h = bind_ok _ _ h λ seed e h'. bind_ok _ _ h' λ sk e' h''. (
    sk,
    simp (e, e', passes) (cc),
    cc,
    (seed, laws.length-expand_multi_info hasher _ _ seed (ok_or-eq-ok _ _ e), map_err-eq-ok _ _ e'),
  )

  module _ (laws : HashLaws o.hash) where
    -- An envelope that was sealed for a server key and identifiers opens under the same hasher, server
    -- key and identifiers: with the key pair of the public key that sealing returned, the same export
    -- key, the identifiers of both sides, and a secret key that was derived from a seed of its length.
    pub open_envelope-seal :
        (hasher : o.hash.Hkdf) (server_s_pk : PublicKey g) (ids : Identifiers) (rng rng' : o.Rng)
        (envelope : Envelope) (client_s_pk : PublicKey g) (export_key : Bytes)
        → seal o g hasher server_s_pk ids rng ≡ ok ((envelope, client_s_pk, export_key), rng')
        → (opened : OpenedEnvelope o g) × (open_envelope o g envelope hasher server_s_pk ids
            ≡ ok opened)
          × (opened.client_static_keypair.pk ≡ client_s_pk)
          × (g.public_key opened.client_static_keypair.sk ≡ client_s_pk)
          × (opened.export_key ≡ export_key)
          × (from_identifiers o ids (g.serialize_pk client_s_pk) (g.serialize_pk server_s_pk)
              ≡ ok opened.identifiers)
          × ((seed : Bytes) × (length seed ≡ g.sk_len)
              × (g.derive_scalar seed ≡ ok opened.client_static_keypair.sk))
    unfolding seal open_envelope recover_by_mode
    open_envelope-seal hasher server_s_pk ids rng rng' envelope client_s_pk export_key h =
        lift_ok _ _ _ (ok_first _ _ h) λ pk built h1. lift_ok _ _ _ h1 λ identifiers named h2.
          lift_ok _ _ _ h2 λ result sealed h3.
            let (opens, mode, nonce) =
              open_raw-seal_raw o laws hasher _ _ internal result.0 result.1
                (map_err-eq-ok _ _ sealed) in
            let (sk, recovered, paired, derived) = recover-build laws hasher _ built in
            let sealed_envelope : result.0 ≡ envelope = cc in
            (
              record {
                client_static_keypair = record { pk = pk; sk = sk };
                export_key = result.1;
                identifiers = identifiers;
              },
              rw (← sealed_envelope)
                  (simp (mode, nonce, recover_by_mode, recovered, named, opens, passes)),
              cc,
              cc,
              cc,
              let same_key : pk ≡ client_s_pk = cc in rw (← same_key) named,
              derived,
            )
