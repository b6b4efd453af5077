-- ===== src/Envelope/Sealed.antt =====
-- What a sealed envelope looks like: its mode, and the lengths of its nonce and its tag.
use opaque_vx.Prelude.{Bytes, List, ◌≡◌, length, ◌∙◌, ap}
use opaque_vx.Prelude.Results.{ok, bind_ok, ok_first, map_err-eq-ok}
use opaque_vx.Prelude.Act.{lift_ok}
use opaque_vx.Hash.{HashLaws, mac_update_iter}
use opaque_vx.Oprf.{OprfCs, OprfLaws}
use opaque_vx.Group.{Group}
use opaque_vx.Keypair.{PublicKey}
use opaque_vx.KeyExchange.Serialized.{Identifiers, nonce_len}
use opaque_vx.Envelope.{Envelope, InnerEnvelopeMode, internal, seal_raw}
use opaque_vx.Envelope.Seal.{seal}

module _ (o : OprfCs) where
  pub record Sealed (envelope : Envelope) : Type 0 where
    pub mode : envelope.mode ≡ internal
    pub length-nonce : length envelope.nonce ≡ nonce_len
    pub length-hmac : length envelope.hmac ≡ o.hash.output_size

  module _ (laws : HashLaws o.hash) where
    seal_raw-parts :
        (hasher : o.hash.Hkdf) (nonce : Bytes) (aad : List Bytes) (mode : InnerEnvelopeMode)
        (envelope : Envelope) (export_key : Bytes)
        → seal_raw o hasher nonce aad mode ≡ ok (envelope, export_key)
        → (envelope.mode ≡ mode)
          × (envelope.nonce ≡ nonce)
          × (length envelope.hmac ≡ o.hash.output_size)
    unfolding seal_raw
    seal_raw-parts hasher nonce aad mode envelope export_key h = bind_ok _ _ h λ hmac_key e1 h1.
        bind_ok _ _ h1 λ export_key' e2 h2. bind_ok _ _ h2 λ hmac e3 h3.
          let tag : envelope.hmac
              ≡ o.hash.mac_finalize (mac_update_iter o.hash (o.hash.mac_update hmac nonce) aad) =
            cc in
          (cc, cc, ap length tag ∙ laws.length-mac_finalize _)

    pub seal-Sealed :
        (g : Group o)
        → OprfLaws o
        → (hasher : o.hash.Hkdf) (server_s_pk : PublicKey g) (ids : Identifiers) (rng rng' : o.Rng)
          (envelope : Envelope) (client_s_pk : PublicKey g) (export_key : Bytes)
        → seal o g hasher server_s_pk ids rng ≡ ok ((envelope, client_s_pk, export_key), rng')
        → Sealed envelope
    unfolding seal
    seal-Sealed g oprf_laws hasher server_s_pk ids rng rng' envelope client_s_pk export_key h =
        lift_ok _ _ _ (ok_first _ _ h) λ pk built h1. lift_ok _ _ _ h1 λ identifiers named h2.
          lift_ok _ _ _ h2 λ result sealed h3.
            let (mode, nonce, hmac) =
              seal_raw-parts hasher _ _ internal result.0 result.1 (map_err-eq-ok _ _ sealed) in
            let same : result.0 ≡ envelope = cc in
            rw (← same) (record {
              mode = mode;
              length-nonce = ap length nonce ∙ oprf_laws.length-fill_bytes nonce_len rng;
              length-hmac = hmac;
            })
