-- ===== src/KeyExchange/Shared/Agreement.antt =====
-- The client's and the server's halves of the key derivation fit together.
use opaque_vx.Prelude.{Bytes, List, ◌≡◌, true, bytes_eq_refl, bytes_eq_sound, arith, ◌∙◌, sym}
use opaque_vx.Prelude.Results.{ok, bind, bind_ok, ok_or, guard, guard-eq-ok, passes}
use opaque_vx.Hash.{Hash, HashLaws}
use opaque_vx.Oprf.{OprfCs}
use opaque_vx.KeyExchange.Shared.{
  DerivedKeys, derive_keys, compute_ke2_macs, finalize_ke3_transcript,
}

module _ (o : OprfCs) (h : Hash) (laws : HashLaws h) where
  verifies : (m : h.Hmac) → h.verify m (h.mac_finalize m) ≡ true
  verifies m = laws.verify_lem m (h.mac_finalize m) ∙ bytes_eq_refl (h.mac_finalize m)

  -- A client with the server's transcript and secrets accepts its MAC, derives its keys and answers
  -- with the MAC that the server expects.
  pub finalize-compute :
      (hasher hasher' : h.Hasher) (secrets : List Bytes) (keys : DerivedKeys) (mac expected : Bytes)
      → derive_keys o h secrets (h.finalize hasher) ≡ ok keys
      → compute_ke2_macs o h hasher keys (h.finalize hasher) ≡ ok (hasher', mac, expected)
      → finalize_ke3_transcript o h hasher secrets mac ≡ ok (keys, expected)
  unfolding compute_ke2_macs finalize_ke3_transcript bind ok_or guard
  finalize-compute hasher hasher' secrets keys mac expected derived computed =
      grind (arith, verifies)

  -- A client that finishes took the MAC that a server with the same transcript and secrets computes,
  -- and answers with the MAC that this server expects.
  pub compute-finalize :
      (hasher : h.Hasher) (secrets : List Bytes) (keys : DerivedKeys) (mac answer : Bytes)
      → finalize_ke3_transcript o h hasher secrets mac ≡ ok (keys, answer)
      → (derive_keys o h secrets (h.finalize hasher) ≡ ok keys)
        × (compute_ke2_macs o h hasher keys (h.finalize hasher)
            ≡ ok (h.update hasher mac, mac, answer))
  unfolding compute_ke2_macs finalize_ke3_transcript
  compute-finalize hasher secrets keys mac answer finished =
      bind_ok _ _ finished λ keys' derived h1. bind_ok _ _ h1 λ mac_hasher keyed h2.
        bind_ok _ _ h2 λ u accepted h3. bind_ok _ _ h3 λ client_hasher keyed' done.
          let tag = bytes_eq_sound _ _ (
            sym (laws.verify_lem (h.mac_update mac_hasher (h.finalize hasher)) mac)
            ∙ guard-eq-ok _ _ accepted) in
          let same_keys : keys' ≡ keys = cc in
          (rw (← same_keys) derived, rw (← same_keys) (simp (keyed, keyed', tag, passes) (cc)))
