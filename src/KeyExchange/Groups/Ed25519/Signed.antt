-- ===== src/KeyExchange/Groups/Ed25519/Signed.antt =====
-- key_exchange/group/ed25519.rs: signing and verifying.
use opaque_vx.Prelude.{Bool, true, false, List, [], ◌∷◌, Bytes, length, ◌≡◌, ap, bytes_eq_refl}
use opaque_vx.Prelude.Results.{ok}
use opaque_vx.Oprf.{OprfCs}
use opaque_vx.Group.{Group}
use opaque_vx.Hash.{Hash}
use opaque_vx.KeyExchange.Groups.Edwards.{Edwards, EdwardsLaws}
use opaque_vx.KeyExchange.Groups.Ed25519.{
  SigningKey, signing_key_from_bytes, ed25519_sign, ed25519_verify, pure_sign, pure_verify,
  ed25519_pure_eddsa, hash_sign, hash_verify, ed25519_hash_eddsa,
}
use opaque_vx.KeyExchange.SigmaI.Messages.{sign_message, to_cached, hash_message}
use opaque_vx.KeyExchange.SigmaI.Signed.{same_hash}
use opaque_vx.KeyExchange.SigmaI.PureEddsa.{pure_eddsa}
use opaque_vx.KeyExchange.SigmaI.HashEddsa.{hash_eddsa}
use opaque_vx.KeyExchange.SigmaI.Protocol.{SignatureLaws}

module _ (c : Edwards) where
  -- A signing key is made of a seed of 32 bytes.
  abbrev pub IsMade : SigningKey c → Type 0
  IsMade sk = (seed : Bytes) × (length seed ≡ 32) × (sk ≡ signing_key_from_bytes c seed)

  module _ (laws : EdwardsLaws c) where
    -- s B - k A = r B, for A = a B and s = k a + r.
    double_mul-signed :
        (k a r : c.Scalar)
        → c.vartime_double_scalar_mul_basepoint k (c.neg (c.mul_base a)) (c.add (c.mul k a) r)
          ≡ c.mul_base r
    double_mul-signed k a r = rw (
      laws.vartime_double_scalar_mul_basepoint_lem,
      laws.mul_base_lem a,
      laws.mul_base_lem r,
      laws.act-add,
      laws.act-mul,
      laws.act-neg,
      ← laws.point_add_assoc,
      laws.neg-point_add,
      laws.identity-point_add,
    )

    -- Over a curve whose points are a group, with scalars that add and multiply modulo the order of the
    -- basepoint: what a key that was made of a seed signs, in either mode, its public key verifies.
    pub ed25519_verify-ed25519_sign :
        (o : OprfCs) (seed : Bytes) (pre_hash : Bool) (message : List Bytes)
        → ed25519_verify c o
            (signing_key_from_bytes c seed).verifying_key
            pre_hash
            message
            (ed25519_sign c (signing_key_from_bytes c seed) pre_hash message)
          ≡ ok tt
    unfolding ed25519_verify ed25519_sign signing_key_from_bytes
    ed25519_verify-ed25519_sign o seed pre_hash message = rw (double_mul-signed, bytes_eq_refl)

    -- PureEdDSA over Ed25519 is a signature protocol for SIGMA-I: the signature of a key that was made
    -- of a seed verifies for a peer whose own message says that this is what was signed.
    pub pure_verify-pure_sign :
        (o : OprfCs) (ke : Group o) (h : Hash)
        → SignatureLaws (pure_eddsa (ed25519_pure_eddsa c o) ke h) IsMade
    unfolding pure_eddsa pure_sign pure_verify to_cached
    pure_verify-pure_sign o ke h = record {
      verify-sign = λ sk own_sk signed own r own_r made same.
          rw (made.2, same) (ed25519_verify-ed25519_sign o made.0 false (sign_message signed));
    }

    -- HashEdDSA over Ed25519 is a signature protocol for SIGMA-I, over a curve whose points are a group,
    -- with scalars that add and multiply modulo the order of the basepoint: each side signs the one
    -- hash of the message and keeps the other to verify with, and what a key that was made of a seed
    -- signs verifies for a peer whose own message says that this is what was signed.
    pub hash_verify-hash_sign :
        (o : OprfCs) → SignatureLaws (hash_eddsa (ed25519_hash_eddsa c o)) IsMade
    unfolding hash_eddsa hash_sign hash_verify
    hash_verify-hash_sign o = record {
      verify-sign = λ sk own_sk signed own r own_r made same.
          let seen = same_hash c.sha512 signed own same in
          rw (made.2, ap c.sha512.finalize seen)
            (ed25519_verify-ed25519_sign o made.0 true
              (c.sha512.finalize (hash_message c.sha512 signed).sign ∷ []));
    }
