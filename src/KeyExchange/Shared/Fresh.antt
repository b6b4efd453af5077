-- ===== src/KeyExchange/Shared/Fresh.antt =====
-- key_exchange/shared.rs and keypair.rs: what both sides draw.
use opaque_vx.Prelude.{ℕ, Bytes, length, ◌≡◌}
use opaque_vx.Prelude.Results.{ok, bind_ok, ok_first, unwrap, unwrap-eq-ok, passes}
use opaque_vx.Prelude.Act.{lift_ok}
use opaque_vx.Oprf.{OprfCs}
use opaque_vx.Group.{Group, GroupLaws}
use opaque_vx.Keypair.{KeyPair, PrivateKey, derive_random}
use opaque_vx.KeyExchange.Serialized.{nonce_len}
use opaque_vx.KeyExchange.Trait.{GenerateKe1Result}
use opaque_vx.KeyExchange.Shared.{Ke1State, Ke1Message}
use opaque_vx.KeyExchange.Shared.Start.{generate_ke1, generate_nonce}

module _ (o : OprfCs) (g : Group o)
    (filled : (n : ℕ) (r : o.Rng) → length (o.fill_bytes n r).0 ≡ n) where
  module _
      (derives : (seed : Bytes)
        → length seed ≡ g.sk_len
        → (sk : g.Sk) × (g.derive_scalar seed ≡ ok sk)) where
    pub derive_random_total :
        (r : o.Rng)
        → (pair : KeyPair g (PrivateKey g)) × (r' : o.Rng) × (derive_random o g r ≡ ok (pair, r'))
    unfolding derive_random unwrap
    derive_random_total r =
        let (sk, derived) = derives (o.fill_bytes g.sk_len r).0 (filled g.sk_len r) in
        (
          record { pk = g.public_key sk; sk = sk },
          (o.fill_bytes g.sk_len r).1,
          simp (derived, passes),
        )

    pub generate_ke1_total :
        (r : o.Rng)
        → (ke1 : GenerateKe1Result (Ke1State g) (Ke1Message g)) × (r' : o.Rng) × (generate_ke1 o g r
            ≡ ok (ke1, r'))
    unfolding generate_ke1
    generate_ke1_total r =
        let (pair, r', drawn) = derive_random_total r in
        let nonce = generate_nonce o r' in
        (
          record {
            state = record { client_e_sk = pair.sk; client_nonce = nonce.0 };
            message = record { client_nonce = nonce.0; client_e_pk = pair.pk };
          },
          nonce.1,
          simp (drawn, passes),
        )

  module _ (group_laws : GroupLaws g) where
    pub derive_random-IsValid :
        (r r' : o.Rng) (pair : KeyPair g (PrivateKey g))
        → derive_random o g r ≡ ok (pair, r')
        → group_laws.PkIsValid pair.pk
    unfolding derive_random
    derive_random-IsValid r r' pair e = lift_ok _ _ _ (ok_first _ _ e) λ sk derived e'.
        let same : g.public_key sk ≡ pair.pk = cc in
        rw (← same) (
          group_laws.public_key-PkIsValid sk
            (group_laws.derive_scalar-SkIsValid _ sk (filled g.sk_len r) (unwrap-eq-ok _ derived)))

    pub generate_ke1-IsValid :
        (r r' : o.Rng) (ke1 : GenerateKe1Result (Ke1State g) (Ke1Message g))
        → generate_ke1 o g r ≡ ok (ke1, r')
        → (length ke1.message.client_nonce ≡ nonce_len)
          × group_laws.PkIsValid ke1.message.client_e_pk
    unfolding generate_ke1 generate_nonce
    generate_ke1-IsValid r r' ke1 e = bind_ok _ _ e λ pair drawn e'.
        let done = ok_first _ _ e' in
        let nonce : (o.fill_bytes nonce_len pair.1).0 ≡ ke1.message.client_nonce = cc in
        let key : pair.0.pk ≡ ke1.message.client_e_pk = cc in
        (
          rw (← nonce) (filled nonce_len pair.1),
          rw (← key) (derive_random-IsValid r pair.1 pair.0 drawn),
        )
