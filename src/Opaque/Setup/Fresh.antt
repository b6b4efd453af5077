-- ===== src/Opaque/Setup/Fresh.antt =====
-- opaque.rs: what a new server setup holds.
use opaque_vx.Prelude.{[], length, ◌≡◌, refl, subst, append-nil}
use opaque_vx.Prelude.Results.{ok}
use opaque_vx.Oprf.{OprfLaws}
use opaque_vx.Group.{GroupLaws}
use opaque_vx.Keypair.{random}
use opaque_vx.CipherSuite.{CipherSuite, Rng}
use opaque_vx.Opaque.Setup.{
  local_key, local_seed, new_setup, new_with_key_pair, new_with_key_pair_and_seed, serialize_setup,
  deserialize_setup,
}
use opaque_vx.Opaque.Codecs.{deserialize_setup-serialize_setup}

module _ (cs : CipherSuite) where
  -- A new setup has a key pair that belongs together and a seed as long as the hash, and it reads back
  -- from its serialization.
  pub new_setup_reads_back :
      OprfLaws cs.oprf
      → (group_laws : GroupLaws cs.key_exchange.group) → (rng : Rng cs)
      → ((new_setup cs rng).0.keypair.pk
          ≡ cs.key_exchange.group.public_key (new_setup cs rng).0.keypair.sk)
        × (length (new_setup cs rng).0.oprf_seed ≡ cs.oprf.hash.output_size)
        × (deserialize_setup cs (local_key cs.oprf cs.key_exchange.group) (local_seed cs.oprf ⊥) (
              serialize_setup cs
                (local_key cs.oprf cs.key_exchange.group)
                (local_seed cs.oprf ⊥)
                (new_setup cs rng).0)
            ≡ ok (new_setup cs rng).0)
  unfolding new_setup new_with_key_pair new_with_key_pair_and_seed random
  new_setup_reads_back oprf_laws group_laws rng =
      let setup = (new_setup cs rng).0 in
      let seed =
        oprf_laws.length-fill_bytes cs.oprf.hash.output_size
          (random cs.oprf cs.key_exchange.group rng).1 in
      (
        refl,
        seed,
        subst
            (λ b.
              deserialize_setup cs (local_key cs.oprf cs.key_exchange.group) (local_seed cs.oprf ⊥)
                b
              ≡ ok setup)
            (append-nil _)
            (deserialize_setup-serialize_setup cs group_laws setup [] seed refl
              (group_laws.random_sk-SkIsValid oprf_laws.length-fill_bytes rng)
              (group_laws.public_key-PkIsValid _
                (group_laws.random_sk-SkIsValid oprf_laws.length-fill_bytes _))),
      )
