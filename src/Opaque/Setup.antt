-- ===== src/Opaque/Setup.antt =====
-- opaque.rs: `ServerSetup`, and what stands in for the record of an unknown user.
pub mod Fresh
use opaque_vx.Prelude.{Bytes}
use opaque_vx.Prelude.Act.{Act, pure, ◌>>=◌}
use opaque_vx.Errors.{ProtocolError, into_custom}
use opaque_vx.Prelude.Results.{Result, ok, bind, map_err}
use opaque_vx.Serialization.{take_array, cat}
use opaque_vx.Oprf.{OprfCs, Failure}
use opaque_vx.Group.{Group}
use opaque_vx.Keypair.{KeyPair, PrivateKey, random, serialize_key_pair, deserialize_take_key_pair}
use opaque_vx.Envelope.{dummy_envelope}
use opaque_vx.CipherSuite.{CipherSuite, Rng}
use opaque_vx.Messages.{RegistrationUpload}
use opaque_vx.Keypair
use opaque_vx.Opaque.{ServerSetup, LocalSetup, OprfSeed, ServerRegistration}

-- keypair.rs: the trait `PrivateKeySerialization`, for keys of the type `SK`.
pub record PrivateKeySerialization (o : OprfCs) (g : Group o) (SK : Type 0) : Type 1 where
  pub Error : Type 0
  pub serialize_key_pair : KeyPair g SK → Bytes
  pub deserialize_take_key_pair :
      Act (ProtocolError o.Error o.InternalError Error) Bytes (KeyPair g SK)

-- keypair.rs: the trait `OprfSeedSerialization`, for seeds of the type `OS` and errors `E`.
pub record OprfSeedSerialization (o : OprfCs) (OS E : Type 0) : Type 0 where
  pub serialize : OS → Bytes
  pub deserialize_take : Act (ProtocolError o.Error o.InternalError E) Bytes OS

-- `impl PrivateKeySerialization<G> for PrivateKey<G>`
abbrev pub local_key : (o : OprfCs) (g : Group o) → PrivateKeySerialization o g (PrivateKey g)
local_key o g = record {
  Error = ⊥;
  serialize_key_pair = Keypair.serialize_key_pair o g;
  deserialize_take_key_pair = Keypair.deserialize_take_key_pair o g;
}

-- `impl OprfSeedSerialization<H, E> for OprfSeed<H>`
abbrev pub local_seed : (o : OprfCs) (E : Type 0) → OprfSeedSerialization o OprfSeed E
local_seed o E = record {
  serialize = λ self. self;
  deserialize_take = λ input. map_err into_custom (take_array o.hash.output_size "OPRF seed" input);
}

module _ (cs : CipherSuite) where
  module _ {SK OS : Type 0} where
    unfoldable pub new_with_key_pair_and_seed :
        KeyPair cs.key_exchange.group SK → OS → Rng cs → ServerSetup cs SK OS × Rng cs
    new_with_key_pair_and_seed keypair oprf_seed rng =
        let (dummy, rng') = random cs.oprf cs.key_exchange.group rng in
        (record { oprf_seed = oprf_seed; keypair = keypair; dummy_pk = dummy.pk }, rng')

    -- `RegistrationUpload::dummy` and `ServerRegistration::dummy`: a random masking key, an empty
    -- envelope and the setup's dummy key.
    unfoldable pub dummy : ServerSetup cs SK OS → Rng cs → ServerRegistration cs × Rng cs
    dummy server_setup rng =
        let (masking_key, rng') = cs.oprf.fill_bytes cs.oprf.hash.output_size rng in
        (
          record {
            envelope = dummy_envelope cs.oprf;
            masking_key = masking_key;
            client_s_pk = server_setup.dummy_pk;
          },
          rng',
        )

    module _ (key : PrivateKeySerialization cs.oprf cs.key_exchange.group SK)
        (seed : OprfSeedSerialization cs.oprf OS key.Error) where
      unfoldable pub serialize_setup : ServerSetup cs SK OS → Bytes
      serialize_setup self =
          cat (cat (seed.serialize self.oprf_seed) (key.serialize_key_pair self.keypair))
            (cs.key_exchange.group.serialize_pk self.dummy_pk)

      -- The fields in the order of `ServerSetup::deserialize`, with what is left of the input.
      unfoldable pub deserialize_take_setup :
          Act
            (ProtocolError cs.oprf.Error cs.oprf.InternalError key.Error)
            Bytes
            (ServerSetup cs SK OS)
      deserialize_take_setup = do
        oprf_seed ← seed.deserialize_take
        keypair ← key.deserialize_take_key_pair
        dummy_pk ← λ input. map_err into_custom (cs.key_exchange.group.deserialize_take_pk input)
        pure (record { oprf_seed = oprf_seed; keypair = keypair; dummy_pk = dummy_pk })

      unfoldable pub deserialize_setup :
          Bytes
          → Result
              (ProtocolError cs.oprf.Error cs.oprf.InternalError key.Error)
              (ServerSetup cs SK OS)
      deserialize_setup input = bind (deserialize_take_setup input) λ result. ok result.0

  unfoldable pub new_with_key_pair :
      {SK : Type 0}
      → KeyPair cs.key_exchange.group SK
      → Rng cs
      → ServerSetup cs SK OprfSeed × Rng cs
  unfolding new_with_key_pair_and_seed
  new_with_key_pair keypair rng =
      let (oprf_seed, rng') = cs.oprf.fill_bytes cs.oprf.hash.output_size rng in
      new_with_key_pair_and_seed keypair oprf_seed rng'

  -- `ServerSetup::new`
  unfoldable pub new_setup : Rng cs → LocalSetup cs × Rng cs
  new_setup rng =
      let (keypair, rng') = random cs.oprf cs.key_exchange.group rng in
      new_with_key_pair keypair rng'
