-- ===== src/Tests/Wide.antt =====
-- The small suite with digests of 32 bytes, whose laws all hold.
use opaque_vx.Prelude.{◌≡◌, none, arith, refl, [], ◌∷◌, Bytes}
use opaque_vx.Prelude.Results.{ok, bind}
use opaque_vx.Serialization.{i2osp}
use opaque_vx.Serialization.Integers.{be_bytes, i2osp, leading_zeros}
use opaque_vx.KeyExchange.Serialized.{SerializedContext, from_context}
use opaque_vx.KeyExchange.Trait.{Encodings}
use opaque_vx.KeyExchange.TripleDh.Totality.{triple_dh-KeyExchangeTotal}
use opaque_vx.KeyExchange.TripleDh.Produced.{triple_dh-ProducesValid}
use opaque_vx.KeyExchange.TripleDh.Encodings.{triple_dh_encodings, triple_dh_encodings_laws}
use opaque_vx.CipherSuite.{CipherSuite}
use opaque_vx.Opaque.{LocalSetup}
use opaque_vx.Opaque.SuiteLaws.{SuiteLaws}
use opaque_vx.Examples.DigitalLocker.{default_cipher_suite}
use opaque_vx.Tests.{
  sum, sized_hash, sized_hash-HashLaws, sized_oprf, sized_oprf-OprfLaws, sized_oprf-OprfEncodings,
  sized_group, sized_group-GroupLaws, sized_diffie_hellman, sized_suite-KeyExchangeLaws,
}

abbrev pub wide : CipherSuite
wide =
    default_cipher_suite (sized_oprf 32) (sized_group 32) (sized_diffie_hellman 32) (sized_hash 32)

abbrev pub encodings : Encodings wide.key_exchange
encodings =
    triple_dh_encodings (sized_oprf 32) (sized_group 32) (sized_diffie_hellman 32) (sized_hash 32)

abbrev pub wide-SuiteLaws : SuiteLaws wide encodings
wide-SuiteLaws = record {
  hash_laws = sized_hash-HashLaws 32;
  oprf_laws = sized_oprf-OprfLaws 32;
  oprf_encodings = sized_oprf-OprfEncodings 32;
  group_laws = sized_group-GroupLaws 32;
  exchange_laws = sized_suite-KeyExchangeLaws 32;
  exchange_total =
      triple_dh-KeyExchangeTotal (sized_oprf 32) (sized_group 32) (sized_diffie_hellman 32)
        (sized_hash 32) (sized_hash-HashLaws 32) (omega arith)
        (sized_oprf-OprfLaws 32).length-fill_bytes (λ seed measured. (sum seed, refl));
  encodings_laws =
      triple_dh_encodings_laws (sized_oprf 32) (sized_group 32) (sized_diffie_hellman 32)
        (sized_hash 32) (sized_group-GroupLaws 32);
  produces =
      triple_dh-ProducesValid (sized_oprf 32) (sized_group 32) (sized_diffie_hellman 32)
        (sized_hash 32) (sized_hash-HashLaws 32) (omega arith) (sized_group-GroupLaws 32)
        (sized_oprf-OprfLaws 32).length-fill_bytes;
  masked_fits = omega arith;
}

abbrev pub setup : LocalSetup wide
setup = record { oprf_seed = 4 ∷ []; keypair = record { pk = 4; sk = 3 }; dummy_pk = 6 }

abbrev pub password : Bytes
password = 1 ∷ 2 ∷ []

abbrev pub no_context : SerializedContext
no_context = record { length = 0 ∷ 0 ∷ []; context = [] }

pub in_order : from_context (sized_oprf 32) none ≡ ok no_context
unfolding from_context bind i2osp leading_zeros be_bytes
in_order = refl
