-- ===== src/Tests/Encapsulated.antt =====
-- Examples of the theorems on the exchange with a key encapsulation.
use opaque_vx.Serialization.Integers.{be_bytes, i2osp, leading_zeros}
use opaque_vx.Keypair.{derive_random}
use opaque_vx.KeyExchange.Shared.Start.{generate_ke1, generate_nonce}
use opaque_vx.Prelude.{ℕ, suc, ◌+◌, ◌≡◌, refl, some, none, Option, [], ◌∷◌, Bytes, replicate, arith}
use opaque_vx.Prelude.Results.{ok, bind, unwrap}
use opaque_vx.KeyExchange.Trait.{GenerateKe1Result, GenerateKe2Result, GenerateKe3Result}
use opaque_vx.KeyExchange.TripleDh.{Ke3Message}
use opaque_vx.KeyExchange.TripleDhKem.{
  KemKe1State, KemKe1Message, KemKe2State, KemKe2Message, KemKe2Builder, generate_kem_ke1,
  kem_ke2_builder, generate_kem_ke2_input, build_kem_ke2, generate_kem_ke3, finish_kem_ke,
}
use opaque_vx.KeyExchange.TripleDhKem.Mechanism.{Kem}
use opaque_vx.KeyExchange.TripleDhKem.Adapter.{
  MlKem, ml_kem, array_try_from, deserialize_encapsulation_key,
}
use opaque_vx.KeyExchange.TripleDhKem.Provided.{MlKemLaws, ml_kem-KemLaws}
use opaque_vx.KeyExchange.TripleDhKem.Agreement.{finish_kem_ke-generate_kem_ke3}
use opaque_vx.Keypair.{derive_random}
use opaque_vx.Prelude.Results.{unwrap, ok_or}
use opaque_vx.Serialization.Arrays.{take_array}
use opaque_vx.Hash.{chain_iter}
use opaque_vx.Masked.{masked_slices}
use opaque_vx.KeyExchange.Serialized.{
  response_slices, identifier_slices, request_slices, context_slices,
}
use opaque_vx.KeyExchange.Shared.{
  transcript, ke1_slices, to_iter, compute_ke2_macs, derive_keys, derive_secrets, hkdf_expand_label,
  hkdf_expand_label_extracted, input_ikms,
}
use opaque_vx.KeyExchange.Shared.Start.{ke2_builder_common, generate_nonce}
use opaque_vx.Tests.{
  sum, sum_oprf, sum_group, sum_diffie_hellman, sum_hash, sum_hash-HashLaws,
  sum_diffie_hellman-DiffieHellmanLaws,
}
use opaque_vx.Tests.Registered.{ids}
use opaque_vx.Tests.Exchange.{identifiers, context, response}

abbrev first_byte : Bytes → Option ℕ
first_byte [] = none
first_byte (x ∷ xs) = some x

-- A key is a number, the ciphertext shows the generator's state, and the secret is their sum.
abbrev sum_ml_kem : MlKem sum_oprf
sum_ml_kem = record {
  EncapsulationKey = ℕ;
  DecapsulationKey = ℕ;
  encapsulation_key_len = 1;
  decapsulation_key_len = 1;
  ciphertext_len = 1;
  shared_key_len = 1;
  generate_keypair_from_rng = λ r. ((r, r), suc r);
  encapsulation_key_to_bytes = λ ek. ek ∷ [];
  encapsulation_key_new = first_byte;
  decapsulation_key_to_bytes = λ dk. dk ∷ [];
  decapsulation_key_new = sum;
  encapsulate_with_rng = λ ek s. ((s ∷ [], (ek + s) ∷ []), suc s);
  decapsulate = λ dk ciphertext. (dk + sum ciphertext) ∷ [];
}

sum_ml_kem-MlKemLaws : MlKemLaws sum_ml_kem
sum_ml_kem-MlKemLaws = record {
  length-encapsulation_key_to_bytes = λ ek. refl;
  encapsulation_key_read = λ ek. refl;
  length-decapsulation_key_to_bytes = λ dk. refl;
  decapsulation_key_read = λ dk. let same : dk + 0 ≡ dk = omega arith in same;
  length-ciphertext = λ ek r. refl;
  same_shared_key = λ r s. let same : s + 0 ≡ s = omega arith in rw same refl;
}

abbrev kem : Kem sum_oprf
kem = ml_kem sum_oprf sum_ml_kem

abbrev ke1 : GenerateKe1Result (KemKe1State sum_group kem) (KemKe1Message sum_group)
ke1 = record {
  state = record {
    dh_state = record { client_e_sk = 30; client_nonce = replicate 32 31 };
    kem_decapsulation_key = 32;
  };
  message = record {
    dh_message = record { client_nonce = replicate 32 31; client_e_pk = 31 };
    kem_encapsulation_key = 32 ∷ [];
  };
}

abbrev builder : KemKe2Builder sum_oprf sum_group sum_diffie_hellman sum_hash kem
builder = record {
  server_nonce = replicate 32 43;
  transcript_hasher = 206589;
  client_e_pk = 31;
  server_e_pk = 43;
  shared_secret_1 = 73 ∷ [];
  shared_secret_3 = 3151 ∷ [];
  kem_encapsulation_key = 32 ∷ [];
  kem_ciphertext = 44 ∷ [];
  kem_shared_secret = 76 ∷ [];
}

abbrev ke2 : GenerateKe2Result KemKe2State (KemKe2Message sum_group)
ke2 = record {
  state = record {
    base_state = record { session_key = 211483 ∷ []; expected_mac = 839812 ∷ [] };
    kem_encapsulation_key = 32 ∷ [];
    server_kem_ciphertext = 44 ∷ [];
  };
  message = record {
    dh_message = record { server_nonce = replicate 32 43; server_e_pk = 43; mac = 419918 ∷ [] };
    kem_ciphertext = 44 ∷ [];
  };
}

started : generate_kem_ke1 sum_oprf sum_group sum_diffie_hellman sum_hash kem 30 ≡ ok (ke1, 33)
unfolding generate_kem_ke1 bind generate_ke1 derive_random unwrap generate_nonce
started = refl

built :
    kem_ke2_builder sum_oprf sum_group sum_diffie_hellman sum_hash kem
      (33 ∷ [])
      ke1.message
      response
      3109
      identifiers
      context
      42
    ≡ ok (builder, 45)
unfolding kem_ke2_builder bind ke2_builder_common derive_random unwrap deserialize_encapsulation_key
    take_array array_try_from ok_or generate_nonce transcript chain_iter response_slices
    masked_slices identifier_slices ke1_slices request_slices context_slices to_iter
built = refl

answered :
    build_kem_ke2 sum_oprf sum_group sum_diffie_hellman sum_hash kem builder
      (generate_kem_ke2_input sum_oprf sum_group sum_diffie_hellman sum_hash kem builder 3 0).0
    ≡ ok ke2
unfolding build_kem_ke2 bind derive_keys derive_secrets hkdf_expand_label_extracted i2osp
    leading_zeros ok_or hkdf_expand_label compute_ke2_macs input_ikms generate_kem_ke2_input
    be_bytes
answered = refl

finish_kem_ke-generate_kem_ke3_example :
    (ke3 : GenerateKe3Result Ke3Message) × (generate_kem_ke3 sum_oprf sum_group sum_diffie_hellman
        sum_hash kem
        (33 ∷ [])
        ke1.message
        response
        ke1.state
        ke2.message
        4
        3108
        identifiers
        context
        50
      ≡ ok (ke3, 50))
    × (finish_kem_ke sum_oprf sum_group sum_diffie_hellman sum_hash kem ke2.state ke3.message ids
          context
        ≡ ok ke3.session_key)
finish_kem_ke-generate_kem_ke3_example =
    finish_kem_ke-generate_kem_ke3 sum_oprf sum_group sum_diffie_hellman sum_hash kem
      sum_hash-HashLaws sum_diffie_hellman-DiffieHellmanLaws
      (ml_kem-KemLaws sum_oprf sum_ml_kem sum_ml_kem-MlKemLaws) (33 ∷ []) response 3108 3 ids
      identifiers context 30 33 42 45 0 50 ke1 builder ke2 started built answered
