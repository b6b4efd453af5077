-- ===== src/Tests/Exchange.antt =====
-- Examples of the theorems on the key exchange and on what the hashes and tags bind.
use opaque_vx.Masked.{masked_slices}
use opaque_vx.Keypair.{derive_random}
use opaque_vx.Serialization.Integers.{be_bytes, i2osp, leading_zeros}
use opaque_vx.Prelude.{
  List, ◌≡◌, ◌≢◌, ◌⊎◌, refl, some, [], ◌∷◌, Bytes, bytes_eq, replicate, length, arith,
  if◌then◌else◌,
}
use opaque_vx.Prelude.Results.{ok, err, bind, guard, ok_or, unwrap}
use opaque_vx.Errors.{invalid_login_error}
use opaque_vx.Hash.{chain_iter}
use opaque_vx.KeyExchange.Serialized.{
  SerializedIdentifiers, SerializedContext, SerializedCredentialResponse, owned, borrowed,
  from_identifiers, from_context, unwrap_or_empty, context_slices, identifier_slices,
  request_slices, response_slices,
}
use opaque_vx.KeyExchange.Serialized.Injective.{Framed, from_identifiers-Framed}
use opaque_vx.KeyExchange.Trait.{GenerateKe1Result, GenerateKe2Result, GenerateKe3Result}
use opaque_vx.KeyExchange.Shared.{
  Ke1State, Ke1Message, Ke1MessageIter, DerivedKeys, transcript, derive_keys, compute_ke2_macs,
  finalize_ke3_transcript, derive_secrets, hkdf_expand_label, hkdf_expand_label_extracted,
  input_ikms, ke1_slices, to_iter,
}
use opaque_vx.KeyExchange.Shared.Start.{
  Ke2BuilderCommon, generate_ke1, generate_nonce, ke2_builder_common,
}
use opaque_vx.KeyExchange.Shared.Agreement.{finalize-compute, compute-finalize}
use opaque_vx.KeyExchange.Shared.Totality.{finalize_ke3_transcript_lem}
use opaque_vx.KeyExchange.Shared.Transcript.{SameLengths, transcript_slices_injective}
use opaque_vx.KeyExchange.TripleDh.{
  Ke2State, Ke2Message, Ke3Message, ke2_builder, build_ke2, generate_ke2_input, generate_ke3,
  finish_ke3, finish_ke,
}
use opaque_vx.KeyExchange.TripleDh.Agreement.{finish_ke-generate_ke3}
use opaque_vx.KeyExchange.TripleDh.Totality.{build_ke2_total, finish_ke3_outcome, finish_ke_outcome}
use opaque_vx.Envelope.Aad.{construct_aad_injective}
use opaque_vx.Tests.{
  sum_oprf, sum_group, sum_diffie_hellman, sum_hash, sum_hash-HashLaws,
  sum_diffie_hellman-DiffieHellmanLaws,
}
use opaque_vx.Tests.Registered.{ids, masked}

abbrev client_id : Bytes
client_id = 7 ∷ 8 ∷ []

abbrev server_id : Bytes
server_id = 4 ∷ []

abbrev request : Bytes
request = 33 ∷ []

abbrev server_nonce : Bytes
server_nonce = replicate 32 43

abbrev server_e_pk : Bytes
server_e_pk = 43 ∷ []

abbrev pub identifiers : SerializedIdentifiers
identifiers = record {
  client = record { length = 0 ∷ 2 ∷ []; identifier = borrowed (7 ∷ 8 ∷ []) };
  server = record { length = 0 ∷ 1 ∷ []; identifier = owned (4 ∷ []) };
}

abbrev pub context : SerializedContext
context = record { length = 0 ∷ 1 ∷ []; context = 5 ∷ [] }

abbrev pub response : SerializedCredentialResponse
response = record {
  evaluation_element = 750 ∷ [];
  masking_nonce = replicate 32 41;
  masked_response = masked;
}

abbrev ke1_iter : Ke1MessageIter
ke1_iter = record { client_nonce = replicate 32 31; client_e_pk = 31 ∷ [] }

pub named : from_identifiers sum_oprf ids (3109 ∷ []) (4 ∷ []) ≡ ok identifiers
unfolding from_identifiers bind i2osp leading_zeros be_bytes
named = refl

in_context : from_context sum_oprf (some (5 ∷ [])) ≡ ok context
unfolding from_context bind i2osp leading_zeros be_bytes
in_context = refl

abbrev pub ke1 : GenerateKe1Result (Ke1State sum_group) (Ke1Message sum_group)
ke1 = record {
  state = record { client_e_sk = 30; client_nonce = replicate 32 31 };
  message = record { client_nonce = replicate 32 31; client_e_pk = 31 };
}

abbrev builder : Ke2BuilderCommon sum_oprf sum_group sum_hash
builder = record {
  server_nonce = replicate 32 43;
  transcript_hasher = 206513;
  client_e_pk = 31;
  server_e_pk = 43;
  shared_secret_1 = 73 ∷ [];
  shared_secret_3 = 3151 ∷ [];
}

abbrev ke2 : GenerateKe2Result Ke2State (Ke2Message sum_group)
ke2 = record {
  state = record { session_key = 211331 ∷ []; expected_mac = 839356 ∷ [] };
  message = record { server_nonce = replicate 32 43; server_e_pk = 43; mac = 419690 ∷ [] };
}

pub started : generate_ke1 sum_oprf sum_group 30 ≡ ok (ke1, 32)
unfolding generate_ke1 bind derive_random unwrap generate_nonce
started = refl

built :
    ke2_builder sum_oprf sum_group sum_diffie_hellman sum_hash
      (33 ∷ [])
      ke1.message
      response
      3109
      identifiers
      context
      42
    ≡ ok (builder, 44)
unfolding ke2_builder ke2_builder_common bind derive_random unwrap generate_nonce transcript
    chain_iter response_slices masked_slices identifier_slices ke1_slices request_slices
    context_slices to_iter
built = refl

answered :
    build_ke2 sum_oprf sum_group sum_diffie_hellman sum_hash builder
      (generate_ke2_input sum_oprf sum_group sum_diffie_hellman sum_hash builder 3 0).0
    ≡ ok ke2
unfolding build_ke2 bind derive_keys derive_secrets hkdf_expand_label_extracted i2osp leading_zeros
    ok_or hkdf_expand_label compute_ke2_macs input_ikms generate_ke2_input be_bytes
answered = refl

finish_ke-generate_ke3_example :
    (ke3 : GenerateKe3Result Ke3Message) × (generate_ke3 sum_oprf sum_group sum_diffie_hellman
        sum_hash
        (33 ∷ [])
        ke1.message
        response
        ke1.state
        ke2.message
        4
        3108
        identifiers
        context
        50
      ≡ ok (ke3, 50))
    × (finish_ke sum_oprf sum_group sum_diffie_hellman sum_hash ke2.state ke3.message ids context
        ≡ ok ke3.session_key)
finish_ke-generate_ke3_example =
    finish_ke-generate_ke3 sum_oprf sum_group sum_diffie_hellman sum_hash sum_hash-HashLaws
      sum_diffie_hellman-DiffieHellmanLaws (33 ∷ []) response 3108 3 ids identifiers context 30 32
      42 44 0 50 ke1 builder ke2 started built answered

abbrev secrets : List Bytes
secrets = (1 ∷ []) ∷ (2 ∷ []) ∷ (3 ∷ []) ∷ []

abbrev keys : DerivedKeys
keys = record { session_key = 1576 ∷ []; km2 = 3422 ∷ []; km3 = 3398 ∷ [] }

derived : derive_keys sum_oprf sum_hash secrets (10 ∷ []) ≡ ok keys
unfolding derive_keys bind derive_secrets hkdf_expand_label_extracted i2osp leading_zeros ok_or
    hkdf_expand_label input_ikms be_bytes
derived = refl

computed : compute_ke2_macs sum_oprf sum_hash 10 keys (10 ∷ []) ≡ ok (3442, 3432 ∷ [], 6840 ∷ [])
unfolding compute_ke2_macs bind ok_or
computed = refl

finalized : finalize_ke3_transcript sum_oprf sum_hash 10 secrets (3432 ∷ []) ≡ ok (keys, 6840 ∷ [])
unfolding finalize_ke3_transcript bind derive_keys derive_secrets hkdf_expand_label_extracted i2osp
    leading_zeros ok_or hkdf_expand_label guard bytes_eq input_ikms be_bytes
finalized = refl

finalize-compute_example :
    finalize_ke3_transcript sum_oprf sum_hash 10 secrets (3432 ∷ []) ≡ ok (keys, 6840 ∷ [])
finalize-compute_example =
    finalize-compute sum_oprf sum_hash sum_hash-HashLaws 10 3442 secrets keys (3432 ∷ [])
      (6840 ∷ []) derived computed

compute-finalize_example :
    (derive_keys sum_oprf sum_hash secrets (10 ∷ []) ≡ ok keys)
    × (compute_ke2_macs sum_oprf sum_hash 10 keys (10 ∷ []) ≡ ok (3442, 3432 ∷ [], 6840 ∷ []))
compute-finalize_example =
    compute-finalize sum_oprf sum_hash sum_hash-HashLaws 10 secrets keys (3432 ∷ []) (6840 ∷ [])
      finalized

finalize_ke3_transcript_lem_example :
    (mac : Bytes) × (keys' : DerivedKeys) × (answer : Bytes → Bytes) × (length mac ≡ 1)
    × ((server_mac : Bytes)
        → finalize_ke3_transcript sum_oprf sum_hash 10 secrets server_mac ≡ (
            if bytes_eq mac server_mac
            then ok (keys', answer server_mac)
            else err invalid_login_error))
finalize_ke3_transcript_lem_example =
    finalize_ke3_transcript_lem sum_oprf sum_hash sum_hash-HashLaws (omega arith) 10 secrets

build_ke2_total_example :
    (result : GenerateKe2Result Ke2State (Ke2Message sum_group)) × (build_ke2 sum_oprf sum_group
        sum_diffie_hellman sum_hash builder
        (34 ∷ [])
      ≡ ok result)
    × (result.message.server_nonce ≡ builder.server_nonce)
    × (result.message.server_e_pk ≡ builder.server_e_pk)
    × (length result.message.mac ≡ 1)
    × (length result.state.session_key ≡ 1)
    × (length result.state.expected_mac ≡ 1)
build_ke2_total_example =
    build_ke2_total sum_oprf sum_group sum_diffie_hellman sum_hash sum_hash-HashLaws (omega arith)
      builder (34 ∷ [])

finish_ke3_outcome_example :
    ((ke3 : GenerateKe3Result Ke3Message) × (finish_ke3 sum_oprf sum_group sum_diffie_hellman
          sum_hash
          (33 ∷ [])
          ke1.message
          response
          ke1.state
          ke2.message
          5
          3108
          identifiers
          context
        ≡ ok ke3))
    ⊎ (finish_ke3 sum_oprf sum_group sum_diffie_hellman sum_hash
          (33 ∷ [])
          ke1.message
          response
          ke1.state
          ke2.message
          5
          3108
          identifiers
          context
        ≡ err invalid_login_error)
finish_ke3_outcome_example =
    finish_ke3_outcome sum_oprf sum_group sum_diffie_hellman sum_hash sum_hash-HashLaws
      (omega arith) (33 ∷ []) ke1.message response ke1.state ke2.message 5 3108 identifiers context

abbrev forged : Ke3Message
forged = record { mac = 1 ∷ [] }

finish_ke_outcome_example :
    ((forged.mac ≡ ke2.state.expected_mac)
      × (finish_ke sum_oprf sum_group sum_diffie_hellman sum_hash ke2.state forged ids context
          ≡ ok ke2.state.session_key))
    ⊎ ((forged.mac ≢ ke2.state.expected_mac)
        × (finish_ke sum_oprf sum_group sum_diffie_hellman sum_hash ke2.state forged ids context
            ≡ err invalid_login_error))
finish_ke_outcome_example =
    finish_ke_outcome sum_oprf sum_group sum_diffie_hellman sum_hash ke2.state forged ids context

same_lengths :
    SameLengths
      (33 ∷ [])
      (33 ∷ [])
      ke1_iter
      ke1_iter
      response
      response
      (replicate 32 43)
      (replicate 32 43)
same_lengths = record {
  request_length = refl;
  client_nonce_length = refl;
  client_e_pk_length = refl;
  element_length = refl;
  masking_nonce_length = refl;
  nonce_length = refl;
  hash_length = refl;
  pk_length = refl;
  server_nonce_length = refl;
}

framed :
    Framed sum_oprf identifiers.client (7 ∷ 8 ∷ []) × Framed sum_oprf identifiers.server (4 ∷ [])
framed =
    from_identifiers-Framed sum_oprf ids (3109 ∷ []) (4 ∷ []) identifiers (omega arith)
      (omega arith) named

transcript_slices_injective_example :
    (unwrap_or_empty (some (5 ∷ [])) ≡ unwrap_or_empty (some (5 ∷ [])))
    × (client_id ≡ client_id)
    × (request ≡ request)
    × (ke1_iter ≡ ke1_iter)
    × (server_id ≡ server_id)
    × (response ≡ response)
    × (server_nonce ≡ server_nonce)
    × (server_e_pk ≡ server_e_pk)
transcript_slices_injective_example =
    transcript_slices_injective sum_oprf (some (5 ∷ [])) (some (5 ∷ [])) context context identifiers
      identifiers client_id client_id server_id server_id request request ke1_iter ke1_iter response
      response server_nonce server_nonce server_e_pk server_e_pk (omega arith) (omega arith)
      in_context in_context framed.0 framed.0 framed.1 framed.1 same_lengths refl

construct_aad_injective_example :
    (server_id ≡ server_id) × (server_id ≡ server_id) × (client_id ≡ client_id)
construct_aad_injective_example =
    construct_aad_injective sum_oprf ids ids (3109 ∷ []) (3109 ∷ []) (4 ∷ []) (4 ∷ []) identifiers
      identifiers named named (omega arith) (omega arith) (omega arith) (omega arith) refl refl
