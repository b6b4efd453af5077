-- ===== src/Tests/Primitives.antt =====
-- Examples of the theorems on the encodings of integers, on slices, on the envelope and on masking.
use opaque_vx.Masked.{deserialize_take_masked}
use opaque_vx.Hash.{mac_update_iter}
use opaque_vx.Prelude.{
  ℕ, ◌^◌, ◌<◌, ◌≡◌, refl, [], ◌∷◌, ◌++◌, Bytes, replicate, length, arith, ltb, if◌then◌else◌, ◌⊎◌,
  xor_into,
}
use opaque_vx.Prelude.Results.{ok, err, bind, map_err, ok_or}
use opaque_vx.Errors.{serialization_error, size_error}
use opaque_vx.Serialization.{i2osp, os2ip, take_array, take_array_lem, concat_ext, leading_zeros}
use opaque_vx.Serialization.Integers.{be_bytes}
use opaque_vx.Serialization.Integers.RoundTrip.{i2osp_lem, os2ip-i2osp}
use opaque_vx.KeyExchange.Serialized.{from_identifiers, identifier_slices}
use opaque_vx.Envelope.{
  OpenedEnvelope, open_envelope, build_inner_envelope_internal, construct_aad, seal_raw,
  serialize_envelope,
}
use opaque_vx.Envelope.Seal.{seal}
use opaque_vx.Envelope.RoundTrip.{open_envelope-seal}
use opaque_vx.Masking.{mask_response, unmask_response, xor_pad}
use opaque_vx.Masking.RoundTrip.{unmask_response-mask_response}
use opaque_vx.Tests.{sum_oprf, sum_group, sum_hash-HashLaws, sum_group-GroupLaws}
use opaque_vx.Tests.Registered.{ids, envelope, masked}

i2osp_lem_example :
    i2osp {V = Unit {0}} {W = Unit {0}} 1 258
    ≡ (if ltb 258 (256 ^ 1) then ok (be_bytes 1 258) else err serialization_error)
i2osp_lem_example = i2osp_lem {V = Unit {0}} {W = Unit {0}} 1 258 (omega arith)

two_octets : i2osp {V = Unit {0}} {W = Unit {0}} 2 258 ≡ ok (1 ∷ 2 ∷ [])
unfolding i2osp leading_zeros be_bytes
two_octets = refl

os2ip-i2osp_example :
    (length {A = ℕ} (1 ∷ 2 ∷ []) ≡ 2) × (os2ip {V = Unit {0}} {W = Unit {0}} (1 ∷ 2 ∷ []) ≡ ok 258)
os2ip-i2osp_example =
    os2ip-i2osp {V = Unit {0}} {W = Unit {0}} 2 258 (1 ∷ 2 ∷ []) (omega arith) (omega arith)
      two_octets

take_array_lem_example :
    ((length {A = ℕ} (5 ∷ 6 ∷ 7 ∷ []) < 2)
      × (take_array {V = Unit {0}} {W = Unit {0}} 2 "nonce" (5 ∷ 6 ∷ 7 ∷ [])
          ≡ err (size_error "nonce" 2 (length {A = ℕ} (5 ∷ 6 ∷ 7 ∷ [])))))
    ⊎ ((front back : Bytes) × (take_array {V = Unit {0}} {W = Unit {0}} 2 "nonce" (5 ∷ 6 ∷ 7 ∷ [])
          ≡ ok (front, back))
        × (length front ≡ 2)
        × (front ++ back ≡ (5 ∷ 6 ∷ 7 ∷ [])))
take_array_lem_example = take_array_lem {V = Unit {0}} {W = Unit {0}} 2 "nonce" (5 ∷ 6 ∷ 7 ∷ [])

sealed : seal sum_oprf sum_group 1440 4 ids 20 ≡ ok ((envelope, 3109, 3019 ∷ []), 21)
unfolding seal bind build_inner_envelope_internal ok_or map_err from_identifiers i2osp leading_zeros
    seal_raw mac_update_iter construct_aad identifier_slices be_bytes
sealed = refl

open_envelope-seal_example :
    (opened : OpenedEnvelope sum_oprf sum_group) × (open_envelope sum_oprf sum_group envelope 1440 4
        ids
      ≡ ok opened)
    × (opened.client_static_keypair.pk ≡ 3109)
    × (sum_group.public_key opened.client_static_keypair.sk ≡ 3109)
    × (opened.export_key ≡ 3019 ∷ [])
    × (from_identifiers sum_oprf ids (3109 ∷ []) (4 ∷ []) ≡ ok opened.identifiers)
    × ((seed : Bytes) × (length seed ≡ 1)
        × (sum_group.derive_scalar seed ≡ ok opened.client_static_keypair.sk))
open_envelope-seal_example =
    open_envelope-seal sum_oprf sum_group sum_hash-HashLaws 1440 4 ids 20 21 envelope 3109
      (3019 ∷ []) sealed

masks : mask_response sum_oprf sum_group (2451 ∷ []) (replicate 32 41) 4 envelope ≡ ok masked
unfolding mask_response bind xor_pad ok_or deserialize_take_masked take_array xor_into
    serialize_envelope concat_ext
masks = refl

unmask_response-mask_response_example :
    unmask_response sum_oprf sum_group (2451 ∷ []) (replicate 32 41) masked ≡ ok (4, envelope)
unmask_response-mask_response_example =
    unmask_response-mask_response sum_oprf sum_group sum_hash-HashLaws sum_group-GroupLaws
      (2451 ∷ []) (replicate 32 41) 4 envelope masked tt refl refl refl masks
