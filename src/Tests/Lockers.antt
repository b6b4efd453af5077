-- ===== src/Tests/Lockers.antt =====
-- The example of the digital locker, at the small suite with digests of 32 bytes.
use opaque_vx.Prelude.{
  ℕ, suc, ◌≡◌, ◌==◌, ◌+◌, ◌≤◌, false, true, Option, some, none, List, arith, refl, sym, ◌∙◌, [],
  ◌∷◌, ◌++◌, Bytes, length, replicate, if◌then◌else◌,
}
use opaque_vx.Prelude.Results.{ok, ok-injective, bind, unwrap, map_err, ok_or, guard}
use opaque_vx.Oprf.{from_voprf}
use opaque_vx.Hash.{mac_update_iter}
use opaque_vx.Serialization.{take_array, concat_ext, i2osp}
use opaque_vx.Envelope.{build_inner_envelope_internal, construct_aad, seal_raw, serialize_envelope}
use opaque_vx.Envelope.Seal.{seal}
use opaque_vx.Envelope.Codec.{deserialize_take_envelope}
use opaque_vx.Messages.Registration.{
  serialize_registration_request, deserialize_registration_request, serialize_registration_response,
  deserialize_registration_response, serialize_registration_upload, deserialize_registration_upload,
}
use opaque_vx.Serialization.Integers.{be_bytes, i2osp, leading_zeros}
use opaque_vx.KeyExchange.Serialized.{from_identifier, from_identifiers, identifier_slices}
use opaque_vx.Opaque.{
  ServerRegistrationStartResult, get_password_derived_key, key_material_info, oprf_key_material,
  oprf_key_from_key_material,
}
use opaque_vx.Opaque.RegisterClient.{blind, client_registration_start, client_registration_finish}
use opaque_vx.Opaque.States.{serialize_server_registration}
use opaque_vx.Opaque.RegisterServer.{
  evaluate, server_registration_start, server_registration_start_with_key_material,
  server_registration_finish,
}
use opaque_vx.Examples.Utf8.{is_utf8, scan}
use opaque_vx.Examples.DigitalLocker.{Locker, register_locker, encrypt}
use opaque_vx.Examples.DigitalLocker.Cipher.{Aead, AeadLaws, slice_to}
use opaque_vx.Examples.DigitalLocker.Menu.{
  Step, registers, open_option, Shown, success, parse_usize, get, parse_digits,
}
use opaque_vx.Examples.DigitalLocker.Menu.Table.{
  Reached-HoldsAll, HoldsAll, Reached, none_yet, after, open_option-recorded,
}
use opaque_vx.Tests.Wide.{wide, encodings, wide-SuiteLaws, setup, password, no_context, in_order}
use opaque_vx.Tests.{sum}

abbrev opened_under : ℕ → Bytes → Option Bytes
opened_under c [] = none
opened_under c (x ∷ xs) = if x == c then some xs else none

-- The plaintext with the sum of the key in front.
abbrev marking : Aead
marking = record {
  Cipher = ℕ;
  new = sum;
  max = 1000;
  encrypt = λ c nonce plaintext. some (c ∷ plaintext);
  decrypt = λ c nonce ciphertext. opened_under c ciphertext;
}

opened_under_same : (c : ℕ) (plaintext : Bytes) → opened_under c (c ∷ plaintext) ≡ some plaintext
opened_under_same c plaintext = ground arith

marking-AeadLaws : AeadLaws marking
marking-AeadLaws = record {
  encrypt_total = λ c nonce plaintext fits. (c ∷ plaintext, refl);
  decrypt-encrypt = λ c nonce plaintext ciphertext made.
      let same : c ∷ plaintext ≡ ciphertext = cc in rw (← same) (opened_under_same c plaintext);
}

-- "Hi"
abbrev secret_message : Bytes
secret_message = 72 ∷ 105 ∷ []

abbrev locker : Locker
locker = record {
  contents = replicate 12 12 ++ 86816 ∷ 72 ∷ 105 ∷ [];
  password_file = 2803 ∷ replicate 32 2433 ++ replicate 32 11 ++ replicate 32 82301;
}

stored : register_locker marking wide {E = ⊥} setup 0 password secret_message 10 ≡ ok (locker, 13)
unfolding register_locker bind unwrap client_registration_start blind from_voprf map_err
    deserialize_registration_request serialize_registration_request server_registration_start
    oprf_key_material ok_or server_registration_start_with_key_material evaluate
    oprf_key_from_key_material deserialize_registration_response serialize_registration_response
    deserialize_take_envelope seal build_inner_envelope_internal construct_aad seal_raw
    serialize_envelope slice_to encrypt mac_update_iter from_identifier from_identifiers
    identifier_slices deserialize_registration_upload serialize_registration_upload
    client_registration_finish server_registration_finish serialize_server_registration
    get_password_derived_key key_material_info guard concat_ext take_array be_bytes i2osp
    leading_zeros
stored = refl

length-contents : length locker.contents ≡ 15
length-contents = refl

reached : Reached marking wide encodings setup ((password, secret_message) ∷ []) (locker ∷ [])
reached = after none_yet (registers [] password secret_message locker 10 13 stored)

number : parse_usize (48 ∷ []) ≡ some 0
unfolding parse_usize parse_digits
number = refl

answers :
    (message : ℕ)
    → server_registration_start wide setup (record { blinded_element = message }) (be_bytes 8 0)
      ≡ ok (record { message = record { evaluation_element = message + 708; server_s_pk = 4 } })
unfolding server_registration_start bind oprf_key_material ok_or
    server_registration_start_with_key_material evaluate oprf_key_from_key_material from_voprf
    map_err key_material_info be_bytes
answers message = refl

moves :
    (message : ℕ) (answer : ServerRegistrationStartResult wide)
    → server_registration_start wide setup (record { blinded_element = message }) (be_bytes 8 0)
      ≡ ok answer
    → message == answer.message.evaluation_element ≡ false
moves message answer h =
    let same : record { message = record { evaluation_element = message + 708; server_s_pk = 4 } }
        ≡ answer =
      ok-injective (sym (answers message) ∙ h) in
    rw (← same) (ground arith)

text : is_utf8 secret_message ≡ true
unfolding scan
text = refl

fits : (other : Locker) → get (locker ∷ []) 0 ≡ some other → length other.contents ≤ 1000
fits other found = let same : locker ≡ other = cc in rw (← same) (omega (arith, length-contents))

open_option-recorded_example :
    Step marking wide encodings setup
      (locker ∷ [])
      (open_option (48 ∷ []) password)
      (success secret_message)
      (locker ∷ [])
    × ((shown : Shown) (lockers' : List Locker)
        → Step marking wide encodings setup
            (locker ∷ [])
            (open_option (48 ∷ []) password)
            shown
            lockers'
        → (shown ≡ success secret_message) × (lockers' ≡ locker ∷ []))
open_option-recorded_example =
    open_option-recorded marking wide encodings setup marking-AeadLaws wide-SuiteLaws refl tt
      reached (48 ∷ []) password secret_message 0 no_context number refl
      (record { blinds = λ r. (r, 3 + r, suc r, refl); moves = moves }) in_order (omega arith) fits
      text 20

Reached-HoldsAll_example :
    HoldsAll marking wide encodings setup marking-AeadLaws wide-SuiteLaws refl tt
      ((password, secret_message) ∷ [])
      (locker ∷ [])
Reached-HoldsAll_example =
    Reached-HoldsAll marking wide encodings setup marking-AeadLaws wide-SuiteLaws refl tt reached
