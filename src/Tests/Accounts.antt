-- ===== src/Tests/Accounts.antt =====
-- The example of the login program, at the small suite.
use opaque_vx.Prelude.{
  ℕ, suc, ◌≡◌, ◌==◌, ◌+◌, false, some, List, arith, refl, sym, ◌∙◌, [], ◌∷◌, ◌++◌, Bytes, replicate,
  bytes_eq,
}
use opaque_vx.Prelude.Results.{ok, ok-injective, bind, unwrap, map_err, ok_or, guard}
use opaque_vx.Oprf.{from_voprf}
use opaque_vx.Hash.{mac_update_iter}
use opaque_vx.Serialization.{take_array, concat_ext, i2osp}
use opaque_vx.Envelope.{build_inner_envelope_internal, construct_aad, seal_raw, serialize_envelope}
use opaque_vx.Envelope.Seal.{seal}
use opaque_vx.Envelope.Codec.{deserialize_take_envelope}
use opaque_vx.Messages.Registration.{
  serialize_registration_request, deserialize_registration_request, serialize_registration_response,
  deserialize_registration_response, serialize_registration_upload, deserialize_registration_upload,
}
use opaque_vx.Serialization.Integers.{be_bytes, i2osp, leading_zeros}
use opaque_vx.KeyExchange.Serialized.{from_identifier, from_identifiers, identifier_slices}
use opaque_vx.Opaque.{
  ServerRegistrationStartResult, get_password_derived_key, key_material_info, oprf_key_material,
  oprf_key_from_key_material,
}
use opaque_vx.Opaque.RegisterClient.{blind, client_registration_start, client_registration_finish}
use opaque_vx.Opaque.States.{serialize_server_registration}
use opaque_vx.Opaque.RegisterServer.{
  evaluate, server_registration_start, server_registration_start_with_key_material,
  server_registration_finish,
}
use opaque_vx.Tests.Wide.{wide, encodings, wide-SuiteLaws, setup, password, no_context, in_order}
use opaque_vx.Examples.SimpleLogin.{
  account_registration, Step, registers, login_option, Shown, login_success, lookup,
}
use opaque_vx.Examples.SimpleLogin.Accounts.{Reached, none_yet, after, login_option-recorded}

abbrev username : Bytes
username = 65 ∷ []

abbrev password_file : Bytes
password_file = 2933 ∷ replicate 32 2563 ++ replicate 32 11 ++ replicate 32 86591

filed : account_registration wide setup username password 10 ≡ ok password_file
unfolding account_registration bind unwrap client_registration_start blind from_voprf map_err
    deserialize_registration_request serialize_registration_request server_registration_start
    oprf_key_material ok_or server_registration_start_with_key_material evaluate
    oprf_key_from_key_material deserialize_registration_response serialize_registration_response
    deserialize_take_envelope seal build_inner_envelope_internal construct_aad seal_raw
    serialize_envelope mac_update_iter from_identifier from_identifiers identifier_slices
    deserialize_registration_upload serialize_registration_upload client_registration_finish
    server_registration_finish serialize_server_registration get_password_derived_key
    key_material_info guard concat_ext take_array be_bytes i2osp leading_zeros
filed = refl

reached : Reached wide encodings setup ((username, password) ∷ []) ((username, password_file) ∷ [])
reached = after none_yet (registers [] username password password_file 10 filed)

found : lookup username ((username, password) ∷ []) ≡ some password
unfolding lookup bytes_eq
found = refl

answers :
    (message : ℕ)
    → server_registration_start wide setup (record { blinded_element = message }) username
      ≡ ok (record { message = record { evaluation_element = message + 773; server_s_pk = 4 } })
unfolding server_registration_start bind oprf_key_material ok_or
    server_registration_start_with_key_material evaluate oprf_key_from_key_material from_voprf
    map_err key_material_info be_bytes
answers message = refl

moves :
    (message : ℕ) (answer : ServerRegistrationStartResult wide)
    → server_registration_start wide setup (record { blinded_element = message }) username
      ≡ ok answer
    → message == answer.message.evaluation_element ≡ false
moves message answer h =
    let same : record { message = record { evaluation_element = message + 773; server_s_pk = 4 } }
        ≡ answer =
      ok-injective (sym (answers message) ∙ h) in
    rw (← same) (ground arith)

login_option-recorded_example :
    Step wide encodings setup
      ((username, password_file) ∷ [])
      (login_option username password)
      login_success
      ((username, password_file) ∷ [])
    × ((shown : Shown) (users' : List (Bytes × Bytes))
        → Step wide encodings setup
            ((username, password_file) ∷ [])
            (login_option username password)
            shown
            users'
        → (shown ≡ login_success) × (users' ≡ (username, password_file) ∷ []))
login_option-recorded_example =
    login_option-recorded wide encodings setup wide-SuiteLaws refl tt reached username password
      no_context found (record { blinds = λ r. (r, 3 + r, suc r, refl); moves = moves }) in_order 20
