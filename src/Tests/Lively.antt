-- ===== src/Tests/Lively.antt =====
-- The example of the login that goes through, at the small suite.
use opaque_vx.Serialization.Integers.{be_bytes, i2osp, leading_zeros}
use opaque_vx.Prelude.{ℕ, ◌≡◌, ◌==◌, ◌+◌, false, some, none, arith, refl, suc, [], ◌∷◌}
use opaque_vx.Prelude.Results.{Result, ok, bind, ok_or, map_err, ok-injective}
use opaque_vx.Oprf.{Failure, from_voprf}
use opaque_vx.KeyExchange.Serialized.{SerializedContext, from_context}
use opaque_vx.KeyExchange.Trait.{KeyExchangeTotal}
use opaque_vx.KeyExchange.TripleDh.Totality.{triple_dh-KeyExchangeTotal}
use opaque_vx.Opaque.{
  key_material_info, oprf_key_material, oprf_key_from_key_material, ClientLoginStartResult,
  ServerLoginStartResult, ClientLoginFinishResult, ServerRegistrationStartResult,
}
use opaque_vx.Opaque.RegisterServer.{
  server_registration_start, server_registration_start_with_key_material, evaluate,
  server_registration_finish,
}
use opaque_vx.Opaque.LoginClient.{client_login_start, client_login_finish}
use opaque_vx.Opaque.LoginServer.{server_login_start}
use opaque_vx.Opaque.ServerFinish.{server_login_finish}
use opaque_vx.Opaque.Liveness.{login_succeeds}
use opaque_vx.Tests.{
  suite, sum, sum_oprf, sum_group, sum_diffie_hellman, sum_hash, sum_hash-HashLaws,
  sum_oprf-OprfLaws, sum_group-GroupLaws, suite-KeyExchangeLaws,
}
use opaque_vx.Tests.Registered.{
  ids, context, password, credential_identifier, setup, begun, replied, registered, begins, replies,
  registers,
}

pub suite-KeyExchangeTotal : KeyExchangeTotal suite.key_exchange
suite-KeyExchangeTotal =
    triple_dh-KeyExchangeTotal sum_oprf sum_group sum_diffie_hellman sum_hash sum_hash-HashLaws
      (omega arith) sum_oprf-OprfLaws.length-fill_bytes (λ seed measured. (sum seed, refl))

abbrev in_order : SerializedContext
in_order = record { length = 0 ∷ 1 ∷ []; context = 5 ∷ [] }

taken : from_context sum_oprf context ≡ ok in_order
unfolding from_context bind i2osp leading_zeros be_bytes
taken = refl

moves :
    (message : ℕ) (answer : ServerRegistrationStartResult suite)
    → server_registration_start suite setup
        (record { blinded_element = message })
        credential_identifier
      ≡ ok answer
    → message == answer.message.evaluation_element ≡ false
unfolding server_registration_start bind oprf_key_material ok_or
    server_registration_start_with_key_material evaluate oprf_key_from_key_material from_voprf
    map_err key_material_info
moves message answer h =
    let computed : ◌≡◌ {A = Result (Failure sum_oprf) (ServerRegistrationStartResult suite)}
        (ok (record { message = record { evaluation_element = message + 717; server_s_pk = 4 } }))
        (ok answer) =
      h in
    let same : record { message = record { evaluation_element = message + 717; server_s_pk = 4 } }
        ≡ answer =
      ok-injective computed in
    rw (← same) (ground arith)

login_succeeds_example :
    (requested : ClientLoginStartResult suite) × (r3' : ℕ) × (responded : ServerLoginStartResult
      suite)
    × (r4' : ℕ) × (finished : ClientLoginFinishResult suite) × (r5' : ℕ) × (client_login_start suite
          password 7
        ≡ ok (requested, r3'))
    × (server_login_start suite setup
          (some (server_registration_finish suite registered.message))
          requested.message
          credential_identifier
          (record { context = context; identifiers = ids })
          8
        ≡ ok (responded, r4'))
    × (client_login_finish suite requested.state password responded.message
          (record { context = context; identifiers = ids; ksf = none })
          9
        ≡ ok (finished, r5'))
    × (finished.export_key ≡ registered.export_key)
    × (finished.server_s_pk ≡ setup.keypair.pk)
    × (server_login_finish suite responded.state finished.message
          (record { context = context; identifiers = ids })
        ≡ ok (record { session_key = finished.session_key }))
login_succeeds_example =
    login_succeeds suite sum_hash-HashLaws sum_oprf-OprfLaws sum_group-GroupLaws
      suite-KeyExchangeLaws suite-KeyExchangeTotal (omega arith) setup password
      credential_identifier ids context in_order none 10 11 20 21 begun replied registered refl tt
      (λ r. (r, 3 + r, suc r, refl)) taken moves begins replies registers 7 8 9
