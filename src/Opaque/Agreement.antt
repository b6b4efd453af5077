-- ===== src/Opaque/Agreement.antt =====
-- A registered user logs in: both sides accept each other and agree on the session key.
use opaque_vx.Prelude.{Option, some, Bytes, false, ◌≡◌, ap, sym, ◌∙◌, refl}
use opaque_vx.Prelude.Results.{ok, bind_ok, passes, guard, ok-injective}
use opaque_vx.Hash.{HashLaws}
use opaque_vx.Oprf.{OprfLaws}
use opaque_vx.Group.{GroupLaws}
use opaque_vx.KeyExchange.Serialized.{Identifiers}
use opaque_vx.KeyExchange.Trait.{KeyExchangeLaws}
use opaque_vx.Masking.RoundTrip.{unmask_response-mask_response}
use opaque_vx.Envelope.RoundTrip.{open_envelope-seal}
use opaque_vx.Envelope.Sealed.{seal-Sealed}
use opaque_vx.CipherSuite.{CipherSuite, Rng}
use opaque_vx.Messages.Login.{to_request_parts, to_response_parts}
use opaque_vx.Opaque.{
  LocalSetup, ServerRegistration, get_password_derived_key, ServerLoginStartResult,
  ClientLoginStartResult, ClientLoginFinishResult, ClientRegistrationStartResult,
  ServerRegistrationStartResult, ClientRegistrationFinishResult,
}
use opaque_vx.Opaque.RegisterServer.{
  evaluate, server_registration_start, server_registration_finish,
}
use opaque_vx.Opaque.RegisterClient.{blind, client_registration_start, client_registration_finish}
use opaque_vx.Opaque.LoginServer.{server_login_start}
use opaque_vx.Opaque.LoginClient.{client_login_start, client_login_finish}
use opaque_vx.Opaque.ServerFinish.{server_login_finish}
use opaque_vx.Opaque.Enrolled.{Enrolled, enrolled}
use opaque_vx.Opaque.Answered.{Answered, answered}

module _ (cs : CipherSuite) where
  -- What the client's first step of login went through.
  pub client_login_start-eq-ok :
      (password : Bytes) (r r' : Rng cs) (requested : ClientLoginStartResult cs)
      → client_login_start cs password r ≡ ok (requested, r')
      → (rng : Rng cs) × (blind cs password r
          ≡ ok ((requested.state.oprf_client, requested.message.blinded_element), rng))
        × (cs.key_exchange.generate_ke1 rng
            ≡ ok (
              record { state = requested.state.ke1_state; message = requested.message.ke1_message },
              r',
            ))
        × (requested.state.credential_request ≡ requested.message)
  unfolding client_login_start
  client_login_start-eq-ok password r r' requested h = bind_ok _ _ h λ result e h'.
      bind_ok _ _ h' λ ke1 e' done.
        let message : record { blinded_element = result.0.1; ke1_message = ke1.0.message }
            ≡ requested.message =
          cc in
        let client : result.0.0 ≡ requested.state.oprf_client = cc in
        let state : ke1.0.state ≡ requested.state.ke1_state = cc in
        let rng : ke1.1 ≡ r' = cc in
        (result.1, rw (← client, ← message) e, rw (← state, ← message, ← rng) e', cc)

  module _ (hash_laws : HashLaws cs.oprf.hash) (oprf_laws : OprfLaws cs.oprf)
      (group_laws : GroupLaws cs.key_exchange.group)
      (exchange_laws : KeyExchangeLaws cs.key_exchange group_laws.SkIsValid) (setup : LocalSetup cs)
      (password credential_identifier : Bytes) (ids : Identifiers) (context : Option Bytes)
      (ksf : Option cs.ksf.Params) (file : ServerRegistration cs) (export_key : Bytes)
      (requested : ClientLoginStartResult cs) (responded : ServerLoginStartResult cs)
      (r3 r3' r5 : Rng cs) where
    pub finish-answered :
        setup.keypair.pk ≡ cs.key_exchange.group.public_key setup.keypair.sk
        → group_laws.SkIsValid setup.keypair.sk
        → Enrolled cs setup password credential_identifier ids ksf file export_key
        → client_login_start cs password r3 ≡ ok (requested, r3')
        → Answered cs setup file requested.message credential_identifier
            (record { context = context; identifiers = ids })
            responded
        → cs.oprf.elem_eq
            (cs.oprf.blinded_value requested.message.blinded_element)
            (cs.oprf.evaluation_value responded.message.evaluation_element)
          ≡ false
        → (finished : ClientLoginFinishResult cs) × (r5' : Rng cs) × (client_login_finish cs
              requested.state password responded.message
              (record { context = context; identifiers = ids; ksf = ksf })
              r5
            ≡ ok (finished, r5'))
          × (finished.export_key ≡ export_key)
          × (finished.server_s_pk ≡ setup.keypair.pk)
          × (server_login_finish cs responded.state finished.message
                (record { context = context; identifiers = ids })
              ≡ ok (record { session_key = finished.session_key }))
    unfolding client_login_finish server_login_finish guard
    finish-answered paired valid user started answer differs =
        let (rng, blinded, ke1, same_request) =
          client_login_start-eq-ok password r3 r3' requested started in
        let sealed =
          seal-Sealed cs.oprf hash_laws cs.key_exchange.group oprf_laws _ _ _ _ _ _ _ _
            user.seals in
        let server_valid : group_laws.PkIsValid setup.keypair.pk =
          rw paired (group_laws.public_key-PkIsValid setup.keypair.sk valid) in
        let unmasked =
          unmask_response-mask_response cs.oprf cs.key_exchange.group hash_laws group_laws
            file.masking_key responded.message.masking_nonce setup.keypair.pk file.envelope
            responded.message.masked_response server_valid sealed.mode sealed.length-nonce
            sealed.length-hmac answer.masked in
        let (opened, opens, client_pk, client_pair, export_eq, named, derived) =
          open_envelope-seal cs.oprf cs.key_exchange.group hash_laws _ _ _ _ _ _ _ _ user.seals in
        let same_key : answer.key_material ≡ user.key_material =
          ok-injective (sym answer.keyed ∙ user.keyed) in
        let evaluation : responded.message.evaluation_element
            ≡ cs.oprf.blind_evaluate user.server requested.message.blinded_element =
          ok-injective (
            sym answer.evaluated
            ∙ ap (λ k. evaluate cs k requested.message.blinded_element) same_key
            ∙ user.evaluates requested.message.blinded_element) in
        let derives =
          user.unblinds r3 rng requested.state.oprf_client requested.message.blinded_element
            blinded in
        let derives' : get_password_derived_key cs password requested.state.oprf_client
              responded.message.evaluation_element ksf
            ≡ ok user.derived =
          rw evaluation derives in
        let same_ids : opened.identifiers ≡ answer.identifiers =
          ok-injective (sym named ∙ answer.named) in
        let (ke3, r5', accepts, agrees) =
          exchange_laws.agreement (to_request_parts cs requested.message)
            (to_response_parts cs responded.message) opened.client_static_keypair.sk
            setup.keypair.sk ids answer.identifiers answer.context rng r3' answer.rng answer.rng'
            answer.input_rng r5 _ answer.builder answer.ke2
            (group_laws.derive_scalar-SkIsValid derived.0 _ derived.1 derived.2) valid
            (rw (client_pair, ← paired) answer.named) ke1 (rw client_pair answer.built)
            answer.replied in
        let accepts' : cs.key_exchange.generate_ke3 (to_request_parts cs requested.message)
              requested.message.ke1_message (to_response_parts cs responded.message)
              requested.state.ke1_state responded.message.ke2_message setup.keypair.pk
              opened.client_static_keypair.sk opened.identifiers answer.context r5
            ≡ ok (ke3, r5') =
          cc in
        (
          record {
            message = record { ke3_message = ke3.message };
            session_key = ke3.session_key;
            export_key = opened.export_key;
            server_s_pk = setup.keypair.pk;
          },
          r5',
          simp (
            same_request, differs, derives', user.masks, unmasked, opens, answer.in_context,
            accepts', passes,
          ),
          export_eq,
          refl,
          simp (answer.in_context, answer.state, agrees, passes),
        )

  -- A user registers and logs in, with the same password, credential identifier, identifiers, context
  -- and key stretching on both sides, where every step up to the server's answer succeeds and the
  -- evaluation is not the blinded element itself, and the setup's key pair is valid and belongs together. Then the
  -- client's last step succeeds, with the export key of the registration and the server's public key,
  -- and the server's last step takes the client's answer and gives the client's session key.
  pub login_agreement :
      HashLaws cs.oprf.hash
      → OprfLaws cs.oprf
      → (group_laws : GroupLaws cs.key_exchange.group)
      → KeyExchangeLaws cs.key_exchange group_laws.SkIsValid
      → (setup : LocalSetup cs) (password credential_identifier : Bytes) (ids : Identifiers)
        (context : Option Bytes) (ksf : Option cs.ksf.Params)
        (r1 r1' r2 r2' r3 r3' r4 r4' r5 : Rng cs) (begun : ClientRegistrationStartResult cs)
        (replied : ServerRegistrationStartResult cs)
        (registered : ClientRegistrationFinishResult cs) (requested : ClientLoginStartResult cs)
        (responded : ServerLoginStartResult cs)
      → setup.keypair.pk ≡ cs.key_exchange.group.public_key setup.keypair.sk
      → group_laws.SkIsValid setup.keypair.sk
      → client_registration_start cs password r1 ≡ ok (begun, r1')
      → server_registration_start cs setup begun.message credential_identifier ≡ ok replied
      → client_registration_finish cs begun.state password replied.message
          (record { identifiers = ids; ksf = ksf })
          r2
        ≡ ok (registered, r2')
      → client_login_start cs password r3 ≡ ok (requested, r3')
      → server_login_start cs setup
          (some (server_registration_finish cs registered.message))
          requested.message
          credential_identifier
          (record { context = context; identifiers = ids })
          r4
        ≡ ok (responded, r4')
      → cs.oprf.elem_eq
          (cs.oprf.blinded_value requested.message.blinded_element)
          (cs.oprf.evaluation_value responded.message.evaluation_element)
        ≡ false
      → (finished : ClientLoginFinishResult cs) × (r5' : Rng cs) × (client_login_finish cs
            requested.state password responded.message
            (record { context = context; identifiers = ids; ksf = ksf })
            r5
          ≡ ok (finished, r5'))
        × (finished.export_key ≡ registered.export_key)
        × (finished.server_s_pk ≡ setup.keypair.pk)
        × (server_login_finish cs responded.state finished.message
              (record { context = context; identifiers = ids })
            ≡ ok (record { session_key = finished.session_key }))
  login_agreement hash_laws oprf_laws group_laws exchange_laws setup password credential_identifier
        ids context ksf r1 r1' r2 r2' r3 r3' r4 r4' r5 begun replied registered requested responded
        paired valid started answers finishes requests responds differs =
      finish-answered hash_laws oprf_laws group_laws exchange_laws setup password
        credential_identifier ids context ksf (server_registration_finish cs registered.message)
        registered.export_key requested responded r3 r3' r5 paired valid
        (enrolled cs oprf_laws setup password credential_identifier ids ksf r1 r1' r2 r2' begun
          replied registered started answers finishes)
        requests
        (answered cs setup _ requested.message credential_identifier _ r4 r4' responded responds)
        differs
