-- ===== src/Opaque/Enrolled.antt =====
-- What a registration leaves: the facts that the logins of the registered user rest on.
use opaque_vx.Prelude.{Option, some, [], ◌∷◌, Bytes, ◌≡◌, ap, sym, ◌∙◌}
use opaque_vx.Prelude.Results.{ok, bind_ok, ok_or-eq-ok, map_err-eq-ok, passes}
use opaque_vx.Prelude.Act.{lift_ok}
use opaque_vx.Oprf.{OprfLaws, from_voprf}
use opaque_vx.KeyExchange.Serialized.{Identifiers}
use opaque_vx.Envelope.Seal.{seal}
use opaque_vx.CipherSuite.{CipherSuite, Rng}
use opaque_vx.Opaque.{
  LocalSetup, ServerRegistration, get_password_derived_key, oprf_key_material, str_masking_key,
  str_oprf_key, ClientRegistrationStartResult, ServerRegistrationStartResult,
  ClientRegistrationFinishResult, key_material_info,
}
use opaque_vx.Opaque.RegisterServer.{
  evaluate, server_registration_start, server_registration_start_with_key_material,
  server_registration_finish,
}
use opaque_vx.Opaque.RegisterClient.{blind, client_registration_start, client_registration_finish}

module _ (cs : CipherSuite) where
  pub record Enrolled (setup : LocalSetup cs) (password credential_identifier : Bytes)
      (ids : Identifiers) (ksf : Option cs.ksf.Params) (file : ServerRegistration cs)
      (export_key : Bytes) : Type 0 where
    pub key_material : Bytes
    pub server : cs.oprf.OprfServer
    pub derived : Bytes × cs.oprf.hash.Hkdf
    pub rng : Rng cs
    pub rng' : Rng cs
    pub keyed :
        oprf_key_material cs setup.oprf_seed (credential_identifier ∷ str_oprf_key ∷ [])
        ≡ ok key_material
    pub evaluates :
        (message : cs.oprf.BlindedElement)
        → evaluate cs key_material message ≡ ok (cs.oprf.blind_evaluate server message)
    pub unblinds :
        (r r' : Rng cs) (client : cs.oprf.OprfClient) (message : cs.oprf.BlindedElement)
        → blind cs password r ≡ ok ((client, message), r')
        → get_password_derived_key cs password client (cs.oprf.blind_evaluate server message) ksf
          ≡ ok derived
    pub masks :
        cs.oprf.hash.expand derived.1 str_masking_key cs.oprf.hash.output_size
        ≡ some file.masking_key
    pub seals :
        seal cs.oprf cs.key_exchange.group derived.1 setup.keypair.pk ids rng
        ≡ ok ((file.envelope, file.client_s_pk, export_key), rng')

  -- The password alone decides the derived key, whatever the blinding was.
  get_password_derived_key-blind :
      OprfLaws cs.oprf
      → (password : Bytes) (ksf : Option cs.ksf.Params) (server : cs.oprf.OprfServer)
        (r1 r1' r2 r2' : Rng cs) (client1 client2 : cs.oprf.OprfClient)
        (message1 message2 : cs.oprf.BlindedElement)
      → blind cs password r1 ≡ ok ((client1, message1), r1')
      → blind cs password r2 ≡ ok ((client2, message2), r2')
      → get_password_derived_key cs password client1 (cs.oprf.blind_evaluate server message1) ksf
        ≡ get_password_derived_key cs password client2 (cs.oprf.blind_evaluate server message2) ksf
  unfolding blind from_voprf get_password_derived_key
  get_password_derived_key-blind laws password ksf server r1 r1' r2 r2' client1 client2 message1
        message2 b1 b2 =
      rw (
        laws.finalize_blind password r1 r1' client1 message1 (map_err-eq-ok _ _ b1) server,
        laws.finalize_blind password r2 r2' client2 message2 (map_err-eq-ok _ _ b2) server,
      )

  -- A key that evaluated one element evaluates all of them, with one OPRF server.
  evaluate-eq-ok :
      (key_material : Bytes) (message : cs.oprf.BlindedElement)
      (evaluation : cs.oprf.EvaluationElement)
      → evaluate cs key_material message ≡ ok evaluation
      → (server : cs.oprf.OprfServer) × (evaluation ≡ cs.oprf.blind_evaluate server message)
        × ((other : cs.oprf.BlindedElement)
            → evaluate cs key_material other ≡ ok (cs.oprf.blind_evaluate server other))
  unfolding evaluate
  evaluate-eq-ok key_material message evaluation h =
      bind_ok _ _ h λ oprf_key e1 h1.
        bind_ok _ _ h1 λ server e2 h2. (server, cc, λ other. simp (e1, e2, passes))

  -- What the client's first step of registration gives.
  client_registration_start-eq-ok :
      (password : Bytes) (r r' : Rng cs) (started : ClientRegistrationStartResult cs)
      → client_registration_start cs password r ≡ ok (started, r')
      → (blind cs password r
          ≡ ok ((started.state.oprf_client, started.message.blinded_element), r'))
        × (started.state.blinded_element ≡ started.message.blinded_element)
  unfolding client_registration_start
  client_registration_start-eq-ok password r r' started h = bind_ok _ _ h λ result e h'.
      let state : record {
        message = record { blinded_element = result.0.1 };
        state = record { oprf_client = result.0.0; blinded_element = result.0.1 };
      }
          ≡ started =
        cc in
      let rng : result.1 ≡ r' = cc in (rw (← state, ← rng) e, rw (← state))

  module _ (laws : OprfLaws cs.oprf) (setup : LocalSetup cs)
      (password credential_identifier : Bytes) (ids : Identifiers) (ksf : Option cs.ksf.Params)
      (r1 r1' r2 r2' : Rng cs) (started : ClientRegistrationStartResult cs)
      (answered : ServerRegistrationStartResult cs)
      (registered : ClientRegistrationFinishResult cs) where
    pub enrolled :
        client_registration_start cs password r1 ≡ ok (started, r1')
        → server_registration_start cs setup started.message credential_identifier ≡ ok answered
        → client_registration_finish cs started.state password answered.message
            (record { identifiers = ids; ksf = ksf })
            r2
          ≡ ok (registered, r2')
        → Enrolled setup password credential_identifier ids ksf
            (server_registration_finish cs registered.message)
            registered.export_key
    unfolding server_registration_start server_registration_start_with_key_material
        key_material_info client_registration_finish server_registration_finish
    enrolled begun replied ended =
        let (blinded, same) = client_registration_start-eq-ok password r1 r1' started begun in
        bind_ok _ _ replied λ key_material keyed replied'.
          bind_ok _ _ replied' λ evaluation evaluated replied''.
            let (server, evaluation_eq, evaluates) =
              evaluate-eq-ok key_material _ evaluation evaluated in
            lift_ok _ _ _ ended λ unit fresh ended1. lift_ok _ _ _ ended1 λ derived derives ended2.
              lift_ok _ _ _ ended2 λ masking_key masks ended3.
                bind_ok _ _ ended3 λ sealed seals ended4.
                  let from_server : answered.message.server_s_pk ≡ setup.keypair.pk = cc in
                  let answer : answered.message.evaluation_element
                      ≡ cs.oprf.blind_evaluate server started.message.blinded_element =
                    cc in
                  let file_key : masking_key ≡ registered.message.masking_key = cc in
                  record {
                    key_material = key_material;
                    server = server;
                    derived = derived;
                    rng = r2;
                    rng' = r2';
                    keyed = keyed;
                    evaluates = evaluates;
                    unblinds = λ r r' client message b.
                        get_password_derived_key-blind laws password ksf server r r' r1 r1' client _
                          message _ b blinded
                        ∙ ap
                            (λ x.
                              get_password_derived_key cs password started.state.oprf_client x ksf)
                            (sym answer)
                        ∙ derives;
                    masks = ok_or-eq-ok _ _ masks ∙ ap some file_key;
                    seals =
                        let sealed_for : seal cs.oprf cs.key_exchange.group derived.1
                              setup.keypair.pk ids r2
                            ≡ ok sealed =
                          cc in
                        sealed_for ∙ cc;
                  }
