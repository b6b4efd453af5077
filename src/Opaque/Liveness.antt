-- ===== src/Opaque/Liveness.antt =====
-- opaque.rs: the whole login of a registered user.
use opaque_vx.Prelude.{Option, some, Bytes, false, ◌≡◌, ◌≤◌, ◌*◌}
use opaque_vx.Prelude.Results.{ok, passes}
use opaque_vx.Hash.{HashLaws}
use opaque_vx.Oprf.{OprfLaws, from_voprf}
use opaque_vx.Group.{GroupLaws}
use opaque_vx.Masked.{nonce_len}
use opaque_vx.Masking.{masked_response_len}
use opaque_vx.Masking.Totality.{mask_response_total}
use opaque_vx.KeyExchange.Serialized.{Identifiers, SerializedContext, from_context, response_parts}
use opaque_vx.KeyExchange.Trait.{KeyExchangeLaws, KeyExchangeTotal}
use opaque_vx.Envelope.RoundTrip.{open_envelope-seal}
use opaque_vx.CipherSuite.{CipherSuite, Rng}
use opaque_vx.Messages.{CredentialRequest}
use opaque_vx.Messages.Login.{to_request_parts, to_response_parts}
use opaque_vx.Opaque.{
  LocalSetup, ServerRegistration, ServerLoginParameters, ServerLoginStartResult,
  ClientLoginStartResult, key_material_info, ClientLoginFinishResult, ClientRegistrationStartResult,
  ServerRegistrationStartResult, ClientRegistrationFinishResult,
}
use opaque_vx.Opaque.Setup.{dummy}
use opaque_vx.Opaque.RegisterServer.{
  server_registration_start, server_registration_start_with_key_material,
  server_registration_finish,
}
use opaque_vx.Opaque.RegisterClient.{blind, client_registration_start, client_registration_finish}
use opaque_vx.Opaque.LoginServer.{
  server_login_start, server_login_builder, builder_with_key_material,
}
use opaque_vx.Opaque.LoginClient.{client_login_start, client_login_finish}
use opaque_vx.Opaque.ServerFinish.{server_login_finish, server_login_build}
use opaque_vx.Opaque.Enrolled.{Enrolled, enrolled}
use opaque_vx.Opaque.Answered.{Answered, answered}
use opaque_vx.Opaque.Agreement.{finish-answered}

module _ (cs : CipherSuite) where
  module _ (total : KeyExchangeTotal cs.key_exchange) where
    pub client_login_start_total :
        (password : Bytes)
        → ((r : Rng cs)
            → (client : cs.oprf.OprfClient) × (message : cs.oprf.BlindedElement) × (r' : Rng cs)
              × (cs.oprf.blind password r ≡ ok ((client, message), r')))
        → (r : Rng cs)
        → (requested : ClientLoginStartResult cs) × (r' : Rng cs) × (client_login_start cs password
              r
            ≡ ok (requested, r'))
    unfolding client_login_start blind from_voprf
    client_login_start_total password blinds r =
        let (client, message, r1, blinded) = blinds r in
        let (ke1, r2, started) = total.generate_ke1_total r1 in
        let request : CredentialRequest cs = record {
          blinded_element = message;
          ke1_message = ke1.message;
        } in
        (
          record {
            message = request;
            state = record {
              oprf_client = client;
              ke1_state = ke1.state;
              credential_request = request;
            };
          },
          r2,
          simp (blinded, started, passes),
        )

    -- The server answers every request for a registered user.
    pub server_login_start_total :
        (hash_laws : HashLaws cs.oprf.hash)
        → masked_response_len cs.oprf cs.key_exchange.group ≤ 255 * cs.oprf.hash.output_size
        → (setup : LocalSetup cs) (password credential_identifier : Bytes) (ids : Identifiers)
          (given : Option Bytes) (context : SerializedContext) (ksf : Option cs.ksf.Params)
          (file : ServerRegistration cs) (export_key : Bytes) (request : CredentialRequest cs)
        → Enrolled cs setup password credential_identifier ids ksf file export_key
        → from_context cs.oprf given ≡ ok context
        → (r : Rng cs)
        → (responded : ServerLoginStartResult cs) × (r' : Rng cs) × (server_login_start cs setup
              (some file)
              request
              credential_identifier
              (record { context = given; identifiers = ids })
              r
            ≡ ok (responded, r'))
    unfolding server_login_start server_login_builder builder_with_key_material server_login_build
        key_material_info to_response_parts
    server_login_start_total hash_laws fits setup password credential_identifier ids given context
          ksf file export_key request user in_context r =
        let r1 = (dummy cs setup r).1 in
        let masking_nonce = cs.oprf.fill_bytes nonce_len r1 in
        let (masked, masks) =
          mask_response_total cs.oprf cs.key_exchange.group hash_laws fits file.masking_key
            masking_nonce.0 setup.keypair.pk file.envelope
            (hash_laws.length-expand _ _ _ _ user.masks) in
        let (opened, opens, client_pk, client_pair, export_eq, named, derived) =
          open_envelope-seal cs.oprf cs.key_exchange.group hash_laws _ _ _ _ _ _ _ _ user.seals in
        let evaluation = cs.oprf.blind_evaluate user.server request.blinded_element in
        let (builder, r2, built) =
          total.ke2_builder_total (to_request_parts cs request) request.ke1_message
            (response_parts cs.oprf evaluation masking_nonce.0 masked) file.client_s_pk
            opened.identifiers context masking_nonce.1 in
        let input = cs.key_exchange.generate_ke2_input builder setup.keypair.sk r2 in
        let (ke2, replied) = total.build_ke2_total builder input.0 in
        (
          record {
            message = record {
              evaluation_element = evaluation;
              masking_nonce = masking_nonce.0;
              masked_response = masked;
              ke2_message = ke2.message;
            };
            state = record { ke2_state = ke2.state };
          },
          input.1,
          simp (user.keyed, in_context, masks, named, user.evaluates, built, replied, passes),
        )

  -- What the server answers in login is what it answers to the same element in registration.
  pub answer-registration :
      (setup : LocalSetup cs) (file : ServerRegistration cs) (request : CredentialRequest cs)
      (credential_identifier : Bytes) (parameters : ServerLoginParameters)
      (responded : ServerLoginStartResult cs)
      → Answered cs setup file request credential_identifier parameters responded
      → server_registration_start cs setup
          (record { blinded_element = request.blinded_element })
          credential_identifier
        ≡ ok (record {
          message = record {
            evaluation_element = responded.message.evaluation_element;
            server_s_pk = setup.keypair.pk;
          };
        })
  unfolding server_registration_start server_registration_start_with_key_material key_material_info
  answer-registration setup file request credential_identifier parameters responded answer =
      simp (answer.keyed, answer.evaluated, passes)

  -- A user registers, where every step succeeds, at a server whose key pair is valid and belongs
  -- together. The key exchange does not fail, the masked response fits HKDF, the OPRF blinds the
  -- password from every state of the generator, the context is of a length that the transcript can
  -- hold, and the key of the OPRF for this user takes no element to itself. Then every login with the
  -- same password and parameters goes through, from all states of both generators: all four steps
  -- succeed, and both sides end with the same session key.
  pub login_succeeds :
      HashLaws cs.oprf.hash
      → OprfLaws cs.oprf
      → (group_laws : GroupLaws cs.key_exchange.group)
      → KeyExchangeLaws cs.key_exchange group_laws.SkIsValid
      → KeyExchangeTotal cs.key_exchange
      → masked_response_len cs.oprf cs.key_exchange.group ≤ 255 * cs.oprf.hash.output_size
      → (setup : LocalSetup cs) (password credential_identifier : Bytes) (ids : Identifiers)
        (given : Option Bytes) (context : SerializedContext) (ksf : Option cs.ksf.Params)
        (r1 r1' r2 r2' : Rng cs) (begun : ClientRegistrationStartResult cs)
        (replied : ServerRegistrationStartResult cs)
        (registered : ClientRegistrationFinishResult cs)
      → setup.keypair.pk ≡ cs.key_exchange.group.public_key setup.keypair.sk
      → group_laws.SkIsValid setup.keypair.sk
      → ((r : Rng cs)
          → (client : cs.oprf.OprfClient) × (message : cs.oprf.BlindedElement) × (r' : Rng cs)
            × (cs.oprf.blind password r ≡ ok ((client, message), r')))
      → from_context cs.oprf given ≡ ok context
      → ((message : cs.oprf.BlindedElement) (answer : ServerRegistrationStartResult cs)
          → server_registration_start cs setup
              (record { blinded_element = message })
              credential_identifier
            ≡ ok answer
          → cs.oprf.elem_eq
              (cs.oprf.blinded_value message)
              (cs.oprf.evaluation_value answer.message.evaluation_element)
            ≡ false)
      → client_registration_start cs password r1 ≡ ok (begun, r1')
      → server_registration_start cs setup begun.message credential_identifier ≡ ok replied
      → client_registration_finish cs begun.state password replied.message
          (record { identifiers = ids; ksf = ksf })
          r2
        ≡ ok (registered, r2')
      → (r3 r4 r5 : Rng cs)
      → (requested : ClientLoginStartResult cs) × (r3' : Rng cs)
        × (responded : ServerLoginStartResult cs) × (r4' : Rng cs)
        × (finished : ClientLoginFinishResult cs) × (r5' : Rng cs) × (client_login_start cs password
              r3
            ≡ ok (requested, r3'))
        × (server_login_start cs setup
              (some (server_registration_finish cs registered.message))
              requested.message
              credential_identifier
              (record { context = given; identifiers = ids })
              r4
            ≡ ok (responded, r4'))
        × (client_login_finish cs requested.state password responded.message
              (record { context = given; identifiers = ids; ksf = ksf })
              r5
            ≡ ok (finished, r5'))
        × (finished.export_key ≡ registered.export_key)
        × (finished.server_s_pk ≡ setup.keypair.pk)
        × (server_login_finish cs responded.state finished.message
              (record { context = given; identifiers = ids })
            ≡ ok (record { session_key = finished.session_key }))
  login_succeeds hash_laws oprf_laws group_laws exchange_laws total fits setup password
        credential_identifier ids given context ksf r1 r1' r2 r2' begun replied registered paired
        valid blinds in_context moves begins replies finishes r3 r4 r5 =
      let user =
        enrolled cs oprf_laws setup password credential_identifier ids ksf r1 r1' r2 r2' begun
          replied registered begins replies finishes in
      let (requested, r3', requests) = client_login_start_total total password blinds r3 in
      let (responded, r4', responds) =
        server_login_start_total total hash_laws fits setup password credential_identifier ids given
          context ksf _ _ requested.message user in_context r4 in
      let answer =
        answered cs setup _ requested.message credential_identifier _ r4 r4' responded responds in
      let differs = moves _ _ (answer-registration setup _ _ _ _ _ answer) in
      let (finished, r5', finishes', export_eq, server_eq, accepts) =
        finish-answered cs hash_laws oprf_laws group_laws exchange_laws setup password
          credential_identifier ids given ksf _ _ requested responded r3 r3' r5 paired valid user
          requests answer differs in
      (
        requested, r3', responded, r4', finished, r5', requests, responds, finishes', export_eq,
        server_eq, accepts,
      )
