-- ===== src/Opaque/Readable.antt =====
-- messages.rs and opaque.rs: the encodings of what the steps of registration and login send.
use opaque_vx.Prelude.{Option, Bytes, ◌≡◌, [], length, append-nil, subst, sym, ap, ◌∙◌}
use opaque_vx.Prelude.Results.{ok, bind_ok, passes}
use opaque_vx.Prelude.Act.{lift_ok}
use opaque_vx.Hash.{HashLaws}
use opaque_vx.Oprf.{OprfLaws, OprfEncodings, from_voprf}
use opaque_vx.Group.{GroupLaws}
use opaque_vx.Envelope.Sealed.{seal-Sealed}
use opaque_vx.Envelope.RoundTrip.{open_envelope-seal}
use opaque_vx.Masking.Totality.{mask_response-lengths}
use opaque_vx.KeyExchange.Serialized.{Identifiers}
use opaque_vx.KeyExchange.Trait.{Encodings, EncodingsLaws, ProducesValid}
use opaque_vx.CipherSuite.{CipherSuite, Rng}
use opaque_vx.Messages.{
  RegistrationRequest, RegistrationResponse, CredentialRequest, CredentialResponse,
  CredentialFinalization,
}
use opaque_vx.Messages.Registration.{
  at_least, serialize_registration_request, deserialize_registration_request,
  serialize_registration_response, deserialize_registration_response, serialize_registration_upload,
  deserialize_registration_upload,
}
use opaque_vx.Messages.Login.{
  deserialize_take_credential_request, serialize_credential_request, deserialize_credential_request,
  serialize_credential_response, deserialize_credential_response, serialize_credential_finalization,
  deserialize_credential_finalization,
}
use opaque_vx.Opaque.{
  LocalSetup, ServerRegistration, ClientLogin, ClientLoginStartResult, ClientLoginFinishParameters,
  ClientLoginFinishResult, ServerLoginParameters, ServerLoginStartResult,
}
use opaque_vx.Opaque.Enrolled.{Enrolled}
use opaque_vx.Opaque.Answered.{Answered}
use opaque_vx.Opaque.Agreement.{client_login_start-eq-ok}
use opaque_vx.Opaque.LoginClient.{client_login_start, client_login_finish}
use opaque_vx.Opaque.ServerFinish.{server_login_finish}
use opaque_vx.Opaque.Codecs.{
  at_least-append, deserialize_registration_response-serialize_registration_response,
  deserialize_registration_upload-serialize_registration_upload,
  deserialize_take_credential_request-serialize_credential_request,
  deserialize_credential_response-serialize_credential_response,
}

module _ (cs : CipherSuite) where
  module _ (oprf_encodings : OprfEncodings cs.oprf) where
    pub registration_request_reads :
        (request : RegistrationRequest cs)
        → deserialize_registration_request cs (serialize_registration_request cs request)
          ≡ ok request
    unfolding serialize_registration_request deserialize_registration_request from_voprf
    registration_request_reads request =
        let long =
          subst (λ b. at_least cs.oprf cs.oprf.elem_len b ≡ ok tt) (append-nil _)
            (at_least-append cs.oprf cs.oprf.elem_len
              (cs.oprf.serialize_elem (cs.oprf.blinded_value request.blinded_element)) []
              (oprf_encodings.length-serialize_elem _)) in
        simp (long, oprf_encodings.blinded_read request.blinded_element, passes)

    pub registration_response_reads :
        (group_laws : GroupLaws cs.key_exchange.group)
        → (response : RegistrationResponse cs) → group_laws.PkIsValid response.server_s_pk
        → deserialize_registration_response cs (serialize_registration_response cs response)
          ≡ ok response
    registration_response_reads group_laws response valid =
        subst (λ b. deserialize_registration_response cs b ≡ ok response) (append-nil _)
          (deserialize_registration_response-serialize_registration_response cs group_laws
            oprf_encodings response [] valid)

  module _ (hash_laws : HashLaws cs.oprf.hash) (oprf_laws : OprfLaws cs.oprf)
      (group_laws : GroupLaws cs.key_exchange.group) where
    -- The record of a registered user reads back.
    pub upload_reads :
        (setup : LocalSetup cs) (password credential_identifier : Bytes) (ids : Identifiers)
        (ksf : Option cs.ksf.Params) (file : ServerRegistration cs) (export_key : Bytes)
        → Enrolled cs setup password credential_identifier ids ksf file export_key
        → deserialize_registration_upload cs (serialize_registration_upload cs file) ≡ ok file
    upload_reads setup password credential_identifier ids ksf file export_key user =
        let sealed =
          seal-Sealed cs.oprf hash_laws cs.key_exchange.group oprf_laws _ _ _ _ _ _ _ _
            user.seals in
        let (opened, _, _, client_pair, _, _, derived) =
          open_envelope-seal cs.oprf cs.key_exchange.group hash_laws _ _ _ _ _ _ _ _ user.seals in
        let valid : group_laws.PkIsValid file.client_s_pk = rw (← client_pair) (
          group_laws.public_key-PkIsValid _
            (group_laws.derive_scalar-SkIsValid derived.0 _ derived.1 derived.2)) in
        subst (λ b. deserialize_registration_upload cs b ≡ ok file) (append-nil _)
          (deserialize_registration_upload-serialize_registration_upload cs group_laws file [] valid
            (hash_laws.length-expand _ _ _ _ user.masks) sealed)

  module _ (oprf_laws : OprfLaws cs.oprf) (oprf_encodings : OprfEncodings cs.oprf)
      (e : Encodings cs.key_exchange) (laws : EncodingsLaws cs.key_exchange e)
      (produces : ProducesValid cs.key_exchange laws) where
    pub credential_request_reads :
        (password : Bytes) (r r' : Rng cs) (requested : ClientLoginStartResult cs)
        → client_login_start cs password r ≡ ok (requested, r')
        → deserialize_credential_request cs e (serialize_credential_request cs e requested.message)
          ≡ ok requested.message
    unfolding deserialize_credential_request
    credential_request_reads password r r' requested h =
        let (rng, blinded, ke1, _) = client_login_start-eq-ok cs password r r' requested h in
        let reads =
          subst (λ b. deserialize_take_credential_request cs e b ≡ ok (requested.message, []))
            (append-nil _)
            (deserialize_take_credential_request-serialize_credential_request cs oprf_encodings e
              laws requested.message [] (produces.generate_ke1-IsValid rng r' _ ke1)) in
        simp (reads, passes)

    pub credential_response_reads :
        (setup : LocalSetup cs) (file : ServerRegistration cs) (request : CredentialRequest cs)
        (credential_identifier : Bytes) (parameters : ServerLoginParameters)
        (responded : ServerLoginStartResult cs)
        → Answered cs setup file request credential_identifier parameters responded
        → deserialize_credential_response cs e
            (serialize_credential_response cs e responded.message)
          ≡ ok responded.message
    credential_response_reads setup file request credential_identifier parameters responded answer =
        let (nonce, hash, pk) =
          mask_response-lengths cs.oprf cs.key_exchange.group _ _ _ _ _ answer.masked in
        let valid = produces.build_ke2-IsValid _ _ _ _ _ _ _ _ _ _ _ answer.built answer.replied in
        subst (λ b. deserialize_credential_response cs e b ≡ ok responded.message) (append-nil _)
          (deserialize_credential_response-serialize_credential_response cs oprf_encodings e laws
            responded.message []
            (ap length answer.drawn ∙ oprf_laws.length-fill_bytes _ answer.nonce_rng) nonce hash pk
            (rw (answer.message) valid))

    -- The client's last message is one that the key exchange produced.
    credential_finalization_produced :
        (self : ClientLogin cs) (password : Bytes) (response : CredentialResponse cs)
        (params : ClientLoginFinishParameters cs) (r r' : Rng cs)
        (finished : ClientLoginFinishResult cs)
        → client_login_finish cs self password response params r ≡ ok (finished, r')
        → laws.Ke3MessageIsValid finished.message.ke3_message
    unfolding client_login_finish
    credential_finalization_produced self password response params r r' finished h =
        lift_ok _ _ _ h λ unit fresh h1. lift_ok _ _ _ h1 λ derived derives h2.
          lift_ok _ _ _ h2 λ masking_key masks h3. lift_ok _ _ _ h3 λ unmasked unmasks h4.
            lift_ok _ _ _ h4 λ opened opens h5. lift_ok _ _ _ h5 λ context in_context h6.
              bind_ok _ _ h6 λ result generated h7.
                let same : result.0.message ≡ finished.message.ke3_message = cc in
                rw (← same)
                  (produces.generate_ke3-IsValid _ _ _ _ _ _ _ _ _ _ result.1 result.0 generated)

    pub credential_finalization_reads :
        (self : ClientLogin cs) (password : Bytes) (response : CredentialResponse cs)
        (params : ClientLoginFinishParameters cs) (r r' : Rng cs)
        (finished : ClientLoginFinishResult cs)
        → client_login_finish cs self password response params r ≡ ok (finished, r')
        → deserialize_credential_finalization cs e
            (serialize_credential_finalization cs e finished.message)
          ≡ ok finished.message
    unfolding deserialize_credential_finalization serialize_credential_finalization
    credential_finalization_reads self password response params r r' finished h =
        let reads =
          subst (λ b. e.deserialize_take_ke3_message b ≡ ok (finished.message.ke3_message, []))
            (append-nil _)
            (laws.take_ke3_message finished.message.ke3_message []
              (credential_finalization_produced self password response params r r' finished h)) in
        simp (reads, passes)

    -- The server's session key is as long as the hash of the key exchange.
    pub length-server_login_finish :
        (setup : LocalSetup cs) (file : ServerRegistration cs) (request : CredentialRequest cs)
        (credential_identifier : Bytes) (parameters : ServerLoginParameters)
        (responded : ServerLoginStartResult cs) (message : CredentialFinalization cs)
        (session_key : Bytes)
        → Answered cs setup file request credential_identifier parameters responded
        → server_login_finish cs responded.state message parameters
          ≡ ok (record { session_key = session_key })
        → length session_key ≡ cs.key_exchange.hash.output_size
    unfolding server_login_finish
    length-server_login_finish setup file request credential_identifier parameters responded message
          session_key answer h =
        bind_ok _ _ h λ context in_context h1. bind_ok _ _ h1 λ key finished h2.
          let same : key ≡ session_key = cc in
          let finished' : cs.key_exchange.finish_ke answer.ke2.state message.ke3_message
                parameters.identifiers context
              ≡ ok key =
            rw (← answer.state) finished in
          ap length (sym same) ∙ produces.length-session_key _ _ _ _ _ _ _ answer.replied finished'
