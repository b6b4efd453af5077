-- ===== src/Opaque/Outcomes.antt =====
-- opaque.rs: how the client's last steps of registration and of login end, on every input.
use opaque_vx.Prelude.{
  ◌*◌, ◌≤◌, some, Bytes, ◌≡◌, refl, true, false, ◌⊎◌, inl, inr, length, Bool-cases, arith,
}
use opaque_vx.Prelude.Results.{Result, ok, err, panic, bind, guard, map_err, passes}
use opaque_vx.Errors.{invalid_login_error, reflected_value_error}
use opaque_vx.Hash.{HashLaws}
use opaque_vx.Envelope.{Envelope, open_envelope, OpenedEnvelope}
use opaque_vx.Envelope.RoundTrip.{open_envelope-seal}
use opaque_vx.Envelope.Totality.{
  IsShort, EnvelopeFits, from_context_total, seal_total, open_envelope_outcome,
}
use opaque_vx.Masking.{unmask_response, masked_response_len}
use opaque_vx.Masking.Totality.{unmask_response_outcome}
use opaque_vx.Group.{TakesKeys}
use opaque_vx.KeyExchange.Trait.{Refuses}
use opaque_vx.KeyExchange.Serialized.{SerializedContext, from_context}
use opaque_vx.CipherSuite.{CipherSuite, Rng}
use opaque_vx.Messages.{CredentialResponse, RegistrationResponse}
use opaque_vx.Messages.Login.{to_request_parts, to_response_parts}
use opaque_vx.Opaque.{
  ClientLogin, ClientRegistration, ClientLoginFinishParameters, ClientRegistrationFinishParameters,
  ClientLoginFinishResult, ClientRegistrationFinishResult, get_password_derived_key,
  str_masking_key,
}
use opaque_vx.Opaque.RegisterClient.{client_registration_finish}
use opaque_vx.Opaque.LoginClient.{client_login_finish, unmask_failure, open_failure}

-- Both end in the same error or both panic.
abbrev pub SameFailure : {E A B : Type 0} → Result E A → Result E B → Type 0
SameFailure {E} m n = ((e : E) × (m ≡ err e) × (n ≡ err e)) ⊎ ((m ≡ panic) × (n ≡ panic))

Result-cases :
    {E A : Type 0} (m : Result E A)
    → ((a : A) × (m ≡ ok a)) ⊎ (((e : E) × (m ≡ err e)) ⊎ (m ≡ panic))
Result-cases (ok a) = inl (a, refl)
Result-cases (err e) = inr (inl (e, refl))
Result-cases panic = inr (inr refl)

module _ (cs : CipherSuite) where
  -- What a registration that went through gives: the masking key that it sends is expanded from the key of
  -- the password, and the envelope that it sends opens under that key and the server's key that the
  -- client was sent, with the export key and the public key that it gives.
  abbrev pub Registered :
      (derived : Bytes × cs.oprf.hash.Hkdf)
      → RegistrationResponse cs
      → ClientRegistrationFinishParameters cs
      → ClientRegistrationFinishResult cs
      → Type 0
  Registered derived response params finished =
      (cs.oprf.hash.expand derived.1 str_masking_key cs.oprf.hash.output_size
        ≡ some finished.message.masking_key)
      × (opened : OpenedEnvelope cs.oprf cs.key_exchange.group) × (open_envelope cs.oprf
            cs.key_exchange.group finished.message.envelope derived.1 response.server_s_pk
            params.identifiers
          ≡ ok opened)
      × (opened.export_key ≡ finished.export_key)
      × (opened.client_static_keypair.pk ≡ finished.message.client_s_pk)
      × (finished.server_s_pk ≡ response.server_s_pk)

  -- The ways in which the client's last step of registration ends: it refuses its own element sent back,
  -- it fails as the derivation of the key fails, or it succeeds.
  abbrev pub RegistrationOutcome :
      ClientRegistration cs
      → Bytes
      → RegistrationResponse cs
      → ClientRegistrationFinishParameters cs
      → Rng cs
      → Type 0
  RegistrationOutcome self password response params r =
      ((cs.oprf.elem_eq (cs.oprf.blinded_value self.blinded_element)
            (cs.oprf.evaluation_value response.evaluation_element)
          ≡ true)
        × (client_registration_finish cs self password response params r
            ≡ err reflected_value_error))
      ⊎ ((cs.oprf.elem_eq (cs.oprf.blinded_value self.blinded_element)
              (cs.oprf.evaluation_value response.evaluation_element)
            ≡ false)
          × (SameFailure
                (get_password_derived_key cs password self.oprf_client response.evaluation_element
                  params.ksf)
                (client_registration_finish cs self password response params r)
              ⊎ ((derived : Bytes × cs.oprf.hash.Hkdf) × (finished : ClientRegistrationFinishResult
                    cs)
                  × (r' : Rng cs) × (get_password_derived_key cs password self.oprf_client
                        response.evaluation_element params.ksf
                      ≡ ok derived)
                  × (client_registration_finish cs self password response params r
                      ≡ ok (finished, r'))
                  × Registered derived response params finished)))

  -- What a login that went through gives: the masked response read as the server's key and an envelope,
  -- which opened under both keys with the export key, and the key exchange accepted the server's message
  -- with the session key and the answer, under the keys and the names that the envelope gave.
  abbrev pub LoggedIn :
      ClientLogin cs
      → (derived : Bytes × cs.oprf.hash.Hkdf) → CredentialResponse cs
      → ClientLoginFinishParameters cs
      → (r r' : Rng cs) → ClientLoginFinishResult cs
      → Type 0
  LoggedIn self derived response params r r' finished =
      (masking_key : Bytes) × (envelope : Envelope) × (opened : OpenedEnvelope cs.oprf
        cs.key_exchange.group)
      × (context : SerializedContext) × (cs.oprf.hash.expand derived.1 str_masking_key
            cs.oprf.hash.output_size
          ≡ some masking_key)
      × (unmask_response cs.oprf cs.key_exchange.group masking_key response.masking_nonce
            response.masked_response
          ≡ ok (finished.server_s_pk, envelope))
      × (open_envelope cs.oprf cs.key_exchange.group envelope derived.1 finished.server_s_pk
            params.identifiers
          ≡ ok opened)
      × (opened.export_key ≡ finished.export_key)
      × (from_context cs.oprf params.context ≡ ok context)
      × (cs.key_exchange.generate_ke3 (to_request_parts cs self.credential_request)
            self.credential_request.ke1_message (to_response_parts cs response) self.ke1_state
            response.ke2_message finished.server_s_pk opened.client_static_keypair.sk
            opened.identifiers context r
          ≡ ok (
            record { session_key = finished.session_key; message = finished.message.ke3_message },
            r',
          ))

  -- The ways in which the client's last step of login ends: it refuses its own element sent back, it
  -- fails as the derivation of the key fails, it succeeds, or it refuses the login.
  abbrev pub LoginOutcome :
      ClientLogin cs
      → Bytes
      → CredentialResponse cs
      → ClientLoginFinishParameters cs
      → Rng cs
      → Type 0
  LoginOutcome self password response params r =
      ((cs.oprf.elem_eq (cs.oprf.blinded_value self.credential_request.blinded_element)
            (cs.oprf.evaluation_value response.evaluation_element)
          ≡ true)
        × (client_login_finish cs self password response params r ≡ err reflected_value_error))
      ⊎ ((cs.oprf.elem_eq (cs.oprf.blinded_value self.credential_request.blinded_element)
              (cs.oprf.evaluation_value response.evaluation_element)
            ≡ false)
          × (SameFailure
                (get_password_derived_key cs password self.oprf_client response.evaluation_element
                  params.ksf)
                (client_login_finish cs self password response params r)
              ⊎ ((derived : Bytes × cs.oprf.hash.Hkdf) × (get_password_derived_key cs password
                      self.oprf_client response.evaluation_element params.ksf
                    ≡ ok derived)
                  × (((finished : ClientLoginFinishResult cs) × (r' : Rng cs) × (client_login_finish
                            cs self password response params r
                          ≡ ok (finished, r'))
                        × LoggedIn self derived response params r r' finished)
                      ⊎ (client_login_finish cs self password response params r
                          ≡ err invalid_login_error)))))

  module _ (laws : HashLaws cs.oprf.hash) (fits : EnvelopeFits cs.key_exchange.group) where
    -- The client's last step of registration, with names that fit their length prefixes and a server's key
    -- that is written in its length, at a suite whose keys fit the hash and the envelope: it refuses
    -- with `ReflectedValueError` where the evaluation equals the blinded element that the client sent.
    -- Elsewhere it fails as the OPRF or the key stretching fails, with the same error, or it succeeds.
    -- Where it succeeds, it sends the masking key that is expanded from the key of the password, and
    -- the envelope that it sends opens under that key and the server's key that the client was sent,
    -- with the export key and the public key that the step gives.
    pub client_registration_finish_outcome :
        (self : ClientRegistration cs) (password : Bytes) (response : RegistrationResponse cs)
        (params : ClientRegistrationFinishParameters cs) (r : Rng cs)
        → IsShort params.identifiers.client
        → IsShort params.identifiers.server
        → length (cs.key_exchange.group.serialize_pk response.server_s_pk)
          ≡ cs.key_exchange.group.pk_len
        → RegistrationOutcome self password response params r
    unfolding client_registration_finish bind guard
    client_registration_finish_outcome self password response params r c s written =
        elim (Bool-cases (
          cs.oprf.elem_eq (cs.oprf.blinded_value self.blinded_element)
            (cs.oprf.evaluation_value response.evaluation_element))) [
              | inl same ↦ inl (same, simp same)
              | inr differs ↦ inr (
                differs,
                elim (Result-cases (
                    get_password_derived_key cs password self.oprf_client
                      response.evaluation_element params.ksf)) [
                        | inl (derived, derives) ↦ inr (
                            let (masking_key, masks) =
                              laws.expand_total derived.1 str_masking_key cs.oprf.hash.output_size
                                (omega arith) in
                            let (sealed, r', seals) =
                              seal_total cs.oprf cs.key_exchange.group laws fits params.identifiers
                                c s derived.1 response.server_s_pk r written in
                            let (opened, opens, pk_eq, _, export_eq, _, _) =
                              open_envelope-seal cs.oprf cs.key_exchange.group laws _ _ _ _ _ _ _ _
                                seals in
                            (
                              derived,
                              record {
                                message = record {
                                  envelope = sealed.0;
                                  masking_key = masking_key;
                                  client_s_pk = sealed.1;
                                };
                                export_key = sealed.2;
                                server_s_pk = response.server_s_pk;
                              },
                              r',
                              derives,
                              simp (differs, derives, masks, seals, passes),
                              (masks, opened, opens, export_eq, pk_eq, refl),
                            ))
                        | inr (inl (e, fails)) ↦ inl (inl (e, fails, simp (differs, fails)))
                        | inr (inr panics) ↦ inl (inr (panics, simp (differs, panics)))
                      ],
              )
            ]

    module _
        (mask_fits : masked_response_len cs.oprf cs.key_exchange.group
          ≤ 255 * cs.oprf.hash.output_size)
        (takes : TakesKeys cs.key_exchange.group) (refuses : Refuses cs.key_exchange) where
      -- Once the key of the password is derived, only the envelope and the key exchange decide.
      client_login_finish-derived :
          (self : ClientLogin cs) (password : Bytes) (response : CredentialResponse cs)
          (params : ClientLoginFinishParameters cs) (r : Rng cs)
          (derived : Bytes × cs.oprf.hash.Hkdf)
          → IsShort params.identifiers.client
          → IsShort params.identifiers.server
          → IsShort params.context
          → cs.oprf.elem_eq
              (cs.oprf.blinded_value self.credential_request.blinded_element)
              (cs.oprf.evaluation_value response.evaluation_element)
            ≡ false
          → get_password_derived_key cs password self.oprf_client response.evaluation_element
              params.ksf
            ≡ ok derived
          → ((finished : ClientLoginFinishResult cs) × (r' : Rng cs) × (client_login_finish cs self
                  password response params r
                ≡ ok (finished, r'))
              × LoggedIn self derived response params r r' finished)
            ⊎ (client_login_finish cs self password response params r ≡ err invalid_login_error)
      unfolding client_login_finish bind guard map_err unmask_failure open_failure
      client_login_finish-derived self password response params r derived c s short differs
            derives =
          let (masking_key, masks) =
            laws.expand_total derived.1 str_masking_key cs.oprf.hash.output_size (omega arith) in
          let (context, in_context) = from_context_total cs.oprf params.context short in
          elim (unmask_response_outcome cs.oprf cs.key_exchange.group laws mask_fits takes
            masking_key response.masking_nonce response.masked_response
            (laws.length-expand _ _ _ _ masks)) [
              | inr unread ↦ inr (simp (differs, derives, masks, unread, passes))
              | inl (pk, envelope, read, mode, written) ↦
                  elim (open_envelope_outcome cs.oprf cs.key_exchange.group laws fits
                    params.identifiers c s envelope derived.1 pk mode written) [
                      | inr unopened ↦ inr (simp (differs, derives, masks, read, unopened, passes))
                      | inl (opened, opens) ↦
                          elim (refuses (to_request_parts cs self.credential_request)
                            self.credential_request.ke1_message (to_response_parts cs response)
                            self.ke1_state response.ke2_message pk opened.client_static_keypair.sk
                            opened.identifiers context r) [
                              | inr refused ↦ inr (
                                  simp (
                                    differs, derives, masks, read, opens, in_context, refused,
                                    passes,
                                  ))
                              | inl (ke3, r', accepts) ↦ inl (
                                record {
                                  message = record { ke3_message = ke3.message };
                                  session_key = ke3.session_key;
                                  export_key = opened.export_key;
                                  server_s_pk = pk;
                                },
                                r',
                                simp (
                                  differs, derives, masks, read, opens, in_context, accepts, passes,
                                ),
                                (
                                  masking_key, envelope, opened, context, masks, read, opens, refl,
                                  in_context, accepts,
                                ),
                              )
                            ]
                    ]
            ]

      -- The client's last step of login, with names and a context that fit their length prefixes, at a
      -- suite whose keys fit the hash and the envelope, whose masked responses fit the hash, whose public
      -- keys take their length off a slice and are written in it, or are refused, and whose key
      -- exchange has no error but an invalid login: it refuses with `ReflectedValueError` where the
      -- evaluation equals the blinded element that the client sent. Elsewhere it fails as the OPRF or
      -- the key stretching fails, with the same error, or it succeeds, or it refuses with
      -- `InvalidLoginError`, and in no other way. Where it succeeds, the masked response read as the
      -- server's key and an envelope that opened with the export key, and the key exchange accepted the
      -- server's message with the session key and the message of the step.
      pub client_login_finish_outcome :
          (self : ClientLogin cs) (password : Bytes) (response : CredentialResponse cs)
          (params : ClientLoginFinishParameters cs) (r : Rng cs)
          → IsShort params.identifiers.client
          → IsShort params.identifiers.server
          → IsShort params.context
          → LoginOutcome self password response params r
      unfolding client_login_finish bind guard
      client_login_finish_outcome self password response params r c s short =
          elim (Bool-cases (
            cs.oprf.elem_eq (cs.oprf.blinded_value self.credential_request.blinded_element)
              (cs.oprf.evaluation_value response.evaluation_element))) [
                | inl same ↦ inl (same, simp same)
                | inr differs ↦ inr (
                  differs,
                  elim (Result-cases (
                      get_password_derived_key cs password self.oprf_client
                        response.evaluation_element params.ksf)) [
                          | inl (derived, derives) ↦ inr (
                            derived,
                            derives,
                            client_login_finish-derived self password response params r derived c s
                                short differs derives,
                          )
                          | inr (inl (e, fails)) ↦ inl (inl (e, fails, simp (differs, fails)))
                          | inr (inr panics) ↦ inl (inr (panics, simp (differs, panics)))
                        ],
                )
              ]
