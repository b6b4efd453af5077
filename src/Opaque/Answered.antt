-- ===== src/Opaque/Answered.antt =====
-- What the server's first step of login went through, read off its result.
use opaque_vx.Prelude.{some, [], ◌∷◌, Bytes, ◌≡◌, ap, sym, ◌∙◌}
use opaque_vx.Prelude.Results.{ok, bind_ok, ok_first}
use opaque_vx.Prelude.Act.{lift_ok}
use opaque_vx.Keypair.{PrivateKey}
use opaque_vx.KeyExchange.Serialized.{
  SerializedContext, SerializedIdentifiers, from_context, from_identifiers,
}
use opaque_vx.KeyExchange.Trait.{GenerateKe2Result}
use opaque_vx.Masked.{nonce_len}
use opaque_vx.Masking.{mask_response}
use opaque_vx.CipherSuite.{CipherSuite, Rng}
use opaque_vx.Messages.{CredentialRequest, ServerLoginBuilder}
use opaque_vx.Messages.Login.{to_request_parts, to_response_parts}
use opaque_vx.Opaque.{
  LocalSetup, ServerRegistration, ServerLoginParameters, ServerLoginStartResult, oprf_key_material,
  str_oprf_key, key_material_info,
}
use opaque_vx.Opaque.Setup.{dummy}
use opaque_vx.Opaque.RegisterServer.{evaluate}
use opaque_vx.Opaque.ServerFinish.{server_login_build}
use opaque_vx.Opaque.LoginServer.{
  builder_with_key_material, server_login_builder, server_login_start,
}

module _ (cs : CipherSuite) where
  pub record Answered (setup : LocalSetup cs) (file : ServerRegistration cs)
      (request : CredentialRequest cs) (credential_identifier : Bytes)
      (parameters : ServerLoginParameters) (responded : ServerLoginStartResult cs) : Type 0 where
    pub key_material : Bytes
    pub context : SerializedContext
    pub identifiers : SerializedIdentifiers
    pub builder : cs.key_exchange.Ke2Builder
    pub ke2 : GenerateKe2Result cs.key_exchange.Ke2State cs.key_exchange.Ke2Message
    pub rng : Rng cs
    pub rng' : Rng cs
    pub input_rng : Rng cs
    pub nonce_rng : Rng cs
    pub drawn : responded.message.masking_nonce ≡ (cs.oprf.fill_bytes nonce_len nonce_rng).0
    pub keyed :
        oprf_key_material cs setup.oprf_seed (credential_identifier ∷ str_oprf_key ∷ [])
        ≡ ok key_material
    pub evaluated :
        evaluate cs key_material request.blinded_element ≡ ok responded.message.evaluation_element
    pub in_context : from_context cs.oprf parameters.context ≡ ok context
    pub named :
        from_identifiers cs.oprf parameters.identifiers
          (cs.key_exchange.group.serialize_pk file.client_s_pk)
          (cs.key_exchange.group.serialize_pk setup.keypair.pk)
        ≡ ok identifiers
    pub masked :
        mask_response cs.oprf cs.key_exchange.group file.masking_key responded.message.masking_nonce
          setup.keypair.pk file.envelope
        ≡ ok responded.message.masked_response
    pub built :
        cs.key_exchange.ke2_builder
          (to_request_parts cs request)
          request.ke1_message
          (to_response_parts cs responded.message)
          file.client_s_pk
          identifiers
          context
          rng
        ≡ ok (builder, rng')
    pub replied :
        cs.key_exchange.build_ke2 builder
          (cs.key_exchange.generate_ke2_input builder setup.keypair.sk input_rng).0
        ≡ ok ke2
    pub message : responded.message.ke2_message ≡ ke2.message
    pub state : responded.state.ke2_state ≡ ke2.state

  module _ (setup : LocalSetup cs) (file : ServerRegistration cs) (request : CredentialRequest cs)
      (credential_identifier : Bytes) (parameters : ServerLoginParameters) (r r' : Rng cs)
      (responded : ServerLoginStartResult cs) where
    pub answered :
        server_login_start cs setup (some file) request credential_identifier parameters r
          ≡ ok (responded, r')
        → Answered setup file request credential_identifier parameters responded
    unfolding builder_with_key_material server_login_builder server_login_start server_login_build
        key_material_info to_response_parts
    answered h =
        bind_ok _ _ h
          λ (builder : ServerLoginBuilder cs (PrivateKey cs.key_exchange.group) × Rng cs) prepared
              h'.
            let h'' = ok_first _ _ h' in
            lift_ok _ _ _ prepared λ key_material keyed p1.
              lift_ok _ _ _ (ok_first _ _ p1) λ context in_context p2.
                lift_ok _ _ _ (ok_first _ _ p2) λ masked_response masked p3.
                  lift_ok _ _ _ p3 λ identifiers named p4.
                    lift_ok _ _ _ p4 λ evaluation evaluated p5.
                      bind_ok _ _ p5 λ ke2_builder built p6. bind_ok _ _ h'' λ result replied done.
                        bind_ok _ _ replied λ ke2 replied' done'.
                          let evaluation_eq : responded.message.evaluation_element ≡ evaluation =
                            cc in
                          let nonce_eq : responded.message.masking_nonce
                              ≡ (cs.oprf.fill_bytes nonce_len (dummy cs setup r).1).0 =
                            cc in
                          let masked_eq : responded.message.masked_response ≡ masked_response =
                            cc in
                          let builder_eq : builder.0.ke2_builder ≡ ke2_builder.0 = cc in
                          record {
                            key_material = key_material;
                            context = context;
                            identifiers = identifiers;
                            builder = ke2_builder.0;
                            ke2 = ke2;
                            rng = (cs.oprf.fill_bytes nonce_len (dummy cs setup r).1).1;
                            rng' = ke2_builder.1;
                            input_rng = builder.1;
                            nonce_rng = (dummy cs setup r).1;
                            drawn = nonce_eq;
                            keyed = keyed;
                            evaluated = evaluated ∙ ap ok (sym evaluation_eq);
                            in_context = in_context;
                            named = named;
                            masked = rw (nonce_eq, masked_eq) masked;
                            built = rw (evaluation_eq, nonce_eq, masked_eq) built;
                            replied = rw (← builder_eq) replied';
                            message = cc;
                            state = cc;
                          }
