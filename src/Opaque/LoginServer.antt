-- ===== src/Opaque/LoginServer.antt =====
-- opaque.rs: the server's first step of login.
use opaque_vx.Prelude.{Option, none, some, Bytes}
use opaque_vx.Prelude.Act.{Act, pure, lift, total, ◌>>=◌}
use opaque_vx.Oprf.{Failure}
use opaque_vx.Masked.{nonce_len}
use opaque_vx.Masking.{mask_response}
use opaque_vx.KeyExchange.Serialized.{from_context, from_identifiers, response_parts}
use opaque_vx.CipherSuite.{CipherSuite, Rng}
use opaque_vx.Messages.{CredentialRequest, ServerLoginBuilder}
use opaque_vx.Messages.Login.{to_request_parts}
use opaque_vx.Opaque.{
  ServerSetup, LocalSetup, OprfSeed, ServerRegistration, ServerLoginParameters,
  ServerLoginStartResult, key_material_info, oprf_key_material,
}
use opaque_vx.Opaque.Setup.{dummy}
use opaque_vx.Opaque.RegisterServer.{evaluate}
use opaque_vx.Opaque.ServerFinish.{server_login_build}

module _ (cs : CipherSuite) where
  -- The dummy is the record of a user without one.
  abbrev pub record_or_dummy :
      Option (ServerRegistration cs) → ServerRegistration cs → ServerRegistration cs
  record_or_dummy none dummy_record = dummy_record
  record_or_dummy (some password_file) dummy_record = password_file

  -- The dummy record is drawn whether or not there is a password file.
  unfoldable pub builder_with_key_material :
      {SK OS : Type 0}
      → ServerSetup cs SK OS
      → Bytes
      → Option (ServerRegistration cs)
      → CredentialRequest cs
      → ServerLoginParameters
      → Act (Failure cs.oprf) (Rng cs) (ServerLoginBuilder cs SK)
  builder_with_key_material server_setup key_material password_file credential_request parameters =
      do
        dummy_record ← total (dummy cs server_setup)
        let user = record_or_dummy password_file dummy_record
        context ← lift (from_context cs.oprf parameters.context)
        let server_s_pk = server_setup.keypair.pk
        masking_nonce ← total (cs.oprf.fill_bytes nonce_len)
        masked_response ← lift (
            mask_response cs.oprf cs.key_exchange.group user.masking_key masking_nonce server_s_pk
              user.envelope)
        identifiers ← lift (
            from_identifiers cs.oprf parameters.identifiers
              (cs.key_exchange.group.serialize_pk user.client_s_pk)
              (cs.key_exchange.group.serialize_pk server_s_pk))
        evaluation_element ← lift (evaluate cs key_material credential_request.blinded_element)
        let credential_response =
            response_parts cs.oprf evaluation_element masking_nonce masked_response
        ke2_builder ←
            cs.key_exchange.ke2_builder (to_request_parts cs credential_request)
              credential_request.ke1_message credential_response user.client_s_pk identifiers
              context
        pure (record {
          server_s_sk = server_setup.keypair.sk;
          evaluation_element = evaluation_element;
          masking_nonce = masking_nonce;
          masked_response = masked_response;
          ke2_builder = ke2_builder;
        })

  -- `ServerLogin::builder`
  unfoldable pub server_login_builder :
      {SK : Type 0}
      → ServerSetup cs SK OprfSeed
      → Option (ServerRegistration cs)
      → CredentialRequest cs
      → Bytes
      → ServerLoginParameters
      → Act (Failure cs.oprf) (Rng cs) (ServerLoginBuilder cs SK)
  server_login_builder server_setup password_file credential_request credential_identifier
        parameters =
      do
        let material = key_material_info cs server_setup credential_identifier
        key_material ← lift (oprf_key_material cs material.ikm material.info)
        builder_with_key_material server_setup key_material password_file credential_request
            parameters

  unfoldable pub server_login_start :
      LocalSetup cs
      → Option (ServerRegistration cs)
      → CredentialRequest cs
      → Bytes
      → ServerLoginParameters
      → Act (Failure cs.oprf) (Rng cs) (ServerLoginStartResult cs)
  server_login_start server_setup password_file credential_request credential_identifier
        parameters =
      do
        builder ←
            server_login_builder server_setup password_file credential_request credential_identifier
              parameters
        input ←
            total (cs.key_exchange.generate_ke2_input builder.ke2_builder server_setup.keypair.sk)
        lift (server_login_build cs builder input)
