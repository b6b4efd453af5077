-- ===== src/Opaque/RegisterClient.antt =====
-- opaque.rs: the client's steps of registration.
use opaque_vx.Prelude.{Bytes, not}
use opaque_vx.Prelude.Results.{ok_or, guard}
use opaque_vx.Prelude.Act.{Act, pure, lift, ◌>>=◌}
use opaque_vx.Errors.{library_error, hkdf_error, reflected_value_error}
use opaque_vx.Oprf.{Failure, from_voprf}
use opaque_vx.Envelope.Seal.{seal}
use opaque_vx.CipherSuite.{CipherSuite, Rng}
use opaque_vx.Messages.{RegistrationResponse}
use opaque_vx.Opaque.{
  ClientRegistration, ClientRegistrationStartResult, ClientRegistrationFinishParameters,
  ClientRegistrationFinishResult, get_password_derived_key, str_masking_key,
}

module _ (cs : CipherSuite) where
  -- The blinding draws from the generator; a failure of voprf is a library error.
  unfoldable pub blind :
      Bytes → Act (Failure cs.oprf) (Rng cs) (cs.oprf.OprfClient × cs.oprf.BlindedElement)
  blind password rng = from_voprf cs.oprf (cs.oprf.blind password rng)

  unfoldable pub client_registration_start :
      Bytes → Act (Failure cs.oprf) (Rng cs) (ClientRegistrationStartResult cs)
  client_registration_start password = do
    blind_result ← blind password
    pure (record {
      message = record { blinded_element = blind_result.1 };
      state = record { oprf_client = blind_result.0; blinded_element = blind_result.1 };
    })

  unfoldable pub client_registration_finish :
      ClientRegistration cs
      → Bytes
      → RegistrationResponse cs
      → ClientRegistrationFinishParameters cs
      → Act (Failure cs.oprf) (Rng cs) (ClientRegistrationFinishResult cs)
  client_registration_finish self password registration_response params = do
    _ ← lift (
        guard
          (not (
            cs.oprf.elem_eq (cs.oprf.blinded_value self.blinded_element)
              (cs.oprf.evaluation_value registration_response.evaluation_element)))
          reflected_value_error)
    derived ← lift (
        get_password_derived_key cs password self.oprf_client
          registration_response.evaluation_element params.ksf)
    masking_key ← lift (
        ok_or (library_error hkdf_error)
          (cs.oprf.hash.expand derived.1 str_masking_key cs.oprf.hash.output_size))
    result ←
        seal cs.oprf cs.key_exchange.group derived.1 registration_response.server_s_pk
          params.identifiers
    pure (record {
      message = record { envelope = result.0; masking_key = masking_key; client_s_pk = result.1 };
      export_key = result.2;
      server_s_pk = registration_response.server_s_pk;
    })
