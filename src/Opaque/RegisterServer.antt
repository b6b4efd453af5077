-- ===== src/Opaque/RegisterServer.antt =====
-- opaque.rs: the server's steps of registration.
use opaque_vx.Prelude.{Bytes}
use opaque_vx.Prelude.Results.{Result, ok, ◌>>=◌}
use opaque_vx.Oprf.{Failure, from_voprf}
use opaque_vx.CipherSuite.{CipherSuite}
use opaque_vx.Messages.{RegistrationRequest, RegistrationUpload}
use opaque_vx.Opaque.{
  ServerSetup, OprfSeed, ServerRegistration, ServerRegistrationStartResult, key_material_info,
  oprf_key_material, oprf_key_from_key_material,
}

module _ (cs : CipherSuite) where
  -- `oprf_key_from_key_material`, `OprfServer::new_with_key` and `blind_evaluate`, as the server does
  -- them in registration and in login.
  unfoldable pub evaluate :
      Bytes → cs.oprf.BlindedElement → Result (Failure cs.oprf) cs.oprf.EvaluationElement
  evaluate key_material blinded_element = do
    oprf_key ← oprf_key_from_key_material cs key_material
    server ← from_voprf cs.oprf (cs.oprf.new_with_key oprf_key)
    ok (cs.oprf.blind_evaluate server blinded_element)

  unfoldable pub server_registration_start_with_key_material :
      {SK OS : Type 0}
      → ServerSetup cs SK OS
      → Bytes
      → RegistrationRequest cs
      → Result (Failure cs.oprf) (ServerRegistrationStartResult cs)
  server_registration_start_with_key_material server_setup key_material message = do
    evaluation_element ← evaluate key_material message.blinded_element
    ok (record {
      message = record {
        evaluation_element = evaluation_element;
        server_s_pk = server_setup.keypair.pk;
      };
    })

  unfoldable pub server_registration_start :
      {SK : Type 0}
      → ServerSetup cs SK OprfSeed
      → RegistrationRequest cs
      → Bytes
      → Result (Failure cs.oprf) (ServerRegistrationStartResult cs)
  server_registration_start server_setup message credential_identifier = do
    let material = key_material_info cs server_setup credential_identifier
    key_material ← oprf_key_material cs material.ikm material.info
    server_registration_start_with_key_material server_setup key_material message

  unfoldable pub server_registration_finish : RegistrationUpload cs → ServerRegistration cs
  server_registration_finish message = message
