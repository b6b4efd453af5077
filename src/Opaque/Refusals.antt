-- ===== src/Opaque/Refusals.antt =====
-- opaque.rs: the answer of `ServerLogin::start` to unknown users.
use opaque_vx.Prelude.{none, some, Bytes, ◌≡◌, refl}
use opaque_vx.Prelude.Results.{ok-bind}
use opaque_vx.Prelude.Act.{lift_cong}
use opaque_vx.CipherSuite.{CipherSuite, Rng}
use opaque_vx.Messages.{CredentialRequest}
use opaque_vx.Opaque.{LocalSetup, ServerLoginParameters, oprf_key_material, key_material_info}
use opaque_vx.Opaque.Setup.{dummy}
use opaque_vx.Opaque.LoginServer.{
  builder_with_key_material, server_login_builder, server_login_start,
}

module _ (cs : CipherSuite) where
  server_login_builder-unknown :
      (setup : LocalSetup cs) (request : CredentialRequest cs) (credential_identifier : Bytes)
      (parameters : ServerLoginParameters) (r : Rng cs)
      → server_login_builder cs setup none request credential_identifier parameters r
        ≡ server_login_builder cs setup
            (some (dummy cs setup r).0)
            request
            credential_identifier
            parameters
            r
  unfolding server_login_builder builder_with_key_material
  server_login_builder-unknown setup request credential_identifier parameters r =
      lift_cong
        (oprf_key_material cs (key_material_info cs setup credential_identifier).ikm
          (key_material_info cs setup credential_identifier).info)
        _ _ r (λ key_material. rw (ok-bind, ok-bind) (refl))

  -- The server answers an unknown user exactly as it answers one whose record is the dummy that it
  -- draws first: the same response, state and random generator, or the same error.
  pub server_login_start-unknown :
      (setup : LocalSetup cs) (request : CredentialRequest cs) (credential_identifier : Bytes)
      (parameters : ServerLoginParameters) (r : Rng cs)
      → server_login_start cs setup none request credential_identifier parameters r
        ≡ server_login_start cs setup
            (some (dummy cs setup r).0)
            request
            credential_identifier
            parameters
            r
  unfolding server_login_start
  server_login_start-unknown setup request credential_identifier parameters r =
      rw (server_login_builder-unknown setup request credential_identifier parameters r)
