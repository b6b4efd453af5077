-- ===== src/Opaque/LoginClient.antt =====
-- opaque.rs: the client's steps of login.
use opaque_vx.Prelude.{Bytes, not}
use opaque_vx.Prelude.Results.{ok_or, guard, map_err}
use opaque_vx.Prelude.Act.{Act, pure, lift, ◌>>=◌}
use opaque_vx.Errors.{
  library_error, hkdf_error, reflected_value_error, serialization_error, invalid_login_error,
  seal_open_hmac_error,
}
use opaque_vx.Oprf.{OprfCs, Failure}
use opaque_vx.Masking.{unmask_response}
use opaque_vx.Envelope.{open_envelope}
use opaque_vx.KeyExchange.Serialized.{from_context}
use opaque_vx.CipherSuite.{CipherSuite, Rng}
use opaque_vx.Messages.{CredentialRequest, CredentialResponse}
use opaque_vx.Messages.Login.{to_request_parts, to_response_parts}
use opaque_vx.Opaque.{
  ClientLogin, ClientLoginStartResult, ClientLoginFinishParameters, ClientLoginFinishResult,
  get_password_derived_key, str_masking_key,
}
use opaque_vx.Opaque.RegisterClient.{blind}

-- The two closures that `ClientLogin::finish` maps errors with: what a wrong password makes of the
-- masked response, and of the envelope, is an invalid login.
unfoldable pub unmask_failure : (o : OprfCs) → Failure o → Failure o
unmask_failure o serialization_error = invalid_login_error
unmask_failure o e = e

unfoldable pub open_failure : (o : OprfCs) → Failure o → Failure o
open_failure o (library_error seal_open_hmac_error) = invalid_login_error
open_failure o e = e

module _ (cs : CipherSuite) where
  unfoldable pub client_login_start :
      Bytes → Act (Failure cs.oprf) (Rng cs) (ClientLoginStartResult cs)
  client_login_start password = do
    blind_result ← blind cs password
    ke1_result ← cs.key_exchange.generate_ke1
    let credential_request : CredentialRequest cs = record {
      blinded_element = blind_result.1;
      ke1_message = ke1_result.message;
    }
    pure (record {
      message = credential_request;
      state = record {
        oprf_client = blind_result.0;
        ke1_state = ke1_result.state;
        credential_request = credential_request;
      };
    })

  unfoldable pub client_login_finish :
      ClientLogin cs
      → Bytes
      → CredentialResponse cs
      → ClientLoginFinishParameters cs
      → Act (Failure cs.oprf) (Rng cs) (ClientLoginFinishResult cs)
  client_login_finish self password credential_response params = do
    _ ← lift (
        guard
          (not (
            cs.oprf.elem_eq (cs.oprf.blinded_value self.credential_request.blinded_element)
              (cs.oprf.evaluation_value credential_response.evaluation_element)))
          reflected_value_error)
    derived ← lift (
        get_password_derived_key cs password self.oprf_client credential_response.evaluation_element
          params.ksf)
    masking_key ← lift (
        ok_or (library_error hkdf_error)
          (cs.oprf.hash.expand derived.1 str_masking_key cs.oprf.hash.output_size))
    unmasked ← lift (
        map_err (unmask_failure cs.oprf) (
          unmask_response cs.oprf cs.key_exchange.group masking_key
            credential_response.masking_nonce credential_response.masked_response))
    opened_envelope ← lift (
        map_err (open_failure cs.oprf) (
          open_envelope cs.oprf cs.key_exchange.group unmasked.1 derived.1 unmasked.0
            params.identifiers))
    context ← lift (from_context cs.oprf params.context)
    result ←
        cs.key_exchange.generate_ke3 (to_request_parts cs self.credential_request)
          self.credential_request.ke1_message (to_response_parts cs credential_response)
          self.ke1_state credential_response.ke2_message unmasked.0
          opened_envelope.client_static_keypair.sk opened_envelope.identifiers context
    pure (record {
      message = record { ke3_message = result.message };
      session_key = result.session_key;
      export_key = opened_envelope.export_key;
      server_s_pk = unmasked.0;
    })
