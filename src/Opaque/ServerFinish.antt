-- ===== src/Opaque/ServerFinish.antt =====
-- opaque.rs: the server's steps of login that draw no randomness.
use opaque_vx.Prelude.Results.{Result, ok, ◌>>=◌}
use opaque_vx.Oprf.{Failure}
use opaque_vx.KeyExchange.Serialized.{from_context}
use opaque_vx.CipherSuite.{CipherSuite}
use opaque_vx.Messages.{ServerLoginBuilder, CredentialFinalization}
use opaque_vx.Opaque.{
  ServerLogin, ServerLoginParameters, ServerLoginStartResult, ServerLoginFinishResult,
}

module _ (cs : CipherSuite) where
  -- `ServerLogin::build`, which `ServerLoginBuilder::build` calls.
  unfoldable pub server_login_build :
      {SK : Type 0}
      → ServerLoginBuilder cs SK
      → cs.key_exchange.Ke2BuilderInput
      → Result (Failure cs.oprf) (ServerLoginStartResult cs)
  server_login_build builder input = do
    result ← cs.key_exchange.build_ke2 builder.ke2_builder input
    ok (record {
      message = record {
        evaluation_element = builder.evaluation_element;
        masking_nonce = builder.masking_nonce;
        masked_response = builder.masked_response;
        ke2_message = result.message;
      };
      state = record { ke2_state = result.state };
    })

  -- `ServerLoginBuilder::data` and `private_key`
  unfoldable pub builder_data :
      {SK : Type 0} → ServerLoginBuilder cs SK → cs.key_exchange.Ke2BuilderData
  builder_data self = cs.key_exchange.ke2_builder_data self.ke2_builder

  unfoldable pub private_key : {SK : Type 0} → ServerLoginBuilder cs SK → SK
  private_key self = self.server_s_sk

  unfoldable pub server_login_finish :
      ServerLogin cs
      → CredentialFinalization cs
      → ServerLoginParameters
      → Result (Failure cs.oprf) (ServerLoginFinishResult cs)
  server_login_finish self message parameters = do
    context ← from_context cs.oprf parameters.context
    session_key ←
        cs.key_exchange.finish_ke self.ke2_state message.ke3_message parameters.identifiers context
    ok (record { session_key = session_key })
