-- ===== src/Messages.antt =====
-- messages.rs: the messages of registration and login.
pub mod Registration
pub mod Login
use opaque_vx.Prelude.{Bytes}
use opaque_vx.Keypair.{PublicKey}
use opaque_vx.Masked.{MaskedResponse}
use opaque_vx.Envelope.{Envelope}
use opaque_vx.CipherSuite.{CipherSuite}

module _ (cs : CipherSuite) where
  pub record RegistrationRequest : Type 0 where
    pub blinded_element : cs.oprf.BlindedElement

  pub record RegistrationResponse : Type 0 where
    pub evaluation_element : cs.oprf.EvaluationElement
    pub server_s_pk : PublicKey cs.key_exchange.group

  pub record RegistrationUpload : Type 0 where
    pub envelope : Envelope
    pub masking_key : Bytes
    pub client_s_pk : PublicKey cs.key_exchange.group

  pub record CredentialRequest : Type 0 where
    pub blinded_element : cs.oprf.BlindedElement
    pub ke1_message : cs.key_exchange.Ke1Message

  -- `SK` is the type of the server's private key, or of a handle to it.
  pub record ServerLoginBuilder (SK : Type 0) : Type 0 where
    pub server_s_sk : SK
    pub evaluation_element : cs.oprf.EvaluationElement
    pub masking_nonce : Bytes
    pub masked_response : MaskedResponse
    pub ke2_builder : cs.key_exchange.Ke2Builder

  pub record CredentialResponse : Type 0 where
    pub evaluation_element : cs.oprf.EvaluationElement
    pub masking_nonce : Bytes
    pub masked_response : MaskedResponse
    pub ke2_message : cs.key_exchange.Ke2Message

  pub record CredentialFinalization : Type 0 where
    pub ke3_message : cs.key_exchange.Ke3Message
