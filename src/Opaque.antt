-- ===== src/Opaque.antt =====
-- opaque.rs: the states of both sides, the parameters and results of their steps, and the helpers.
pub mod Setup
pub mod RegisterServer
pub mod RegisterClient
pub mod ServerFinish
pub mod LoginServer
pub mod LoginClient
pub mod States
pub mod Enrolled
pub mod Answered
pub mod Agreement
pub mod Liveness
pub mod Readable
pub mod SuiteLaws
pub mod Refusals
pub mod Outcomes
pub mod Codecs
use opaque_vx.Prelude.{Option, none, some, List, [], ◌∷◌, Bytes, bytes}
use opaque_vx.Prelude.Results.{Result, ok, ok_or, map_err, ◌>>=◌}
use opaque_vx.Prelude.Act.{Act}
use opaque_vx.Errors.{library_error, hkdf_error}
use opaque_vx.Hash.{Hash}
use opaque_vx.Oprf.{OprfCs, Failure, from_voprf}
use opaque_vx.Keypair.{KeyPair, PublicKey, PrivateKey}
use opaque_vx.KeyExchange.Serialized.{Identifiers}
use opaque_vx.CipherSuite.{CipherSuite, Rng}
use opaque_vx.Messages.{
  RegistrationRequest, RegistrationResponse, RegistrationUpload, CredentialRequest,
  CredentialResponse, CredentialFinalization,
}

abbrev pub str_masking_key : Bytes
str_masking_key = bytes "MaskingKey"

abbrev pub str_oprf_key : Bytes
str_oprf_key = bytes "OprfKey"

abbrev pub str_opaque_derive_key_pair : Bytes
str_opaque_derive_key_pair = bytes "OPAQUE-DeriveKeyPair"

-- keypair.rs: `OprfSeed`, which wraps one field, and is that field here.
abbrev pub OprfSeed : Type 0
OprfSeed = Bytes

-- The input key material, and the info that the key is expanded with.
pub record KeyMaterialInfo (OS : Type 0) : Type 0 where
  pub ikm : OS
  pub info : List Bytes

module _ (cs : CipherSuite) where
  -- The private key and the OPRF seed may be handles to what another party holds.
  pub record ServerSetup (SK OS : Type 0) : Type 0 where
    pub oprf_seed : OS
    pub keypair : KeyPair cs.key_exchange.group SK
    pub dummy_pk : PublicKey cs.key_exchange.group

  -- `ServerSetup<CS>`, with its default arguments
  abbrev pub LocalSetup : Type 0
  LocalSetup = ServerSetup (PrivateKey cs.key_exchange.group) OprfSeed

  pub record ClientRegistration : Type 0 where
    pub oprf_client : cs.oprf.OprfClient
    pub blinded_element : cs.oprf.BlindedElement

  -- `ServerRegistration` wraps the upload.
  abbrev pub ServerRegistration : Type 0
  ServerRegistration = RegistrationUpload cs

  pub record ClientLogin : Type 0 where
    pub oprf_client : cs.oprf.OprfClient
    pub ke1_state : cs.key_exchange.Ke1State
    pub credential_request : CredentialRequest cs

  pub record ServerLogin : Type 0 where
    pub ke2_state : cs.key_exchange.Ke2State

  pub record ClientRegistrationFinishParameters : Type 0 where
    pub identifiers : Identifiers
    pub ksf : Option cs.ksf.Params

  pub record ClientRegistrationStartResult : Type 0 where
    pub message : RegistrationRequest cs
    pub state : ClientRegistration

  pub record ClientRegistrationFinishResult : Type 0 where
    pub message : RegistrationUpload cs
    pub export_key : Bytes
    pub server_s_pk : PublicKey cs.key_exchange.group

  pub record ServerRegistrationStartResult : Type 0 where
    pub message : RegistrationResponse cs

  pub record ClientLoginStartResult : Type 0 where
    pub message : CredentialRequest cs
    pub state : ClientLogin

  pub record ClientLoginFinishParameters : Type 0 where
    pub context : Option Bytes
    pub identifiers : Identifiers
    pub ksf : Option cs.ksf.Params

  pub record ClientLoginFinishResult : Type 0 where
    pub message : CredentialFinalization cs
    pub session_key : Bytes
    pub export_key : Bytes
    pub server_s_pk : PublicKey cs.key_exchange.group

  pub record ServerLoginFinishResult : Type 0 where
    pub session_key : Bytes

  pub record ServerLoginStartResult : Type 0 where
    pub message : CredentialResponse cs
    pub state : ServerLogin

  -- The key stretching function that the parameters name, or the default one.
  abbrev pub chosen_ksf : Option cs.ksf.Params → cs.ksf.Params
  chosen_ksf none = cs.ksf.default
  chosen_ksf (some ksf) = ksf

  unfoldable pub get_password_derived_key :
      Bytes
      → cs.oprf.OprfClient
      → cs.oprf.EvaluationElement
      → Option cs.ksf.Params
      → Result (Failure cs.oprf) (Bytes × cs.oprf.hash.Hkdf)
  get_password_derived_key input oprf_client evaluation_element ksf = do
    oprf_output ← from_voprf cs.oprf (cs.oprf.client_finalize oprf_client input evaluation_element)
    hardened_output ← map_err library_error (cs.ksf.hash (chosen_ksf ksf) oprf_output)
    let hkdf = cs.oprf.hash.input_ikm cs.oprf.hash.extract_new oprf_output
    ok (cs.oprf.hash.extract_finalize (cs.oprf.hash.input_ikm hkdf hardened_output))

  unfoldable pub oprf_key_material : OprfSeed → List Bytes → Result (Failure cs.oprf) Bytes
  oprf_key_material oprf_seed info = do
    hkdf ← ok_or (library_error hkdf_error) (cs.oprf.hash.from_prk oprf_seed)
    ok_or (library_error hkdf_error) (cs.oprf.hash.expand_multi_info hkdf info cs.oprf.scalar_len)

  unfoldable pub oprf_key_from_key_material : Bytes → Result (Failure cs.oprf) Bytes
  oprf_key_from_key_material input = do
    key ← from_voprf cs.oprf (cs.oprf.derive_key input str_opaque_derive_key_pair)
    ok (cs.oprf.serialize_scalar key)

-- The parameters of the server's login steps.
pub record ServerLoginParameters : Type 0 where
  pub context : Option Bytes
  pub identifiers : Identifiers

-- `ServerSetup::key_material_info`
unfoldable pub key_material_info :
    (cs : CipherSuite) {SK OS : Type 0} → ServerSetup cs SK OS → Bytes → KeyMaterialInfo OS
key_material_info cs self credential_identifier = record {
  ikm = self.oprf_seed;
  info = credential_identifier ∷ str_oprf_key ∷ [];
}
