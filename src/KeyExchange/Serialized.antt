-- ===== src/KeyExchange/Serialized.antt =====
-- key_exchange/mod.rs: the serialized forms that enter the transcript and the envelope. A value of
-- type `impl Iterator<Item = &[u8]>` is the list of its slices.
pub mod Injective
pub mod Codec
use opaque_vx.Prelude.{ℕ, String, Option, none, some, List, [], ◌∷◌, ◌++◌, Bytes, bytes, length}
use opaque_vx.Prelude.Results.{Result, ok, ◌>>=◌}
use opaque_vx.Serialization.{i2osp}
use opaque_vx.Masked.{MaskedResponse, masked_slices}
pub use opaque_vx.Masked.{nonce_len}
use opaque_vx.Oprf.{OprfCs, Failure}

-- opaque.rs: `Identifiers`
pub record Identifiers : Type 0 where
  pub client : Option Bytes
  pub server : Option Bytes

-- key_exchange/shared.rs
abbrev pub str_context : Bytes
str_context = bytes "OPAQUEv1-"

pub record SerializedContext : Type 0 where
  pub length : Bytes
  pub context : Bytes

pub data Identifier : Type 0 where
  owned borrowed : Bytes → Identifier

pub record SerializedIdentifier : Type 0 where
  pub length : Bytes
  pub identifier : Identifier

pub record SerializedIdentifiers : Type 0 where
  pub client : SerializedIdentifier
  pub server : SerializedIdentifier

-- `SerializedCredentialRequest` wraps the serialized blinded element.
abbrev pub SerializedCredentialRequest : Type 0
SerializedCredentialRequest = Bytes

pub record SerializedCredentialResponse : Type 0 where
  pub evaluation_element : Bytes
  pub masking_nonce : Bytes
  pub masked_response : MaskedResponse

abbrev pub unwrap_or_empty : Option Bytes → Bytes
unwrap_or_empty none = []
unwrap_or_empty (some context) = context

-- `SerializedContext::iter`
unfoldable pub context_slices : SerializedContext → List Bytes
context_slices c = str_context ∷ c.length ∷ c.context ∷ []

abbrev pub identifier_bytes : Identifier → Bytes
identifier_bytes (owned id) = id
identifier_bytes (borrowed id) = id

-- `SerializedIdentifier::iter`
unfoldable pub identifier_slices : SerializedIdentifier → List Bytes
identifier_slices s = s.length ∷ identifier_bytes s.identifier ∷ []

-- `SerializedCredentialRequest::new` and `iter`
unfoldable pub request_parts : (o : OprfCs) → o.BlindedElement → SerializedCredentialRequest
request_parts o blinded_element = o.blinded_serialize blinded_element

unfoldable pub request_slices : SerializedCredentialRequest → List Bytes
request_slices request = request ∷ []

-- `SerializedCredentialResponse::new` and `iter`
unfoldable pub response_parts :
    (o : OprfCs) → o.EvaluationElement → Bytes → MaskedResponse → SerializedCredentialResponse
response_parts o evaluation_element masking_nonce masked_response = record {
  evaluation_element = o.evaluation_serialize evaluation_element;
  masking_nonce = masking_nonce;
  masked_response = masked_response;
}

unfoldable pub response_slices : SerializedCredentialResponse → List Bytes
response_slices response =
    (response.evaluation_element ∷ response.masking_nonce ∷ [])
    ++ masked_slices response.masked_response

module _ (o : OprfCs) where
  -- `SerializedContext::from`
  unfoldable pub from_context : Option Bytes → Result (Failure o) SerializedContext
  from_context context = do
    length ← i2osp 2 (length (unwrap_or_empty context))
    ok (record { length = length; context = unwrap_or_empty context })

  unfoldable pub from_identifier : Option Bytes → Bytes → Result (Failure o) SerializedIdentifier
  from_identifier (some id) s_pk = do
    length ← i2osp 2 (length id)
    ok (record { length = length; identifier = borrowed id })
  from_identifier none s_pk = do
    length ← i2osp 2 (length s_pk)
    ok (record { length = length; identifier = owned s_pk })

  unfoldable pub from_identifiers :
      Identifiers → Bytes → Bytes → Result (Failure o) SerializedIdentifiers
  unfolding from_identifier
  from_identifiers ids client_s_pk server_s_pk = do
    client ← from_identifier ids.client client_s_pk
    server ← from_identifier ids.server server_s_pk
    ok (record { client = client; server = server })
