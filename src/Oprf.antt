-- ===== src/Oprf.antt =====
-- ciphersuite.rs, `CipherSuite::OprfCs`: the crates rand and voprf at one `voprf::CipherSuite`. They
-- are parameters; a random generator is a state that each call advances.
use opaque_vx.Prelude.{ℕ, ◌≡◌, Bool, Bytes, length}
use opaque_vx.Prelude.Results.{Result, ok, map_err}
use opaque_vx.Prelude.Act.{Act}
use opaque_vx.Errors
use opaque_vx.Errors.{ProtocolError, library_error, oprf_error}
use opaque_vx.Hash.{Hash}

pub record OprfCs : Type 1 where
  -- rand::Rng
  pub Rng : Type 0
  pub fill_bytes : ℕ → Rng → Bytes × Rng
  -- voprf::Error and voprf::InternalError
  pub Error : Type 0
  pub InternalError : Type 0
  pub hash : Hash
  -- voprf::Group
  pub Elem : Type 0
  pub elem_len : ℕ
  pub elem_eq : Elem → Elem → Bool
  pub serialize_elem : Elem → Bytes
  pub Scalar : Type 0
  pub scalar_len : ℕ
  pub serialize_scalar : Scalar → Bytes
  pub derive_key : Bytes → Bytes → Result Error Scalar
  pub BlindedElement : Type 0
  pub blinded_value : BlindedElement → Elem
  pub blinded_serialize : BlindedElement → Bytes
  pub blinded_deserialize : Bytes → Result Error BlindedElement
  pub EvaluationElement : Type 0
  pub evaluation_value : EvaluationElement → Elem
  pub evaluation_serialize : EvaluationElement → Bytes
  pub evaluation_deserialize : Bytes → Result Error EvaluationElement
  pub OprfClient : Type 0
  pub client_len : ℕ
  pub client_serialize : OprfClient → Bytes
  pub client_deserialize : Bytes → Result Error OprfClient
  pub blind : Bytes → Act Error Rng (OprfClient × BlindedElement)
  pub client_finalize : OprfClient → Bytes → EvaluationElement → Result Error Bytes
  pub OprfServer : Type 0
  pub new_with_key : Bytes → Result Error OprfServer
  pub blind_evaluate : OprfServer → BlindedElement → EvaluationElement

-- `ProtocolError` and `InternalError` over the errors of the suite's voprf.
abbrev pub Failure : OprfCs → Type 0
Failure o = ProtocolError o.Error o.InternalError ⊥

abbrev pub InternalFailure : OprfCs → Type 0
InternalFailure o = Errors.InternalError o.Error o.InternalError

-- errors.rs: `From<voprf::Error>` for `ProtocolError`, and for `InternalError` with what
-- `From<InternalError>` makes of it.
unfoldable pub from_voprf : (o : OprfCs) {A : Type 0} → Result o.Error A → Result (Failure o) A
from_voprf o = map_err (λ e. library_error (oprf_error e))

-- What voprf documents: its encodings read back, and unblinding the evaluation of a blinded input
-- gives a function of the server's key and the input alone, whatever the blinding was.
pub record OprfLaws (o : OprfCs) : Type 0 where
  pub length-fill_bytes : (n : ℕ) (r : o.Rng) → length (o.fill_bytes n r).0 ≡ n
  pub prf : o.OprfServer → Bytes → Result o.Error Bytes
  pub finalize_blind :
      (password : Bytes) (r r' : o.Rng) (client : o.OprfClient) (message : o.BlindedElement)
      → o.blind password r ≡ ok ((client, message), r')
      → (server : o.OprfServer)
      → o.client_finalize client password (o.blind_evaluate server message) ≡ prf server password

-- What voprf documents of the encodings.
pub record OprfEncodings (o : OprfCs) : Type 0 where
  pub length-serialize_elem : (e : o.Elem) → length (o.serialize_elem e) ≡ o.elem_len
  pub blinded_serialize_lem :
      (b : o.BlindedElement) → o.blinded_serialize b ≡ o.serialize_elem (o.blinded_value b)
  pub evaluation_serialize_lem :
      (e : o.EvaluationElement) → o.evaluation_serialize e ≡ o.serialize_elem (o.evaluation_value e)
  pub blinded_read :
      (b : o.BlindedElement) → o.blinded_deserialize (o.serialize_elem (o.blinded_value b)) ≡ ok b
  pub evaluation_read :
      (e : o.EvaluationElement)
      → o.evaluation_deserialize (o.serialize_elem (o.evaluation_value e)) ≡ ok e
  pub length-client_serialize : (c : o.OprfClient) → length (o.client_serialize c) ≡ o.client_len
  pub client_read : (c : o.OprfClient) → o.client_deserialize (o.client_serialize c) ≡ ok c
