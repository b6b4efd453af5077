-- ===== src/Errors.antt =====
-- errors.rs: the error types. The error types of the crate voprf are the parameters `V` and `W`.
use opaque_vx.Prelude.{ℕ, String}

-- voprf::Error is `V`, voprf::InternalError is `W`.
pub data InternalError (V W : Type 0) : Type 0 where
  hash_to_scalar hkdf_error hmac_error ksf_error kem_error : InternalError V W
  seal_open_hmac_error incompatible_envelope_mode_error : InternalError V W
  oprf_error : V → InternalError V W
  oprf_internal_error : W → InternalError V W

pub data ProtocolError (V W T : Type 0) : Type 0 where
  library_error : InternalError V W → ProtocolError V W T
  invalid_login_error serialization_error : ProtocolError V W T
  size_error : String → ℕ → ℕ → ProtocolError V W T
  reflected_value_error : ProtocolError V W T
  custom : T → ProtocolError V W T

module _ {V W : Type 0} where
  -- ProtocolError<Infallible>::into_custom
  unfoldable pub into_custom : {T : Type 0} → ProtocolError V W ⊥ → ProtocolError V W T
  into_custom (library_error e) = library_error e
  into_custom invalid_login_error = invalid_login_error
  into_custom serialization_error = serialization_error
  into_custom (size_error name len actual_len) = size_error name len actual_len
  into_custom reflected_value_error = reflected_value_error
  into_custom (custom infallible) = elim infallible [ ]
