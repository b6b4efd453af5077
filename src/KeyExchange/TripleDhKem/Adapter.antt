-- ===== src/KeyExchange/TripleDhKem/Adapter.antt =====
-- key_exchange/tripledh_kem.rs: the instance of `KemCoreWrapper` for the crate ml-kem, whose operations
-- are parameters.
use opaque_vx.Prelude.{ℕ, Option, Bytes, length, ◌==◌, if◌then◌else◌}
use opaque_vx.Prelude.Results.{Result, ok, err, ok_or, bind}
use opaque_vx.Errors.{serialization_error}
use opaque_vx.Serialization.{take_array}
use opaque_vx.Oprf.{OprfCs, Failure}
use opaque_vx.KeyExchange.TripleDhKem.Mechanism.{Kem}

-- ml_kem::Kem with `KeyExport`, `KeyInit`, `TryKeyInit`, `Encapsulate` and `Decapsulate`.
pub record MlKem (o : OprfCs) : Type 1 where
  pub EncapsulationKey : Type 0
  pub DecapsulationKey : Type 0
  pub encapsulation_key_len : ℕ
  pub decapsulation_key_len : ℕ
  pub ciphertext_len : ℕ
  pub shared_key_len : ℕ
  pub generate_keypair_from_rng : o.Rng → (DecapsulationKey × EncapsulationKey) × o.Rng
  pub encapsulation_key_to_bytes : EncapsulationKey → Bytes
  pub encapsulation_key_new : Bytes → Option EncapsulationKey
  pub decapsulation_key_to_bytes : DecapsulationKey → Bytes
  pub decapsulation_key_new : Bytes → DecapsulationKey
  pub encapsulate_with_rng : EncapsulationKey → o.Rng → (Bytes × Bytes) × o.Rng
  pub decapsulate : DecapsulationKey → Bytes → Bytes

-- `Array::try_from(slice)`: only a slice of the array's length is one.
unfoldable pub array_try_from : (o : OprfCs) → ℕ → Bytes → Result (Failure o) Bytes
array_try_from o len bytes = if length bytes == len then ok bytes else err serialization_error

module _ (o : OprfCs) (k : MlKem o) where
  unfoldable pub deserialize_encapsulation_key :
      Bytes → Result (Failure o) (k.EncapsulationKey × Bytes)
  deserialize_encapsulation_key input =
      bind (take_array k.encapsulation_key_len "kem encapsulation key" input) λ bytes.
        bind (array_try_from o k.encapsulation_key_len bytes.0) λ key.
          bind (ok_or serialization_error (k.encapsulation_key_new key))
            λ result. ok (result, bytes.1)

  unfoldable pub deserialize_decapsulation_key :
      Bytes → Result (Failure o) (k.DecapsulationKey × Bytes)
  deserialize_decapsulation_key input =
      bind (take_array k.decapsulation_key_len "kem decapsulation key" input) λ bytes.
        bind (array_try_from o k.decapsulation_key_len bytes.0)
          λ seed. ok (k.decapsulation_key_new seed, bytes.1)

  unfoldable pub decapsulate : k.DecapsulationKey → Bytes → Result (Failure o) Bytes
  decapsulate key encapsulated_key =
      bind (array_try_from o k.ciphertext_len encapsulated_key)
        λ ciphertext. ok (k.decapsulate key ciphertext)

  abbrev pub ml_kem : Kem o
  ml_kem = record {
    EncapsulationKey = k.EncapsulationKey;
    DecapsulationKey = k.DecapsulationKey;
    encapsulation_key_len = k.encapsulation_key_len;
    decapsulation_key_len = k.decapsulation_key_len;
    ciphertext_len = k.ciphertext_len;
    shared_secret_len = k.shared_key_len;
    generate = λ rng. ok (k.generate_keypair_from_rng rng);
    serialize_encapsulation_key = k.encapsulation_key_to_bytes;
    deserialize_encapsulation_key = deserialize_encapsulation_key;
    serialize_decapsulation_key = k.decapsulation_key_to_bytes;
    deserialize_decapsulation_key = deserialize_decapsulation_key;
    encapsulate = λ key rng. ok (k.encapsulate_with_rng key rng);
    decapsulate = decapsulate;
  }
