-- ===== src/KeyExchange/TripleDhKem/Mechanism.antt =====
-- key_exchange/tripledh_kem.rs: the trait `KemCoreWrapper`, and what the exchange relies on.
use opaque_vx.Prelude.{ℕ, [], Bytes, ◌≡◌, ◌++◌}
use opaque_vx.Prelude.Results.{Result, ok}
use opaque_vx.Prelude.Act.{Act}
use opaque_vx.Oprf.{OprfCs, Failure}

pub record Kem (o : OprfCs) : Type 1 where
  pub EncapsulationKey : Type 0
  pub DecapsulationKey : Type 0
  pub encapsulation_key_len : ℕ
  pub decapsulation_key_len : ℕ
  pub ciphertext_len : ℕ
  pub shared_secret_len : ℕ
  pub generate : Act (Failure o) o.Rng (DecapsulationKey × EncapsulationKey)
  pub serialize_encapsulation_key : EncapsulationKey → Bytes
  pub deserialize_encapsulation_key : Act (Failure o) Bytes EncapsulationKey
  pub serialize_decapsulation_key : DecapsulationKey → Bytes
  pub deserialize_decapsulation_key : Act (Failure o) Bytes DecapsulationKey
  pub encapsulate : EncapsulationKey → Act (Failure o) o.Rng (Bytes × Bytes)
  pub decapsulate : DecapsulationKey → Bytes → Result (Failure o) Bytes

-- An encapsulation key reads back, and the decapsulation key of a generated pair recovers what was
-- encapsulated to the other.
pub record KemLaws {o : OprfCs} (k : Kem o) : Type 0 where
  pub read_encapsulation_key :
      (r r' : o.Rng) (dk : k.DecapsulationKey) (ek : k.EncapsulationKey)
      → k.generate r ≡ ok ((dk, ek), r')
      → k.deserialize_encapsulation_key (k.serialize_encapsulation_key ek) ≡ ok (ek, [])
  pub decapsulate-encapsulate :
      (r r' s s' : o.Rng) (dk : k.DecapsulationKey) (ek : k.EncapsulationKey)
      (ciphertext shared : Bytes)
      → k.generate r ≡ ok ((dk, ek), r')
      → k.encapsulate ek s ≡ ok ((ciphertext, shared), s')
      → k.decapsulate dk ciphertext ≡ ok shared

-- The stored seed of a decapsulation key reads back from the front of a slice, which moves past it.
pub record KemEncodingLaws {o : OprfCs} (k : Kem o) : Type 0 where
  pub take_decapsulation_key :
      (dk : k.DecapsulationKey) (rest : Bytes)
      → k.deserialize_decapsulation_key (k.serialize_decapsulation_key dk ++ rest) ≡ ok (dk, rest)
