-- ===== src/KeyExchange/TripleDhKem/Provided.antt =====
-- key_exchange/tripledh_kem.rs: the instance for the crate ml-kem has what the exchange relies on, where
-- the crate has what its own documentation says.
use opaque_vx.Prelude.{ℕ, some, [], Bytes, length, ◌≡◌, ◌++◌, append-nil, arith}
use opaque_vx.Prelude.Results.{ok, passes}
use opaque_vx.Serialization.{take_array-append}
use opaque_vx.Oprf.{OprfCs}
use opaque_vx.KeyExchange.TripleDhKem.Mechanism.{KemLaws, KemEncodingLaws}
use opaque_vx.KeyExchange.TripleDhKem.Adapter.{
  MlKem, array_try_from, deserialize_encapsulation_key, deserialize_decapsulation_key, decapsulate,
  ml_kem,
}

-- Keys and ciphertexts have their lengths, keys are kept by their bytes, and a pair of keys agrees on
-- what is encapsulated.
pub record MlKemLaws {o : OprfCs} (k : MlKem o) : Type 0 where
  pub length-encapsulation_key_to_bytes :
      (ek : k.EncapsulationKey) → length (k.encapsulation_key_to_bytes ek) ≡ k.encapsulation_key_len
  pub encapsulation_key_read :
      (ek : k.EncapsulationKey)
      → k.encapsulation_key_new (k.encapsulation_key_to_bytes ek) ≡ some ek
  pub length-decapsulation_key_to_bytes :
      (dk : k.DecapsulationKey) → length (k.decapsulation_key_to_bytes dk) ≡ k.decapsulation_key_len
  pub decapsulation_key_read :
      (dk : k.DecapsulationKey) → k.decapsulation_key_new (k.decapsulation_key_to_bytes dk) ≡ dk
  pub length-ciphertext :
      (ek : k.EncapsulationKey) (r : o.Rng)
      → length (k.encapsulate_with_rng ek r).0.0 ≡ k.ciphertext_len
  pub same_shared_key :
      (r s : o.Rng)
      → k.decapsulate
          (k.generate_keypair_from_rng r).0.0
          (k.encapsulate_with_rng (k.generate_keypair_from_rng r).0.1 s).0.0
        ≡ (k.encapsulate_with_rng (k.generate_keypair_from_rng r).0.1 s).0.1

module _ (o : OprfCs) (k : MlKem o) (laws : MlKemLaws k) where
  array_try_from-length : (n : ℕ) (b : Bytes) → length b ≡ n → array_try_from o n b ≡ ok b
  unfolding array_try_from
  array_try_from-length n b h = ground arith

  take_encapsulation_key :
      (ek : k.EncapsulationKey) (rest : Bytes)
      → deserialize_encapsulation_key o k (k.encapsulation_key_to_bytes ek ++ rest) ≡ ok (ek, rest)
  unfolding deserialize_encapsulation_key
  take_encapsulation_key ek rest =
      let len = laws.length-encapsulation_key_to_bytes ek in
      simp (
        take_array-append k.encapsulation_key_len "kem encapsulation key" _ rest len,
        array_try_from-length k.encapsulation_key_len _ len,
        laws.encapsulation_key_read,
        passes,
      )

  pub take_decapsulation_key :
      (dk : k.DecapsulationKey) (rest : Bytes)
      → deserialize_decapsulation_key o k (k.decapsulation_key_to_bytes dk ++ rest) ≡ ok (dk, rest)
  unfolding deserialize_decapsulation_key
  take_decapsulation_key dk rest =
      let len = laws.length-decapsulation_key_to_bytes dk in
      simp (
        take_array-append k.decapsulation_key_len "kem decapsulation key" _ rest len,
        array_try_from-length k.decapsulation_key_len _ len,
        laws.decapsulation_key_read,
        passes,
      )

  -- What the owner of a decapsulation key recovers from a ciphertext made for the other key of the pair
  -- is the secret of the side that made it.
  pub decapsulate-encapsulate :
      (r r' s s' : o.Rng) (dk : k.DecapsulationKey) (ek : k.EncapsulationKey)
      (ciphertext shared : Bytes)
      → (ml_kem o k).generate r ≡ ok ((dk, ek), r')
      → (ml_kem o k).encapsulate ek s ≡ ok ((ciphertext, shared), s')
      → decapsulate o k dk ciphertext ≡ ok shared
  unfolding decapsulate
  decapsulate-encapsulate r r' s s' dk ek ciphertext shared generated encapsulated =
      let d : (k.generate_keypair_from_rng r).0.0 ≡ dk = cc in
      let e : (k.generate_keypair_from_rng r).0.1 ≡ ek = cc in
      let c : (k.encapsulate_with_rng ek s).0.0 ≡ ciphertext = cc in
      let z : (k.encapsulate_with_rng ek s).0.1 ≡ shared = cc in
      let len : length ciphertext ≡ k.ciphertext_len = rw (← c) (laws.length-ciphertext ek s) in
      let same = laws.same_shared_key r s in
      let opened : k.decapsulate dk ciphertext ≡ shared = cc in
      simp (array_try_from-length k.ciphertext_len _ len, opened, passes)

  pub ml_kem-KemLaws : KemLaws (ml_kem o k)
  ml_kem-KemLaws = record {
    read_encapsulation_key = λ r r' dk ek generated.
        rw (← append-nil (k.encapsulation_key_to_bytes ek)) (take_encapsulation_key ek []);
    decapsulate-encapsulate = decapsulate-encapsulate;
  }

  abbrev pub ml_kem-KemEncodingLaws : KemEncodingLaws (ml_kem o k)
  ml_kem-KemEncodingLaws = record { take_decapsulation_key = take_decapsulation_key }
