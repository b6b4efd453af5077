-- ===== src/Tests.antt =====
-- A small cipher suite of known answers, for the examples: no cryptography, but the laws hold.
mod Primitives
mod Exchange
mod Registered
mod Protocol
mod Encoded
mod Encapsulated
mod Signing
mod Curves
mod Lively
mod Wide
mod Lockers
mod Accounts
use opaque_vx.Prelude.{
  ℕ, zero, suc, ◌+◌, ◌-◌, ◌≡◌, refl, ◌==◌, List, [], ◌∷◌, ◌++◌, Option, some, Bytes, bytes_eq,
  length, replicate, length-replicate, arith, ap,
}
use opaque_vx.Prelude.Results.{Result, ok, err}
use opaque_vx.Prelude.Act.{Act}
use opaque_vx.Errors.{size_error}
use opaque_vx.Hash.{Hash, HashLaws}
use opaque_vx.Oprf.{OprfCs, OprfLaws, OprfEncodings, Failure}
use opaque_vx.Group.{Group, GroupLaws, DiffieHellman, DiffieHellmanLaws}
use opaque_vx.KeyExchange.Trait.{KeyExchangeLaws}
use opaque_vx.KeyExchange.TripleDh.{triple_dh}
use opaque_vx.KeyExchange.TripleDh.Agreement.{triple_dh-KeyExchangeLaws}
use opaque_vx.CipherSuite.{CipherSuite, identity}

abbrev pub sum : Bytes → ℕ
sum [] = 0
sum (x ∷ xs) = x + sum xs

abbrev pub sums : List Bytes → ℕ
sums [] = 0
sums (x ∷ xs) = sum x + sums xs

abbrev read_one : Bytes → Result (Unit {0}) ℕ
read_one [] = err tt
read_one (x ∷ []) = ok x
read_one (x ∷ y ∷ ys) = err tt

filled : (n a : ℕ) (okm : Bytes) → some (replicate n a) ≡ some okm → length okm ≡ n
filled n a okm h = let same : replicate n a ≡ okm = cc in rw (← same) (length-replicate n a)

module _ (size : ℕ) where
  -- Everything is a sum; digests and tags have a size, and repeat one number.
  abbrev pub sized_hash : Hash
  sized_hash = record {
    output_size = size;
    Hasher = ℕ;
    new = 0;
    update = λ s b. s + sum b;
    finalize = λ s. replicate size s;
    Hkdf = ℕ;
    from_prk = λ prk. some (sum prk);
    expand = λ k info n. some (replicate n (k + sum info));
    expand_multi_info = λ k infos n. some (replicate n (k + sums infos));
    HkdfExtract = ℕ;
    extract_new = 0;
    input_ikm = λ e ikm. e + sum ikm;
    extract_finalize = λ e. (replicate size e, e);
    Hmac = ℕ;
    new_from_slice = λ key. some (sum key);
    mac_update = λ m b. m + sum b;
    mac_finalize = λ m. replicate size m;
    verify = λ m tag. bytes_eq (replicate size m) tag;
  }

  pub sized_hash-HashLaws : HashLaws sized_hash
  sized_hash-HashLaws = record {
    length-finalize = λ s. length-replicate size s;
    from_prk_total = λ prk h. (sum prk, refl);
    expand_total = λ k info n h. (replicate n (k + sum info), refl);
    length-expand = λ k info n okm h. filled n (k + sum info) okm h;
    expand_multi_info_total = λ k infos n h. (replicate n (k + sums infos), refl);
    length-expand_multi_info = λ k infos n okm h. filled n (k + sums infos) okm h;
    length-extract_finalize = λ e. length-replicate size e;
    new_from_slice_total = λ key. (sum key, refl);
    length-mac_finalize = λ m. length-replicate size m;
    verify_lem = λ m tag. refl;
  }

  -- An element is a number: blinding adds the generator's state, and evaluating adds the key.
  abbrev pub sized_oprf : OprfCs
  sized_oprf = record {
    Rng = ℕ;
    fill_bytes = λ n r. (replicate n r, suc r);
    Error = Unit {0};
    InternalError = Unit {0};
    hash = sized_hash;
    Elem = ℕ;
    elem_len = 1;
    elem_eq = λ x y. x == y;
    serialize_elem = λ e. e ∷ [];
    Scalar = ℕ;
    scalar_len = 1;
    serialize_scalar = λ s. s ∷ [];
    derive_key = λ input info. ok (sum input);
    BlindedElement = ℕ;
    blinded_value = λ b. b;
    blinded_serialize = λ b. b ∷ [];
    blinded_deserialize = read_one;
    EvaluationElement = ℕ;
    evaluation_value = λ e. e;
    evaluation_serialize = λ e. e ∷ [];
    evaluation_deserialize = read_one;
    OprfClient = ℕ;
    client_len = 1;
    client_serialize = λ c. c ∷ [];
    client_deserialize = read_one;
    blind = λ password r. ok ((r, sum password + r), suc r);
    client_finalize = λ client input e. ok ((e - client) ∷ []);
    OprfServer = ℕ;
    new_with_key = λ key. ok (sum key);
    blind_evaluate = λ server m. m + server;
  }

  pub sized_oprf-OprfLaws : OprfLaws sized_oprf
  sized_oprf-OprfLaws = record {
    length-fill_bytes = λ n r. length-replicate n r;
    prf = λ server password. ok ((sum password + server) ∷ []);
    finalize_blind = λ password r r' client message h server.
        let kept : r ≡ client = cc in
        let shown : sum password + r ≡ message = cc in
        let same : message + server - client ≡ sum password + server = omega arith in
        ap (λ e. ok (e ∷ [])) same;
  }

  pub sized_oprf-OprfEncodings : OprfEncodings sized_oprf
  sized_oprf-OprfEncodings = record {
    length-serialize_elem = λ e. refl;
    blinded_serialize_lem = λ b. refl;
    evaluation_serialize_lem = λ e. refl;
    blinded_read = λ b. refl;
    evaluation_read = λ e. refl;
    length-client_serialize = λ c. refl;
    client_read = λ c. refl;
  }

  abbrev pub sized_take_one : Act (Failure sized_oprf) Bytes ℕ
  sized_take_one [] = err (size_error "key" 1 0)
  sized_take_one (x ∷ rest) = ok (x, rest)

  abbrev pub sized_group : Group sized_oprf
  sized_group = record {
    Pk = ℕ;
    pk_len = 1;
    Sk = ℕ;
    sk_len = 1;
    serialize_pk = λ pk. pk ∷ [];
    deserialize_take_pk = sized_take_one;
    random_sk = λ r. (r, suc r);
    derive_scalar = λ seed. ok (sum seed);
    public_key = λ sk. sk + 1;
    serialize_sk = λ sk. sk ∷ [];
    deserialize_take_sk = sized_take_one;
  }

  abbrev pub sized_group-GroupLaws : GroupLaws sized_group
  sized_group-GroupLaws = record {
    SkIsValid = λ sk. Unit;
    PkIsValid = λ pk. Unit;
    random_sk-SkIsValid = λ filled rng. tt;
    derive_scalar-SkIsValid = λ seed sk measured derived. tt;
    public_key-PkIsValid = λ sk valid. tt;
    length-serialize_pk = λ pk valid. refl;
    take_pk = λ pk rest valid. refl;
    length-serialize_sk = λ sk valid. refl;
    take_sk = λ sk rest valid. refl;
  }

  abbrev pub sized_diffie_hellman : DiffieHellman sized_group
  sized_diffie_hellman = record { diffie_hellman = λ sk pk. (sk + pk) ∷ [] }

  pub sized_diffie_hellman-DiffieHellmanLaws : DiffieHellmanLaws sized_group sized_diffie_hellman
  sized_diffie_hellman-DiffieHellmanLaws = record {
    agree = λ a b. let same : a + (b + 1) ≡ b + (a + 1) = omega arith in ap (λ n. n ∷ []) same;
  }

  abbrev pub sized_suite : CipherSuite
  sized_suite = record {
    oprf = sized_oprf;
    key_exchange = triple_dh sized_oprf sized_group sized_diffie_hellman sized_hash;
    ksf = identity sized_oprf;
  }

  pub sized_suite-KeyExchangeLaws :
      KeyExchangeLaws sized_suite.key_exchange sized_group-GroupLaws.SkIsValid
  sized_suite-KeyExchangeLaws =
      triple_dh-KeyExchangeLaws sized_oprf sized_group sized_diffie_hellman sized_hash
        sized_group-GroupLaws.SkIsValid sized_hash-HashLaws sized_diffie_hellman-DiffieHellmanLaws

-- The suite of digests of one byte.
abbrev pub sum_hash : Hash
sum_hash = sized_hash 1

pub sum_hash-HashLaws : HashLaws sum_hash
sum_hash-HashLaws = sized_hash-HashLaws 1

abbrev pub sum_oprf : OprfCs
sum_oprf = sized_oprf 1

pub sum_oprf-OprfLaws : OprfLaws sum_oprf
sum_oprf-OprfLaws = sized_oprf-OprfLaws 1

pub sum_oprf-OprfEncodings : OprfEncodings sum_oprf
sum_oprf-OprfEncodings = sized_oprf-OprfEncodings 1

abbrev pub take_one : Act (Failure sum_oprf) Bytes ℕ
take_one = sized_take_one 1

abbrev pub sum_group : Group sum_oprf
sum_group = sized_group 1

abbrev pub sum_group-GroupLaws : GroupLaws sum_group
sum_group-GroupLaws = sized_group-GroupLaws 1

abbrev pub sum_diffie_hellman : DiffieHellman sum_group
sum_diffie_hellman = sized_diffie_hellman 1

pub sum_diffie_hellman-DiffieHellmanLaws : DiffieHellmanLaws sum_group sum_diffie_hellman
sum_diffie_hellman-DiffieHellmanLaws = sized_diffie_hellman-DiffieHellmanLaws 1

abbrev pub suite : CipherSuite
suite = sized_suite 1

pub suite-KeyExchangeLaws : KeyExchangeLaws suite.key_exchange sum_group-GroupLaws.SkIsValid
suite-KeyExchangeLaws = sized_suite-KeyExchangeLaws 1
