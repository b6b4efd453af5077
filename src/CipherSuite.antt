-- ===== src/CipherSuite.antt =====
-- ciphersuite.rs and ksf.rs: what a cipher suite chooses.
use opaque_vx.Prelude.{Bytes}
use opaque_vx.Prelude.Results.{Result, ok}
use opaque_vx.Oprf.{OprfCs, InternalFailure}
use opaque_vx.KeyExchange.Trait.{KeyExchange}

-- The trait `Ksf`, with its `Default`.
pub record Ksf (o : OprfCs) : Type 1 where
  pub Params : Type 0
  pub default : Params
  pub hash : Params → Bytes → Result (InternalFailure o) Bytes

-- `impl Ksf for Identity`
abbrev pub identity : (o : OprfCs) → Ksf o
identity o = record { Params = Unit {0}; default = tt; hash = λ self input. ok input }

-- The trait `CipherSuite`; its groups and hashes are those of its parts.
pub record CipherSuite : Type 1 where
  pub oprf : OprfCs
  pub key_exchange : KeyExchange oprf
  pub ksf : Ksf oprf

abbrev pub Rng : CipherSuite → Type 0
Rng cs = cs.oprf.Rng
