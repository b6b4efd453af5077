-- ===== src/Opaque/SuiteLaws.antt =====
-- What an application relies on of a cipher suite: the laws of all its parts.
use opaque_vx.Prelude.{◌≤◌, ◌*◌}
use opaque_vx.Hash.{HashLaws}
use opaque_vx.Oprf.{OprfLaws, OprfEncodings}
use opaque_vx.Group.{GroupLaws}
use opaque_vx.Masking.{masked_response_len}
use opaque_vx.KeyExchange.Trait.{
  Encodings, EncodingsLaws, KeyExchangeLaws, KeyExchangeTotal, ProducesValid,
}
use opaque_vx.CipherSuite.{CipherSuite}

pub record SuiteLaws (cs : CipherSuite) (e : Encodings cs.key_exchange) : Type 1 where
  pub hash_laws : HashLaws cs.oprf.hash
  pub oprf_laws : OprfLaws cs.oprf
  pub oprf_encodings : OprfEncodings cs.oprf
  pub group_laws : GroupLaws cs.key_exchange.group
  pub exchange_laws : KeyExchangeLaws cs.key_exchange group_laws.SkIsValid
  pub exchange_total : KeyExchangeTotal cs.key_exchange
  pub encodings_laws : EncodingsLaws cs.key_exchange e
  pub produces : ProducesValid cs.key_exchange encodings_laws
  pub masked_fits :
      masked_response_len cs.oprf cs.key_exchange.group ≤ 255 * cs.oprf.hash.output_size
