-- ===== src/KeyExchange/SigmaI/PreHash.antt =====
-- key_exchange/sigma_i/shared.rs: the pre-hash that some protocols keep to verify with. `PreHash<H>` wraps
-- the digest, and is the digest here.
use opaque_vx.Prelude.{Bytes, length, ◌≡◌, ◌++◌}
use opaque_vx.Prelude.Results.{ok}
use opaque_vx.Prelude.Act.{Act}
use opaque_vx.Serialization.{take_array, take_array-append}
use opaque_vx.Hash.{Hash}
use opaque_vx.Oprf.{OprfCs, Failure}

abbrev pub PreHash : Type 0
PreHash = Bytes

unfoldable pub deserialize_take_pre_hash : (o : OprfCs) → Hash → Act (Failure o) Bytes PreHash
deserialize_take_pre_hash o h input = take_array h.output_size "pre-hash" input

unfoldable pub serialize_pre_hash : PreHash → Bytes
serialize_pre_hash self = self

-- A pre-hash as long as the hash reads back, and the slice moves past it.
pub take_pre_hash :
    (o : OprfCs) (h : Hash) (state : PreHash) (rest : Bytes)
    → length state ≡ h.output_size
    → deserialize_take_pre_hash o h (serialize_pre_hash state ++ rest) ≡ ok (state, rest)
unfolding deserialize_take_pre_hash serialize_pre_hash
take_pre_hash o h state rest measured =
    take_array-append h.output_size "pre-hash" state rest measured
