-- ===== src/Masked.antt =====
-- opaque.rs: `MaskedResponse`, the server's key and envelope under the credential response pad.
use opaque_vx.Prelude.{ℕ, List, [], ◌∷◌, Bytes}
use opaque_vx.Prelude.Act.{Act, pure, ◌>>=◌}
use opaque_vx.Serialization.{take_array, cat, concat_ext}
use opaque_vx.Oprf.{OprfCs, Failure}
use opaque_vx.Group.{Group}

-- envelope.rs and key_exchange/shared.rs: `NonceLen`
abbrev pub nonce_len : ℕ
nonce_len = 32

pub record MaskedResponse : Type 0 where
  pub nonce : Bytes
  pub hash : Bytes
  pub pk : Bytes

unfoldable pub serialize_masked : MaskedResponse → Bytes
serialize_masked self = cat (concat_ext self.nonce self.hash) self.pk

-- `MaskedResponse::iter`
unfoldable pub masked_slices : MaskedResponse → List Bytes
masked_slices self = self.nonce ∷ self.hash ∷ self.pk ∷ []

module _ (o : OprfCs) (g : Group o) where
  unfoldable pub deserialize_take_masked : Act (Failure o) Bytes MaskedResponse
  deserialize_take_masked = do
    nonce ← take_array nonce_len "masked nonce"
    hash ← take_array o.hash.output_size "masked hash"
    pk ← take_array g.pk_len "masked public key"
    pure (record { nonce = nonce; hash = hash; pk = pk })
