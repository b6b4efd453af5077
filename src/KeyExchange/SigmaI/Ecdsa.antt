-- ===== src/KeyExchange/SigmaI/Ecdsa.antt =====
-- key_exchange/sigma_i/ecdsa.rs: ECDSA, over the crates ecdsa and elliptic-curve at one curve.
use opaque_vx.Prelude.{ℕ, Bool, true, Option, some, Bytes, ap, length, ◌≡◌, if◌then◌else◌}
use opaque_vx.Prelude.Results.{Result, ok, err, ok_or, passes}
use opaque_vx.Prelude.Act.{Act, lift, ◌>>=◌}
use opaque_vx.Errors.{invalid_login_error, serialization_error}
use opaque_vx.Serialization.{take_array, take_array-append}
use opaque_vx.Hash.{Hash}
use opaque_vx.Oprf.{OprfCs, Failure}
use opaque_vx.Group.{Group}
use opaque_vx.KeyExchange.SigmaI.Messages.{Message, hash_message}
use opaque_vx.KeyExchange.SigmaI.Signed.{same_hash}
use opaque_vx.KeyExchange.SigmaI.Protocol.{SignatureProtocol, SignatureLaws, SignatureEncodingLaws}
use opaque_vx.KeyExchange.SigmaI.PreHash.{
  PreHash, serialize_pre_hash, deserialize_take_pre_hash, take_pre_hash,
}

-- What the crate ecdsa gives for a curve: RFC 6979 signatures of a digest with additional data, their
-- verification and their encoding.
pub record EcdsaCurve {o : OprfCs} (g : Group o) : Type 1 where
  pub Signature : Type 0
  pub signature_len : ℕ
  pub field_bytes_len : ℕ
  pub sign_prehashed_rfc6979 : g.Sk → Bytes → Bytes → Signature
  pub verify_prehashed : g.Pk → Bytes → Signature → Bool
  pub to_bytes : Signature → Bytes
  pub from_bytes : Bytes → Option Signature

-- A signature verifies, whatever the additional data was, and reads back.
pub record EcdsaLaws {o : OprfCs} {g : Group o} (c : EcdsaCurve g) (SkIsValid : g.Sk → Type 0)
    : Type 0 where
  pub verify_prehashed-sign_prehashed_rfc6979 :
      (sk : g.Sk) (pre_hash ad : Bytes)
      → SkIsValid sk
      → c.verify_prehashed (g.public_key sk) pre_hash (c.sign_prehashed_rfc6979 sk pre_hash ad)
        ≡ true
  pub length-to_bytes : (s : c.Signature) → length (c.to_bytes s) ≡ c.signature_len
  pub from_bytes-to_bytes : (s : c.Signature) → c.from_bytes (c.to_bytes s) ≡ some s

module _ {o : OprfCs} {g : Group o} (c : EcdsaCurve g) (h : Hash) where
  -- The function `sign`: additional data of the length of a field element is drawn.
  unfoldable pub ecdsa_sign : g.Sk → o.Rng → Bytes → c.Signature × o.Rng
  ecdsa_sign sk rng pre_hash =
      let (ad, rng') = o.fill_bytes c.field_bytes_len rng in
      (c.sign_prehashed_rfc6979 sk pre_hash ad, rng')

  -- The function `verify`
  unfoldable pub ecdsa_verify : g.Pk → Bytes → c.Signature → Result (Failure o) (Unit {0})
  ecdsa_verify pk pre_hash signature =
      if c.verify_prehashed pk pre_hash signature then ok tt else err invalid_login_error

  -- `Ecdsa::sign`
  unfoldable pub ecdsa_sign_message : g.Sk → Message → o.Rng → (c.Signature × PreHash) × o.Rng
  ecdsa_sign_message sk message rng =
      let hash = hash_message h message in
      let (signature, rng') = ecdsa_sign sk rng (h.finalize hash.sign) in
      ((signature, h.finalize hash.verify), rng')

  unfoldable pub deserialize_take_ecdsa_signature : Act (Failure o) Bytes c.Signature
  deserialize_take_ecdsa_signature = do
    bytes ← take_array c.signature_len "signature"
    lift (ok_or serialization_error (c.from_bytes bytes))

  -- `impl SignatureProtocol for Ecdsa<G, H>`; the builder is not used.
  abbrev pub ecdsa : SignatureProtocol g
  ecdsa = record {
    Signature = c.Signature;
    VerifyState = PreHash;
    sign = ecdsa_sign_message;
    verify = λ pk message_builder state signature. ecdsa_verify pk state signature;
    serialize_signature = c.to_bytes;
    deserialize_take_signature = deserialize_take_ecdsa_signature;
    serialize_verify_state = serialize_pre_hash;
    deserialize_take_verify_state = deserialize_take_pre_hash o h;
  }

  -- Where the crate verifies what it signs, ECDSA is a signature protocol for SIGMA-I: each side signs the one hash of the message and keeps the
  -- other to verify with, so that what its peer signs verifies.
  pub ecdsa_verify-ecdsa_sign_message :
      (SkIsValid : g.Sk → Type 0) → EcdsaLaws c SkIsValid → SignatureLaws ecdsa SkIsValid
  unfolding ecdsa_sign ecdsa_verify ecdsa_sign_message
  ecdsa_verify-ecdsa_sign_message SkIsValid laws = record {
    verify-sign = λ sk own_sk signed own r own_r valid same. rw (
      ap h.finalize (same_hash h signed own same),
      laws.verify_prehashed-sign_prehashed_rfc6979 sk _ _ valid,
    );
  }

  -- What SIGMA-I sends and keeps of ECDSA reads back, and the slice moves past it.
  pub ecdsa-SignatureEncodingLaws :
      (SkIsValid : g.Sk → Type 0) → EcdsaLaws c SkIsValid → SignatureEncodingLaws ecdsa
  unfolding deserialize_take_ecdsa_signature
  ecdsa-SignatureEncodingLaws SkIsValid laws = record {
    SignatureIsValid = λ s. Unit {0};
    VerifyStateIsValid = λ state. length state ≡ h.output_size;
    take_signature = λ s rest valid. simp (
      take_array-append c.signature_len "signature" (c.to_bytes s) rest (laws.length-to_bytes s),
      laws.from_bytes-to_bytes,
      passes,
    );
    take_verify_state = take_pre_hash o h;
  }
