-- ===== src/Envelope/Codec.antt =====
-- envelope.rs: reading an envelope back. The mode is not written, and `Internal` is assumed.
use opaque_vx.Prelude.{Bytes, ◌≡◌, ◌++◌, length, append_assoc, ap, sym}
use opaque_vx.Prelude.Act.{Act, pure, ◌>>=◌}
use opaque_vx.Prelude.Results.{ok, passes}
use opaque_vx.Serialization.{take_array, take_array-append, concat_ext-eq-cat}
use opaque_vx.Oprf.{OprfCs, Failure}
use opaque_vx.KeyExchange.Serialized.{nonce_len}
use opaque_vx.Envelope.{Envelope, internal, serialize_envelope}

module _ (o : OprfCs) where
  unfoldable pub deserialize_take_envelope : Act (Failure o) Bytes Envelope
  deserialize_take_envelope = do
    nonce ← take_array nonce_len "nonce"
    hmac ← take_array o.hash.output_size "hmac"
    pure (record { mode = internal; nonce = nonce; hmac = hmac })

  -- A sealed envelope reads back, and the slice moves past it.
  pub deserialize_take_envelope-serialize_envelope :
      (envelope : Envelope) (rest : Bytes)
      → envelope.mode ≡ internal
      → length envelope.nonce ≡ nonce_len
      → length envelope.hmac ≡ o.hash.output_size
      → deserialize_take_envelope (serialize_envelope o envelope ++ rest) ≡ ok (envelope, rest)
  unfolding deserialize_take_envelope serialize_envelope
  deserialize_take_envelope-serialize_envelope envelope rest mode nonce hmac =
      simp
        (
          concat_ext-eq-cat envelope.nonce envelope.hmac,
          append_assoc,
          take_array-append nonce_len "nonce" _ (envelope.hmac ++ rest) nonce,
          take_array-append o.hash.output_size "hmac" _ rest hmac,
          passes,
        )
        (ap (λ m. ok (record { mode = m; nonce = envelope.nonce; hmac = envelope.hmac }, rest))
          (sym mode))
