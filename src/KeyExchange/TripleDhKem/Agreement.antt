-- ===== src/KeyExchange/TripleDhKem/Agreement.antt =====
-- Both sides of the exchange with a key encapsulation accept each other and agree on the session key.
use opaque_vx.Prelude.{Bytes, ◌≡◌, bytes_eq_refl}
use opaque_vx.Prelude.Results.{ok, bind_ok, passes}
use opaque_vx.Prelude.Act.{lift_ok}
use opaque_vx.Hash.{Hash, HashLaws}
use opaque_vx.Oprf.{OprfCs}
use opaque_vx.Group.{Group, DiffieHellman, DiffieHellmanLaws}
use opaque_vx.Keypair.{PrivateKey, PublicKey}
use opaque_vx.KeyExchange.Serialized.{
  Identifiers, SerializedIdentifiers, SerializedContext, SerializedCredentialRequest,
  SerializedCredentialResponse,
}
use opaque_vx.KeyExchange.Shared.{to_iter, transcript}
use opaque_vx.KeyExchange.Shared.Start.{Ke2BuilderCommon, ke2_builder_common}
use opaque_vx.KeyExchange.Shared.Agreement.{finalize-compute}
use opaque_vx.KeyExchange.Trait.{
  GenerateKe1Result, GenerateKe2Result, GenerateKe3Result, KeyExchangeLaws,
}
use opaque_vx.KeyExchange.TripleDh.{Ke3Message}
use opaque_vx.KeyExchange.TripleDh.Agreement.{generate_ke1-pair, ke2_builder_common-parts}
use opaque_vx.KeyExchange.TripleDhKem.{
  KemKe1State, KemKe1Message, KemKe2State, KemKe2Message, KemKe2Builder, generate_kem_ke1,
  kem_ke2_builder, generate_kem_ke2_input, build_kem_ke2, generate_kem_ke3, finish_kem_ke,
  triple_dh_kem,
}
use opaque_vx.KeyExchange.TripleDhKem.Mechanism.{Kem, KemLaws}

module _ (o : OprfCs) (g : Group o) (d : DiffieHellman g) (h : Hash) (k : Kem o) where
  -- What the client's first step holds: two key pairs.
  generate_kem_ke1-parts :
      (r r' : o.Rng) (ke1 : GenerateKe1Result (KemKe1State g k) (KemKe1Message g))
      → generate_kem_ke1 o g d h k r ≡ ok (ke1, r')
      → (s s' : o.Rng) × (ek : k.EncapsulationKey) × (ke1.message.dh_message.client_e_pk
          ≡ g.public_key ke1.state.dh_state.client_e_sk)
        × (k.generate s ≡ ok ((ke1.state.kem_decapsulation_key, ek), s'))
        × (ke1.message.kem_encapsulation_key ≡ k.serialize_encapsulation_key ek)
  unfolding generate_kem_ke1
  generate_kem_ke1-parts r r' ke1 started = bind_ok _ _ started λ base e h1.
      bind_ok _ _ h1 λ kem_keys e' h2.
        let paired = generate_ke1-pair o g r base.1 base.0 e in
        let dk : kem_keys.0.0 ≡ ke1.state.kem_decapsulation_key = cc in
        (base.1, kem_keys.1, kem_keys.0.1, cc, rw (← dk) e', cc)

  -- What the server's builder holds: the shared part, and an encapsulation.
  kem_ke2_builder-parts :
      (request : SerializedCredentialRequest) (ke1_message : KemKe1Message g)
      (response : SerializedCredentialResponse) (client_s_pk : PublicKey g)
      (identifiers : SerializedIdentifiers) (context : SerializedContext) (r r' : o.Rng)
      (builder : KemKe2Builder o g d h k)
      → kem_ke2_builder o g d h k request ke1_message response client_s_pk identifiers context r
        ≡ ok (builder, r')
      → (common : Ke2BuilderCommon o g h) × (s : o.Rng) × (ek : k.EncapsulationKey × Bytes)
        × (ke2_builder_common o g h d request ke1_message.dh_message response client_s_pk
              identifiers context r
            ≡ ok (common, s))
        × (k.deserialize_encapsulation_key ke1_message.kem_encapsulation_key ≡ ok ek)
        × (k.encapsulate ek.0 s ≡ ok ((builder.kem_ciphertext, builder.kem_shared_secret), r'))
        × (builder.transcript_hasher
            ≡ h.update
                (h.update common.transcript_hasher ke1_message.kem_encapsulation_key)
                builder.kem_ciphertext)
        × (builder.server_nonce ≡ common.server_nonce)
        × (builder.client_e_pk ≡ common.client_e_pk)
        × (builder.server_e_pk ≡ common.server_e_pk)
        × (builder.shared_secret_1 ≡ common.shared_secret_1)
        × (builder.shared_secret_3 ≡ common.shared_secret_3)
  unfolding kem_ke2_builder
  kem_ke2_builder-parts request ke1_message response client_s_pk identifiers context r r' builder
        built =
      bind_ok _ _ built λ common e h1. lift_ok _ _ _ h1 λ ek read h2.
        bind_ok _ _ h2 λ kem encapsulated h3.
          let ciphertext : kem.0.0 ≡ builder.kem_ciphertext = cc in
          let secret : kem.0.1 ≡ builder.kem_shared_secret = cc in
          let rng : kem.1 ≡ r' = cc in
          (
            common.0,
            common.1,
            ek,
            e,
            read,
            rw (← ciphertext, ← secret, ← rng) encapsulated,
            cc,
            cc,
            cc,
            cc,
            cc,
            cc,
          )

  -- In the exchange with a key encapsulation, where the server built its message for the client's first
  -- one, under the same request, response, identifiers, context and static keys as the client: the
  -- client's `generate_ke3` accepts the server's message, and the server's `finish_ke` accepts the
  -- client's answer, with the client's session key.
  pub finish_kem_ke-generate_kem_ke3 :
      HashLaws h
      → DiffieHellmanLaws g d
      → KemLaws k
      → (request : SerializedCredentialRequest) (response : SerializedCredentialResponse)
        (client_s_sk server_s_sk : PrivateKey g) (ids : Identifiers)
        (identifiers : SerializedIdentifiers) (context : SerializedContext)
        (r1 r1' r2 r2' r3 r4 : o.Rng) (ke1 : GenerateKe1Result (KemKe1State g k) (KemKe1Message g))
        (builder : KemKe2Builder o g d h k) (ke2 : GenerateKe2Result KemKe2State (KemKe2Message g))
      → generate_kem_ke1 o g d h k r1 ≡ ok (ke1, r1')
      → kem_ke2_builder o g d h k request ke1.message response
          (g.public_key client_s_sk)
          identifiers
          context
          r2
        ≡ ok (builder, r2')
      → build_kem_ke2 o g d h k builder (generate_kem_ke2_input o g d h k builder server_s_sk r3).0
        ≡ ok ke2
      → (ke3 : GenerateKe3Result Ke3Message) × (generate_kem_ke3 o g d h k request ke1.message
            response ke1.state ke2.message
            (g.public_key server_s_sk)
            client_s_sk
            identifiers
            context
            r4
          ≡ ok (ke3, r4))
        × (finish_kem_ke o g d h k ke2.state ke3.message ids context ≡ ok ke3.session_key)
  unfolding build_kem_ke2 generate_kem_ke3 finish_kem_ke generate_kem_ke2_input
  finish_kem_ke-generate_kem_ke3 laws dh_laws kem_laws request response client_s_sk server_s_sk ids
        identifiers context r1 r1' r2 r2' r3 r4 ke1 builder ke2 started built replied =
      let (s, s', ek, ke1_pair, generated, shown) = generate_kem_ke1-parts r1 r1' ke1 started in
      let (common, rc, ek', common_built, read, encapsulated, hasher, n, c, e, f1, f3) =
        kem_ke2_builder-parts request ke1.message response _ identifiers context r2 r2' builder
          built in
      let (sk, e_pk, c_pk, base, s1, s3) =
        ke2_builder_common-parts o g h d request ke1.message.dh_message response _ identifiers
          context r2 rc common common_built in
      let reads = kem_laws.read_encapsulation_key s s' _ ek generated in
      let same_key : ek'.0 ≡ ek = cc in
      let decapsulated =
        kem_laws.decapsulate-encapsulate s s' rc r2' _ ek builder.kem_ciphertext
          builder.kem_shared_secret generated (rw (← same_key) encapsulated) in
      bind_ok _ _ replied λ keys derived rest. bind_ok _ _ rest λ macs computed done.
        let accepted =
          finalize-compute o h laws builder.transcript_hasher macs.0 _ keys macs.1 macs.2 derived
            computed in
        let s1' : builder.shared_secret_1
            ≡ d.diffie_hellman ke1.state.dh_state.client_e_sk ke2.message.dh_message.server_e_pk =
          let agrees = dh_laws.agree ke1.state.dh_state.client_e_sk sk in cc in
        let s2' : d.diffie_hellman server_s_sk builder.client_e_pk
            ≡ d.diffie_hellman ke1.state.dh_state.client_e_sk (g.public_key server_s_sk) =
          let agrees = dh_laws.agree ke1.state.dh_state.client_e_sk server_s_sk in cc in
        let s3' : builder.shared_secret_3
            ≡ d.diffie_hellman client_s_sk ke2.message.dh_message.server_e_pk =
          let agrees = dh_laws.agree client_s_sk sk in cc in
        let same_hasher : h.update
              (h.update
                (transcript h context identifiers request (to_iter g ke1.message.dh_message)
                  response ke2.message.dh_message.server_nonce
                  (g.serialize_pk ke2.message.dh_message.server_e_pk))
                ke1.message.kem_encapsulation_key)
              ke2.message.kem_ciphertext
            ≡ builder.transcript_hasher =
          cc in
        let kem_secret : k.decapsulate ke1.state.kem_decapsulation_key ke2.message.kem_ciphertext
            ≡ ok builder.kem_shared_secret =
          cc in
        (
          record { session_key = keys.session_key; message = record { mac = macs.2 } },
          let mac : ke2.message.dh_message.mac ≡ macs.1 = cc in
              simp (same_hasher, kem_secret, ← s1', ← s2', ← s3', mac, accepted, passes),
          let expected : ke2.state.base_state.expected_mac ≡ macs.2 = cc in
              let key : ke2.state.base_state.session_key ≡ keys.session_key = cc in
              rw (expected, bytes_eq_refl, key),
        )

  pub triple_dh_kem-KeyExchangeLaws :
      (SkIsValid : g.Sk → Type 0)
      → HashLaws h
      → DiffieHellmanLaws g d
      → KemLaws k
      → KeyExchangeLaws (triple_dh_kem o g d h k) SkIsValid
  triple_dh_kem-KeyExchangeLaws SkIsValid laws dh_laws kem_laws = record {
    agreement =
        λ request response client_s_sk server_s_sk ids identifiers context r1 r1' r2 r2' r3 r4 ke1
            builder ke2 client_valid server_valid named started built replied.
          let (ke3, accepted, finished) =
            finish_kem_ke-generate_kem_ke3 laws dh_laws kem_laws request response client_s_sk
              server_s_sk ids identifiers context r1 r1' r2 r2' r3 r4 ke1 builder ke2 started built
              replied in
          (ke3, r4, accepted, finished);
  }
