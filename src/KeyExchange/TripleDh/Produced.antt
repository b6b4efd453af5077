-- ===== src/KeyExchange/TripleDh/Produced.antt =====
-- key_exchange/tripledh.rs: the encodings of what the steps of the exchange produce.
use opaque_vx.Prelude.{ℕ, ◌<◌, Bytes, length, ◌≡◌, sym, ap, ◌∙◌, inl, inr}
use opaque_vx.Errors.{invalid_login_error}
use opaque_vx.Prelude.Results.{Result, ok, err, bind_ok, ok_first, ok-injective}
use opaque_vx.Hash.{Hash, HashLaws}
use opaque_vx.Oprf.{OprfCs}
use opaque_vx.Group.{Group, GroupLaws, DiffieHellman}
use opaque_vx.Keypair.{PublicKey, PrivateKey}
use opaque_vx.KeyExchange.Serialized.{
  SerializedIdentifiers, SerializedContext, SerializedCredentialRequest,
  SerializedCredentialResponse, nonce_len,
}
use opaque_vx.KeyExchange.Trait.{GenerateKe2Result, GenerateKe3Result, ProducesValid}
use opaque_vx.KeyExchange.Shared.{Ke1State, Ke1Message, finalize_ke3_transcript, DerivedKeys}
use opaque_vx.KeyExchange.Shared.Start.{Ke2BuilderCommon, ke2_builder_common, generate_nonce}
use opaque_vx.KeyExchange.Shared.Fresh.{derive_random-IsValid, generate_ke1-IsValid}
use opaque_vx.KeyExchange.TripleDh.{
  Ke2State, Ke2Message, Ke3Message, ke2_builder, build_ke2, finish_ke3, generate_ke3, triple_dh,
}
use opaque_vx.KeyExchange.TripleDh.Totality.{build_ke2_total, finish_ke_outcome}
use opaque_vx.KeyExchange.TripleDh.Encodings.{triple_dh_encodings_laws}

module _ (o : OprfCs) (g : Group o) (d : DiffieHellman g) (h : Hash) (laws : HashLaws h)
    (small : h.output_size < 256) (group_laws : GroupLaws g)
    (filled : (n : ℕ) (r : o.Rng) → length (o.fill_bytes n r).0 ≡ n) where
  ke2_builder-IsValid :
      (request : SerializedCredentialRequest) (ke1_message : Ke1Message g)
      (response : SerializedCredentialResponse) (client_s_pk : PublicKey g)
      (identifiers : SerializedIdentifiers) (context : SerializedContext) (r r' : o.Rng)
      (builder : Ke2BuilderCommon o g h)
      → ke2_builder o g d h request ke1_message response client_s_pk identifiers context r
        ≡ ok (builder, r')
      → (length builder.server_nonce ≡ nonce_len) × group_laws.PkIsValid builder.server_e_pk
  unfolding ke2_builder ke2_builder_common generate_nonce
  ke2_builder-IsValid request ke1_message response client_s_pk identifiers context r r' builder e =
      bind_ok _ _ e λ pair drawn e'.
        let done = ok_first _ _ e' in
        let nonce : (o.fill_bytes nonce_len pair.1).0 ≡ builder.server_nonce = cc in
        let key : pair.0.pk ≡ builder.server_e_pk = cc in
        (
          rw (← nonce) (filled nonce_len pair.1),
          rw (← key) (derive_random-IsValid o g filled group_laws r pair.1 pair.0 drawn),
        )

  length-finalize_ke3_transcript :
      (hasher : h.Hasher) (secrets : _) (server_mac : Bytes) (result : DerivedKeys × Bytes)
      → finalize_ke3_transcript o h hasher secrets server_mac ≡ ok result
      → length result.1 ≡ h.output_size
  unfolding finalize_ke3_transcript
  length-finalize_ke3_transcript hasher secrets server_mac result e =
      bind_ok _ _ e λ keys derived e1. bind_ok _ _ e1 λ m2 keyed e2.
        bind_ok _ _ e2 λ unit checked e3. bind_ok _ _ e3 λ m3 keyed' e4.
          let mac : h.mac_finalize (h.mac_update m3 (h.finalize (h.update hasher server_mac)))
              ≡ result.1 =
            cc in
          sym (ap length mac) ∙ laws.length-mac_finalize _

  generate_ke3-IsValid :
      (request : SerializedCredentialRequest) (ke1_message : Ke1Message g)
      (response : SerializedCredentialResponse) (ke1_state : Ke1State g)
      (ke2_message : Ke2Message g) (server_s_pk : PublicKey g) (client_s_sk : PrivateKey g)
      (identifiers : SerializedIdentifiers) (context : SerializedContext) (r r' : o.Rng)
      (ke3 : GenerateKe3Result Ke3Message)
      → generate_ke3 o g d h request ke1_message response ke1_state ke2_message server_s_pk
          client_s_sk identifiers context r
        ≡ ok (ke3, r')
      → length ke3.message.mac ≡ h.output_size
  unfolding generate_ke3 finish_ke3
  generate_ke3-IsValid request ke1_message response ke1_state ke2_message server_s_pk client_s_sk
        identifiers context r r' ke3 e =
      bind_ok _ _ e λ answer finished e'. bind_ok _ _ finished λ result finalized e''.
        let mac : result.1 ≡ ke3.message.mac = cc in
        sym (ap length mac) ∙ length-finalize_ke3_transcript _ _ _ result finalized

  build_ke2-IsValid :
      (builder : Ke2BuilderCommon o g h) (input : Bytes)
      (ke2 : GenerateKe2Result Ke2State (Ke2Message g))
      → build_ke2 o g d h builder input ≡ ok ke2
      → (ke2.message.server_nonce ≡ builder.server_nonce)
        × (ke2.message.server_e_pk ≡ builder.server_e_pk)
        × (length ke2.message.mac ≡ h.output_size)
        × (length ke2.state.session_key ≡ h.output_size)
  build_ke2-IsValid builder input ke2 e =
      let (made, built, nonce, key, mac, session, _) =
        build_ke2_total o g d h laws small builder input in
      let same : made ≡ ke2 = ok-injective (sym built ∙ e) in rw (← same) (nonce, key, mac, session)

  pub triple_dh-ProducesValid :
      ProducesValid (triple_dh o g d h) (triple_dh_encodings_laws o g d h group_laws)
  triple_dh-ProducesValid = record {
    generate_ke1-IsValid = generate_ke1-IsValid o g filled group_laws;
    build_ke2-IsValid =
        λ request ke1_message response client_s_pk identifiers context r r' builder input ke2 made
            built.
          let (nonce, key) =
            ke2_builder-IsValid request ke1_message response client_s_pk identifiers context r r'
              builder made in
          let (nonce', key', mac, _) = build_ke2-IsValid builder input ke2 built in
          (ap length nonce' ∙ nonce, mac, rw key' key);
    generate_ke3-IsValid = generate_ke3-IsValid;
    length-session_key = λ builder input ke2 message ids context session built finished.
        let (_, _, _, measured) = build_ke2-IsValid builder input ke2 built in
        elim (finish_ke_outcome o g d h ke2.state message ids context) [
          | inl (_, e) ↦
              let same : ke2.state.session_key ≡ session = ok-injective (sym e ∙ finished) in
              sym (ap length same) ∙ measured
          | inr (_, e) ↦
              let clash : ◌≡◌ {A = Result _ Bytes} (err invalid_login_error) (ok session) =
                sym e ∙ finished in
              absurd (cc)
        ];
  }
