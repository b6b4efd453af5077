-- ===== src/KeyExchange/SigmaI/Totality.antt =====
-- key_exchange/sigma_i/mod.rs: the steps of SIGMA-I up to the server's message.
use opaque_vx.Prelude.{ℕ, ◌<◌, Bytes, [], ◌∷◌, length, ◌≡◌, refl}
use opaque_vx.Prelude.Results.{ok, passes}
use opaque_vx.Hash.{Hash, HashLaws, mac_update_iter}
use opaque_vx.Oprf.{OprfCs}
use opaque_vx.Group.{Group, DiffieHellman}
use opaque_vx.Keypair.{PublicKey}
use opaque_vx.KeyExchange.Serialized.{
  SerializedIdentifier, SerializedIdentifiers, SerializedContext, SerializedCredentialRequest,
  SerializedCredentialResponse, identifier_slices,
}
use opaque_vx.KeyExchange.Trait.{KeyExchangeTotal}
use opaque_vx.KeyExchange.Shared.{Ke1Message, to_iter, transcript}
use opaque_vx.KeyExchange.Shared.Start.{generate_nonce}
use opaque_vx.KeyExchange.Shared.Totality.{derive_keys_total}
use opaque_vx.KeyExchange.Shared.Fresh.{derive_random_total, generate_ke1_total}
use opaque_vx.KeyExchange.SigmaI.Messages.{server_role}
use opaque_vx.KeyExchange.SigmaI.Protocol.{SignatureProtocol}
use opaque_vx.KeyExchange.SigmaI.{
  Ke2Builder, identifier_mac, sigma_ke2_builder, sigma_build_ke2, sigma_i,
}

module _ (o : OprfCs) (g : Group o) (sig : SignatureProtocol g) (ke : Group o)
    (d : DiffieHellman ke) (h : Hash) (laws : HashLaws h) (small : h.output_size < 256)
    (filled : (n : ℕ) (r : o.Rng) → length (o.fill_bytes n r).0 ≡ n)
    (derives : (seed : Bytes)
      → length seed ≡ ke.sk_len
      → (sk : ke.Sk) × (ke.derive_scalar seed ≡ ok sk)) where
  identifier_mac_total :
      (key : Bytes) (identifier : SerializedIdentifier)
      → (mac : Bytes) × (identifier_mac o h key identifier ≡ ok mac)
  unfolding identifier_mac
  identifier_mac_total key identifier =
      let (m, keyed) = laws.new_from_slice_total key in
      (h.mac_finalize (mac_update_iter h m (identifier_slices identifier)), simp (keyed, passes))

  sigma_ke2_builder_total :
      (request : SerializedCredentialRequest) (ke1_message : Ke1Message ke)
      (response : SerializedCredentialResponse) (client_s_pk : PublicKey g)
      (identifiers : SerializedIdentifiers) (context : SerializedContext) (r : o.Rng)
      → (builder : Ke2Builder g ke) × (r' : o.Rng) × (sigma_ke2_builder o g sig ke d h request
            ke1_message response client_s_pk identifiers context r
          ≡ ok (builder, r'))
  unfolding sigma_ke2_builder
  sigma_ke2_builder_total request ke1_message response client_s_pk identifiers context r =
      let (pair, r', drawn) = derive_random_total o ke filled derives r in
      let nonce = generate_nonce o r' in
      let server_e_pk = ke.serialize_pk pair.pk in
      let hasher =
        transcript h context identifiers request (to_iter ke ke1_message) response nonce.0
          server_e_pk in
      let (keys, derived, _, _, _) =
        derive_keys_total o h laws small (d.diffie_hellman pair.sk ke1_message.client_e_pk ∷ [])
          (h.finalize hasher) (laws.length-finalize hasher) in
      let (server_mac, signed) = identifier_mac_total keys.km2 identifiers.server in
      let (client_mac, signed') = identifier_mac_total keys.km3 identifiers.client in
      (
        record {
          transcript = record {
            role = server_role;
            context = context;
            identifiers = identifiers;
            cache = record {
              credential_request = request;
              ke1_message = to_iter ke ke1_message;
              credential_response = response;
              server_nonce = nonce.0;
              server_e_pk = server_e_pk;
              server_mac = server_mac;
            };
          };
          server_nonce = nonce.0;
          client_s_pk = client_s_pk;
          server_e_pk = pair.pk;
          expected_mac = client_mac;
          session_key = keys.session_key;
        },
        nonce.1,
        simp (drawn, derived, signed, signed', passes),
      )

  -- So a login over SIGMA-I goes through like one over Triple Diffie-Hellman.
  pub sigma_i-KeyExchangeTotal : KeyExchangeTotal (sigma_i o g sig ke d h)
  unfolding sigma_build_ke2
  sigma_i-KeyExchangeTotal = record {
    generate_ke1_total = generate_ke1_total o ke filled derives;
    ke2_builder_total = sigma_ke2_builder_total;
    build_ke2_total = λ builder input. (_, refl);
  }
