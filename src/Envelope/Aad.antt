-- ===== src/Envelope/Aad.antt =====
-- envelope.rs: the associated data of the envelope binds the server's key and both identifiers.
use opaque_vx.Prelude.{
  ◌^◌, ◌<◌, [], ◌++◌, Bytes, flatten, flatten-append, append_cancel, append-nil, length, ◌≡◌, sym,
  ◌∙◌,
}
use opaque_vx.Prelude.Results.{ok}
use opaque_vx.Oprf.{OprfCs}
use opaque_vx.KeyExchange.Serialized.{
  Identifiers, SerializedIdentifiers, SerializedIdentifier, from_identifiers, identifier_slices,
}
use opaque_vx.KeyExchange.Serialized.Injective.{
  identity_of, from_identifiers-Framed, Framed-injective,
}
use opaque_vx.Envelope.{construct_aad}

-- The associated data as one string.
flatten-construct_aad :
    (client server : SerializedIdentifier) (server_s_pk : Bytes)
    → flatten (construct_aad (identifier_slices client) (identifier_slices server) server_s_pk)
      ≡ server_s_pk
        ++ (flatten (identifier_slices server) ++ (flatten (identifier_slices client) ++ []))
unfolding construct_aad
flatten-construct_aad client server server_s_pk =
    simp (flatten-append (identifier_slices server) (identifier_slices client), append-nil)

module _ (o : OprfCs) where
  -- Where the associated data of two envelopes is the same string, and the server's keys in it have
  -- the same length, the keys are the same, and so are the server's identifiers and the client's, each
  -- being the one that was given or else the public key. Identifiers are shorter than 2 ^ 64 bytes.
  pub construct_aad_injective :
      (ids ids' : Identifiers) (client_s_pk client_s_pk' server_s_pk server_s_pk' : Bytes)
      (i i' : SerializedIdentifiers)
      → from_identifiers o ids client_s_pk server_s_pk ≡ ok i
      → from_identifiers o ids' client_s_pk' server_s_pk' ≡ ok i'
      → length (identity_of ids.client client_s_pk) < 2 ^ 64
      → length (identity_of ids.server server_s_pk) < 2 ^ 64
      → length (identity_of ids'.client client_s_pk') < 2 ^ 64
      → length (identity_of ids'.server server_s_pk') < 2 ^ 64
      → length server_s_pk ≡ length server_s_pk'
      → flatten
          (construct_aad (identifier_slices i.client) (identifier_slices i.server) server_s_pk)
        ≡ flatten
            (construct_aad (identifier_slices i'.client) (identifier_slices i'.server) server_s_pk')
      → (server_s_pk ≡ server_s_pk')
        × (identity_of ids.server server_s_pk ≡ identity_of ids'.server server_s_pk')
        × (identity_of ids.client client_s_pk ≡ identity_of ids'.client client_s_pk')
  construct_aad_injective ids ids' client_s_pk client_s_pk' server_s_pk server_s_pk' i i' named
        named' c s c' s' keys same =
      let (client, server) = from_identifiers-Framed o ids client_s_pk server_s_pk i c s named in
      let (client', server') =
        from_identifiers-Framed o ids' client_s_pk' server_s_pk' i' c' s' named' in
      let (same_key, tail) = append_cancel server_s_pk server_s_pk' _ _ keys (
        sym (flatten-construct_aad i.client i.server server_s_pk)
        ∙ same
        ∙ flatten-construct_aad i'.client i'.server server_s_pk') in
      let (same_server, tail') =
        Framed-injective o i.server i'.server _ _ _ _ server server' tail in
      (
        same_key,
        same_server,
        (Framed-injective o i.client i'.client _ _ [] [] client client' tail').0,
      )
