-- ===== src/KeyExchange/Shared/Transcript.antt =====
-- key_exchange/shared.rs: the transcript as one string, and that it binds all that goes into it.
use opaque_vx.Prelude.{
  ◌^◌, ◌<◌, Option, List, [], ◌∷◌, ◌++◌, Bytes, flatten, flatten-append, append_cancel, append-nil,
  append_assoc, length, ◌≡◌, refl, sym, ◌∙◌,
}
use opaque_vx.Prelude.Results.{ok, bind_ok}
use opaque_vx.Serialization.{i2osp}
use opaque_vx.Hash.{Hash, chain_iter}
use opaque_vx.Oprf.{OprfCs}
use opaque_vx.Masked.{masked_slices}
use opaque_vx.KeyExchange.Serialized.{
  SerializedIdentifiers, SerializedContext, SerializedCredentialRequest,
  SerializedCredentialResponse, str_context, context_slices, identifier_slices, request_slices,
  response_slices, from_context, unwrap_or_empty,
}
use opaque_vx.KeyExchange.Serialized.Injective.{Framed, Framed-injective, prefixed_injective}
use opaque_vx.KeyExchange.Shared.{Ke1MessageIter, ke1_slices, transcript}

-- The slices that the transcript is made of, in their order.
unfoldable pub transcript_slices :
    SerializedContext
    → SerializedIdentifiers
    → SerializedCredentialRequest
    → Ke1MessageIter
    → SerializedCredentialResponse
    → Bytes
    → Bytes
    → List Bytes
transcript_slices context identifiers request ke1_message response server_nonce server_e_pk =
    context_slices context
    ++ (identifier_slices identifiers.client
        ++ (request_slices request
            ++ (ke1_slices ke1_message
                ++ (identifier_slices identifiers.server
                    ++ (response_slices response ++ (server_nonce ∷ server_e_pk ∷ []))))))

module _ (h : Hash) where
  chain_iter-append :
      (s : h.Hasher) (xs ys : List Bytes)
      → chain_iter h s (xs ++ ys) ≡ chain_iter h (chain_iter h s xs) ys
  unfolding chain_iter
  chain_iter-append s [] ys = refl
  chain_iter-append s (x ∷ xs) ys = chain_iter-append (h.update s x) xs ys

  -- The transcript is the hash state after its slices, in their order.
  pub transcript-transcript_slices :
      (context : SerializedContext) (identifiers : SerializedIdentifiers)
      (request : SerializedCredentialRequest) (ke1_message : Ke1MessageIter)
      (response : SerializedCredentialResponse) (server_nonce server_e_pk : Bytes)
      → transcript h context identifiers request ke1_message response server_nonce server_e_pk
        ≡ chain_iter h h.new (
            transcript_slices context identifiers request ke1_message response server_nonce
              server_e_pk)
  unfolding transcript transcript_slices chain_iter
  transcript-transcript_slices context identifiers request ke1_message response server_nonce
        server_e_pk =
      simp chain_iter-append

-- The parts whose length is fixed by the cipher suite, in two runs of it.
pub record SameLengths (request request' : SerializedCredentialRequest) (ke1 ke1' : Ke1MessageIter)
    (response response' : SerializedCredentialResponse) (server_nonce server_nonce' : Bytes)
    : Type 0 where
  pub request_length : length request ≡ length request'
  pub client_nonce_length : length ke1.client_nonce ≡ length ke1'.client_nonce
  pub client_e_pk_length : length ke1.client_e_pk ≡ length ke1'.client_e_pk
  pub element_length : length response.evaluation_element ≡ length response'.evaluation_element
  pub masking_nonce_length : length response.masking_nonce ≡ length response'.masking_nonce
  pub nonce_length : length response.masked_response.nonce ≡ length response'.masked_response.nonce
  pub hash_length : length response.masked_response.hash ≡ length response'.masked_response.hash
  pub pk_length : length response.masked_response.pk ≡ length response'.masked_response.pk
  pub server_nonce_length : length server_nonce ≡ length server_nonce'

module _ (request : SerializedCredentialRequest) (ke1 : Ke1MessageIter)
    (response : SerializedCredentialResponse) (server_nonce server_e_pk : Bytes) where
  -- What stands behind the server's identifier, and behind the client's.
  abbrev tail_bytes : Bytes
  tail_bytes =
      response.evaluation_element
      ++ (response.masking_nonce
          ++ (response.masked_response.nonce
              ++ (response.masked_response.hash
                  ++ (response.masked_response.pk ++ (server_nonce ++ server_e_pk)))))

  flatten-transcript_slices :
      (context : SerializedContext) (identifiers : SerializedIdentifiers)
      → flatten
          (transcript_slices context identifiers request ke1 response server_nonce server_e_pk)
        ≡ str_context
          ++ (context.length
              ++ (context.context
                  ++ (flatten (identifier_slices identifiers.client)
                      ++ (request
                          ++ (ke1.client_nonce
                              ++ (ke1.client_e_pk
                                  ++ (flatten (identifier_slices identifiers.server)
                                      ++ tail_bytes)))))))
  unfolding transcript_slices context_slices request_slices ke1_slices response_slices masked_slices
  flatten-transcript_slices context identifiers = simp (flatten-append, append-nil, append_assoc)

module _ (o : OprfCs) where
  from_context-eq-ok :
      (given : Option Bytes) (context : SerializedContext)
      → from_context o given ≡ ok context
      → (context.context ≡ unwrap_or_empty given)
        × (i2osp {V = o.Error} {W = o.InternalError} 2 (length context.context) ≡ ok context.length)
  unfolding from_context
  from_context-eq-ok given context h = bind_ok _ _ h λ l e h'.
      let same : record { length = l; context = unwrap_or_empty given } ≡ context = cc in
      rw (← same) (refl, e)

  -- Where two transcripts are the same string, and the parts that the cipher suite gives a fixed length
  -- have it in both, everything in them is the same: the context, the client's identifier and its
  -- messages, the server's identifier and its messages. Contexts and identifiers are shorter than
  -- 2 ^ 64 bytes, and have their lengths in front as `from` writes them.
  pub transcript_slices_injective :
      (given given' : Option Bytes) (context context' : SerializedContext)
      (identifiers identifiers' : SerializedIdentifiers) (client client' server server' : Bytes)
      (request request' : SerializedCredentialRequest) (ke1 ke1' : Ke1MessageIter)
      (response response' : SerializedCredentialResponse)
      (server_nonce server_nonce' server_e_pk server_e_pk' : Bytes)
      → length (unwrap_or_empty given) < 2 ^ 64
      → length (unwrap_or_empty given') < 2 ^ 64
      → from_context o given ≡ ok context
      → from_context o given' ≡ ok context'
      → Framed o identifiers.client client
      → Framed o identifiers'.client client'
      → Framed o identifiers.server server
      → Framed o identifiers'.server server'
      → SameLengths request request' ke1 ke1' response response' server_nonce server_nonce'
      → flatten
          (transcript_slices context identifiers request ke1 response server_nonce server_e_pk)
        ≡ flatten (
            transcript_slices context' identifiers' request' ke1' response' server_nonce'
              server_e_pk')
      → (unwrap_or_empty given ≡ unwrap_or_empty given')
        × (client ≡ client')
        × (request ≡ request')
        × (ke1 ≡ ke1')
        × (server ≡ server')
        × (response ≡ response')
        × (server_nonce ≡ server_nonce')
        × (server_e_pk ≡ server_e_pk')
  transcript_slices_injective given given' context context' identifiers identifiers' client client'
        server server' request request' ke1 ke1' response response' server_nonce server_nonce'
        server_e_pk server_e_pk' small small' made made' fc fc' fs fs' lengths same =
      let (given_eq, framed) = from_context-eq-ok given context made in
      let (given_eq', framed') = from_context-eq-ok given' context' made' in
      let whole =
        sym (
          flatten-transcript_slices request ke1 response server_nonce server_e_pk context
            identifiers)
        ∙ same
        ∙ flatten-transcript_slices request' ke1' response' server_nonce' server_e_pk' context'
            identifiers' in
      let after = (append_cancel str_context str_context _ _ refl whole).1 in
      let (c, t1) =
        prefixed_injective {V = o.Error} {W = o.InternalError} context.length context'.length
          context.context context'.context _ _ (rw given_eq small) (rw given_eq' small') framed
          framed' after in
      let (client_eq, t2) = Framed-injective o _ _ _ _ _ _ fc fc' t1 in
      let (request_eq, t3) = append_cancel request request' _ _ lengths.request_length t2 in
      let (nonce_eq, t4) = append_cancel _ _ _ _ lengths.client_nonce_length t3 in
      let (pk_eq, t5) = append_cancel _ _ _ _ lengths.client_e_pk_length t4 in
      let (server_eq, t6) = Framed-injective o _ _ _ _ _ _ fs fs' t5 in
      let (element, t7) = append_cancel _ _ _ _ lengths.element_length t6 in
      let (masking, t8) = append_cancel _ _ _ _ lengths.masking_nonce_length t7 in
      let (nonce, t9) = append_cancel _ _ _ _ lengths.nonce_length t8 in
      let (hash, t10) = append_cancel _ _ _ _ lengths.hash_length t9 in
      let (pk, t11) = append_cancel _ _ _ _ lengths.pk_length t10 in
      let (server_nonce_eq, e_pk) = append_cancel _ _ _ _ lengths.server_nonce_length t11 in
      (
        sym given_eq ∙ c ∙ given_eq',
        client_eq,
        request_eq,
        cc,
        server_eq,
        cc,
        server_nonce_eq,
        e_pk,
      )
