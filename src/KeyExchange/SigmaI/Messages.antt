-- ===== src/KeyExchange/SigmaI/Messages.antt =====
-- key_exchange/sigma_i/message.rs: the messages that are signed and verified.
use opaque_vx.Prelude.{List, [], ◌∷◌, ◌++◌, Bytes}
use opaque_vx.Hash.{Hash, chain_iter}
use opaque_vx.KeyExchange.Serialized.{
  SerializedIdentifier, SerializedIdentifiers, SerializedContext, SerializedCredentialRequest,
  SerializedCredentialResponse, context_slices, identifier_slices, request_slices, response_slices,
}
use opaque_vx.KeyExchange.Shared.{Ke1MessageIter, ke1_slices}

pub data Role : Type 0 where
  server_role client_role : Role

pub data Stage : Type 0 where
  sign_stage verify_stage : Stage

pub record CachedMessage : Type 0 where
  pub credential_request : SerializedCredentialRequest
  pub ke1_message : Ke1MessageIter
  pub credential_response : SerializedCredentialResponse
  pub server_nonce : Bytes
  pub server_e_pk : Bytes
  pub server_mac : Bytes

pub record Message : Type 0 where
  pub role : Role
  pub context : SerializedContext
  pub identifiers : SerializedIdentifiers
  pub cache : CachedMessage

pub record VerifyMessage : Type 0 where
  pub role : Role
  pub context : SerializedContext
  pub identifier : SerializedIdentifier
  pub cache : CachedMessage

pub record MessageBuilder : Type 0 where
  pub role : Role
  pub context : SerializedContext
  pub identifier : SerializedIdentifier

-- `matches!(transcript, Role::Client).then_some(..)`, and the same for the server.
abbrev pub for_client : Role → List Bytes → List Bytes
for_client server_role slices = []
for_client client_role slices = slices

abbrev pub for_server : Role → List Bytes → List Bytes
for_server server_role slices = slices
for_server client_role slices = []

-- `CachedMessage::post_message`
unfoldable pub cached_post_message : CachedMessage → Role → SerializedIdentifier → List Bytes
cached_post_message self role identifier =
    for_client role (identifier_slices identifier)
    ++ (request_slices self.credential_request
        ++ (ke1_slices self.ke1_message
            ++ (for_server role (identifier_slices identifier)
                ++ (response_slices self.credential_response
                    ++ (self.server_nonce
                        ∷ self.server_e_pk
                        ∷ for_client role (self.server_mac ∷ []))))))

-- Whose transcript a stage is about.
abbrev pub transcript_role : Role → Stage → Role
transcript_role server_role sign_stage = server_role
transcript_role server_role verify_stage = client_role
transcript_role client_role sign_stage = client_role
transcript_role client_role verify_stage = server_role

abbrev pub role_identifier : Role → SerializedIdentifiers → SerializedIdentifier
role_identifier server_role identifiers = identifiers.server
role_identifier client_role identifiers = identifiers.client

-- `Message::post_message`
unfoldable pub post_message : Message → Stage → List Bytes
post_message self stage =
    let role = transcript_role self.role stage in
    cached_post_message self.cache role (role_identifier role self.identifiers)

unfoldable pub sign_message : Message → List Bytes
sign_message self = context_slices self.context ++ post_message self sign_stage

unfoldable pub to_cached : Message → CachedMessage
to_cached self = self.cache

pub record HashOutput (h : Hash) : Type 0 where
  pub sign : h.Hasher
  pub verify : h.Hasher

-- `Message::hash`: the two hashes go on from one of the context.
unfoldable pub hash_message : (h : Hash) → Message → HashOutput h
hash_message h self =
    let context = chain_iter h h.new (context_slices self.context) in
    record {
      sign = chain_iter h context (post_message self sign_stage);
      verify = chain_iter h context (post_message self verify_stage);
    }

-- `MessageBuilder::build`
unfoldable pub build_message : MessageBuilder → CachedMessage → VerifyMessage
build_message self cache = record {
  role = self.role;
  context = self.context;
  identifier = self.identifier;
  cache = cache;
}

abbrev pub other_role : Role → Role
other_role server_role = client_role
other_role client_role = server_role

unfoldable pub verify_message : VerifyMessage → List Bytes
verify_message self =
    context_slices self.context
    ++ cached_post_message self.cache (other_role self.role) self.identifier
