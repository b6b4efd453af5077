-- ===== src/KeyExchange/SigmaI/Signed.antt =====
-- key_exchange/sigma_i/message.rs: the messages both sides sign and verify.
use opaque_vx.Prelude.{ap, sym, ◌∙◌, List, [], ◌∷◌, ◌++◌, ◌≡◌, refl, Bytes}
use opaque_vx.Hash.{Hash, chain_iter}
use opaque_vx.KeyExchange.Serialized.{SerializedContext, SerializedIdentifiers}
use opaque_vx.KeyExchange.SigmaI.Messages.{
  CachedMessage, Role, server_role, client_role, sign_stage, verify_stage, Message, MessageBuilder,
  role_identifier, other_role, post_message, sign_message, to_cached, hash_message, build_message,
  verify_message,
}

-- The builder that a side verifies with: its own role and context, and its peer's identifier.
abbrev pub peer_builder : Message → MessageBuilder
peer_builder m = record {
  role = m.role;
  context = m.context;
  identifier = role_identifier (other_role m.role) m.identifiers;
}

-- What the peer signs, where both sides have the same view of the exchange.
abbrev pub peer_message : Message → Message
peer_message m = record {
  role = other_role m.role;
  context = m.context;
  identifiers = m.identifiers;
  cache = m.cache;
}

module _ (context : SerializedContext) (identifiers : SerializedIdentifiers)
    (cache : CachedMessage) where
  abbrev in_role : Role → Message
  in_role role = record { role = role; context = context; identifiers = identifiers; cache = cache }

  verify_message_by_role :
      (role : Role)
      → verify_message (build_message (peer_builder (in_role role)) cache)
        ≡ sign_message (peer_message (in_role role))
  unfolding verify_message build_message sign_message post_message
  verify_message_by_role server_role = refl
  verify_message_by_role client_role = refl

  post_message_by_role :
      (role : Role)
      → post_message (in_role role) verify_stage
        ≡ post_message (peer_message (in_role role)) sign_stage
  unfolding post_message
  post_message_by_role server_role = refl
  post_message_by_role client_role = refl

-- The message that a side builds from its cached one to verify is the message that its peer signs, where
-- both have the same context, identifiers and cached messages.
pub verify_message-sign_message :
    (m : Message)
    → verify_message (build_message (peer_builder m) (to_cached m)) ≡ sign_message (peer_message m)
unfolding to_cached
verify_message-sign_message m = verify_message_by_role m.context m.identifiers m.cache m.role

chain_iter-append :
    (h : Hash) (s : h.Hasher) (xs ys : List Bytes)
    → chain_iter h s (xs ++ ys) ≡ chain_iter h (chain_iter h s xs) ys
unfolding chain_iter
chain_iter-append h s [] ys = refl
chain_iter-append h s (x ∷ xs) ys = chain_iter-append h (h.update s x) xs ys

-- The two hashes of a message are the hashes of what the side signs and of what it verifies, which is
-- what its peer signs.
pub hash_message_lem :
    (h : Hash) (m : Message)
    → ((hash_message h m).sign ≡ chain_iter h h.new (sign_message m))
      × ((hash_message h m).verify ≡ chain_iter h h.new (sign_message (peer_message m)))
unfolding hash_message sign_message
hash_message_lem h m = (
  rw (chain_iter-append) refl,
  rw (chain_iter-append, post_message_by_role m.context m.identifiers m.cache m.role) refl,
)

-- The hash that a side keeps to verify with is the hash that its peer signs, where the peer signs the
-- message that the side would build.
pub same_hash :
    (h : Hash) (signed own : Message)
    → verify_message (build_message (peer_builder own) (to_cached own)) ≡ sign_message signed
    → (hash_message h own).verify ≡ (hash_message h signed).sign
same_hash h signed own same =
    (hash_message_lem h own).1
    ∙ ap (chain_iter h h.new) (sym (verify_message-sign_message own) ∙ same)
    ∙ sym (hash_message_lem h signed).0
