-- ===== src/KeyExchange/Trait.antt =====
-- key_exchange/mod.rs: the trait `KeyExchange`, and what a client of it relies on.
use opaque_vx.Prelude.{Bytes, length, ◌≡◌, ◌++◌, ◌⊎◌}
use opaque_vx.Prelude.Results.{Result, ok, err}
use opaque_vx.Errors.{invalid_login_error}
use opaque_vx.Prelude.Act.{Act}
use opaque_vx.Hash.{Hash}
use opaque_vx.Oprf.{OprfCs, Failure}
use opaque_vx.Group.{Group}
use opaque_vx.Keypair.{PublicKey, PrivateKey}
use opaque_vx.KeyExchange.Serialized.{
  Identifiers, SerializedIdentifiers, SerializedContext, SerializedCredentialRequest,
  SerializedCredentialResponse, from_identifiers,
}

pub record GenerateKe1Result (State Message : Type 0) : Type 0 where
  pub state : State
  pub message : Message

pub record GenerateKe2Result (State Message : Type 0) : Type 0 where
  pub state : State
  pub message : Message

pub record GenerateKe3Result (Message : Type 0) : Type 0 where
  pub session_key : Bytes
  pub message : Message

module _ (o : OprfCs) where
  pub record KeyExchange : Type 1 where
    pub group : Group o
    pub hash : Hash
    pub Ke1State : Type 0
    pub Ke2State : Type 0
    pub Ke1Message : Type 0
    pub Ke2Builder : Type 0
    pub Ke2BuilderData : Type 0
    pub Ke2BuilderInput : Type 0
    pub Ke2Message : Type 0
    pub Ke3Message : Type 0
    pub generate_ke1 : Act (Failure o) o.Rng (GenerateKe1Result Ke1State Ke1Message)
    pub ke2_builder :
        SerializedCredentialRequest
        → Ke1Message
        → SerializedCredentialResponse
        → PublicKey group
        → SerializedIdentifiers
        → SerializedContext
        → Act (Failure o) o.Rng Ke2Builder
    pub ke2_builder_data : Ke2Builder → Ke2BuilderData
    pub generate_ke2_input : Ke2Builder → PrivateKey group → o.Rng → Ke2BuilderInput × o.Rng
    pub build_ke2 :
        Ke2Builder → Ke2BuilderInput → Result (Failure o) (GenerateKe2Result Ke2State Ke2Message)
    pub generate_ke3 :
        SerializedCredentialRequest
        → Ke1Message
        → SerializedCredentialResponse
        → Ke1State
        → Ke2Message
        → PublicKey group
        → PrivateKey group
        → SerializedIdentifiers
        → SerializedContext
        → Act (Failure o) o.Rng (GenerateKe3Result Ke3Message)
    pub finish_ke :
        Ke2State → Ke3Message → Identifiers → SerializedContext → Result (Failure o) Bytes

module _ {o : OprfCs} where
  -- The `Serialize` and `Deserialize` instances of the states and messages.
  pub record Encodings (ke : KeyExchange o) : Type 0 where
    pub serialize_ke1_state : ke.Ke1State → Bytes
    pub deserialize_take_ke1_state : Act (Failure o) Bytes ke.Ke1State
    pub serialize_ke1_message : ke.Ke1Message → Bytes
    pub deserialize_take_ke1_message : Act (Failure o) Bytes ke.Ke1Message
    pub serialize_ke2_state : ke.Ke2State → Bytes
    pub deserialize_take_ke2_state : Act (Failure o) Bytes ke.Ke2State
    pub serialize_ke2_message : ke.Ke2Message → Bytes
    pub deserialize_take_ke2_message : Act (Failure o) Bytes ke.Ke2Message
    pub serialize_ke3_message : ke.Ke3Message → Bytes
    pub deserialize_take_ke3_message : Act (Failure o) Bytes ke.Ke3Message

  -- Valid states and messages read back, and the slice moves past them.
  pub record EncodingsLaws (ke : KeyExchange o) (e : Encodings ke) : Type 1 where
    pub Ke1StateIsValid : ke.Ke1State → Type 0
    pub Ke1MessageIsValid : ke.Ke1Message → Type 0
    pub Ke2StateIsValid : ke.Ke2State → Type 0
    pub Ke2MessageIsValid : ke.Ke2Message → Type 0
    pub Ke3MessageIsValid : ke.Ke3Message → Type 0
    pub take_ke1_state :
        (s : ke.Ke1State) (rest : Bytes)
        → Ke1StateIsValid s
        → e.deserialize_take_ke1_state (e.serialize_ke1_state s ++ rest) ≡ ok (s, rest)
    pub take_ke1_message :
        (m : ke.Ke1Message) (rest : Bytes)
        → Ke1MessageIsValid m
        → e.deserialize_take_ke1_message (e.serialize_ke1_message m ++ rest) ≡ ok (m, rest)
    pub take_ke2_state :
        (s : ke.Ke2State) (rest : Bytes)
        → Ke2StateIsValid s
        → e.deserialize_take_ke2_state (e.serialize_ke2_state s ++ rest) ≡ ok (s, rest)
    pub take_ke2_message :
        (m : ke.Ke2Message) (rest : Bytes)
        → Ke2MessageIsValid m
        → e.deserialize_take_ke2_message (e.serialize_ke2_message m ++ rest) ≡ ok (m, rest)
    pub take_ke3_message :
        (m : ke.Ke3Message) (rest : Bytes)
        → Ke3MessageIsValid m
        → e.deserialize_take_ke3_message (e.serialize_ke3_message m ++ rest) ≡ ok (m, rest)

  -- When both sides run on the same request, response, identifiers, context and valid static keys, the
  -- client accepts the server's message, the server accepts the client's, and the session keys agree.
  pub record KeyExchangeLaws (ke : KeyExchange o) (SkIsValid : ke.group.Sk → Type 0) : Type 0 where
    pub agreement :
        (request : SerializedCredentialRequest) (response : SerializedCredentialResponse)
        (client_s_sk server_s_sk : PrivateKey ke.group) (ids : Identifiers)
        (identifiers : SerializedIdentifiers) (context : SerializedContext)
        (r1 r1' r2 r2' r3 r4 : o.Rng) (ke1 : GenerateKe1Result ke.Ke1State ke.Ke1Message)
        (builder : ke.Ke2Builder) (ke2 : GenerateKe2Result ke.Ke2State ke.Ke2Message)
        → SkIsValid client_s_sk
        → SkIsValid server_s_sk
        → from_identifiers o ids
            (ke.group.serialize_pk (ke.group.public_key client_s_sk))
            (ke.group.serialize_pk (ke.group.public_key server_s_sk))
          ≡ ok identifiers
        → ke.generate_ke1 r1 ≡ ok (ke1, r1')
        → ke.ke2_builder request ke1.message response
            (ke.group.public_key client_s_sk)
            identifiers
            context
            r2
          ≡ ok (builder, r2')
        → ke.build_ke2 builder (ke.generate_ke2_input builder server_s_sk r3).0 ≡ ok ke2
        → (ke3 : GenerateKe3Result ke.Ke3Message) × (r4' : o.Rng) × (ke.generate_ke3 request
              ke1.message response ke1.state ke2.message
              (ke.group.public_key server_s_sk)
              client_s_sk
              identifiers
              context
              r4
            ≡ ok (ke3, r4'))
          × (ke.finish_ke ke2.state ke3.message ids context ≡ ok ke3.session_key)

  -- The client's last step finishes or refuses the login, and has no other error.
  abbrev pub Refuses : KeyExchange o → Type 0
  Refuses ke =
      (request : SerializedCredentialRequest) (ke1_message : ke.Ke1Message)
      (response : SerializedCredentialResponse) (ke1_state : ke.Ke1State)
      (ke2_message : ke.Ke2Message) (server_s_pk : PublicKey ke.group)
      (client_s_sk : PrivateKey ke.group) (identifiers : SerializedIdentifiers)
      (context : SerializedContext) (r : o.Rng)
      → ((ke3 : GenerateKe3Result ke.Ke3Message) × (r' : o.Rng) × (ke.generate_ke3 request
              ke1_message response ke1_state ke2_message server_s_pk client_s_sk identifiers context
              r
            ≡ ok (ke3, r')))
        ⊎ (ke.generate_ke3 request ke1_message response ke1_state ke2_message server_s_pk
              client_s_sk identifiers context r
            ≡ err invalid_login_error)

  -- No step up to the server's message fails, from any state of the generator.
  pub record KeyExchangeTotal (ke : KeyExchange o) : Type 0 where
    pub generate_ke1_total :
        (r : o.Rng)
        → (ke1 : GenerateKe1Result ke.Ke1State ke.Ke1Message) × (r' : o.Rng) × (ke.generate_ke1 r
            ≡ ok (ke1, r'))
    pub ke2_builder_total :
        (request : SerializedCredentialRequest) (ke1_message : ke.Ke1Message)
        (response : SerializedCredentialResponse) (client_s_pk : PublicKey ke.group)
        (identifiers : SerializedIdentifiers) (context : SerializedContext) (r : o.Rng)
        → (builder : ke.Ke2Builder) × (r' : o.Rng) × (ke.ke2_builder request ke1_message response
              client_s_pk identifiers context r
            ≡ ok (builder, r'))
    pub build_ke2_total :
        (builder : ke.Ke2Builder) (input : ke.Ke2BuilderInput)
        → (ke2 : GenerateKe2Result ke.Ke2State ke.Ke2Message) × (ke.build_ke2 builder input
            ≡ ok ke2)

  -- What the steps produce is valid, so that it reads back, and session keys are as long as the hash.
  pub record ProducesValid (ke : KeyExchange o) {e : Encodings ke} (laws : EncodingsLaws ke e)
      : Type 0 where
    pub generate_ke1-IsValid :
        (r r' : o.Rng) (ke1 : GenerateKe1Result ke.Ke1State ke.Ke1Message)
        → ke.generate_ke1 r ≡ ok (ke1, r')
        → laws.Ke1MessageIsValid ke1.message
    pub build_ke2-IsValid :
        (request : SerializedCredentialRequest) (ke1_message : ke.Ke1Message)
        (response : SerializedCredentialResponse) (client_s_pk : PublicKey ke.group)
        (identifiers : SerializedIdentifiers) (context : SerializedContext) (r r' : o.Rng)
        (builder : ke.Ke2Builder) (input : ke.Ke2BuilderInput)
        (ke2 : GenerateKe2Result ke.Ke2State ke.Ke2Message)
        → ke.ke2_builder request ke1_message response client_s_pk identifiers context r
          ≡ ok (builder, r')
        → ke.build_ke2 builder input ≡ ok ke2
        → laws.Ke2MessageIsValid ke2.message
    pub generate_ke3-IsValid :
        (request : SerializedCredentialRequest) (ke1_message : ke.Ke1Message)
        (response : SerializedCredentialResponse) (ke1_state : ke.Ke1State)
        (ke2_message : ke.Ke2Message) (server_s_pk : PublicKey ke.group)
        (client_s_sk : PrivateKey ke.group) (identifiers : SerializedIdentifiers)
        (context : SerializedContext) (r r' : o.Rng) (ke3 : GenerateKe3Result ke.Ke3Message)
        → ke.generate_ke3 request ke1_message response ke1_state ke2_message server_s_pk client_s_sk
            identifiers context r
          ≡ ok (ke3, r')
        → laws.Ke3MessageIsValid ke3.message
    pub length-session_key :
        (builder : ke.Ke2Builder) (input : ke.Ke2BuilderInput)
        (ke2 : GenerateKe2Result ke.Ke2State ke.Ke2Message) (message : ke.Ke3Message)
        (ids : Identifiers) (context : SerializedContext) (session : Bytes)
        → ke.build_ke2 builder input ≡ ok ke2
        → ke.finish_ke ke2.state message ids context ≡ ok session
        → length session ≡ ke.hash.output_size
