-- ===== src/Examples/Wire.antt =====
-- Registration and login as the programs of examples/ do them: each message is encoded where it is sent
-- and read where it arrives, and the parameters are the defaults.
use opaque_vx.Prelude.{Bytes, ◌≡◌, length, false, none, some, sym, ◌∙◌}
use opaque_vx.Prelude.Results.{ok, bind_ok, ok-injective}
use opaque_vx.KeyExchange.Serialized.{Identifiers, SerializedContext, from_context}
use opaque_vx.KeyExchange.Trait.{Encodings}
use opaque_vx.CipherSuite.{CipherSuite, Rng}
use opaque_vx.Messages.{RegistrationRequest, RegistrationResponse}
use opaque_vx.Messages.Registration.{
  serialize_registration_request, deserialize_registration_request, serialize_registration_response,
  deserialize_registration_response, serialize_registration_upload, deserialize_registration_upload,
}
use opaque_vx.Messages.Login.{
  serialize_credential_request, deserialize_credential_request, serialize_credential_response,
  deserialize_credential_response, serialize_credential_finalization,
  deserialize_credential_finalization,
}
use opaque_vx.Opaque.{
  LocalSetup, ServerRegistration, ServerLoginParameters, ServerRegistrationStartResult,
  ClientRegistrationStartResult, ClientRegistrationFinishResult, ClientLoginStartResult,
  ServerLoginStartResult, ClientLoginFinishResult,
}
use opaque_vx.Opaque.Enrolled.{Enrolled, enrolled}
use opaque_vx.Opaque.Answered.{answered}
use opaque_vx.Opaque.Agreement.{finish-answered}
use opaque_vx.Opaque.Liveness.{
  client_login_start_total, server_login_start_total, answer-registration,
}
use opaque_vx.Opaque.Readable.{
  registration_request_reads, registration_response_reads, upload_reads, credential_request_reads,
  credential_response_reads, credential_finalization_reads, length-server_login_finish,
}
use opaque_vx.Opaque.SuiteLaws.{SuiteLaws}
use opaque_vx.Opaque.RegisterClient.{client_registration_start, client_registration_finish}
use opaque_vx.Opaque.RegisterServer.{
  server_registration_start, server_registration_start_with_key_material,
  server_registration_finish,
}
use opaque_vx.Opaque.LoginClient.{client_login_start, client_login_finish}
use opaque_vx.Opaque.LoginServer.{server_login_start}
use opaque_vx.Opaque.ServerFinish.{server_login_finish}

abbrev pub no_identifiers : Identifiers
no_identifiers = record { client = none; server = none }

-- `ServerLoginParameters::default()`
abbrev pub default_parameters : ServerLoginParameters
default_parameters = record { context = none; identifiers = no_identifiers }

-- The server's answer to a registration has its own key.
server_registration_start-key :
    (cs : CipherSuite) (setup : LocalSetup cs) (message : RegistrationRequest cs)
    (credential_identifier : Bytes) (replied : ServerRegistrationStartResult cs)
    → server_registration_start cs setup message credential_identifier ≡ ok replied
    → replied.message.server_s_pk ≡ setup.keypair.pk
unfolding server_registration_start server_registration_start_with_key_material
server_registration_start-key cs setup message credential_identifier replied h =
    bind_ok _ _ h λ key_material keyed h1. bind_ok _ _ h1 λ evaluation evaluated h2. cc

module _ (cs : CipherSuite) (setup : LocalSetup cs) where
  -- What a login asks of the parts of the suite: the OPRF blinds the password, and its key for the user
  -- takes no element to itself.
  pub record Blindable (password credential_identifier : Bytes) : Type 0 where
    pub blinds :
        (r : Rng cs)
        → (client : cs.oprf.OprfClient) × (message : cs.oprf.BlindedElement) × (r' : Rng cs)
          × (cs.oprf.blind password r ≡ ok ((client, message), r'))
    pub moves :
        (message : cs.oprf.BlindedElement) (answer : ServerRegistrationStartResult cs)
        → server_registration_start cs setup
            (record { blinded_element = message })
            credential_identifier
          ≡ ok answer
        → cs.oprf.elem_eq
            (cs.oprf.blinded_value message)
            (cs.oprf.evaluation_value answer.message.evaluation_element)
          ≡ false

module _ (cs : CipherSuite) (e : Encodings cs.key_exchange) (laws : SuiteLaws cs e)
    (setup : LocalSetup cs)
    (paired : setup.keypair.pk ≡ cs.key_exchange.group.public_key setup.keypair.sk)
    (valid : laws.group_laws.SkIsValid setup.keypair.sk) where
  server_valid : laws.group_laws.PkIsValid setup.keypair.pk
  server_valid = rw paired (laws.group_laws.public_key-PkIsValid setup.keypair.sk valid)

  module _ (password credential_identifier : Bytes) where
    -- A registration whose messages were read from the wire enrols the user.
    pub registered_over_wire :
        (r r1 r2 r3 : Rng cs) (begun : ClientRegistrationStartResult cs)
        (request : RegistrationRequest cs) (replied : ServerRegistrationStartResult cs)
        (response : RegistrationResponse cs) (registered : ClientRegistrationFinishResult cs)
        → client_registration_start cs password r ≡ ok (begun, r1)
        → deserialize_registration_request cs (serialize_registration_request cs begun.message)
          ≡ ok request
        → server_registration_start cs setup request credential_identifier ≡ ok replied
        → deserialize_registration_response cs (serialize_registration_response cs replied.message)
          ≡ ok response
        → client_registration_finish cs begun.state password response
            (record { identifiers = no_identifiers; ksf = none })
            r2
          ≡ ok (registered, r3)
        → Enrolled cs setup password credential_identifier no_identifiers none registered.message
            registered.export_key
    unfolding server_registration_finish
    registered_over_wire r r1 r2 r3 begun request replied response registered begins read replies
          read' registers =
        let request_eq : begun.message ≡ request =
          ok-injective
            (sym (registration_request_reads cs laws.oprf_encodings begun.message) ∙ read) in
        let replies' : server_registration_start cs setup begun.message credential_identifier
            ≡ ok replied =
          rw request_eq replies in
        let key = server_registration_start-key cs setup _ _ replied replies' in
        let response_eq : replied.message ≡ response = ok-injective (
          sym (
            registration_response_reads cs laws.oprf_encodings laws.group_laws replied.message
              (rw key server_valid))
          ∙ read') in
        enrolled cs laws.oprf_laws setup password credential_identifier no_identifiers none r r1 r2
          r3 begun replied registered begins replies' (rw response_eq registers)

    -- A record that was read from the wire is the one that was sent.
    pub read_over_wire :
        (file upload : ServerRegistration cs) (export_key : Bytes)
        → Enrolled cs setup password credential_identifier no_identifiers none file export_key
        → deserialize_registration_upload cs (serialize_registration_upload cs file) ≡ ok upload
        → file ≡ upload
    read_over_wire file upload export_key user read = ok-injective (
        sym (
          upload_reads cs laws.hash_laws laws.oprf_laws laws.group_laws setup password _ _ _ _ _
            user)
        ∙ read)

    -- A login that goes through: what each step gives, and that what it sends is read.
    pub record LoggedIn (file : ServerRegistration cs) (export_key : Bytes) (r : Rng cs)
        : Type 0 where
      pub requested : ClientLoginStartResult cs
      pub r1 : Rng cs
      pub responded : ServerLoginStartResult cs
      pub r2 : Rng cs
      pub finished : ClientLoginFinishResult cs
      pub r3 : Rng cs
      pub requests : client_login_start cs password r ≡ ok (requested, r1)
      pub file_reads :
          deserialize_registration_upload cs (serialize_registration_upload cs file) ≡ ok file
      pub request_reads :
          deserialize_credential_request cs e (serialize_credential_request cs e requested.message)
          ≡ ok requested.message
      pub responds :
          server_login_start cs setup
            (some file)
            requested.message
            credential_identifier
            default_parameters
            r1
          ≡ ok (responded, r2)
      pub response_reads :
          deserialize_credential_response cs e
            (serialize_credential_response cs e responded.message)
          ≡ ok responded.message
      pub finishes :
          client_login_finish cs requested.state password responded.message
            (record { context = none; identifiers = no_identifiers; ksf = none })
            r2
          ≡ ok (finished, r3)
      pub finalization_reads :
          deserialize_credential_finalization cs e
            (serialize_credential_finalization cs e finished.message)
          ≡ ok finished.message
      pub accepts :
          server_login_finish cs responded.state finished.message default_parameters
          ≡ ok (record { session_key = finished.session_key })
      pub same_export_key : finished.export_key ≡ export_key
      pub length-session_key : length finished.session_key ≡ cs.key_exchange.hash.output_size

    pub logged_in :
        (context : SerializedContext) (file : ServerRegistration cs) (export_key : Bytes)
        → Enrolled cs setup password credential_identifier no_identifiers none file export_key
        → Blindable cs setup password credential_identifier
        → from_context cs.oprf none ≡ ok context
        → (r : Rng cs) → LoggedIn file export_key r
    logged_in context file export_key user blindable in_context r =
        let (requested, r1, requests) =
          client_login_start_total cs laws.exchange_total password blindable.blinds r in
        let (responded, r2, responds) =
          server_login_start_total cs laws.exchange_total laws.hash_laws laws.masked_fits setup
            password _ no_identifiers none context none file export_key requested.message user
            in_context r1 in
        let answer = answered cs setup file requested.message _ _ r1 r2 responded responds in
        let differs = blindable.moves _ _ (answer-registration cs setup _ _ _ _ _ answer) in
        let (finished, r3, finishes, export_eq, _, accepts) =
          finish-answered cs laws.hash_laws laws.oprf_laws laws.group_laws laws.exchange_laws setup
            password _ no_identifiers none none file export_key requested responded r r1 r2 paired
            valid user requests answer differs in
        record {
          requested = requested;
          r1 = r1;
          responded = responded;
          r2 = r2;
          finished = finished;
          r3 = r3;
          requests = requests;
          file_reads =
              upload_reads cs laws.hash_laws laws.oprf_laws laws.group_laws setup password _ _ _ _ _
                user;
          request_reads =
              credential_request_reads cs laws.oprf_laws laws.oprf_encodings e laws.encodings_laws
                laws.produces password r r1 requested requests;
          responds = responds;
          response_reads =
              credential_response_reads cs laws.oprf_laws laws.oprf_encodings e laws.encodings_laws
                laws.produces setup _ _ _ _ responded answer;
          finishes = finishes;
          finalization_reads =
              credential_finalization_reads cs laws.oprf_laws laws.oprf_encodings e
                laws.encodings_laws laws.produces _ password _ _ r2 r3 finished finishes;
          accepts = accepts;
          same_export_key = export_eq;
          length-session_key =
              length-server_login_finish cs laws.oprf_laws laws.oprf_encodings e laws.encodings_laws
                laws.produces setup _ _ _ _ responded _ finished.session_key answer accepts;
        }
