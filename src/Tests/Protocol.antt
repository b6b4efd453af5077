-- ===== src/Tests/Protocol.antt =====
-- Examples of the theorems on registration and login, at the small suite.
use opaque_vx.Hash.{mac_update_iter}
use opaque_vx.Serialization.Integers.{be_bytes, i2osp, leading_zeros}
use opaque_vx.KeyExchange.Serialized.{from_identifiers, identifier_slices}
use opaque_vx.Serialization.Arrays.{take_array}
use opaque_vx.Envelope.Codec.{deserialize_take_envelope}
use opaque_vx.Masked.{masked_slices}
use opaque_vx.Oprf.{from_voprf}
use opaque_vx.Prelude.{
  ◌≡◌, refl, none, some, [], ◌∷◌, replicate, inl, inr, arith, length, bytes_eq, xor_into,
}
use opaque_vx.Prelude.Results.{ok, err, bind, guard, map_err, ok_or}
use opaque_vx.Errors.{library_error, seal_open_hmac_error, size_error, reflected_value_error}
use opaque_vx.Opaque.{get_password_derived_key, ClientLoginFinishResult, ClientLogin}
use opaque_vx.Opaque.RegisterClient.{client_registration_finish}
use opaque_vx.Opaque.Setup.{
  local_key, local_seed, new_setup, dummy, serialize_setup, deserialize_setup,
}
use opaque_vx.Opaque.Setup.Fresh.{new_setup_reads_back}
use opaque_vx.Opaque.LoginClient.{client_login_finish}
use opaque_vx.Opaque.LoginServer.{server_login_start}
use opaque_vx.Opaque.ServerFinish.{server_login_finish}
use opaque_vx.Opaque.Agreement.{login_agreement}
use opaque_vx.Opaque.Refusals.{server_login_start-unknown}
use opaque_vx.Opaque.Outcomes.{
  RegistrationOutcome, LoginOutcome, client_registration_finish_outcome,
  client_login_finish_outcome,
}
use opaque_vx.Envelope.Totality.{EnvelopeFits}
use opaque_vx.Group.{TakesKeys}
use opaque_vx.KeyExchange.Trait.{Refuses}
use opaque_vx.KeyExchange.TripleDh.Totality.{triple_dh-Refuses}
use opaque_vx.Messages.{RegistrationResponse}
use opaque_vx.Masking.{unmask_response, xor_pad}
use opaque_vx.Envelope.{
  Envelope, internal, open_envelope, construct_aad, open_raw, recover_by_mode,
  recover_keys_internal,
}
use opaque_vx.Tests.{
  suite, sum, sum_oprf, sum_group, sum_diffie_hellman, sum_hash, sum_hash-HashLaws,
  sum_oprf-OprfLaws, sum_group-GroupLaws, suite-KeyExchangeLaws,
}
use opaque_vx.Tests.Registered.{
  ids, context, password, credential_identifier, setup, begun, replied, registered, requested,
  responded, begins, replies, registers, requests, responds,
}

login_agreement_example :
    (finished : ClientLoginFinishResult suite) × (r5' : sum_oprf.Rng) × (client_login_finish suite
        requested.state password responded.message
        (record { context = context; identifiers = ids; ksf = none })
        50
      ≡ ok (finished, r5'))
    × (finished.export_key ≡ registered.export_key)
    × (finished.server_s_pk ≡ setup.keypair.pk)
    × (server_login_finish suite responded.state finished.message
          (record { context = context; identifiers = ids })
        ≡ ok (record { session_key = finished.session_key }))
login_agreement_example =
    login_agreement suite sum_hash-HashLaws sum_oprf-OprfLaws sum_group-GroupLaws
      suite-KeyExchangeLaws setup password credential_identifier ids context none 10 11 20 21 30 33
      40 44 50 begun replied registered requested responded refl tt begins replies registers
      requests responds refl

suite-EnvelopeFits : EnvelopeFits sum_group
suite-EnvelopeFits = record {
  seed_fits = omega arith;
  derives = λ seed measured. (sum seed, refl, refl);
  pk_fits = omega arith;
}

takes_one : TakesKeys sum_group
takes_one [] = inr (size_error "key" 1 0, refl)
takes_one (x ∷ rest) = inl (x, rest, refl, omega arith, refl)

suite-Refuses : Refuses suite.key_exchange
suite-Refuses =
    triple_dh-Refuses sum_oprf sum_group sum_diffie_hellman sum_hash sum_hash-HashLaws (omega arith)

-- A server that sends the client's own element back.
abbrev reflected_response : RegistrationResponse suite
reflected_response = record { evaluation_element = 13; server_s_pk = 4 }

client_registration_finish_outcome_example :
    RegistrationOutcome suite begun.state password replied.message
      (record { identifiers = ids; ksf = none })
      20
client_registration_finish_outcome_example =
    client_registration_finish_outcome suite sum_hash-HashLaws suite-EnvelopeFits begun.state
      password replied.message (record { identifiers = ids; ksf = none }) 20 (omega arith)
      (omega arith) refl

reflected_registration :
    client_registration_finish suite begun.state password reflected_response
      (record { identifiers = ids; ksf = none })
      20
    ≡ err reflected_value_error
unfolding client_registration_finish bind guard
reflected_registration = refl

-- A client that unblinds with another factor: the masked response reads as another key and envelope.
abbrev mistaken : ClientLogin suite
mistaken = record {
  oprf_client = 29;
  ke1_state = requested.state.ke1_state;
  credential_request = requested.message;
}

abbrev mistaken_envelope : Envelope
mistaken_envelope = record { mode = internal; nonce = replicate 32 18; hmac = 3443 ∷ [] }

mistaken_key :
    get_password_derived_key suite password mistaken.oprf_client
      responded.message.evaluation_element none
    ≡ ok (1442 ∷ [], 1442)
unfolding get_password_derived_key bind from_voprf map_err
mistaken_key = refl

mistaken_read :
    unmask_response sum_oprf sum_group
      (2453 ∷ [])
      responded.message.masking_nonce
      responded.message.masked_response
    ≡ ok (2, mistaken_envelope)
unfolding unmask_response bind xor_pad ok_or map_err xor_into masked_slices
    deserialize_take_envelope take_array
mistaken_read = refl

mistaken_tag :
    open_envelope sum_oprf sum_group mistaken_envelope 1442 2 ids
    ≡ err (library_error seal_open_hmac_error)
unfolding open_envelope bind recover_by_mode recover_keys_internal ok_or map_err from_identifiers
    i2osp leading_zeros open_raw guard bytes_eq mac_update_iter construct_aad identifier_slices
    be_bytes
mistaken_tag = refl

client_login_finish_outcome_example :
    LoginOutcome suite mistaken password responded.message
      (record { context = context; identifiers = ids; ksf = none })
      50
client_login_finish_outcome_example =
    client_login_finish_outcome suite sum_hash-HashLaws suite-EnvelopeFits (omega arith) takes_one
      suite-Refuses mistaken password responded.message
      (record { context = context; identifiers = ids; ksf = none }) 50 (omega arith) (omega arith)
      (omega arith)

server_login_start-unknown_example :
    server_login_start suite setup none requested.message credential_identifier
      (record { context = context; identifiers = ids })
      40
    ≡ server_login_start suite setup
        (some (dummy suite setup 40).0)
        requested.message
        credential_identifier
        (record { context = context; identifiers = ids })
        40
server_login_start-unknown_example =
    server_login_start-unknown suite setup requested.message credential_identifier
      (record { context = context; identifiers = ids }) 40

new_setup_reads_back_example :
    ((new_setup suite 3).0.keypair.pk ≡ sum_group.public_key (new_setup suite 3).0.keypair.sk)
    × (length (new_setup suite 3).0.oprf_seed ≡ 1)
    × (deserialize_setup suite (local_key sum_oprf sum_group) (local_seed sum_oprf ⊥) (
          serialize_setup suite
            (local_key sum_oprf sum_group)
            (local_seed sum_oprf ⊥)
            (new_setup suite 3).0)
        ≡ ok (new_setup suite 3).0)
new_setup_reads_back_example = new_setup_reads_back suite sum_oprf-OprfLaws sum_group-GroupLaws 3
