-- ===== src/Inbound.antt =====
-- src/runtime/inbound/formalInboundEntry.mjs: what comes in for the protocol. The processor and the
-- storage are given by the caller: `read_session` is `none` where there is no storage, and `process`
-- gives what the processor returns, `none` where it throws.
pub mod Friend
pub mod Consent
use a2a_fun.Prelude.{
  ℕ, String, Bool, true, false, not, Option, none, some, [], ◌∷◌, if◌then◌else◌, ◌>>=◌, Outcome, ok,
  throw, field_of, is_nullish, property, is_named, Value, null, bool, str, obj, Fields, or_null,
  is_plain, is_true, object, has_key, own_fields, ◌>>◌,
}
use a2a_fun.Capability.{text_of}
use a2a_fun.Candidate.{
  create_friendship_candidate, confirm_locally, confirm_remotely, trigger_friendship_persistence,
}
use a2a_fun.Phase2.Envelope.{validate_envelope}
use a2a_fun.Phase3.Probe.{
  apply_session_probe_message, ProbeState, local_entered, remote_entered, probing, ProbeError,
  invalid_state, invalid_message, unknown_kind, invalid_input, id_mismatch, illegal, Input, Session,
  Message,
}

-- What is read of the processor's result. The message and the state of the probe have their
-- documented types.
pub record Returned : Type 0 where
  pub next_state : Value
  pub audit_count : Option ℕ
  pub phase3_state : Option Input
  pub phase3_message : Option Message

pub record Caller : Type 0 where
  pub read_session : Option (String → Option Fields)
  pub process : Option (Value → Fields → Option Returned)
  pub digest : String → String

-- The response; of the session of the probe it gives out everything but the peer.
pub record Response : Type 0 where
  pub session_state : Value
  pub audit_records_count : Option ℕ
  pub phase3 : Option Session
  pub friendship_candidate : Option Fields
  pub friendship_confirmation_local : Option Fields
  pub friendship_confirmation_remote : Option Fields
  pub friendship_record : Option Fields

-- The answer: the error with what was found out before it, or the response.
pub data InboundAnswer : Type 0 where
  failed_with :
      (code : String) (is_valid : Bool) (session_id : Option String) (found processed : Option Bool)
      → InboundAnswer
  answered : (session_id : String) (found : Option Bool) → Response → InboundAnswer

abbrev pub refuse : String → InboundAnswer
refuse code = failed_with code false none none none

-- `snap.x ?? …` where there is no stored session: the default state.
abbrev pub default_state : String → Value → Fields
default_state session_id envelope =
    let actor_id = property "actor_id" (property "from" envelope) in
    object (
      ("session_id", str session_id)
      ∷ ("peer_actor_id", if is_nullish actor_id then str "h:sha256:unknown" else actor_id)
      ∷ ("state", str "DISCONNECTED")
      ∷ ("local_entered", bool false)
      ∷ ("remote_entered", bool false)
      ∷ [])

abbrev pub code_of : ProbeError → String
code_of invalid_state = "INVALID_STATE"
code_of invalid_message = "INVALID_MESSAGE"
code_of unknown_kind = "UNKNOWN_KIND"
code_of invalid_input = "INVALID_INPUT"
code_of id_mismatch = "MISMATCH"
code_of illegal = "ILLEGAL_TRANSITION"

abbrev pub new_input : String → Input
new_input session_id = record {
  session_id = some session_id;
  peer_actor_id = none;
  state = some ProbeState.new;
  local_entered = false;
  remote_entered = false;
}

abbrev pub input_or_new : String → Option Input → Input
input_or_new session_id none = new_input session_id
input_or_new session_id (some i) = i

abbrev pub id_value : Option String → Value
id_value none = null
id_value (some s) = str s

abbrev pub is_probing : ProbeState → Bool
is_probing probing = true
is_probing _ = false

-- The two confirmations that the payload asks for.
pub record Wanted : Type 0 where
  pub local : Bool
  pub remote : Bool

-- The local confirmation, where it is wanted.
unfoldable pub confirm_local_step : Bool → Fields → Response → Outcome String (Fields × Response)
confirm_local_step false c r = ok (c, r)
confirm_local_step true c r =
    confirm_locally (obj c) >>= λ d. ok (d, record r { friendship_confirmation_local = some d })

unfoldable pub record_step :
    (String → String) → Fields → Response → Outcome String (Fields × Response)
record_step digest c r =
    if is_true (field_of "mutually_confirmed" c)
    then trigger_friendship_persistence digest (obj c)
      >>= (λ f. ok (c, record r { friendship_record = some f }))
    else ok (c, r)

-- The remote confirmation, and the record of a friendship that both have confirmed.
unfoldable pub confirm_remote_step :
    (String → String) → Bool → Fields → Response → Outcome String (Fields × Response)
confirm_remote_step digest false c r = ok (c, r)
confirm_remote_step digest true c r = confirm_remotely (obj c) >>= λ d.
    record_step digest d (record r { friendship_confirmation_remote = some d })

unfoldable pub befriend : (String → String) → Wanted → Fields → Response → Outcome String Response
befriend digest wanted c r = do
  one_side ← confirm_local_step wanted.local c (record r { friendship_candidate = some c })
  both ← confirm_remote_step digest wanted.remote one_side.0 one_side.1
  ok both.1

module _ (caller : Caller) (wanted : Wanted) (session_id : String) (found : Option Bool) where
  abbrev pub fail_processed : String → InboundAnswer
  fail_processed code = failed_with code true (some session_id) found (some true)

  abbrev pub processor_fail : InboundAnswer
  processor_fail = failed_with "PROCESSOR_FAIL" true (some session_id) found (some false)

  -- What follows a probe message that was accepted.
  unfoldable pub after_probe : Session → Response → InboundAnswer
  after_probe next r =
      if is_probing next.state
      then elim (create_friendship_candidate caller.digest (id_value next.session_id)
          (id_value next.peer_actor_id) (str "PROBING")) [
            | throw code ↦ processor_fail
            | ok c ↦ elim (befriend caller.digest wanted c r) [
              | throw code ↦ fail_processed code
              | ok response ↦ answered session_id found response
            ]
          ]
      else answered session_id found r

  unfoldable pub after_processor : Returned → InboundAnswer
  after_processor r =
      let response : Response = record {
        session_state = or_null r.next_state;
        audit_records_count = r.audit_count;
        phase3 = none;
        friendship_candidate = none;
        friendship_confirmation_local = none;
        friendship_confirmation_remote = none;
        friendship_record = none;
      } in
      elim r.phase3_message [
        | none ↦ answered session_id found response
        | some m ↦
            let state = input_or_new session_id r.phase3_state in
            elim (apply_session_probe_message (some state) (some m)) [
              | throw e ↦ fail_processed (code_of e)
              | ok next ↦ after_probe next (record response { phase3 = some next })
            ]
      ]

  unfoldable pub run_processor : Value → Fields → InboundAnswer
  run_processor envelope state = elim caller.process [
    | none ↦ failed_with "MISSING_PROCESSOR" true (some session_id) found none
    | some process ↦ elim (process envelope state) [
      | none ↦ processor_fail
      | some r ↦ after_processor r
    ]
  ]

-- The session that is handed to the processor: the stored one, or the default.
unfoldable pub enter_session : Caller → Wanted → String → Value → InboundAnswer
enter_session caller wanted session_id envelope = elim caller.read_session [
  | none ↦ run_processor caller wanted session_id none envelope (default_state session_id envelope)
  | some read ↦ elim (read session_id) [
    | none ↦
        run_processor caller wanted session_id (some false) envelope
          (default_state session_id envelope)
    | some snap ↦ run_processor caller wanted session_id (some true) envelope snap
  ]
]

unfoldable pub enter_envelope : Caller → Wanted → Value → InboundAnswer
enter_envelope caller wanted envelope = elim (validate_envelope envelope) [
  | throw e ↦ refuse "INVALID_ENVELOPE"
  | ok _ ↦
      if is_named (property "session_id" envelope)
      then enter_session caller wanted (text_of (property "session_id" envelope)) envelope
      else refuse "INVALID_ENVELOPE"
]

abbrev pub wanted_of : Value → Wanted
wanted_of payload = record {
  local = is_true (property "friendship_confirm_local" payload);
  remote = is_true (property "friendship_confirm_remote" payload);
}

unfoldable pub formal_inbound_entry : Caller → Value → InboundAnswer
formal_inbound_entry caller payload =
    if not (is_plain payload)
    then refuse "INVALID_PAYLOAD"
    else if not (has_key "envelope" (own_fields payload))
    then refuse "MISSING_ENVELOPE"
    else if not (is_plain (property "envelope" payload))
    then refuse "INVALID_ENVELOPE"
    else enter_envelope caller (wanted_of payload) (property "envelope" payload)
