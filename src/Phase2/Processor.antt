-- ===== src/Phase2/Processor.antt =====
-- src/phase2/processor/protocolProcessor.mjs with the session manager of this repository. The key
-- resolver, the verifier and the decrypter are handed in, as in the code; `event_hash` is the hash
-- of an audit core, and the clock an argument. The calls that a run makes are kept in their order.
pub mod Order
pub mod Passed
use a2a_fun.Prelude.{
  String, Option, none, some, List, [], ◌∷◌, map, str_eq, if◌then◌else◌, Outcome, ok, throw,
  property, Value, str,
}
use a2a_fun.Phase2.Constants.{
  MessageType, probe_hello, probe_question, probe_answer, probe_summary, probe_done, human_entry,
  human_exit, friendship_establish, session_close, error, exchange_request, exchange_response,
  other_type, CloseReason, no_human_entry_timeout, probe_timeout, user_close, policy_reject,
  transport_fail, protocol_violation, not_a_reason,
}
use a2a_fun.Phase2.Body.{validate_decrypted_body_by_type}
use a2a_fun.Phase2.Checks.{BodyError}
use a2a_fun.Phase2.Envelope.{validate_envelope, EnvelopeError}
use a2a_fun.Phase2.Session.{Raw, Error, Message, LocalEvent, AuditCore, ApplyResult}
use a2a_fun.Phase2.Session.Inbound.{apply_session_message}
use a2a_fun.Phase2.Session.Local.{apply_local_event}

-- The string constants of the message types.
unfoldable pub message_type_of : String → MessageType
message_type_of s =
    if str_eq s "probe.hello"
    then probe_hello
    else if str_eq s "probe.question"
    then probe_question
    else if str_eq s "probe.answer"
    then probe_answer
    else if str_eq s "probe.summary"
    then probe_summary
    else if str_eq s "probe.done"
    then probe_done
    else if str_eq s "human.entry"
    then human_entry
    else if str_eq s "human.exit"
    then human_exit
    else if str_eq s "friendship.establish"
    then friendship_establish
    else if str_eq s "session.close"
    then session_close
    else if str_eq s "error"
    then error
    else if str_eq s "exchange.request"
    then exchange_request
    else if str_eq s "exchange.response"
    then exchange_response
    else other_type s

unfoldable pub close_reason_of : Value → CloseReason
close_reason_of (str s) =
    if str_eq s "NO_HUMAN_ENTRY_TIMEOUT"
    then no_human_entry_timeout
    else if str_eq s "PROBE_TIMEOUT"
    then probe_timeout
    else if str_eq s "USER_CLOSE"
    then user_close
    else if str_eq s "POLICY_REJECT"
    then policy_reject
    else if str_eq s "TRANSPORT_FAIL"
    then transport_fail
    else if str_eq s "PROTOCOL_VIOLATION"
    then protocol_violation
    else not_a_reason
close_reason_of _ = not_a_reason

abbrev pub text_of : Value → String
text_of (str s) = s
text_of _ = ""

-- What the session manager reads of a verified envelope.
abbrev pub message_of : Value → Message
message_of e = record {
  type = message_type_of (text_of (property "type" e));
  msg_id = text_of (property "msg_id" e);
}

-- What `bindAuditEventCore` makes of a core; the preview repeats the core's fields.
pub record AuditRecord : Type 0 where
  pub session_id : String
  pub ts : String
  pub event_hash : String
  pub preview_safe : AuditCore

unfoldable pub bind_audit_event_core : (AuditCore → String) → String → AuditCore → AuditRecord
bind_audit_event_core event_hash now core = record {
  session_id = core.session_id;
  ts = now;
  event_hash = event_hash core;
  preview_safe = core;
}

-- The errors of the parts that are handed in are theirs.
pub data ProcessError : Type 0 where
  bad_envelope : EnvelopeError → ProcessError
  resolver_failed missing_public_key : ProcessError
  bad_signature decrypt_failed : ProcessError
  bad_body : BodyError → ProcessError
  bad_session : Error → ProcessError

-- `none` stands for a call that throws.
pub record Deps : Type 0 where
  pub resolve_peer_public_key : (peer_actor_id key_fpr : Value) → Option (Option String)
  pub verify_envelope_signature : Value → String → Option (Unit {0})
  pub decrypt_ciphertext : Value → Option Value
  pub event_hash : AuditCore → String

pub data Call : Type 0 where
  resolving verifying decrypting applying : Call

pub record Processed : Type 0 where
  pub session_apply_result : ApplyResult
  pub audit_records : List AuditRecord

-- A run: the calls it has made, and how it ends.
pub record Run : Type 0 where
  pub calls : List Call
  pub outcome : Outcome ProcessError Processed

abbrev pub stop : ProcessError → Run
stop e = record { calls = []; outcome = throw e }

abbrev pub after : Call → Run → Run
after c r = record r { calls = c ∷ r.calls }

abbrev pub processed : Deps → String → ApplyResult → Processed
processed deps now r = record {
  session_apply_result = r;
  audit_records = map (bind_audit_event_core deps.event_hash now) r.audit_events;
}

-- Stages 5 and 6.
unfoldable pub apply_stage : Deps → String → Raw → Value → Value → Run
apply_stage deps now state envelope body =
    after applying
      (elim (apply_session_message (some state) (some (message_of envelope))
        (some (close_reason_of (property "reason" body)))) [
          | throw e ↦ stop (bad_session e)
          | ok r ↦ record { calls = []; outcome = ok (processed deps now r) }
        ])

-- Stages 3 and 4.
unfoldable pub decrypt_stage : Deps → String → Raw → Value → Run
decrypt_stage deps now state envelope = after decrypting (elim (deps.decrypt_ciphertext envelope) [
  | none ↦ stop decrypt_failed
  | some body ↦
      elim (validate_decrypted_body_by_type (property "v" envelope) (property "type" envelope)
        body) [
          | throw e ↦ stop (bad_body e)
          | ok checked ↦ apply_stage deps now state envelope checked
        ]
])

-- Stage 2.
unfoldable pub verify_stage : Deps → String → Raw → Value → Run
verify_stage deps now state envelope =
    let from = property "from" envelope in
    after resolving
      (elim (deps.resolve_peer_public_key (property "actor_id" from) (property "key_fpr" from)) [
        | none ↦ stop resolver_failed
        | some none ↦ stop missing_public_key
        | some (some pem) ↦
            if str_eq pem ""
            then stop missing_public_key
            else after verifying (elim (deps.verify_envelope_signature envelope pem) [
              | none ↦ stop bad_signature
              | some _ ↦ decrypt_stage deps now state envelope
            ])
      ])

-- `processInbound`
unfoldable pub process_inbound : Deps → String → Raw → Value → Run
process_inbound deps now state envelope = elim (validate_envelope envelope) [
  | throw e ↦ stop (bad_envelope e)
  | ok _ ↦ verify_stage deps now state envelope
]

-- `processLocalEvent`
unfoldable pub process_local_event :
    Deps → String → Raw → Option LocalEvent → Outcome ProcessError Processed
process_local_event deps now state event = elim (apply_local_event (some state) event) [
  | throw e ↦ throw (bad_session e)
  | ok r ↦ ok (processed deps now r)
]
