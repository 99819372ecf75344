-- ===== src/Phase2/Session/Inbound.antt =====
-- `applySessionMessage` of src/phase2/session/session.manager.mjs.
use a2a_fun.Prelude.{
  Bool, true, false, not, ◌||◌, Option, none, some, [], ◌∷◌, if◌then◌else◌, require, Outcome, ok,
  throw, ◌>>=◌, ◌>>◌,
}
use a2a_fun.Phase2.Constants.{
  same_type, includes_type, supported_message_types, is_close_reason, allowed_transitions,
  MessageType, probe_hello, probe_question, probe_answer, probe_summary, probe_done, human_entry,
  session_close, error, State, disconnected, probing, probe_complete, await_entry, CloseReason,
}
use a2a_fun.Phase2.Session.{
  is_terminal, assert_state, empty_patch, make_empty_session_apply_result, flags_delta_of, entered,
  move, close, enter_remote, Raw, SessionState, Error, missing_envelope, missing_body,
  unsupported_type, terminal_state, illegal_transition, closed_reason_invalid, Message, Patch,
  session_error, session_transition, message, of_message, ApplyResult,
}

abbrev is_state : State → State → Bool
is_state disconnected disconnected = true
is_state probing probing = true
is_state probe_complete probe_complete = true
is_state await_entry await_entry = true
is_state _ _ = false

-- The transition rules of `applySessionMessage`, each with its own guard on the state.
unfoldable pub transition :
    SessionState → MessageType → CloseReason → Outcome Error (SessionState × Patch)
unfolding entered is_close_reason
transition s probe_hello reason = do
  require (is_state s.state disconnected) illegal_transition
  ok (move s probing)
transition s probe_question reason = do
  require (is_state s.state probing) illegal_transition
  ok (move s probing)
transition s probe_answer reason = do
  require (is_state s.state probing) illegal_transition
  ok (move s probing)
transition s probe_summary reason = do
  require (is_state s.state probing) illegal_transition
  ok (move s probe_complete)
transition s probe_done reason = do
  require (is_state s.state probing) illegal_transition
  ok (move s probe_complete)
transition s human_entry reason = do
  require (is_state s.state probe_complete || is_state s.state await_entry) illegal_transition
  ok (enter_remote s)
transition s session_close reason = do
  require (is_close_reason reason) closed_reason_invalid
  ok (close s reason)
transition s error reason = ok (s, empty_patch)
transition s _ reason = throw unsupported_type

unfoldable pub is_error : MessageType → Bool
is_error error = true
is_error _ = false

-- The guards before the transition rules.
unfoldable pub admitted : SessionState → MessageType → Outcome Error (Unit {0})
unfolding same_type is_terminal allowed_transitions
admitted s type = do
  require (includes_type supported_message_types type) unsupported_type
  require (not (is_terminal s.state)) terminal_state
  require (includes_type (allowed_transitions s.state) type) illegal_transition

-- The result with its one audit core.
unfoldable pub answer : SessionState → Message → SessionState → Patch → ApplyResult
unfolding make_empty_session_apply_result flags_delta_of is_error
answer s m next patch = record (make_empty_session_apply_result next patch) {
  audit_events =
      record {
        kind = if is_error m.type then session_error else session_transition;
        session_id = s.session_id;
        msg_id = of_message m.msg_id;
        type = message m.type;
        prev_state = s.state;
        next_state = next.state;
        flags_delta = flags_delta_of s next;
      }
      ∷ [];
}

-- What follows `assertState`; the body is read for its `reason` only.
unfoldable pub apply_to :
    SessionState → Option Message → Option CloseReason → Outcome Error ApplyResult
unfolding admitted transition answer
apply_to s none body = throw missing_envelope
apply_to s (some m) none = throw missing_body
apply_to s (some m) (some reason) = do
  admitted s m.type
  (next, patch) ← transition s m.type reason
  ok (answer s m next patch)

unfoldable pub apply_session_message :
    Option Raw → Option Message → Option CloseReason → Outcome Error ApplyResult
unfolding assert_state apply_to
apply_session_message input envelope body = do s ← assert_state input; apply_to s envelope body
