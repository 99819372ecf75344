-- ===== src/Phase2/Session/Local.antt =====
-- `applyLocalEvent` of src/phase2/session/session.manager.mjs.
use a2a_fun.Prelude.{
  String, not, Option, none, some, [], ◌∷◌, require, Outcome, ok, throw, ◌>>=◌, ◌>>◌,
}
use a2a_fun.Phase2.Constants.{
  is_close_reason, same_local, includes_local, local_event_types, allowed_local_events, CloseReason,
  not_a_reason, LocalType, local_human_entry, local_session_close, other_local,
}
use a2a_fun.Phase2.Session.{
  is_terminal, non_empty, assert_state, make_empty_session_apply_result, flags_delta_of, entered,
  close, enter_local, Raw, SessionState, Error, terminal_state, missing_local_event,
  local_type_required, unsupported_local_type, event_id_required, illegal_local_event,
  close_reason_invalid, not_implemented, LocalEvent, Patch, local_event, local, of_local,
  ApplyResult,
}

-- The empty string is no type; `none` stands for it and for a value that is no string.
unfoldable pub local_type : Option LocalType → Outcome Error LocalType
local_type none = throw local_type_required
local_type (some t) = ok t

-- `assertLocalEvent`, which gives the fields that it has checked.
unfoldable pub assert_local_event :
    Option LocalEvent → Outcome Error (record { type : LocalType; event_id : String })
unfolding same_local non_empty local_type
assert_local_event none = throw missing_local_event
assert_local_event (some e) = do
  type ← local_type e.type
  require (includes_local local_event_types type) unsupported_local_type
  event_id ← non_empty e.event_id event_id_required
  ok (record { type = type; event_id = event_id })

unfoldable pub local_transition :
    SessionState → LocalType → CloseReason → Outcome Error (SessionState × Patch)
unfolding entered is_close_reason
local_transition s local_human_entry reason = ok (enter_local s)
local_transition s local_session_close reason = do
  require (is_close_reason reason) close_reason_invalid
  ok (close s reason)
local_transition s (other_local t) reason = throw not_implemented

-- The guards before the transition rules.
unfoldable pub local_admitted : SessionState → LocalType → Outcome Error (Unit {0})
unfolding same_local is_terminal allowed_local_events
local_admitted s type = do
  require (not (is_terminal s.state)) terminal_state
  require (includes_local (allowed_local_events s.state) type) illegal_local_event

-- The result with its one audit core.
unfoldable pub local_answer : SessionState → LocalType → String → SessionState → Patch → ApplyResult
unfolding make_empty_session_apply_result flags_delta_of
local_answer s type event_id next patch = record (make_empty_session_apply_result next patch) {
  audit_events =
      record {
        kind = local_event;
        session_id = s.session_id;
        msg_id = of_local event_id;
        type = local type;
        prev_state = s.state;
        next_state = next.state;
        flags_delta = flags_delta_of s next;
      }
      ∷ [];
}

-- What follows the two assertions.
unfoldable pub apply_local_to :
    SessionState → LocalType → String → CloseReason → Outcome Error ApplyResult
unfolding local_admitted local_transition local_answer
apply_local_to s type event_id reason = do
  local_admitted s type
  (next, patch) ← local_transition s type reason
  ok (local_answer s type event_id next patch)

pub reason_of : Option LocalEvent → CloseReason
reason_of none = not_a_reason
reason_of (some e) = e.reason

unfoldable pub apply_local_event : Option Raw → Option LocalEvent → Outcome Error ApplyResult
unfolding assert_state assert_local_event apply_local_to reason_of
apply_local_event input event = do
  s ← assert_state input
  e ← assert_local_event event
  apply_local_to s e.type e.event_id (reason_of event)
