-- ===== src/Phase2/Session.antt =====
-- The session manager, src/phase2/session/session.manager.mjs: its data and what both handlers
-- share. `Raw` is the state object as it comes in, with `none` for a field of the wrong JavaScript
-- type; `assert_state` turns it into a `SessionState`.
pub mod Inbound
pub mod Local
pub mod Rules
pub mod Exact
pub mod Patches
pub mod Runs
use a2a_fun.Prelude.{
  String, Bool, true, false, ◌&&◌, Option, none, some, List, [], str_eq, if◌then◌else◌, Outcome, ok,
  throw, ◌>>=◌, ◌>>◌, require,
}
use a2a_fun.Phase2.Constants.{
  MessageType, State, await_entry, mutual_entry_confirmed, closed, failed, unknown_state,
  CloseReason, LocalType,
}

pub record Raw : Type 0 where
  pub state : State
  pub session_id : Option String
  pub peer_actor_id : Option String
  pub local_entered : Option Bool
  pub remote_entered : Option Bool
  pub closed_reason : Option CloseReason

pub record SessionState : Type 0 where
  pub state : State
  pub session_id : String
  pub peer_actor_id : String
  pub local_entered : Bool
  pub remote_entered : Bool
  pub closed_reason : Option CloseReason

-- A valid state passed in again.
abbrev pub raw : SessionState → Raw
raw s = record {
  state = s.state;
  session_id = some s.session_id;
  peer_actor_id = some s.peer_actor_id;
  local_entered = some s.local_entered;
  remote_entered = some s.remote_entered;
  closed_reason = s.closed_reason;
}

pub data Error : Type 0 where
  missing_state unknown_state_name missing_session_id missing_peer_actor_id : Error
  missing_local_entered missing_remote_entered missing_envelope missing_body : Error
  unsupported_type terminal_state illegal_transition closed_reason_invalid : Error
  missing_local_event local_type_required unsupported_local_type event_id_required : Error
  illegal_local_event close_reason_invalid not_implemented : Error

-- `STATES.includes(s.state)`
unfoldable pub is_known_state : State → Bool
is_known_state (unknown_state _) = false
is_known_state _ = true

unfoldable pub is_terminal : State → Bool
is_terminal closed = true
is_terminal failed = true
is_terminal _ = false

unfoldable pub non_empty : Option String → Error → Outcome Error String
non_empty none e = throw e
non_empty (some s) e = if str_eq s "" then throw e else ok s

unfoldable pub boolean : Option Bool → Error → Outcome Error Bool
boolean none e = throw e
boolean (some b) e = ok b

unfoldable pub assert_state : Option Raw → Outcome Error SessionState
unfolding is_known_state non_empty boolean
assert_state none = throw missing_state
assert_state (some s) = do
  require (is_known_state s.state) unknown_state_name
  session_id ← non_empty s.session_id missing_session_id
  peer_actor_id ← non_empty s.peer_actor_id missing_peer_actor_id
  local_entered ← boolean s.local_entered missing_local_entered
  remote_entered ← boolean s.remote_entered missing_remote_entered
  ok (record {
    state = s.state;
    session_id = session_id;
    peer_actor_id = peer_actor_id;
    local_entered = local_entered;
    remote_entered = remote_entered;
    closed_reason = s.closed_reason;
  })

-- The part of a verified envelope and of a decrypted body that the manager reads.
pub record Message : Type 0 where
  pub type : MessageType
  pub msg_id : String

pub record LocalEvent : Type 0 where
  pub type : Option LocalType
  pub event_id : Option String
  pub reason : CloseReason

-- `none` is a field that the object does not have.
pub record FlagsDelta : Type 0 where
  pub local_entered : Option Bool
  pub remote_entered : Option Bool

pub record Patch : Type 0 where
  pub state : Option State
  pub local_entered : Option Bool
  pub remote_entered : Option Bool
  pub closed_reason : Option CloseReason

abbrev pub empty_patch : Patch
empty_patch = record {
  state = none;
  local_entered = none;
  remote_entered = none;
  closed_reason = none;
}

pub data Kind : Type 0 where
  session_error session_transition local_event : Kind

pub data AuditType : Type 0 where
  message : MessageType → AuditType
  local : LocalType → AuditType

pub data AuditId : Type 0 where
  of_message : String → AuditId
  -- `local:${event_id}`
  of_local : String → AuditId

pub record AuditCore : Type 0 where
  pub kind : Kind
  pub session_id : String
  pub msg_id : AuditId
  pub type : AuditType
  pub prev_state : State
  pub next_state : State
  pub flags_delta : FlagsDelta

pub record ApplyResult : Type 0 where
  pub next_state : SessionState
  pub session_patch : Patch
  pub audit_events : List AuditCore

unfoldable pub make_empty_session_apply_result : SessionState → Patch → ApplyResult
make_empty_session_apply_result next patch = record {
  next_state = next;
  session_patch = patch;
  audit_events = [];
}

unfoldable pub changed : Bool → Bool → Option Bool
changed true true = none
changed false false = none
changed _ b = some b

unfoldable pub flags_delta_of : SessionState → SessionState → FlagsDelta
unfolding changed
flags_delta_of prev next = record {
  local_entered = changed prev.local_entered next.local_entered;
  remote_entered = changed prev.remote_entered next.remote_entered;
}

-- The state after an entry, by the flags that are set then.
unfoldable pub entered : SessionState → State
entered s = if s.local_entered && s.remote_entered then mutual_entry_confirmed else await_entry

-- `next` and `patch` of a move that sets the state alone.
abbrev pub move : SessionState → State → SessionState × Patch
move s st = (record s { state = st }, record empty_patch { state = some st })

abbrev pub close : SessionState → CloseReason → SessionState × Patch
close s reason = (
  record s { state = closed; closed_reason = some reason },
  record empty_patch { state = some closed; closed_reason = some reason },
)

abbrev pub enter_remote : SessionState → SessionState × Patch
enter_remote s =
    let flagged = record s { remote_entered = true } in
    let st = entered flagged in
    (
      record flagged { state = st },
      record empty_patch {
        state = some st;
        remote_entered = if s.remote_entered then none else some true;
      },
    )

abbrev pub enter_local : SessionState → SessionState × Patch
enter_local s =
    let flagged = record s { local_entered = true } in
    let st = entered flagged in
    (
      record flagged { state = st },
      record empty_patch {
        state = some st;
        local_entered = if s.local_entered then none else some true;
      },
    )
