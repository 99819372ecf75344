-- ===== src/Phase3/Probe.antt =====
-- src/phase3/session: the message kinds and `applySessionProbeMessage`. A string field that is null
-- or absent is `none`; every other value of the fields is taken to have its documented type.
pub mod Order
use a2a_fun.Prelude.{
  String, Bool, true, false, not, ◌&&◌, ◌||◌, Option, none, some, str_eq, if◌then◌else◌, require,
  Outcome, ok, throw, trim, ◌>>=◌, ◌>>◌,
}

pub data ProbeState : Type 0 where
  new local_entered remote_entered probing : ProbeState
  -- the empty string, which passes the test of `normalizeState`
  empty_name : ProbeState
  other_state : String → ProbeState

pub data ProbeKind : Type 0 where
  probe_init probe_ack : ProbeKind
  -- a string of white space only, or no string
  blank_kind : ProbeKind
  other_kind : String → ProbeKind

pub data ProbeError : Type 0 where
  invalid_state invalid_message unknown_kind invalid_input id_mismatch illegal : ProbeError

pub record Input : Type 0 where
  pub session_id : Option String
  pub peer_actor_id : Option String
  pub state : Option ProbeState
  pub local_entered : Bool
  pub remote_entered : Bool

pub record Session : Type 0 where
  pub session_id : Option String
  pub peer_actor_id : Option String
  pub state : ProbeState
  pub local_entered : Bool
  pub remote_entered : Bool

pub record Message : Type 0 where
  pub kind : ProbeKind
  pub session_id : Option String
  pub peer_actor_id : Option String

unfoldable pub is_listed_state : ProbeState → Bool
is_listed_state (other_state _) = false
is_listed_state _ = true

abbrev state_or_new : Option ProbeState → ProbeState
state_or_new none = new
state_or_new (some st) = st

-- `normalizeState`; `none` is no object.
unfoldable pub normalize_state : Option Input → Outcome ProbeError Session
unfolding is_listed_state
normalize_state none = throw invalid_state
normalize_state (some i) = do
  require (is_listed_state (state_or_new i.state)) invalid_state
  ok (record {
    session_id = i.session_id;
    peer_actor_id = i.peer_actor_id;
    state = state_or_new i.state;
    local_entered = i.local_entered;
    remote_entered = i.remote_entered;
  })

-- `assertNonEmptyString`, which gives the string.
unfoldable pub assert_non_empty_string : Option String → Outcome ProbeError String
assert_non_empty_string none = throw invalid_input
assert_non_empty_string (some s) = if str_eq (trim s) "" then throw invalid_input else ok s

unfoldable pub check_kind : ProbeKind → Outcome ProbeError (Unit {0})
check_kind blank_kind = throw invalid_message
check_kind (other_kind _) = throw unknown_kind
check_kind _ = ok tt

abbrev pub Checked : Type 0
Checked = record { kind : ProbeKind; session_id : String; peer_actor_id : String }

-- `normalizeMessage`
unfoldable pub normalize_message : Option Message → Outcome ProbeError Checked
unfolding check_kind assert_non_empty_string
normalize_message none = throw invalid_message
normalize_message (some m) = do
  check_kind m.kind
  session_id ← assert_non_empty_string m.session_id
  peer_actor_id ← assert_non_empty_string m.peer_actor_id
  ok (record { kind = m.kind; session_id = session_id; peer_actor_id = peer_actor_id })

-- `a && a !== b`
abbrev pub conflicts : Option String → String → Bool
conflicts none b = false
conflicts (some a) b = not (str_eq a "") && not (str_eq a b)

abbrev is_new : ProbeState → Bool
is_new new = true
is_new _ = false

abbrev is_local_entered : ProbeState → Bool
is_local_entered local_entered = true
is_local_entered _ = false

-- The session after an accepted message: its ids are set, and both flags are given anew.
abbrev pub advance : Checked → ProbeState → Bool → Session
advance m st remote = record {
  session_id = some m.session_id;
  peer_actor_id = some m.peer_actor_id;
  state = st;
  local_entered = true;
  remote_entered = remote;
}

-- The transition of a message whose kind has been checked.
unfoldable pub probe_transition : Session → Checked → ProbeKind → Outcome ProbeError Session
probe_transition s m probe_init = do
  require (is_new s.state) illegal
  require (not (s.local_entered || s.remote_entered)) illegal
  ok (advance m local_entered false)
probe_transition s m probe_ack = do
  require (is_local_entered s.state) illegal
  require s.local_entered illegal
  require (not s.remote_entered) illegal
  ok (advance m probing true)
probe_transition s m _ = throw unknown_kind

-- `applySessionProbeMessage`
unfoldable pub apply_session_probe_message :
    Option Input → Option Message → Outcome ProbeError Session
unfolding normalize_state normalize_message probe_transition
apply_session_probe_message input message = do
  s ← normalize_state input
  m ← normalize_message message
  require (not (conflicts s.session_id m.session_id)) id_mismatch
  require (not (conflicts s.peer_actor_id m.peer_actor_id)) id_mismatch
  probe_transition s m m.kind
