-- ===== src/Phase2/Session/Rules.antt =====
-- The session protocol as a step relation, and the two handlers of the session manager against it.
use a2a_fun.Prelude.{
  String, ◌≡◌, ◌≢◌, ◌⊎◌, inl, inr, true, false, Option, none, some, arith, eq_iff, Bool-cases, ok,
}
use a2a_fun.Phase2.Constants.{
  is_close_reason, MessageType, probe_hello, probe_question, probe_answer, probe_summary,
  probe_done, human_entry, session_close, error, State, disconnected, probing, probe_complete,
  await_entry, mutual_entry_confirmed, closed, failed, unknown_state, CloseReason, LocalType,
  local_human_entry, local_session_close, other_local,
}
use a2a_fun.Phase2.Session.{
  raw, is_known_state, assert_state, Raw, SessionState, Message, ApplyResult,
}
use a2a_fun.Phase2.Session.Inbound.{apply_to}
use a2a_fun.Phase2.Session.Local.{apply_local_to}

pub record IsValid (s : SessionState) : Type 0 where
  pub known : is_known_state s.state ≡ true
  pub session : s.session_id ≢ ""
  pub peer : s.peer_actor_id ≢ ""

pub assert_state-raw : (s : SessionState) → IsValid s → assert_state (some (raw s)) ≡ ok s
unfolding assert_state
assert_state-raw s v = ground (arith, eq_iff s.session_id "", eq_iff s.peer_actor_id "")

pub assert_state-IsValid :
    (input : Option Raw) (s : SessionState) → assert_state input ≡ ok s → IsValid s
unfolding assert_state
assert_state-IsValid none s e = cc
assert_state-IsValid (some i) s e = record {
  known = ground arith;
  session = ground (arith, eq_iff s.session_id "");
  peer = ground (arith, eq_iff s.peer_actor_id "");
}

-- What a state machine of the protocol is fed with.
pub data Input : Type 0 where
  received : MessageType → CloseReason → Input
  injected : LocalType → CloseReason → Input

-- Neither terminal nor unknown.
abbrev pub IsOpen : State → Type 0
IsOpen closed = ⊥
IsOpen failed = ⊥
IsOpen (unknown_state _) = ⊥
IsOpen _ = Unit {0}

-- Both sides may enter once the probe is over.
abbrev pub MayEnter : State → Type 0
MayEnter st = (st ≡ probe_complete) ⊎ (st ≡ await_entry)

-- The protocol, written down without the code's tables.
pub data Step (s t : SessionState) : Input → Type 0 where
  hello :
      {r : CloseReason}
      → s.state ≡ disconnected
      → t ≡ record s { state = probing }
      → Step s t (received probe_hello r)
  asked : {r : CloseReason} → s.state ≡ probing → t ≡ s → Step s t (received probe_question r)
  answered : {r : CloseReason} → s.state ≡ probing → t ≡ s → Step s t (received probe_answer r)
  summary :
      {r : CloseReason}
      → s.state ≡ probing
      → t ≡ record s { state = probe_complete }
      → Step s t (received probe_summary r)
  done :
      {r : CloseReason}
      → s.state ≡ probing
      → t ≡ record s { state = probe_complete }
      → Step s t (received probe_done r)
  remote_first :
      {r : CloseReason}
      → MayEnter s.state
      → s.local_entered ≡ false
      → t ≡ record s { state = await_entry; remote_entered = true }
      → Step s t (received human_entry r)
  remote_last :
      {r : CloseReason}
      → MayEnter s.state
      → s.local_entered ≡ true
      → t ≡ record s { state = mutual_entry_confirmed; remote_entered = true }
      → Step s t (received human_entry r)
  close_received :
      {r : CloseReason}
      → IsOpen s.state
      → is_close_reason r ≡ true
      → t ≡ record s { state = closed; closed_reason = some r }
      → Step s t (received session_close r)
  error_received : {r : CloseReason} → IsOpen s.state → t ≡ s → Step s t (received error r)
  local_first :
      {r : CloseReason}
      → MayEnter s.state
      → s.remote_entered ≡ false
      → t ≡ record s { state = await_entry; local_entered = true }
      → Step s t (injected local_human_entry r)
  local_last :
      {r : CloseReason}
      → MayEnter s.state
      → s.remote_entered ≡ true
      → t ≡ record s { state = mutual_entry_confirmed; local_entered = true }
      → Step s t (injected local_human_entry r)
  close_injected :
      {r : CloseReason}
      → IsOpen s.state
      → s.state ≢ disconnected
      → is_close_reason r ≡ true
      → t ≡ record s { state = closed; closed_reason = some r }
      → Step s t (injected local_session_close r)

abbrev pub msg : MessageType → String → Message
msg type id = record { type = type; msg_id = id }

module _ (s : SessionState) (id : String) (reason : CloseReason) (r : ApplyResult) where
  pub apply_to-Step :
      (type : MessageType)
      → apply_to s (some (msg type id)) (some reason) ≡ ok r
      → Step s r.next_state (received type reason)
  unfolding apply_to
  apply_to-Step probe_hello e = hello (ground arith) (ground arith)
  apply_to-Step probe_question e = asked (ground arith) (ground arith)
  apply_to-Step probe_answer e = answered (ground arith) (ground arith)
  apply_to-Step probe_summary e = summary (ground arith) (ground arith)
  apply_to-Step probe_done e = done (ground arith) (ground arith)
  apply_to-Step human_entry e = elim (Bool-cases s.local_entered) [
    | inl on ↦ remote_last (ground arith) on (ground arith)
    | inr off ↦ remote_first (ground arith) off (ground arith)
  ]
  apply_to-Step session_close e = close_received (ground arith) (ground arith) (ground arith)
  apply_to-Step error e = error_received (ground arith) (ground arith)
  apply_to-Step _ e = ground arith

  pub apply_local_to-Step :
      (type : LocalType)
      → apply_local_to s type id reason ≡ ok r
      → Step s r.next_state (injected type reason)
  unfolding apply_local_to
  apply_local_to-Step local_human_entry e = elim (Bool-cases s.remote_entered) [
    | inl on ↦ local_last (ground arith) on (ground arith)
    | inr off ↦ local_first (ground arith) off (ground arith)
  ]
  apply_local_to-Step local_session_close e =
      close_injected (ground arith) (ground arith) (ground arith) (ground arith)
  apply_local_to-Step (other_local t) e = ground arith
