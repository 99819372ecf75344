-- ===== src/Phase2/Session/Exact.antt =====
-- The handlers of the session manager accept exactly the steps of the protocol.
use a2a_fun.Prelude.{
  String, ◌≡◌, refl, ◌≢◌, ◌↔◌, ◌⊎◌, inl, inr, some, arith, eq_iff, Outcome-cases, Outcome, ok,
  throw,
}
use a2a_fun.Phase2.Constants.{
  MessageType, CloseReason, LocalType, local_human_entry, local_session_close, other_local,
}
use a2a_fun.Phase2.Session.{
  raw, SessionState, Error, unsupported_local_type, Message, LocalEvent, ApplyResult,
}
use a2a_fun.Phase2.Session.Inbound.{apply_to, apply_session_message}
use a2a_fun.Phase2.Session.Local.{apply_local_to, apply_local_event}
use a2a_fun.Phase2.Session.Rules.{
  assert_state-raw, msg, apply_to-Step, apply_local_to-Step, IsValid, received, injected, Step,
  hello, asked, answered, summary, done, remote_first, remote_last, close_received, error_received,
  local_first, local_last, close_injected,
}

-- What a step promises of the handler's answer.
abbrev pub Runs : Outcome Error ApplyResult → SessionState → Type 0
Runs m t = (r : ApplyResult) × (m ≡ ok r) × (r.next_state ≡ t)

module _ (s t : SessionState) (id : String) (reason : CloseReason) where
  Step-apply_to :
      (type : MessageType)
      → Step s t (received type reason)
      → Runs (apply_to s (some (msg type id)) (some reason)) t
  unfolding apply_to
  Step-apply_to type step = elim (Outcome-cases (apply_to s (some (msg type id)) (some reason))) [
    | inl (r, e) ↦ (r, e, same type r e step)
    | inr (x, e) ↦ absurd (total type x e step)
  ]
    where
      same :
          (type : MessageType) (r : ApplyResult)
          → apply_to s (some (msg type id)) (some reason) ≡ ok r
          → Step s t (received type reason)
          → r.next_state ≡ t
      same type r e (hello p q) = ground arith
      same type r e (asked p q) = ground arith
      same type r e (answered p q) = ground arith
      same type r e (summary p q) = ground arith
      same type r e (done p q) = ground arith
      same type r e (remote_first p q z) = ground arith
      same type r e (remote_last p q z) = ground arith
      same type r e (close_received p q z) = ground arith
      same type r e (error_received p q) = ground arith

      total :
          (type : MessageType) (x : Error)
          → apply_to s (some (msg type id)) (some reason) ≡ throw x
          → Step s t (received type reason)
          → ⊥
      total type x e (hello p q) = ground arith
      total type x e (asked p q) = ground arith
      total type x e (answered p q) = ground arith
      total type x e (summary p q) = ground arith
      total type x e (done p q) = ground arith
      total type x e (remote_first p q z) = ground arith
      total type x e (remote_last p q z) = ground arith
      total type x e (close_received p q z) = ground arith
      total type x e (error_received p q) = ground arith

  Step-apply_local_to :
      (type : LocalType)
      → Step s t (injected type reason)
      → Runs (apply_local_to s type id reason) t
  unfolding apply_local_to
  Step-apply_local_to type step = elim (Outcome-cases (apply_local_to s type id reason)) [
    | inl (r, e) ↦ (r, e, same type r e step)
    | inr (x, e) ↦ absurd (total type x e step)
  ]
    where
      same :
          (type : LocalType) (r : ApplyResult)
          → apply_local_to s type id reason ≡ ok r
          → Step s t (injected type reason)
          → r.next_state ≡ t
      same type r e (local_first p q z) = ground arith
      same type r e (local_last p q z) = ground arith
      same type r e (close_injected p q z w) = ground arith

      total :
          (type : LocalType) (x : Error)
          → apply_local_to s type id reason ≡ throw x
          → Step s t (injected type reason)
          → ⊥
      total type x e (local_first p q z) = ground arith
      total type x e (local_last p q z) = ground arith
      total type x e (close_injected p q z w) = ground arith

-- A message is accepted in a valid state exactly when the protocol has a step for it, and the next
-- state is that step's.
pub message-Step :
    (s t : SessionState) (m : Message) (reason : CloseReason)
    → IsValid s
    → Runs (apply_session_message (some (raw s)) (some m) (some reason)) t
      ↔ Step s t (received m.type reason)
unfolding apply_session_message
message-Step s t m reason v = rw (assert_state-raw s v) (
  (λ x. rw (← x.2) (apply_to-Step s m.msg_id reason x.0 m.type x.1)),
  Step-apply_to s t m.msg_id reason m.type,
)

abbrev pub local_of : LocalType → String → CloseReason → LocalEvent
local_of type id reason = record { type = some type; event_id = some id; reason = reason }

local-run :
    (s : SessionState) (type : LocalType) (id : String) (reason : CloseReason)
    → IsValid s
    → id ≢ ""
    → (apply_local_event (some (raw s)) (some (local_of type id reason))
        ≡ apply_local_to s type id reason)
      ⊎ ((t : String) × (type ≡ other_local t)
          × (apply_local_event (some (raw s)) (some (local_of type id reason))
              ≡ throw unsupported_local_type))
unfolding apply_local_event
local-run s local_human_entry id reason v h =
    inl (rw (assert_state-raw s v) (ground (arith, eq_iff id "")))
local-run s local_session_close id reason v h =
    inl (rw (assert_state-raw s v) (ground (arith, eq_iff id "")))
local-run s (other_local t) id reason v h = inr (t, refl, rw (assert_state-raw s v))

not-Step-other :
    {s t : SessionState} {type : LocalType} {reason : CloseReason} (name : String)
    → type ≡ other_local name
    → ¬ Step s t (injected type reason)
not-Step-other name e (local_first p q z) = cc
not-Step-other name e (local_last p q z) = cc
not-Step-other name e (close_injected p q z w) = cc

-- A local event that has an id is accepted in a valid state exactly when the protocol has a step
-- for it, and the next state is that step's.
pub local-Step :
    (s t : SessionState) (type : LocalType) (id : String) (reason : CloseReason)
    → IsValid s
    → id ≢ ""
    → Runs (apply_local_event (some (raw s)) (some (local_of type id reason))) t
      ↔ Step s t (injected type reason)
local-Step s t type id reason v h = elim (local-run s type id reason v h) [
  | inl e ↦ rw e (
    (λ x. rw (← x.2) (apply_local_to-Step s id reason x.0 type x.1)),
    Step-apply_local_to s t id reason type,
  )
  | inr (name, other, e) ↦
      ((λ x. absurd (cc (e, x.1))), λ step. absurd (not-Step-other name other step))
]
