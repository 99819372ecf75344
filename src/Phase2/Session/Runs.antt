-- ===== src/Phase2/Session/Runs.antt =====
-- Whole sessions: sequences of steps from a fresh state, and what holds in every state reached.
use a2a_fun.Prelude.{
  String, ◌≡◌, refl, sym, subst, Bool, true, false, ◌&&◌, ◌||◌, Option, none, some, List, [], ◌∷◌,
  arith, any, bind-eq-ok, ok,
}
use a2a_fun.Phase2.Constants.{
  is_close_reason, human_entry, State, disconnected, probing, probe_complete, await_entry,
  mutual_entry_confirmed, closed, failed, unknown_state, CloseReason, LocalType, local_human_entry,
}
use a2a_fun.Phase2.Session.{raw, assert_state, SessionState}
use a2a_fun.Phase2.Session.Inbound.{apply_to, apply_session_message}
use a2a_fun.Phase2.Session.Local.{assert_local_event, apply_local_to, apply_local_event}
use a2a_fun.Phase2.Session.Exact.{Runs, local_of}
use a2a_fun.Phase2.Session.Rules.{
  msg, apply_to-Step, apply_local_to-Step, Input, received, injected, Step, hello, asked, answered,
  summary, done, remote_first, remote_last, close_received, error_received, local_first, local_last,
  close_injected,
}

-- The state of a session that nothing has happened in.
abbrev pub fresh : String → String → SessionState
fresh session_id peer = record {
  state = disconnected;
  session_id = session_id;
  peer_actor_id = peer;
  local_entered = false;
  remote_entered = false;
  closed_reason = none;
}

-- A handler of the session manager accepts the input in one state and answers with the other.
abbrev pub Handled : SessionState → Input → SessionState → Type 0
Handled t (received type reason) u =
    (id : String) × Runs (apply_session_message (some (raw t)) (some (msg type id)) (some reason)) u
Handled t (injected type reason) u =
    (id : String) × Runs (apply_local_event (some (raw t)) (some (local_of type id reason))) u

assert_state-same : (t s : SessionState) → assert_state (some (raw t)) ≡ ok s → t ≡ s
unfolding assert_state
assert_state-same t s e = ground arith

assert_local_event-same :
    (type : LocalType) (id : String) (reason : CloseReason)
    (v : record { type : LocalType; event_id : String })
    → assert_local_event (some (local_of type id reason)) ≡ ok v
    → v.type ≡ type
unfolding assert_local_event
assert_local_event-same type id reason v e = ground arith

Handled-Step : (t u : SessionState) (i : Input) → Handled t i u → Step t u i
unfolding apply_session_message apply_local_event
Handled-Step t u (received type reason) (id, (r, e, next)) =
    let (s, valid, e1) =
      bind-eq-ok (assert_state (some (raw t))) (λ s. apply_to s (some (msg type id)) (some reason))
        e in
    let same = assert_state-same t s valid in
    subst (λ x. Step x u (received type reason)) (sym same)
      (subst (λ x. Step s x (received type reason)) next (apply_to-Step s id reason r type e1))
Handled-Step t u (injected type reason) (id, (r, e, next)) =
    let event = some (local_of type id reason) in
    let (s, valid, e1) = bind-eq-ok (assert_state (some (raw t))) _ e in
    let (v, checked, e2) =
      bind-eq-ok (assert_local_event event) (λ v. apply_local_to s v.type v.event_id reason) e1 in
    let same = assert_state-same t s valid in
    let kind = assert_local_event-same type id reason v checked in
    subst (λ x. Step x u (injected type reason)) (sym same)
      (subst (λ x. Step s x (injected type reason)) next
        (subst (λ k. Step s r.next_state (injected k reason)) kind
          (apply_local_to-Step s v.event_id reason r v.type e2)))

-- The inputs of a run, the latest first.
pub data Run (s : SessionState) : List Input → SessionState → Type 0 where
  start : Run s [] s
  then :
      {t u : SessionState} {is : List Input} {i : Input}
      → Run s is t
      → Handled t i u
      → Run s (i ∷ is) u

-- Which flags and which reason go with a state.
abbrev pub Fits : State → Bool → Bool → Option CloseReason → Type 0
Fits disconnected l r c = (l ≡ false) × (r ≡ false) × (c ≡ none)
Fits probing l r c = (l ≡ false) × (r ≡ false) × (c ≡ none)
Fits probe_complete l r c = (l ≡ false) × (r ≡ false) × (c ≡ none)
Fits await_entry l r c = ((l && r) ≡ false) × ((l || r) ≡ true) × (c ≡ none)
Fits mutual_entry_confirmed l r c = (l ≡ true) × (r ≡ true) × (c ≡ none)
Fits closed l r c = (x : CloseReason) × (c ≡ some x) × (is_close_reason x ≡ true)
Fits failed l r c = ⊥
Fits (unknown_state _) l r c = ⊥

abbrev pub IsConsistent : SessionState → Type 0
IsConsistent s = Fits s.state s.local_entered s.remote_entered s.closed_reason

Step-IsConsistent : {s t : SessionState} {i : Input} → Step s t i → IsConsistent s → IsConsistent t
Step-IsConsistent (hello p q) h = rw q (ground arith)
Step-IsConsistent (asked p q) h = rw q h
Step-IsConsistent (answered p q) h = rw q h
Step-IsConsistent (summary p q) h = rw q (ground arith)
Step-IsConsistent (done p q) h = rw q (ground arith)
Step-IsConsistent (remote_first p z q) h = rw q (ground arith)
Step-IsConsistent (remote_last p z q) h = rw q (ground arith)
Step-IsConsistent (close_received {r} p z q) h = rw q (r, refl, z)
Step-IsConsistent (error_received p q) h = rw q h
Step-IsConsistent (local_first p z q) h = rw q (ground arith)
Step-IsConsistent (local_last p z q) h = rw q (ground arith)
Step-IsConsistent (close_injected {r} p o z q) h = rw q (r, refl, z)

-- In every state that a session reaches, the entry flags and the close reason fit the state: none
-- before the first entry, one of the two while an entry is awaited, both after the mutual entry,
-- a listed reason when it is closed. `FAILED` is never reached.
pub Run-IsConsistent :
    (session_id peer : String) (is : List Input) (t : SessionState)
    → Run (fresh session_id peer) is t
    → IsConsistent t
Run-IsConsistent a b is t start = (refl, refl, refl)
Run-IsConsistent a b is t (then {t = u} {is = js} {i} r st) =
    Step-IsConsistent (Handled-Step u t i st) (Run-IsConsistent a b js u r)

unfoldable pub is_remote_entry : Input → Bool
is_remote_entry (received human_entry _) = true
is_remote_entry _ = false

unfoldable pub is_local_entry : Input → Bool
is_local_entry (injected local_human_entry _) = true
is_local_entry _ = false

-- A flag that is set was set by its own side.
record Consented (is : List Input) (t : SessionState) : Type 0 where
  remote : t.remote_entered ≡ true → any is_remote_entry is ≡ true
  local : t.local_entered ≡ true → any is_local_entry is ≡ true

Step-Consented :
    {s t : SessionState} {i : Input} {is : List Input}
    → Step s t i
    → Consented is s
    → Consented (i ∷ is) t
unfolding is_remote_entry is_local_entry
Step-Consented (hello p q) h = record { remote = ground arith; local = ground arith }
Step-Consented (asked p q) h = record { remote = ground arith; local = ground arith }
Step-Consented (answered p q) h = record { remote = ground arith; local = ground arith }
Step-Consented (summary p q) h = record { remote = ground arith; local = ground arith }
Step-Consented (done p q) h = record { remote = ground arith; local = ground arith }
Step-Consented (remote_first p z q) h = record { remote = ground arith; local = ground arith }
Step-Consented (remote_last p z q) h = record { remote = ground arith; local = ground arith }
Step-Consented (close_received p z q) h = record { remote = ground arith; local = ground arith }
Step-Consented (error_received p q) h = record { remote = ground arith; local = ground arith }
Step-Consented (local_first p z q) h = record { remote = ground arith; local = ground arith }
Step-Consented (local_last p z q) h = record { remote = ground arith; local = ground arith }
Step-Consented (close_injected p o z q) h = record { remote = ground arith; local = ground arith }

Run-Consented :
    (a b : String) (is : List Input) (t : SessionState) → Run (fresh a b) is t → Consented is t
Run-Consented a b is t start = record { remote = λ e. cc; local = λ e. cc }
Run-Consented a b is t (then {t = u} {is = js} {i} r st) =
    Step-Consented (Handled-Step u t i st) (Run-Consented a b js u r)

-- A session is mutually confirmed only if the peer's entry message was received and the local
-- entry was injected.
pub mutual_consent :
    (session_id peer : String) (is : List Input) (t : SessionState)
    → Run (fresh session_id peer) is t
    → t.state ≡ mutual_entry_confirmed
    → (any is_remote_entry is ≡ true) × (any is_local_entry is ≡ true)
mutual_consent a b is t r e =
    let fits : (t.local_entered ≡ true) × (t.remote_entered ≡ true) × (t.closed_reason ≡ none) =
      subst (λ st. Fits st t.local_entered t.remote_entered t.closed_reason) e
        (Run-IsConsistent a b is t r) in
    let c = Run-Consented a b is t r in (c.remote fits.1, c.local fits.0)
