-- ===== src/Phase2/Session/Patches.antt =====
-- What a successful answer of the session manager holds beside the next state: the patch for the
-- store, and the audit core.
use a2a_fun.Prelude.{
  ◌≡◌, refl, subst, ◌≢◌, ◌⊎◌, Bool, Option, none, some, [], ◌∷◌, arith, bind-eq-ok, ok-injective,
  Outcome, ok, throw, ◌>>=◌, ◌>>◌,
}
use a2a_fun.Phase2.Constants.{
  MessageType, probe_hello, human_entry, CloseReason, LocalType, local_human_entry,
}
use a2a_fun.Phase2.Session.{
  assert_state, changed, flags_delta_of, Raw, SessionState, Error, Message, LocalEvent, Patch, Kind,
  AuditType, AuditId, AuditCore, ApplyResult,
}
use a2a_fun.Phase2.Session.Inbound.{transition, admitted, answer, apply_to, apply_session_message}
use a2a_fun.Phase2.Session.Local.{
  assert_local_event, local_transition, local_admitted, local_answer, apply_local_to, reason_of,
  apply_local_event,
}

abbrev or_old : {A : Type 0} → Option A → A → A
or_old none a = a
or_old (some b) a = b

abbrev or_kept : {A : Type 0} → Option A → Option A → Option A
or_kept none a = a
or_kept (some b) a = some b

-- `{ ...state, ...patch }`
pub patched : SessionState → Patch → SessionState
patched s p = record s {
  state = or_old p.state s.state;
  local_entered = or_old p.local_entered s.local_entered;
  remote_entered = or_old p.remote_entered s.remote_entered;
  closed_reason = or_kept p.closed_reason s.closed_reason;
}

-- A flag is in the delta exactly when it changed, with its new value.
abbrev IsDelta : Bool → Bool → Option Bool → Type 0
IsDelta old new d = ((d ≡ none) × (old ≡ new)) ⊎ ((d ≡ some new) × (old ≢ new))

-- An answer is faithful to the state that it starts from.
pub record IsFaithful (s : SessionState) (r : ApplyResult) : Type 0 where
  pub patch : patched s r.session_patch ≡ r.next_state
  pub same_session : r.next_state.session_id ≡ s.session_id
  pub same_peer : r.next_state.peer_actor_id ≡ s.peer_actor_id
  pub event : AuditCore
  pub one_event : r.audit_events ≡ event ∷ []
  pub before : event.prev_state ≡ s.state
  pub after : event.next_state ≡ r.next_state.state
  pub owner : event.session_id ≡ s.session_id
  pub local_delta :
      IsDelta s.local_entered r.next_state.local_entered event.flags_delta.local_entered
  pub remote_delta :
      IsDelta s.remote_entered r.next_state.remote_entered event.flags_delta.remote_entered

module _ (s : SessionState) (reason : CloseReason) where
  transition-patched :
      (type : MessageType) (n : SessionState) (p : Patch)
      → transition s type reason ≡ ok (n, p)
      → patched s p ≡ n
  unfolding transition patched
  transition-patched probe_hello n p e = ground arith
  transition-patched human_entry n p e = ground arith
  transition-patched _ n p e = ground arith

  transition-same_ids :
      (type : MessageType) (n : SessionState) (p : Patch)
      → transition s type reason ≡ ok (n, p)
      → (n.session_id ≡ s.session_id) × (n.peer_actor_id ≡ s.peer_actor_id)
  unfolding transition
  transition-same_ids probe_hello n p e = ground arith
  transition-same_ids _ n p e = ground arith

  local_transition-patched :
      (type : LocalType) (n : SessionState) (p : Patch)
      → local_transition s type reason ≡ ok (n, p)
      → (patched s p ≡ n) × (n.session_id ≡ s.session_id) × (n.peer_actor_id ≡ s.peer_actor_id)
  unfolding local_transition patched
  local_transition-patched local_human_entry n p e = ground arith
  local_transition-patched _ n p e = ground arith

changed-IsDelta : (a b : Bool) → IsDelta a b (changed a b)
unfolding changed
changed-IsDelta a b = ground arith

-- The audit core of a move from `s` to `n`.
abbrev core : SessionState → SessionState → Kind → AuditId → AuditType → AuditCore
core s n kind id type = record {
  kind = kind;
  session_id = s.session_id;
  msg_id = id;
  type = type;
  prev_state = s.state;
  next_state = n.state;
  flags_delta = flags_delta_of s n;
}

core-IsFaithful :
    (s n : SessionState) (p : Patch) (kind : Kind) (id : AuditId) (type : AuditType)
    → patched s p ≡ n
    → n.session_id ≡ s.session_id
    → n.peer_actor_id ≡ s.peer_actor_id
    → IsFaithful s
        (record { next_state = n; session_patch = p; audit_events = core s n kind id type ∷ [] })
unfolding flags_delta_of
core-IsFaithful s n p kind id type e f g = record {
  patch = e;
  same_session = f;
  same_peer = g;
  event = core s n kind id type;
  one_event = refl;
  before = refl;
  after = refl;
  owner = refl;
  local_delta = changed-IsDelta s.local_entered n.local_entered;
  remote_delta = changed-IsDelta s.remote_entered n.remote_entered;
}

-- The shape of both handlers: guards, a transition, an answer.
chain-eq-ok :
    {R : Type 0} (g : Outcome Error (Unit {0})) (t : Outcome Error (SessionState × Patch))
    (k : SessionState → Patch → R) {r : R}
    → (do g; (n, p) ← t; ok (k n p)) ≡ ok r
    → (n : SessionState) × (p : Patch) × (t ≡ ok (n, p)) × (k n p ≡ r)
chain-eq-ok (ok u) (ok (n, p)) k e = (n, p, refl, ok-injective e)
chain-eq-ok (throw x) t k e = cc
chain-eq-ok (ok u) (throw x) k e = cc

-- An accepted message is answered faithfully: the patch turns the old state into the new one, the
-- ids stay, and there is one audit core, with the states before and after and the flags that changed.
pub message-IsFaithful :
    (input : Option Raw) (m : Message) (reason : CloseReason) (r : ApplyResult)
    → apply_session_message input (some m) (some reason) ≡ ok r
    → (s : SessionState) × (assert_state input ≡ ok s) × IsFaithful s r
unfolding apply_session_message
message-IsFaithful input m reason r e =
    let (s, valid, e1) =
      bind-eq-ok (assert_state input) (λ s. apply_to s (some m) (some reason)) e in
    let (n, p, f, same) =
      chain-eq-ok (admitted s m.type) (transition s m.type reason) (answer s m) e1 in
    let (session, peer) = transition-same_ids s reason m.type n p f in
    (
      s,
      valid,
      subst (IsFaithful s) same
          (core-IsFaithful s n p _ _ _ (transition-patched s reason m.type n p f) session peer),
    )

-- So is an accepted local event.
pub local-IsFaithful :
    (input : Option Raw) (event : Option LocalEvent) (r : ApplyResult)
    → apply_local_event input event ≡ ok r
    → (s : SessionState) × (assert_state input ≡ ok s) × IsFaithful s r
unfolding apply_local_event
local-IsFaithful input event r e =
    let (s, valid, e1) = bind-eq-ok (assert_state input) _ e in
    let (v, checked, e2) =
      bind-eq-ok (assert_local_event event)
        (λ v. apply_local_to s v.type v.event_id (reason_of event)) e1 in
    let (n, p, f, same) =
      chain-eq-ok (local_admitted s v.type) (local_transition s v.type (reason_of event))
        (local_answer s v.type v.event_id) e2 in
    let (patch, session, peer) = local_transition-patched s (reason_of event) v.type n p f in
    (s, valid, subst (IsFaithful s) same (core-IsFaithful s n p _ _ _ patch session peer))
