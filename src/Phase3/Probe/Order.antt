-- ===== src/Phase3/Probe/Order.antt =====
-- The order of a session probe: one init, then one acknowledgement, between the same two parties.
use a2a_fun.Prelude.{
  String, ◌≡◌, refl, sym, subst, ◌↔◌, ◌⊎◌, inl, inr, true, false, none, some, List, [], ◌∷◌, arith,
  str_eq, eq_iff, eq_refl, Bool-cases, Outcome-cases, ok-injective, Outcome, ok, throw, trim,
}
use a2a_fun.Phase3.Probe.{
  is_listed_state, check_kind, Checked, normalize_message, conflicts, advance, probe_transition,
  apply_session_probe_message, new, local_entered, probing, ProbeKind, probe_init, probe_ack,
  blank_kind, other_kind, ProbeError, Input, Session, Message,
}

abbrev pub again : Session → Input
again s = record {
  session_id = s.session_id;
  peer_actor_id = s.peer_actor_id;
  state = some s.state;
  local_entered = s.local_entered;
  remote_entered = s.remote_entered;
}

abbrev pub message : ProbeKind → String → String → Message
message kind session peer = record {
  kind = kind;
  session_id = some session;
  peer_actor_id = some peer;
}

abbrev pub new_session : Session
new_session = record {
  session_id = none;
  peer_actor_id = none;
  state = new;
  local_entered = false;
  remote_entered = false;
}

-- The messages of one session, in their order.
pub apply_all : Session → List Message → Outcome ProbeError Session
apply_all s [] = ok s
apply_all s (m ∷ ms) = elim (apply_session_probe_message (some (again s)) (some m)) [
  | ok t ↦ apply_all t ms
  | throw e ↦ throw e
]

-- Not blank after trimming.
abbrev pub IsNamed : String → Type 0
IsNamed s = str_eq (trim s) "" ≡ false

empty_not_named : str_eq (trim "") "" ≡ true
unfolding trim
empty_not_named = refl

IsNamed-non_empty : (s : String) → IsNamed s → str_eq s "" ≡ false
IsNamed-non_empty s h = elim (Bool-cases (str_eq s "")) [
  | inr e ↦ e
  | inl e ↦
      let same : s ≡ "" = (eq_iff s "").0 e in
      let bad : str_eq (trim "") "" ≡ false = subst IsNamed same h in
      absurd (cc (bad, empty_not_named))
]

abbrev pub checked : String → String → ProbeKind → Checked
checked session peer kind = record { kind = kind; session_id = session; peer_actor_id = peer }

-- The session after the init of the two named parties, and after the acknowledgement.
abbrev pub opened : String → String → Session
opened session peer = advance (checked session peer probe_init) local_entered false

abbrev pub acknowledged : String → String → Session
acknowledged session peer = advance (checked session peer probe_ack) probing true

check_kind-ok : (k : ProbeKind) → check_kind k ≡ ok tt → (k ≡ probe_init) ⊎ (k ≡ probe_ack)
unfolding check_kind
check_kind-ok probe_init e = inl refl
check_kind-ok probe_ack e = inr refl
check_kind-ok blank_kind e = cc
check_kind-ok (other_kind k) e = cc

-- What a checked message is.
normalize_message-ok :
    (m : Message) (c : Checked)
    → normalize_message (some m) ≡ ok c
    → ((m.kind ≡ probe_init) ⊎ (m.kind ≡ probe_ack))
      × (m ≡ message m.kind c.session_id c.peer_actor_id)
      × (c ≡ checked c.session_id c.peer_actor_id m.kind)
      × IsNamed c.session_id
      × IsNamed c.peer_actor_id
unfolding normalize_message
normalize_message-ok m c e = (ground arith, ground arith, ground arith, ground arith, ground arith)

-- What has been checked when a message is accepted.
record Passed (s : Session) (m : Message) (t : Session) : Type 0 where
  with_ids : Checked
  normalized : normalize_message (some m) ≡ ok with_ids
  same_session : conflicts s.session_id with_ids.session_id ≡ false
  same_peer : conflicts s.peer_actor_id with_ids.peer_actor_id ≡ false
  moved : probe_transition s with_ids with_ids.kind ≡ ok t

apply-Passed :
    (s : Session) (m : Message) (t : Session)
    → apply_session_probe_message (some (again s)) (some m) ≡ ok t
    → Passed s m t
unfolding apply_session_probe_message
apply-Passed s m t e = elim (Outcome-cases (normalize_message (some m))) [
  | inl (c, n) ↦ record {
    with_ids = c;
    normalized = n;
    same_session = ground arith;
    same_peer = ground arith;
    moved = ground arith;
  }
  | inr (x, n) ↦ absurd (ground arith)
]

from_new :
    (m : Message) (t : Session)
    → Passed new_session m t
    → (s p : String) × (m ≡ message probe_init s p) × (t ≡ opened s p) × IsNamed s × IsNamed p
unfolding probe_transition
from_new m t p =
    let c = p.with_ids in
    let (kind, same, full, named_s, named_p) = normalize_message-ok m c p.normalized in
    let moved = p.moved in
    (c.session_id, c.peer_actor_id, ground arith, ground arith, named_s, named_p)

from_opened :
    (s p : String) (m : Message) (t : Session)
    → IsNamed s
    → IsNamed p
    → Passed (opened s p) m t
    → (m ≡ message probe_ack s p) × (t ≡ acknowledged s p)
unfolding probe_transition
from_opened s p m t named_s named_p h =
    let c = h.with_ids in
    let (kind, same, full, _, _) = normalize_message-ok m c h.normalized in
    let moved = h.moved in
    let s_filled = IsNamed-non_empty s named_s in
    let p_filled = IsNamed-non_empty p named_p in
    let same_s = h.same_session in
    let same_p = h.same_peer in
    (
      ground (arith, eq_iff s c.session_id, eq_iff p c.peer_actor_id),
      ground (arith, eq_iff s c.session_id, eq_iff p c.peer_actor_id),
    )

from_acknowledged : (s p : String) (m : Message) (t : Session) → ¬ Passed (acknowledged s p) m t
unfolding probe_transition
from_acknowledged s p m t h =
    let c = h.with_ids in
    let (kind, same, full, _, _) = normalize_message-ok m c h.normalized in
    let moved = h.moved in ground arith

-- The messages that lead from a new session to a session.
pub data Accepted : List Message → Session → Type 0 where
  nothing_yet : Accepted [] new_session
  init_only :
      {s p : String} → IsNamed s → IsNamed p → Accepted (message probe_init s p ∷ []) (opened s p)
  both :
      {s p : String}
      → IsNamed s
      → IsNamed p
      → Accepted (message probe_init s p ∷ message probe_ack s p ∷ []) (acknowledged s p)

apply_all-cons :
    (s t : Session) (m : Message) (ms : List Message)
    → apply_all s (m ∷ ms) ≡ ok t
    → (u : Session) × Passed s m u × (apply_all u ms ≡ ok t)
unfolding apply_all
apply_all-cons s t m ms e =
    elim (Outcome-cases (apply_session_probe_message (some (again s)) (some m))) [
      | inl (u, f) ↦ (u, apply-Passed s m u f, ground arith)
      | inr (x, f) ↦ absurd (ground arith)
    ]

apply_all-nil : (s t : Session) → apply_all s [] ≡ ok t → s ≡ t
unfolding apply_all
apply_all-nil s t e = ok-injective e

accept :
    (s : Session) (kind : ProbeKind) (session peer : String)
    → check_kind kind ≡ ok tt
    → is_listed_state s.state ≡ true
    → IsNamed session
    → IsNamed peer
    → conflicts s.session_id session ≡ false
    → conflicts s.peer_actor_id peer ≡ false
    → apply_session_probe_message (some (again s)) (some (message kind session peer))
      ≡ probe_transition s (checked session peer kind) kind
unfolding apply_session_probe_message
accept s kind session peer k l a b x y = simp (k, l, a, b, x, y)

Accepted-apply_all :
    (ms : List Message) (t : Session) → Accepted ms t → apply_all new_session ms ≡ ok t
unfolding apply_all probe_transition check_kind is_listed_state
Accepted-apply_all ms t nothing_yet = refl
Accepted-apply_all ms t (init_only {s} {p} a b) =
    rw (accept new_session probe_init s p refl refl a b refl refl, apply_all)
Accepted-apply_all ms t (both {s} {p} a b) =
    let same_s : conflicts (some s) s ≡ false = ground (arith, eq_refl s) in
    let same_p : conflicts (some p) p ≡ false = ground (arith, eq_refl p) in
    rw (accept new_session probe_init s p refl refl a b refl refl, apply_all)
      (rw (accept (opened s p) probe_ack s p refl refl a b same_s same_p, apply_all))

apply_all-Accepted :
    (ms : List Message) (t : Session) → apply_all new_session ms ≡ ok t → Accepted ms t
apply_all-Accepted [] t e = subst (Accepted []) (apply_all-nil new_session t e) nothing_yet
apply_all-Accepted (m ∷ ms) t e =
    let (u, first, rest) = apply_all-cons new_session t m ms e in
    let (s, p, same, next, named_s, named_p) = from_new m u first in
    subst (λ x. Accepted (x ∷ ms) t) (sym same) (after s p ms named_s named_p (rw next at rest))
  where
    last :
        (s p : String) (ms : List Message)
        → IsNamed s
        → IsNamed p
        → apply_all (acknowledged s p) ms ≡ ok t
        → Accepted (message probe_init s p ∷ message probe_ack s p ∷ ms) t
    last s p [] a b f = subst (Accepted _) (apply_all-nil (acknowledged s p) t f) (both a b)
    last s p (x ∷ xs) a b f =
        let (u, third, _) = apply_all-cons (acknowledged s p) t x xs f in
        absurd (from_acknowledged s p x u third)

    after :
        (s p : String) (ms : List Message)
        → IsNamed s
        → IsNamed p
        → apply_all (opened s p) ms ≡ ok t
        → Accepted (message probe_init s p ∷ ms) t
    after s p [] a b f = subst (Accepted _) (apply_all-nil (opened s p) t f) (init_only a b)
    after s p (x ∷ xs) a b f =
        let (u, second, rest) = apply_all-cons (opened s p) t x xs f in
        let (same, next) = from_opened s p x u a b second in
        subst (λ y. Accepted (message probe_init s p ∷ y ∷ xs) t) (sym same)
          (last s p xs a b (rw next at rest))

-- A new session accepts exactly these messages, with these results: none, an init, or an init and
-- an acknowledgement with the same two ids. A third message is never accepted.
pub apply_all_iff :
    (ms : List Message) (t : Session) → (apply_all new_session ms ≡ ok t) ↔ Accepted ms t
apply_all_iff ms t = (apply_all-Accepted ms t, Accepted-apply_all ms t)
