-- ===== src/Relay/V2/Traces.antt =====
-- The trace log of the relay stays within its cap.
use a2a_fun.Prelude.{
  ℕ, ◌-◌, ◌≤◌, String, inl, inr, Bool, Option, none, some, [], ◌∷◌, ◌++◌, arith, str_eq, Bool-cases,
  Option-cases, length, length-drop, Outcome-cases, get,
}
use a2a_fun.Relay.V2.{
  trace_cap, push_trace, trace, write, validate_id, reg_key, owns, Trace, Status, Reason, Relay,
}
use a2a_fun.Relay.V2.Server.{
  cleanup, register, on_register, target_name, acknowledge, route, on_unregistered, forward,
  on_relay, on_message, handle, register_message, relay_message, other_message, Incoming,
  close_frame, ping_frame, other_frame, text_frame, socket_gone,
}

abbrev IsBounded : Relay → Type 0
IsBounded r = length r.traces ≤ trace_cap

trace-IsBounded : (t : Trace) (r : Relay) → IsBounded (trace t r)
unfolding trace push_trace
trace-IsBounded t r =
    let all = r.traces ++ t ∷ [] in ground (arith, length-drop (length all - trace_cap) all)

-- An acknowledgement ends with a trace.
module _ (now socket : ℕ) (trace_id from to : Option String) (s : Status)
    (reason : Option Reason) where
  acknowledge-IsBounded :
      (r : Relay) → IsBounded (acknowledge now socket trace_id s reason from to r)
  unfolding acknowledge
  acknowledge-IsBounded r = trace-IsBounded _ _

cleanup-IsBounded : (now socket : ℕ) (r : Relay) → IsBounded r → IsBounded (cleanup now socket r)
unfolding cleanup
cleanup-IsBounded now socket r h = elim (Option-cases (r.regs socket)) [
  | inl e ↦ rw (e, cleanup) h
  | inr (reg, e) ↦
      elim (Bool-cases (owns (get (reg_key reg.node_id reg.session_id) r.entries) socket)) [
        | inl mine ↦ rw (e, cleanup) (rw mine (trace-IsBounded _ _))
        | inr not_mine ↦ rw (e, cleanup) (rw not_mine h)
      ]
]

on_register-IsBounded :
    (now socket : ℕ) (n s : Option String) (r : Relay)
    → IsBounded r
    → IsBounded (on_register now socket n s r)
unfolding on_register write
on_register-IsBounded now socket n s r h = elim (Outcome-cases (validate_id n)) [
  | inr (reason, e) ↦ rw (e, on_register) h
  | inl (node, e) ↦ elim (Outcome-cases (validate_id s)) [
    | inr (reason, e') ↦ rw (e, on_register) (rw e' h)
    | inl (session, e') ↦ rw (e, on_register) (rw e' (unfold register in trace-IsBounded _ _))
  ]
]

forward-IsBounded :
    (now : ℕ) (destroyed : ℕ → Bool) (socket : ℕ) (from to : String) (id kind : Option String)
    (payload : String) (r : Relay)
    → IsBounded (forward now destroyed socket from to id kind payload r)
unfolding forward
forward-IsBounded now destroyed socket from to id kind payload r =
    elim (Option-cases (route destroyed to r)) [
      | inl e ↦ rw (e, forward) (acknowledge-IsBounded _ _ _ _ _ _ _ _)
      | inr (target, e) ↦ rw (e, forward) (acknowledge-IsBounded _ _ _ _ _ _ _ _)
    ]

on_relay-IsBounded :
    (now : ℕ) (destroyed : ℕ → Bool) (socket : ℕ) (to shown id kind : Option String)
    (payload : String) (r : Relay)
    → IsBounded (on_relay now destroyed socket to shown id kind payload r)
unfolding on_relay on_unregistered
on_relay-IsBounded now destroyed socket to shown id kind payload r =
    elim (Option-cases (r.regs socket)) [
      | inl e ↦ rw (e, on_relay) (acknowledge-IsBounded _ _ _ _ _ _ _ _)
      | inr (reg, e) ↦ elim (Bool-cases (str_eq (target_name to) "")) [
        | inl empty ↦ rw (e, on_relay) (rw empty (acknowledge-IsBounded _ _ _ _ _ _ _ _))
        | inr name ↦
            rw (e, on_relay)
              (rw name (
                forward-IsBounded now destroyed socket reg.node_id (target_name to) id kind payload
                  _))
      ]
    ]

-- One frame or socket event keeps the log within its cap of 1000 traces.
handle-IsBounded :
    (now : ℕ) (destroyed : ℕ → Bool) (socket : ℕ) (i : Incoming) (r : Relay)
    → IsBounded r
    → IsBounded (handle now destroyed socket i r)
unfolding handle on_message
handle-IsBounded now destroyed socket close_frame r h = cleanup-IsBounded now socket r h
handle-IsBounded now destroyed socket socket_gone r h = cleanup-IsBounded now socket r h
handle-IsBounded now destroyed socket ping_frame r h = h
handle-IsBounded now destroyed socket other_frame r h = h
handle-IsBounded now destroyed socket (text_frame none) r h = h
handle-IsBounded now destroyed socket (text_frame (some (register_message n s))) r h =
    on_register-IsBounded now socket n s r h
handle-IsBounded now destroyed socket (text_frame (some (relay_message a b c d e))) r h =
    on_relay-IsBounded now destroyed socket a b c d e r
handle-IsBounded now destroyed socket (text_frame (some other_message)) r h = h
