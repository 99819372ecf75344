-- ===== src/Relay/V2/Replies.antt =====
-- What a `relay` message makes the relay write, on every way through the branch.
use a2a_fun.Relay.Json.{frames}
use a2a_fun.Prelude.{
  ℕ, String, ◌≡◌, inl, inr, Bool, false, Option, none, some, List, [], ◌∷◌, ◌++◌, append-nil,
  append_assoc, arith, str_eq, leb, if◌then◌else◌, Bool-cases, Option-cases,
}
use a2a_fun.Relay.V2.{
  trace, reply_size, write, reg_key, status_invalid, status_no_target, status_forwarded,
  not_registered, invalid_to, no_target, Reply, must_register, to_required, dropped, relayed, ack,
  deliver, Registration, Relay,
}
use a2a_fun.Relay.V2.Server.{
  target_name, acknowledge, touch_entry, route, on_unregistered, forward, on_relay,
}
use a2a_fun.Relay.V2.Routing.{route-touch_entry}

-- The writes of the sender's registration, the name that it addresses and where that leads.
abbrev pub relay_replies :
    ℕ → Option String → String → Option Registration → String → Option ℕ → List (ℕ × Reply)
relay_replies socket id payload none to target =
    (socket, must_register) ∷ (socket, ack id status_invalid (some not_registered)) ∷ []
relay_replies socket id payload (some reg) to target =
    if str_eq to ""
    then (socket, to_required) ∷ (socket, ack id status_invalid (some invalid_to)) ∷ []
    else elim target [
      | none ↦ (socket, dropped to) ∷ (socket, ack id status_no_target (some no_target)) ∷ []
      | some t ↦
          (t, deliver reg.node_id payload)
          ∷ (socket, relayed to)
          ∷ (socket, ack id status_forwarded none)
          ∷ []
    ]

-- Of the replies, those whose JSON text is shorter than 65536 bytes.
abbrev pub short_replies : List (ℕ × Reply) → List (ℕ × Reply)
short_replies [] = []
short_replies (x ∷ xs) =
    if leb 65536 (reply_size x.1) then short_replies xs else x ∷ short_replies xs

short_replies-cons :
    (x : ℕ × Reply) (xs : List (ℕ × Reply))
    → short_replies (x ∷ xs) ≡ frames (reply_size x.1) x ++ short_replies xs
short_replies-cons (s, reply) xs = ground arith

outbox-touch_entry :
    (now socket : ℕ) (k : String) (r : Relay) → (touch_entry now socket k r).outbox ≡ r.outbox
unfolding touch_entry
outbox-touch_entry now socket k r = ground arith

outbox-forward :
    (now : ℕ) (destroyed : ℕ → Bool) (socket : ℕ) (reg : Registration) (to : String)
    (id kind : Option String) (payload : String) (r : Relay)
    → str_eq to "" ≡ false
    → (forward now destroyed socket reg.node_id to id kind payload r).outbox
      ≡ r.outbox
        ++ short_replies (relay_replies socket id payload (some reg) to (route destroyed to r))
unfolding forward acknowledge trace write
outbox-forward now destroyed socket reg to id kind payload r named =
    elim (Option-cases (route destroyed to r)) [
      | inl e ↦ rw (e, forward) (rw named (simp (append_assoc, append-nil, short_replies-cons)))
      | inr (t, e) ↦
          rw (e, forward) (rw named (simp (append_assoc, append-nil, short_replies-cons)))
    ]

-- A `relay` message writes exactly the following, less what is too long for a frame: nothing is
-- delivered for a connection that has not registered, without a name, or without a live route;
-- otherwise the payload goes to the routed socket under the sender's own registered name. Each way
-- ends with one acknowledgement. It says `forwarded` where there is a live route, also if the JSON
-- text that was to be delivered has 65536 bytes or more, so that nothing was written.
pub outbox-on_relay :
    (now : ℕ) (destroyed : ℕ → Bool) (socket : ℕ) (to shown id kind : Option String)
    (payload : String) (r : Relay)
    → (on_relay now destroyed socket to shown id kind payload r).outbox
      ≡ r.outbox
        ++ short_replies (
            relay_replies socket id payload
              (r.regs socket)
              (target_name to)
              (route destroyed (target_name to) r))
unfolding on_relay touch_entry
outbox-on_relay now destroyed socket to shown id kind payload r =
    elim (Option-cases (r.regs socket)) [
      | inl e ↦
          rw (e, on_relay)
            (unfold on_unregistered acknowledge trace write in
              simp (append_assoc, append-nil, short_replies-cons))
      | inr (reg, e) ↦
          let k = reg_key reg.node_id reg.session_id in
          let same = outbox-touch_entry now socket k r in
          let routed = route-touch_entry now socket k (target_name to) r destroyed in
          elim (Bool-cases (str_eq (target_name to) "")) [
            | inl empty ↦
                rw (e, on_relay)
                  (rw empty (
                    unfold acknowledge trace write in
                    rw same (simp (append_assoc, append-nil, short_replies-cons))))
            | inr named ↦
                let seen = touch_entry now socket k r in
                let sent =
                  outbox-forward now destroyed socket reg (target_name to) id kind payload seen
                    named in
                let sent' = rw (same, routed) at sent in
                rw (e, on_relay) (rw named (rw named at sent'))
          ]
    ]
