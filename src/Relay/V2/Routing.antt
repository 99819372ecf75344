-- ===== src/Relay/V2/Routing.antt =====
-- Where a message for a node goes, after each operation of the relay.
use a2a_fun.Prelude.{
  ℕ, String, ◌≡◌, refl, ◌≢◌, inl, inr, Bool, false, Option, none, some, arith, eq_iff,
  if◌then◌else◌, Option-cases, get, put, get-put, get-put_self,
}
use a2a_fun.Relay.V2.{trace, write, reg_key, owns, Entry, Registration, Relay}
use a2a_fun.Relay.V2.Server.{
  cleanup, replace_old, new_entry, register, touch_entry, route_in, route,
}

replace_old-tables :
    (old : Option Entry) (socket : ℕ) (node_id session_id : String) (r : Relay)
    → ((replace_old old socket node_id session_id r).entries ≡ r.entries)
      × ((replace_old old socket node_id session_id r).latest_by_node ≡ r.latest_by_node)
unfolding replace_old write
replace_old-tables none socket node_id session_id r = (refl, refl)
replace_old-tables (some prev) socket node_id session_id r = ground arith

-- What a registration does to the two tables.
pub register-tables :
    (now socket : ℕ) (node_id session_id : String) (r : Relay)
    → ((register now socket node_id session_id r).entries
        ≡ put (reg_key node_id session_id) (new_entry now socket node_id session_id) r.entries)
      × ((register now socket node_id session_id r).latest_by_node
          ≡ put node_id session_id r.latest_by_node)
unfolding register trace write
register-tables now socket node_id session_id r =
    let old = get (reg_key node_id session_id) r.entries in
    let (entries, latest) = replace_old-tables old socket node_id session_id r in
    (rw entries, rw latest)

-- After a registration a message for the node goes to the socket that registered, unless that
-- socket is destroyed.
pub route-register :
    (now socket : ℕ) (node_id session_id : String) (r : Relay) (destroyed : ℕ → Bool)
    → session_id ≢ ""
    → route destroyed node_id (register now socket node_id session_id r)
      ≡ (if destroyed socket then none else some socket)
unfolding route_in
route-register now socket node_id session_id r destroyed h =
    let (entries, latest) = register-tables now socket node_id session_id r in
    let k = reg_key node_id session_id in
    rw (entries, latest)
      (ground (
        arith,
        get-put_self node_id session_id r.latest_by_node,
        get-put_self k (new_entry now socket node_id session_id) r.entries,
        eq_iff session_id "",
      ))

-- The sight of a node changes its `last_seen` and no route.
pub route-touch_entry :
    (now socket : ℕ) (k to : String) (r : Relay) (destroyed : ℕ → Bool)
    → route destroyed to (touch_entry now socket k r) ≡ route destroyed to r
unfolding route_in touch_entry
route-touch_entry now socket k to r destroyed = elim (Option-cases (get k r.entries)) [
  | inl e ↦ rw (e, touch_entry)
  | inr (cur, e) ↦ elim (Option-cases (get to r.latest_by_node)) [
    | inl no_latest ↦ ground arith
    | inr (session, latest) ↦
        let j = reg_key to session in
        ground
          (arith, get-put k j (record cur { last_seen = now }) r.entries, eq_iff k j, latest, e)
  ]
]

-- The end of a connection whose entry has been taken over by another socket, or that never
-- registered, changes no table: the new owner keeps its route.
cleanup_replaced :
    (now socket : ℕ) (r : Relay)
    → ((reg : Registration)
        → r.regs socket ≡ some reg
        → owns (get (reg_key reg.node_id reg.session_id) r.entries) socket ≡ false)
    → ((cleanup now socket r).entries ≡ r.entries)
      × ((cleanup now socket r).latest_by_node ≡ r.latest_by_node)
      × ((cleanup now socket r).regs socket ≡ none)
unfolding cleanup
cleanup_replaced now socket r h = elim (Option-cases (r.regs socket)) [
  | inl e ↦ (rw (e, cleanup), rw (e, cleanup), rw (e, cleanup) (ground arith))
  | inr (reg, e) ↦
      let other = h reg e in
      (
        rw (e, cleanup) (rw other),
        rw (e, cleanup) (rw other),
        rw (e, cleanup) (rw other (ground arith)),
      )
]
