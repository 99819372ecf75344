-- ===== src/Relay/V2/Server.antt =====
-- The connection handlers of src/relay/relayServerV2.mjs: `cleanup` and the `data` handler, a frame
-- at a time. `now` is the clock at the event, `destroyed` tells which sockets are destroyed by then.
use a2a_fun.Prelude.{
  ℕ, String, Bool, Option, none, some, [], ◌∷◌, ◌++◌, str_eq, ◌==◌, if◌then◌else◌, ok, throw, Dict,
  get, put, delete, trim,
}
use a2a_fun.Relay.V2.{
  trace, status_name, write, validate_id, reg_key, recompute_latest, set_reg, owns, Entry,
  EventName, register_event, unregister_event, relay_received, dropped_invalid, dropped_no_target,
  forwarded, ack_event, Trace, Status, status_invalid, status_no_target, status_forwarded, Reason,
  not_registered, invalid_to, no_target, invalid_node_id, invalid_session_id, id_error, replaced,
  registered, must_register, to_required, dropped, relayed, ack, deliver, Relay,
}

-- `msg`, as `JSON.parse` gives it: `none` for a field of another type than string.
pub data Message : Type 0 where
  register_message : (node_id session_id : Option String) → Message
  -- `to_shown` is `String(msg.to)` where it is not null, `payload` the JSON text of
  -- `msg.payload ?? null`, `kind` the field of the payload
  relay_message : (to to_shown trace_id kind : Option String) (payload : String) → Message
  other_message : Message

pub data Incoming : Type 0 where
  close_frame ping_frame other_frame : Incoming
  -- a text frame; `none` if its text is no JSON object
  text_frame : Option Message → Incoming
  -- the events `close`, `end` and `error` of the socket
  socket_gone : Incoming

abbrev pub unregister_trace : String → ℕ → Trace
unregister_trace node_id now = record {
  event = unregister_event;
  trace_id = none;
  from = some node_id;
  to = none;
  kind = none;
  ts = now;
}

unfoldable pub cleanup : ℕ → ℕ → Relay → Relay
cleanup now socket r = elim (r.regs socket) [
  | none ↦ set_reg socket none r
  | some reg ↦
      let k = reg_key reg.node_id reg.session_id in
      if owns (get k r.entries) socket
      then set_reg socket none (
          trace (unregister_trace reg.node_id now)
            (recompute_latest reg.node_id (record r { entries = delete k r.entries })))
      else set_reg socket none r
]

-- The notice to a replaced socket, which is then closed.
unfoldable pub replace_old : Option Entry → ℕ → String → String → Relay → Relay
replace_old none socket node_id session_id r = r
replace_old (some prev) socket node_id session_id r =
    if prev.socket == socket
    then r
    else let told = write prev.socket (replaced node_id session_id) r in
      record told { ended = told.ended ++ prev.socket ∷ [] }

abbrev pub register_trace : String → ℕ → Trace
register_trace node_id now = record {
  event = register_event;
  trace_id = none;
  from = some node_id;
  to = none;
  kind = none;
  ts = now;
}

abbrev pub new_entry : ℕ → ℕ → String → String → Entry
new_entry now socket node_id session_id = record {
  node_id = node_id;
  session_id = session_id;
  socket = socket;
  connected_at = now;
  last_seen = now;
}

-- A registration whose two ids are valid.
unfoldable pub register : ℕ → ℕ → String → String → Relay → Relay
register now socket node_id session_id r =
    let k = reg_key node_id session_id in
    let r1 = replace_old (get k r.entries) socket node_id session_id r in
    let r2 = set_reg socket (some (record { node_id = node_id; session_id = session_id })) r1 in
    let r3 = record r2 {
      entries = put k (new_entry now socket node_id session_id) r2.entries;
      latest_by_node = put node_id session_id r2.latest_by_node;
    } in
    write socket (registered node_id session_id) (trace (register_trace node_id now) r3)

-- The `register` branch: the node id is checked before the session id.
unfoldable pub on_register : ℕ → ℕ → Option String → Option String → Relay → Relay
on_register now socket node_raw session_raw r = elim (validate_id node_raw) [
  | throw reason ↦ write socket (id_error invalid_node_id reason) r
  | ok node_id ↦ elim (validate_id session_raw) [
    | throw reason ↦ write socket (id_error invalid_session_id reason) r
    | ok session_id ↦ register now socket node_id session_id r
  ]
]

-- `toRaw`, the empty string for a field that is no string.
unfoldable pub target_name : Option String → String
target_name none = ""
target_name (some to) = trim to

abbrev pub relay_trace :
    EventName → Option String → Option String → Option String → Option String → ℕ → Trace
relay_trace event trace_id from to kind now = record {
  event = event;
  trace_id = trace_id;
  from = from;
  to = to;
  kind = kind;
  ts = now;
}

-- The acknowledgement and its trace, which end every way through the branch.
unfoldable pub acknowledge :
    ℕ → ℕ → Option String → Status → Option Reason → Option String → Option String → Relay → Relay
acknowledge now socket trace_id status reason from to r =
    trace (relay_trace ack_event trace_id from to (some (status_name status)) now)
      (write socket (ack trace_id status reason) r)

-- `cur.last_seen = nowIso()`
unfoldable pub touch_entry : ℕ → ℕ → String → Relay → Relay
touch_entry now socket k r = elim (get k r.entries) [
  | none ↦ r
  | some cur ↦
      if cur.socket == socket
      then record r { entries = put k (record cur { last_seen = now }) r.entries }
      else r
]

-- The socket that `to` leads to in the two tables.
unfoldable pub route_in : (ℕ → Bool) → String → Dict Entry → Dict String → Option ℕ
route_in destroyed to entries latest_by_node = elim (get to latest_by_node) [
  | none ↦ none
  | some session ↦ if str_eq session "" then none else elim (get (reg_key to session) entries) [
    | none ↦ none
    | some target ↦ if destroyed target.socket then none else some target.socket
  ]
]

abbrev pub route : (ℕ → Bool) → String → Relay → Option ℕ
route destroyed to r = route_in destroyed to r.entries r.latest_by_node

-- A `relay` message on a connection that has not registered.
unfoldable pub on_unregistered :
    ℕ → ℕ → Option String → Option String → Option String → Relay → Relay
on_unregistered now socket to_shown trace_id kind r =
    acknowledge now socket trace_id status_invalid (some not_registered) none to_shown (
      write socket must_register
        (trace (relay_trace dropped_invalid trace_id none to_shown kind now) r))

-- A `relay` message of node `from` to the node `to`.
unfoldable pub forward :
    ℕ → (ℕ → Bool) → ℕ → String → String → Option String → Option String → String → Relay → Relay
forward now destroyed socket from to trace_id kind payload r =
    let received = trace (relay_trace relay_received trace_id (some from) (some to) kind now) r in
    elim (route destroyed to r) [
      | none ↦
          acknowledge now socket trace_id status_no_target (some no_target) (some from) (some to) (
            write socket (dropped to) (
              trace (relay_trace dropped_no_target trace_id (some from) (some to) kind now)
                received))
      | some target ↦ acknowledge now socket trace_id status_forwarded none (some from) (some to) (
          write socket (relayed to) (
            trace (relay_trace forwarded trace_id (some from) (some to) kind now)
              (write target (deliver from payload) received)))
    ]

-- The `relay` branch.
unfoldable pub on_relay :
    ℕ
    → (ℕ → Bool)
    → ℕ
    → Option String
    → Option String
    → Option String
    → Option String
    → String
    → Relay
    → Relay
on_relay now destroyed socket to to_shown trace_id kind payload r = elim (r.regs socket) [
  | none ↦ on_unregistered now socket to_shown trace_id kind r
  | some reg ↦
      let seen = touch_entry now socket (reg_key reg.node_id reg.session_id) r in
      if str_eq (target_name to) ""
      then acknowledge now socket trace_id status_invalid (some invalid_to) (some reg.node_id) none
          (write socket to_required
            (trace (relay_trace dropped_invalid trace_id (some reg.node_id) none kind now) seen))
      else forward now destroyed socket reg.node_id (target_name to) trace_id kind payload seen
]

unfoldable pub on_message : ℕ → (ℕ → Bool) → ℕ → Message → Relay → Relay
on_message now destroyed socket (register_message node_id session_id) r =
    on_register now socket node_id session_id r
on_message now destroyed socket (relay_message to to_shown trace_id kind payload) r =
    on_relay now destroyed socket to to_shown trace_id kind payload r
on_message now destroyed socket other_message r = r

-- One frame or socket event. A pong is no text frame, so a ping leaves the record unchanged.
unfoldable pub handle : ℕ → (ℕ → Bool) → ℕ → Incoming → Relay → Relay
handle now destroyed socket close_frame r =
    let cleaned = cleanup now socket r in record cleaned { ended = cleaned.ended ++ socket ∷ [] }
handle now destroyed socket ping_frame r = r
handle now destroyed socket other_frame r = r
handle now destroyed socket (text_frame none) r = r
handle now destroyed socket (text_frame (some m)) r = on_message now destroyed socket m r
handle now destroyed socket socket_gone r = cleanup now socket r
