-- ===== src/Relay/V2.antt =====
-- The relay of explicit registrations, src/relay/relayServerV2.mjs: its tables and the helpers of
-- `createRelayServerV2`. A socket is a number, a time is a number of milliseconds (the source
-- compares ISO strings of one width), a payload is its JSON text.
pub mod Server
pub mod Traces
pub mod Routing
pub mod Replies
use Prim.Native.String
use a2a_fun.Relay.Json.{utf8_length, text_size, text_or_null_size, bool_size, object_size, frames}
use a2a_fun.Prelude.{
  ℕ, ◌-◌, String, Bool, true, false, Option, none, some, List, [], ◌∷◌, ◌++◌, str_eq, ltb, ◌==◌,
  if◌then◌else◌, length, drop, Outcome, ok, throw, Dict, put, delete, trim, utf16_length,
}

pub record Entry : Type 0 where
  pub node_id : String
  pub session_id : String
  pub socket : ℕ
  pub connected_at : ℕ
  pub last_seen : ℕ

pub data EventName : Type 0 where
  register_event unregister_event relay_received dropped_invalid dropped_no_target : EventName
  forwarded ack_event : EventName

pub record Trace : Type 0 where
  pub event : EventName
  pub trace_id : Option String
  pub from : Option String
  pub to : Option String
  pub kind : Option String
  pub ts : ℕ

pub data Status : Type 0 where
  status_invalid status_no_target status_forwarded : Status

pub data Reason : Type 0 where
  required too_long not_registered invalid_to no_target : Reason

pub data Code : Type 0 where
  invalid_node_id invalid_session_id : Code

-- What is written to a socket.
pub data Reply : Type 0 where
  id_error : Code → Reason → Reply
  replaced registered : String → String → Reply
  must_register to_required : Reply
  dropped relayed : String → Reply
  ack : Option String → Status → Option Reason → Reply
  deliver : String → String → Reply

pub record Registration : Type 0 where
  pub node_id : String
  pub session_id : String

-- `regs` is the variable `reg` of each connection; `outbox` records what `writeWsText` has
-- written and `ended` the calls of `socket.end()`, the oldest first.
pub record Relay : Type 0 where
  pub entries : Dict Entry
  pub latest_by_node : Dict String
  pub traces : List Trace
  pub regs : ℕ → Option Registration
  pub outbox : List (ℕ × Reply)
  pub ended : List ℕ

abbrev pub empty_relay : Relay
empty_relay = record {
  entries = [];
  latest_by_node = [];
  traces = [];
  regs = λ _. none;
  outbox = [];
  ended = [];
}

abbrev pub trace_cap : ℕ
trace_cap = 1000

-- `traces.splice(0, traces.length - TRACE_CAP)` when there are too many.
unfoldable pub push_trace : List Trace → Trace → List Trace
push_trace traces t =
    let all = traces ++ t ∷ [] in
    if ltb trace_cap (length all) then drop (length all - trace_cap) all else all

unfoldable pub trace : Trace → Relay → Relay
trace t r = record r { traces = push_trace r.traces t }

abbrev pub code_name : Code → String
code_name invalid_node_id = "INVALID_NODE_ID"
code_name invalid_session_id = "INVALID_SESSION_ID"

abbrev pub reason_name : Reason → String
reason_name required = "required"
reason_name too_long = "too_long"
reason_name not_registered = "NOT_REGISTERED"
reason_name invalid_to = "INVALID_TO"
reason_name no_target = "NO_TARGET"

abbrev pub reason_text : Option Reason → Option String
reason_text none = none
reason_text (some reason) = some (reason_name reason)

abbrev pub status_name : Status → String
status_name status_invalid = "dropped_invalid"
status_name status_no_target = "dropped_no_target"
status_name status_forwarded = "forwarded"

-- `{ ok: false, error: { code, reason } }`
unfoldable pub error_size : String → String → ℕ
error_size code reason =
    let error = object_size (("code", text_size code) ∷ ("reason", text_size reason) ∷ []) in
    object_size (("ok", bool_size false) ∷ ("error", error) ∷ [])

-- `{ ok, type, node_id, session_id }`
unfoldable pub registration_size : Bool → String → String → String → ℕ
registration_size accepted type node_id session_id = object_size (
    ("ok", bool_size accepted)
    ∷ ("type", text_size type)
    ∷ ("node_id", text_size node_id)
    ∷ ("session_id", text_size session_id)
    ∷ [])

-- `{ ok: true, type, to }`
unfoldable pub notice_size : String → String → ℕ
notice_size type to =
    object_size (("ok", bool_size true) ∷ ("type", text_size type) ∷ ("to", text_size to) ∷ [])

-- The bytes of a reply; a payload is its JSON text already.
unfoldable pub reply_size : Reply → ℕ
reply_size (id_error code reason) = error_size (code_name code) (reason_name reason)
reply_size (replaced node_id session_id) = registration_size false "replaced" node_id session_id
reply_size (registered node_id session_id) = registration_size true "registered" node_id session_id
reply_size must_register = error_size "NOT_REGISTERED" "must register first"
reply_size to_required = error_size "INVALID_TO" "to required"
reply_size (dropped to) = notice_size "dropped" to
reply_size (relayed to) = notice_size "relayed" to
reply_size (ack trace_id status reason) = object_size (
    ("type", text_size "ack")
    ∷ ("trace_id", text_or_null_size trace_id)
    ∷ ("status", text_size (status_name status))
    ∷ ("reason", text_or_null_size (reason_text reason))
    ∷ [])
reply_size (deliver from payload) =
    object_size (("from", text_size from) ∷ ("payload", utf8_length payload) ∷ [])

-- `writeWsText`
unfoldable pub write : ℕ → Reply → Relay → Relay
write socket reply r = record r { outbox = r.outbox ++ frames (reply_size reply) (socket, reply) }

unfoldable pub validate_id : Option String → Outcome Reason String
unfolding trim utf16_length
validate_id raw =
    let s : String = elim raw [ none ↦ "" | some t ↦ trim t ] in
    if str_eq s ""
    then throw required
    else if ltb 128 (utf16_length s)
    then throw too_long
    else ok s

unfoldable pub reg_key : String → String → String
reg_key node_id session_id = String.◌++◌ node_id (String.◌++◌ "::" session_id)

-- The scan of `recomputeLatest`: the entry of the node with the greatest time, the first among equals.
unfoldable pub best_of : String → Option Entry → Dict Entry → Option Entry
best_of node_id best [] = best
best_of node_id best ((_, e) ∷ rest) =
    best_of node_id
      (if str_eq e.node_id node_id
        then elim best [
          | none ↦ some e
          | some b ↦ if ltb b.connected_at e.connected_at then some e else some b
        ]
        else best)
      rest

unfoldable pub recompute_latest : String → Relay → Relay
recompute_latest node_id r = record r {
  latest_by_node = elim (best_of node_id none r.entries) [
    | none ↦ delete node_id r.latest_by_node
    | some best ↦ put node_id best.session_id r.latest_by_node
  ];
}

abbrev pub set_reg : ℕ → Option Registration → Relay → Relay
set_reg socket reg r = record r { regs = λ k. if k == socket then reg else r.regs k }

-- `cur && cur.socket === socket`
unfoldable pub owns : Option Entry → ℕ → Bool
owns none socket = false
owns (some e) socket = e.socket == socket
