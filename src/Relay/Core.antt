-- ===== src/Relay/Core.antt =====
-- The handlers of src/relay/relayCoreV0_1.mjs, a frame or socket event at a time, and its sweep. The
-- metadata of a connection, which only the log reads, is left out. `now` is the clock at the event
-- and `fresh_id` the text `msg:` with the identifier that `crypto.randomUUID` would give.
pub mod Routes
pub mod Sweep
pub mod Binding
use a2a_fun.Relay.Json.{utf8_length, text_size, text_or_null_size, bool_size, object_size, frames}
use a2a_fun.Prelude.{
  ℕ, ◌-◌, String, Bool, true, false, not, ◌&&◌, ◌||◌, Option, none, some, List, [], ◌∷◌, ◌++◌,
  str_eq, ltb, leb, ◌==◌, if◌then◌else◌, Dict, get, put, delete, trim, utf16_length,
}

pub record Conn : Type 0 where
  pub socket : ℕ
  pub last_seen : ℕ

pub data ErrorCode : Type 0 where
  bad_json replaced_by_new_connection invalid_from_to invalid_topic : ErrorCode
  no_such_target idle_timeout unknown_message_type : ErrorCode

pub data Reply : Type 0 where
  pong : Reply
  error_reply : Option String → ErrorCode → Reply
  register_ack : String → Reply
  register_refused : Reply
  -- `DELIVER`; the payload is its JSON text
  deliver_message : (from to message_id topic payload : String) → Reply

-- `closed` is the flag of a connection's closure, `outbox` what has been written, in order, and
-- `shut` the sockets that have been ended and destroyed.
pub record Core : Type 0 where
  pub conns : Dict Conn
  pub socket_to_node : ℕ → Option String
  pub is_closed : ℕ → Bool
  pub outbox : List (ℕ × Reply)
  pub shut : List ℕ

-- `from`, `to` and `message_id` are what `String(x || '')` makes of the fields, `topic` is `none`
-- for no string, `payload` the JSON text of `data.payload ?? null`.
pub data Message : Type 0 where
  register_message : (from : String) → Message
  send_message : (from to message_id : String) (topic : Option String) (payload : String) → Message
  other_message : Message

pub data Incoming : Type 0 where
  ping_frame close_frame other_frame : Incoming
  -- `none` if the text is no JSON object
  text_frame : Option Message → Incoming
  -- the events `error`, `end` and `close`
  socket_gone : Incoming

unfoldable pub is_node_id : String → Bool
unfolding trim utf16_length
is_node_id s = not (str_eq (trim s) "") && leb (utf16_length (trim s)) 120

abbrev pub error_name : ErrorCode → String
error_name bad_json = "BAD_JSON"
error_name replaced_by_new_connection = "REPLACED_BY_NEW_CONNECTION"
error_name invalid_from_to = "INVALID_FROM_TO"
error_name invalid_topic = "INVALID_TOPIC"
error_name no_such_target = "NO_TARGET"
error_name idle_timeout = "IDLE_TIMEOUT"
error_name unknown_message_type = "UNKNOWN_TYPE"

-- The bytes of a reply; a payload is its JSON text already. A pong gives back the payload of a frame
-- that was read, which is short enough.
unfoldable pub reply_size : Reply → ℕ
reply_size pong = 0
reply_size (error_reply none error) =
    object_size (("type", text_size "ERROR") ∷ ("error", text_size (error_name error)) ∷ [])
reply_size (error_reply (some message_id) error) = object_size (
    ("type", text_size "ERROR")
    ∷ ("message_id", text_size message_id)
    ∷ ("error", text_size (error_name error))
    ∷ [])
reply_size (register_ack node_id) = object_size (
    ("type", text_size "REGISTER_ACK")
    ∷ ("to", text_size node_id)
    ∷ ("accepted", bool_size true)
    ∷ [])
reply_size register_refused = object_size (
    ("type", text_size "REGISTER_ACK")
    ∷ ("to", text_or_null_size none)
    ∷ ("accepted", bool_size false)
    ∷ ("error", text_size "INVALID_NODE_ID")
    ∷ [])
reply_size (deliver_message from to message_id topic payload) =
    let data_size =
      object_size (("topic", text_size topic) ∷ ("payload", utf8_length payload) ∷ []) in
    object_size (
      ("type", text_size "DELIVER")
      ∷ ("from", text_size from)
      ∷ ("to", text_size to)
      ∷ ("message_id", text_size message_id)
      ∷ ("data", data_size)
      ∷ [])

-- `writeWsText`, and `writeWsPong` for a pong
unfoldable pub say : ℕ → Reply → Core → Core
say socket reply c = record c { outbox = c.outbox ++ frames (reply_size reply) (socket, reply) }

unfoldable pub close_socket : ℕ → Core → Core
close_socket socket c = record c { shut = c.shut ++ socket ∷ [] }

abbrev pub is_known : Option Conn → Bool
is_known none = false
is_known (some _) = true

unfoldable pub touch : ℕ → ℕ → Core → Core
touch now socket c = elim (c.socket_to_node socket) [
  | none ↦ c
  | some node_id ↦
      if not (str_eq node_id "") && is_known (get node_id c.conns)
      then record c { conns = put node_id (record { socket = socket; last_seen = now }) c.conns }
      else c
]

abbrev pub set_node : ℕ → Option String → Core → Core
set_node socket node c = record c {
  socket_to_node = λ k. if k == socket then node else c.socket_to_node k;
}

abbrev pub is_conn_of : ℕ → Option Conn → Bool
is_conn_of socket none = false
is_conn_of socket (some conn) = conn.socket == socket

-- The tables after a socket has gone: its node's entry is removed if it is the socket's own.
unfoldable pub forget : ℕ → Core → Core
forget socket c = elim (c.socket_to_node socket) [
  | none ↦ c
  | some node_id ↦
      if str_eq node_id ""
      then c
      else let gone = set_node socket none c in
        if is_conn_of socket (get node_id c.conns)
        then record gone { conns = delete node_id c.conns }
        else gone
]

unfoldable pub disconnect : ℕ → Core → Core
disconnect socket c =
    if c.is_closed socket
    then c
    else close_socket socket
        (forget socket (record c { is_closed = λ k. if k == socket then true else c.is_closed k }))

-- The notice to the socket that is replaced, which is then closed.
unfoldable pub replace_conn : Option Conn → ℕ → Core → Core
replace_conn none socket c = c
replace_conn (some prev) socket c =
    if prev.socket == socket
    then c
    else close_socket prev.socket (say prev.socket (error_reply none replaced_by_new_connection) c)

-- The branch `REGISTER`.
unfoldable pub on_register : ℕ → ℕ → String → Core → Core
on_register now socket from c =
    let node_id = trim from in
    if is_node_id node_id
    then (let c1 = replace_conn (get node_id c.conns) socket c in
        let c2 = record c1 {
          conns = put node_id (record { socket = socket; last_seen = now }) c1.conns;
        } in
        say socket (register_ack node_id) (set_node socket (some node_id) c2))
    else say socket register_refused c

abbrev pub message_id_of : String → String → String
message_id_of fresh_id given = if is_node_id given then given else fresh_id

abbrev pub valid_topic : Option String → Option String
valid_topic none = none
valid_topic (some t) = if str_eq t "" || ltb 120 (utf16_length t) then none else some t

-- The socket of the node, which is written to whether it is destroyed or not.
abbrev pub target_of : String → Core → Option ℕ
target_of to c = elim (get to c.conns) [ none ↦ none | some conn ↦ some conn.socket ]

unfoldable pub send_to :
    ℕ → Option ℕ → String → String → String → Option String → String → Core → Core
send_to socket target from to message_id none payload c =
    say socket (error_reply (some message_id) invalid_topic) c
send_to socket none from to message_id (some topic) payload c =
    say socket (error_reply (some message_id) no_such_target) c
send_to socket (some target) from to message_id (some topic) payload c =
    say target (deliver_message from to message_id topic payload) c

-- The branch `SEND`.
unfoldable pub on_send :
    String → ℕ → String → String → String → Option String → String → Core → Core
on_send fresh_id socket from to given topic payload c =
    let message_id = message_id_of fresh_id given in
    if is_node_id (trim from) && is_node_id (trim to)
    then send_to socket (target_of (trim to) c) (trim from) (trim to) message_id (valid_topic topic)
        payload c
    else say socket (error_reply (some message_id) invalid_from_to) c

unfoldable pub on_text : ℕ → String → ℕ → Option Message → Core → Core
on_text now fresh_id socket none c = say socket (error_reply none bad_json) c
on_text now fresh_id socket (some (register_message from)) c = on_register now socket from c
on_text now fresh_id socket (some (send_message from to given topic payload)) c =
    on_send fresh_id socket from to given topic payload c
on_text now fresh_id socket (some other_message) c =
    say socket (error_reply none unknown_message_type) c

-- A frame of an open connection.
unfoldable pub on_frame : ℕ → String → ℕ → Incoming → Core → Core
on_frame now fresh_id socket ping_frame c = touch now socket (say socket pong c)
on_frame now fresh_id socket close_frame c = disconnect socket c
on_frame now fresh_id socket other_frame c = c
on_frame now fresh_id socket (text_frame m) c = on_text now fresh_id socket m (touch now socket c)
on_frame now fresh_id socket socket_gone c = disconnect socket c

unfoldable pub handle_core : ℕ → String → ℕ → Incoming → Core → Core
handle_core now fresh_id socket i c =
    if c.is_closed socket then c else on_frame now fresh_id socket i c

abbrev pub is_idle : ℕ → ℕ → Conn → Bool
is_idle now timeout conn = ltb timeout (now - conn.last_seen)

-- The sweep over the entries in their order; an idle one is told, closed and deleted.
unfoldable pub sweep_over : ℕ → ℕ → Dict Conn → Core → Core
sweep_over now timeout [] c = c
sweep_over now timeout ((node_id, conn) ∷ rest) c =
    let kept = sweep_over now timeout rest c in
    let told = close_socket conn.socket (say conn.socket (error_reply none idle_timeout) c) in
    let swept = sweep_over now timeout rest (record told { conns = delete node_id told.conns }) in
    if is_idle now timeout conn then swept else kept

unfoldable pub sweep : ℕ → ℕ → Core → Core
sweep now timeout c = sweep_over now timeout c.conns c
