-- ===== src/Relay/Core/Routes.antt =====
-- Where the relay core delivers a message for a node, event after event.
use a2a_fun.Prelude.{
  ℕ, String, ◌≡◌, refl, ap, ◌∙◌, ◌≢◌, inl, inr, true, ◌&&◌, Option, none, some, arith, eq_iff, ◌==◌,
  if◌then◌else◌, Bool-cases, Option-cases, get, get-put, get-delete, get-put_self, trim,
}
use a2a_fun.Relay.Core.{
  is_node_id, say, close_socket, touch, forget, disconnect, replace_conn, on_register,
  message_id_of, valid_topic, target_of, send_to, on_send, on_text, on_frame, handle_core, Conn,
  pong, Core, Message, register_message, send_message, other_message, Incoming, ping_frame,
  close_frame, other_frame, text_frame, socket_gone,
}

-- The name that an event registers, if it does.
abbrev pub registered_name : Incoming → Option String
registered_name (text_frame (some (register_message from))) = some (trim from)
registered_name _ = none

module _ (node : String) (now socket : ℕ) where
  get-touch :
      (c : Core)
      → c.socket_to_node socket ≢ some node
      → get node (touch now socket c).conns ≡ get node c.conns
  unfolding touch
  get-touch c h = elim (Option-cases (c.socket_to_node socket)) [
    | inl e ↦ rw (e, touch) refl
    | inr (name, e) ↦
        let other : name ≢ node = λ same. h (e ∙ ap some same) in
        let moved = get-put name node (record { socket = socket; last_seen = now }) c.conns in
        ground (arith, eq_iff name node)
  ]

  get-forget :
      (c : Core)
      → c.socket_to_node socket ≢ some node
      → get node (forget socket c).conns ≡ get node c.conns
  unfolding forget
  get-forget c h = elim (Option-cases (c.socket_to_node socket)) [
    | inl e ↦ rw (e, forget) refl
    | inr (name, e) ↦
        let other : name ≢ node = λ same. h (e ∙ ap some same) in
        let gone = get-delete name node c.conns in ground (arith, eq_iff name node)
  ]

  get-disconnect :
      (c : Core)
      → c.socket_to_node socket ≢ some node
      → get node (disconnect socket c).conns ≡ get node c.conns
  unfolding disconnect close_socket
  get-disconnect c h =
      let shut = record c { is_closed = λ k. if k == socket then true else c.is_closed k } in
      let kept = get-forget shut h in ground arith

  conns-replace_conn :
      (prev : Option Conn) (c : Core) → (replace_conn prev socket c).conns ≡ c.conns
  unfolding replace_conn close_socket say
  conns-replace_conn none c = refl
  conns-replace_conn (some prev) c = ground arith

  get-on_register :
      (from : String) (c : Core)
      → trim from ≢ node
      → get node (on_register now socket from c).conns ≡ get node c.conns
  unfolding on_register say
  get-on_register from c h =
      let kept = conns-replace_conn (get (trim from) c.conns) c in
      let added = get-put (trim from) node (record { socket = socket; last_seen = now }) c.conns in
      ground (arith, eq_iff (trim from) node)

  -- An accepted registration leads the node's messages to the socket that registered.
  pub target-on_register :
      (from : String) (c : Core)
      → trim from ≡ node
      → is_node_id node ≡ true
      → target_of node (on_register now socket from c) ≡ some socket
  unfolding on_register say
  target-on_register from c is valid =
      let kept = conns-replace_conn (get (trim from) c.conns) c in
      let stored = get-put_self (trim from) (record { socket = socket; last_seen = now }) c.conns in
      ground (arith, valid)

  conns-send_to :
      (target : Option ℕ) (from to id : String) (topic : Option String) (payload : String)
      (c : Core)
      → (send_to socket target from to id topic payload c).conns ≡ c.conns
  unfolding send_to say
  conns-send_to target from to id none payload c = refl
  conns-send_to none from to id (some topic) payload c = refl
  conns-send_to (some target) from to id (some topic) payload c = refl

  conns-on_send :
      (fresh_id from to given : String) (topic : Option String) (payload : String) (c : Core)
      → (on_send fresh_id socket from to given topic payload c).conns ≡ c.conns
  unfolding on_send say
  conns-on_send fresh_id from to given topic payload c =
      elim (Bool-cases (is_node_id (trim from) && is_node_id (trim to))) [
        | inr bad ↦ rw (bad, on_send) refl
        | inl good ↦
            rw (good, on_send)
              (conns-send_to (target_of (trim to) c) (trim from) (trim to)
                (message_id_of fresh_id given) (valid_topic topic) payload c)
      ]

  get-on_text :
      (fresh_id : String) (m : Option Message) (c : Core)
      → registered_name (text_frame m) ≢ some node
      → get node (on_text now fresh_id socket m c).conns ≡ get node c.conns
  unfolding on_text say
  get-on_text fresh_id none c h = refl
  get-on_text fresh_id (some (register_message from)) c h =
      get-on_register from c (λ is. h (ap some is))
  get-on_text fresh_id (some (send_message from to given topic payload)) c h =
      ap (get node) (conns-on_send fresh_id from to given topic payload c)
  get-on_text fresh_id (some other_message) c h = refl

  get-on_frame :
      (fresh_id : String) (i : Incoming) (c : Core)
      → c.socket_to_node socket ≢ some node
      → registered_name i ≢ some node
      → get node (on_frame now fresh_id socket i c).conns ≡ get node c.conns
  unfolding on_frame say
  get-on_frame fresh_id ping_frame c free h = get-touch (say socket pong c) free
  get-on_frame fresh_id close_frame c free h = get-disconnect c free
  get-on_frame fresh_id other_frame c free h = refl
  get-on_frame fresh_id socket_gone c free h = get-disconnect c free
  get-on_frame fresh_id (text_frame m) c free h =
      get-on_text fresh_id m (touch now socket c) h ∙ get-touch c free

  -- One event of a socket that is not bound to the node, and that does not register the node.
  pub get-handle_core :
      (fresh_id : String) (i : Incoming) (c : Core)
      → c.socket_to_node socket ≢ some node
      → registered_name i ≢ some node
      → get node (handle_core now fresh_id socket i c).conns ≡ get node c.conns
  unfolding handle_core
  get-handle_core fresh_id i c free h = elim (Bool-cases (c.is_closed socket)) [
    | inl gone ↦ rw (gone, handle_core) refl
    | inr up ↦ rw (up, handle_core) (get-on_frame fresh_id i c free h)
  ]
