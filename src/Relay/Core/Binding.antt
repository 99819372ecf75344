-- ===== src/Relay/Core/Binding.antt =====
-- Which sockets are bound to a node, and that nobody else takes over its messages.
use a2a_fun.Relay.Core.Routes.{registered_name, target-on_register, get-handle_core}
use a2a_fun.Prelude.{
  ℕ, String, ◌≡◌, refl, ap, ◌∙◌, ◌≢◌, inl, inr, true, ◌&&◌, Option, none, some, List, [], ◌∷◌,
  arith, ◌==◌, if◌then◌else◌, ==_iff, Bool-cases, Option-cases, All, get, trim,
}
use a2a_fun.Relay.Core.{
  is_node_id, say, close_socket, touch, forget, disconnect, replace_conn, on_register,
  message_id_of, valid_topic, target_of, send_to, on_send, on_text, on_frame, handle_core, Conn,
  pong, Core, Message, register_message, send_message, other_message, Incoming, ping_frame,
  close_frame, other_frame, text_frame, socket_gone,
}

-- Every socket that is bound to the node afterwards was bound to it before.
abbrev BindsNoMore : String → Core → Core → Type 0
BindsNoMore node c d = (k : ℕ) → d.socket_to_node k ≡ some node → c.socket_to_node k ≡ some node

module _ (node : String) (now socket : ℕ) where
  nodes-touch : (c : Core) → (touch now socket c).socket_to_node ≡ c.socket_to_node
  unfolding touch
  nodes-touch c = elim (Option-cases (c.socket_to_node socket)) [
    | inl e ↦ rw (e, touch) refl
    | inr (name, e) ↦ ground arith
  ]

  forget-BindsNoMore : (c : Core) → BindsNoMore node c (forget socket c)
  unfolding forget
  forget-BindsNoMore c k e = elim (Option-cases (c.socket_to_node socket)) [
    | inl f ↦ rw (f, forget) at e
    | inr (name, f) ↦ ground arith
  ]

  disconnect-BindsNoMore : (c : Core) → BindsNoMore node c (disconnect socket c)
  unfolding disconnect close_socket
  disconnect-BindsNoMore c k e = elim (Bool-cases (c.is_closed socket)) [
    | inl gone ↦ rw (gone, disconnect) at e
    | inr up ↦
        let shut = record c { is_closed = λ j. if j == socket then true else c.is_closed j } in
        forget-BindsNoMore shut k (rw (up, disconnect) at e)
  ]

  nodes-replace_conn :
      (prev : Option Conn) (c : Core)
      → (replace_conn prev socket c).socket_to_node ≡ c.socket_to_node
  unfolding replace_conn close_socket say
  nodes-replace_conn none c = refl
  nodes-replace_conn (some prev) c = ground arith

  on_register-BindsNoMore :
      (from : String) (c : Core)
      → trim from ≢ node
      → BindsNoMore node c (on_register now socket from c)
  unfolding on_register say
  on_register-BindsNoMore from c h k e =
      let kept = nodes-replace_conn (get (trim from) c.conns) c in
      elim (Bool-cases (is_node_id (trim from))) [
        | inr bad ↦ rw (bad, on_register) at e
        | inl good ↦
            let bound = rw (good, on_register) at e in
            elim (Bool-cases (k == socket)) [
              | inl mine ↦
                  let same : some (trim from) ≡ some node = rw mine at bound in
                  absurd (h (ground arith))
              | inr other ↦ rw kept at (rw other at bound)
            ]
      ]

  nodes-send_to :
      (target : Option ℕ) (from to id : String) (topic : Option String) (payload : String)
      (c : Core)
      → (send_to socket target from to id topic payload c).socket_to_node ≡ c.socket_to_node
  unfolding send_to say
  nodes-send_to target from to id none payload c = refl
  nodes-send_to none from to id (some topic) payload c = refl
  nodes-send_to (some target) from to id (some topic) payload c = refl

  nodes-on_send :
      (fresh_id from to given : String) (topic : Option String) (payload : String) (c : Core)
      → (on_send fresh_id socket from to given topic payload c).socket_to_node ≡ c.socket_to_node
  unfolding on_send say
  nodes-on_send fresh_id from to given topic payload c =
      elim (Bool-cases (is_node_id (trim from) && is_node_id (trim to))) [
        | inr bad ↦ rw (bad, on_send) refl
        | inl good ↦
            rw (good, on_send)
              (nodes-send_to (target_of (trim to) c) (trim from) (trim to)
                (message_id_of fresh_id given) (valid_topic topic) payload c)
      ]

  on_text-BindsNoMore :
      (fresh_id : String) (m : Option Message) (c : Core)
      → registered_name (text_frame m) ≢ some node
      → BindsNoMore node c (on_text now fresh_id socket m c)
  unfolding on_text say
  on_text-BindsNoMore fresh_id none c h k e = e
  on_text-BindsNoMore fresh_id (some (register_message from)) c h k e =
      on_register-BindsNoMore from c (λ is. h (ap some is)) k e
  on_text-BindsNoMore fresh_id (some (send_message from to given topic payload)) c h k e =
      rw (nodes-on_send fresh_id from to given topic payload c) at e
  on_text-BindsNoMore fresh_id (some other_message) c h k e = e

  handle_core-BindsNoMore :
      (fresh_id : String) (i : Incoming) (c : Core)
      → registered_name i ≢ some node
      → BindsNoMore node c (handle_core now fresh_id socket i c)
  unfolding handle_core on_frame say
  handle_core-BindsNoMore fresh_id i c h k e = elim (Bool-cases (c.is_closed socket)) [
    | inl gone ↦ rw (gone, handle_core) at e
    | inr up ↦ live i h (rw (up, handle_core) at e)
  ]
    where
      live :
          (i : Incoming)
          → registered_name i ≢ some node
          → (on_frame now fresh_id socket i c).socket_to_node k ≡ some node
          → c.socket_to_node k ≡ some node
      live ping_frame h e = rw (nodes-touch (say socket pong c)) at e
      live close_frame h e = disconnect-BindsNoMore c k e
      live other_frame h e = e
      live socket_gone h e = disconnect-BindsNoMore c k e
      live (text_frame m) h e =
          let f = on_text-BindsNoMore fresh_id m (touch now socket c) h k e in
          rw (nodes-touch c) at f

-- An event of a connection, with the clock and the identifier at it.
abbrev pub Event : Type 0
Event = record { now : ℕ; fresh_id : String; socket : ℕ; incoming : Incoming }

pub handle_all : List Event → Core → Core
handle_all [] c = c
handle_all (e ∷ es) c = handle_all es (handle_core e.now e.fresh_id e.socket e.incoming c)

-- Of another socket than the owner's, and no registration of the node.
abbrev pub IsForeign : String → ℕ → Event → Type 0
IsForeign node owner e = (e.socket ≢ owner) × (registered_name e.incoming ≢ some node)

abbrev pub IsSoleOwner : String → ℕ → Core → Type 0
IsSoleOwner node owner c = (k : ℕ) → c.socket_to_node k ≡ some node → k ≡ owner

-- As long as no other socket is bound to a node and none registers it, whatever frames and events of
-- other sockets come, in any order, the messages for the node go where they went.
target-handle_all :
    (node : String) (owner : ℕ) (es : List Event) (c : Core)
    → IsSoleOwner node owner c
    → All (IsForeign node owner) es
    → target_of node (handle_all es c) ≡ target_of node c
unfolding handle_all
target-handle_all node owner [] c sole h = refl
target-handle_all node owner (e ∷ es) c sole (foreign, rest) =
    let free : c.socket_to_node e.socket ≢ some node = λ b. foreign.0 (sole e.socket b) in
    let next = handle_core e.now e.fresh_id e.socket e.incoming c in
    let kept = get-handle_core node e.now e.socket e.fresh_id e.incoming c free foreign.1 in
    let still : IsSoleOwner node owner next = λ k b.
      sole k (handle_core-BindsNoMore node e.now e.socket e.fresh_id e.incoming c foreign.1 k b) in
    target-handle_all node owner es next still rest
    ∙ ap (λ o. elim o as (λ _. Option ℕ) [ none ↦ none | some conn ↦ some conn.socket ]) kept

on_register-IsSoleOwner :
    (node : String) (now owner : ℕ) (from : String) (c : Core)
    → IsSoleOwner node owner c
    → IsSoleOwner node owner (on_register now owner from c)
unfolding on_register say
on_register-IsSoleOwner node now owner from c sole k e =
    let kept = nodes-replace_conn node now owner (get (trim from) c.conns) c in
    elim (Bool-cases (is_node_id (trim from))) [
      | inr bad ↦ sole k (rw (bad, on_register) at e)
      | inl good ↦
          let bound = rw (good, on_register) at e in
          elim (Bool-cases (k == owner)) [
            | inl mine ↦ (==_iff k owner).0 mine
            | inr other ↦ sole k (rw kept at (rw other at bound))
          ]
    ]

-- Once a socket has registered a node that no other socket is bound to, the messages for the node go
-- to that socket, whatever frames and events other sockets send, as long as none of them registers
-- the node.
pub target-register :
    (node : String) (now owner : ℕ) (from : String) (es : List Event) (c : Core)
    → trim from ≡ node
    → is_node_id node ≡ true
    → IsSoleOwner node owner c
    → All (IsForeign node owner) es
    → target_of node (handle_all es (on_register now owner from c)) ≡ some owner
target-register node now owner from es c named valid sole foreign =
    target-handle_all node owner es (on_register now owner from c)
      (on_register-IsSoleOwner node now owner from c sole) foreign
    ∙ target-on_register node now owner from c named valid
