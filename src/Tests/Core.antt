-- ===== src/Tests/Core.antt =====
-- The relay core on concrete events.
use a2a_fun.Relay.Json.{
  utf8_width, utf8_length, escaped_width, escaped_length, text_size, members_size, object_size,
}
use a2a_fun.Prelude.{
  String, ◌≡◌, refl, ◌≢◌, true, false, Option, none, some, List, [], ◌∷◌, arith, eq_iff, get, trim,
}
use a2a_fun.Relay.Core.{
  is_node_id, reply_size, say, touch, on_register, target_of, send_to, on_send, on_text, on_frame,
  handle_core, deliver_message, Core, register_message, send_message, Incoming, close_frame,
  text_frame,
}
use a2a_fun.Relay.Core.Binding.{Event, handle_all, target-register}

abbrev empty_core : Core
empty_core = record {
  conns = [];
  socket_to_node = λ _. none;
  is_closed = λ _. false;
  outbox = [];
  shut = [];
}

abbrev others : List Event
others =
    record {
      now = 5;
      fresh_id = "msg:1";
      socket = 2;
      incoming = text_frame (some (register_message "b"));
    }
    ∷ record {
      now = 6;
      fresh_id = "msg:2";
      socket = 2;
      incoming = text_frame (some (send_message "b" "a" "m" (some "t") "1"));
    }
    ∷ record { now = 7; fresh_id = "msg:3"; socket = 2; incoming = close_frame }
    ∷ []

b_is_not_a : trim "b" ≢ "a"
unfolding trim
b_is_not_a e = ground (arith, eq_iff "b" "a")

a_is_node_id : is_node_id "a" ≡ true
unfolding is_node_id
a_is_node_id = refl

a_trimmed : trim "a" ≡ "a"
unfolding trim
a_trimmed = refl

target-register_example :
    target_of "a" (handle_all others (on_register 4 1 "a" empty_core)) ≡ some 1
target-register_example =
    target-register "a" 4 1 "a" others empty_core a_trimmed a_is_node_id (λ k e. cc)
      (
        (ground arith, λ e. b_is_not_a (some_injective e)),
        ((ground arith, λ e. cc), ((ground arith, λ e. cc), tt)),
      )
  where
    some_injective : {s t : String} → ◌≡◌ {A = Option String} (some s) (some t) → s ≡ t
    some_injective e = ground arith

abbrev two_nodes : Core
two_nodes = record empty_core {
  conns =
      ("a", record { socket = 1; last_seen = 10 })
      ∷ ("b", record { socket = 2; last_seen = 95000 })
      ∷ [];
}

abbrev forged : Incoming
forged = text_frame (some (send_message "a" "b" "m" (some "t") "1"))

-- A socket that has never registered sends under any name.
unregistered_sender :
    (handle_core 8 "msg:9" 7 forged two_nodes).outbox
    ≡ (2, deliver_message "a" "b" "m" "t" "1") ∷ []
unfolding handle_core on_frame on_text on_send send_to say touch is_node_id trim get reply_size
    object_size members_size text_size escaped_length escaped_width utf8_length utf8_width
unregistered_sender = refl
