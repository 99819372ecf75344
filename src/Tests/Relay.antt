-- ===== src/Tests/Relay.antt =====
-- The relay on concrete buffers and messages.
use a2a_fun.Relay.Json.{
  utf8_width, utf8_length, escaped_width, escaped_length, text_size, members_size, object_size,
}
use a2a_fun.Prelude.{
  ℕ, ◌%◌, ◌≡◌, refl, Bool, false, none, some, List, [], ◌∷◌, ◌++◌, map, arith, eq_iff,
  if◌then◌else◌, get, put, delete, trim,
}
use a2a_fun.Relay.Frames.{write_frame, take_frame, read_ws_frames}
use a2a_fun.Relay.Frames.Single.{take_frame-write}
use a2a_fun.Relay.Frames.Stream.{read_ws_frames-append, write_texts, text, read-write_texts}
use a2a_fun.Relay.V2.{
  empty_relay, push_trace, trace, notice_size, reply_size, write, validate_id, reg_key, best_of,
  recompute_latest, owns, status_forwarded, relayed, ack, deliver, Relay,
}
use a2a_fun.Relay.V2.Server.{
  cleanup, replace_old, register, on_register, target_name, acknowledge, touch_entry, route_in,
  route, on_unregistered, forward, on_relay, on_message, handle,
}
use a2a_fun.Relay.V2.Routing.{route-register}
use a2a_fun.Relay.V2.Replies.{relay_replies, short_replies, outbox-on_relay}

abbrev two_texts : List (List ℕ)
two_texts = (104 ∷ 105 ∷ []) ∷ (111 ∷ []) ∷ []

abbrev stream : List ℕ
stream = 0x81 ∷ 2 ∷ 104 ∷ 105 ∷ 0x81 ∷ 1 ∷ 111 ∷ []

stream_written : write_texts two_texts ≡ some stream
unfolding write_texts write_frame
stream_written = refl

read-write_texts_example : read_ws_frames stream ≡ (map text two_texts, [])
read-write_texts_example = read-write_texts two_texts stream stream_written

-- A masked text frame of a client, cut in the middle.
abbrev masked_part : List ℕ
masked_part = 0x81 ∷ 0x82 ∷ 1 ∷ 2 ∷ []

read_ws_frames-append_example : read_ws_frames (masked_part ++ 3 ∷ 4 ∷ 105 ∷ 107 ∷ []) ≡ (
  (read_ws_frames masked_part).0
      ++ (read_ws_frames ((read_ws_frames masked_part).1 ++ 3 ∷ 4 ∷ 105 ∷ 107 ∷ [])).0,
  (read_ws_frames ((read_ws_frames masked_part).1 ++ 3 ∷ 4 ∷ 105 ∷ 107 ∷ [])).1,
)
unfolding read_ws_frames
read_ws_frames-append_example = read_ws_frames-append masked_part (3 ∷ 4 ∷ 105 ∷ 107 ∷ []) tt

unmasked : (read_ws_frames (masked_part ++ 3 ∷ 4 ∷ 105 ∷ 107 ∷ [])).0 ≡ text (104 ∷ 105 ∷ []) ∷ []
unfolding read_ws_frames text
unmasked = refl

take_frame-write_example :
    take_frame ((0x81 ∷ 1 ∷ 111 ∷ []) ++ 7 ∷ [])
    ≡ some (record { opcode = 0x81 % 16; payload = 111 ∷ [] }, 7 ∷ [])
unfolding write_frame
take_frame-write_example =
    take_frame-write 0x81 (111 ∷ []) (0x81 ∷ 1 ∷ 111 ∷ []) (7 ∷ []) (omega arith) refl

abbrev alive : ℕ → Bool
alive _ = false

relay_steps : Unit {0}
unfolding handle on_message on_register on_relay cleanup register replace_old trace push_trace write
    validate_id reg_key get put delete owns best_of recompute_latest on_unregistered forward
    acknowledge touch_entry route_in target_name
relay_steps = tt

-- Node "b" on socket 2, then node "a" on socket 1.
abbrev both : Relay
both = register 20 1 "a" "s1" (register 10 2 "b" "s2" empty_relay)

route-register_example :
    route alive "a" (register 20 1 "a" "s1" empty_relay) ≡ (if alive 1 then none else some 1)
route-register_example =
    route-register 20 1 "a" "s1" empty_relay alive (ground (arith, eq_iff "s1" ""))

outbox-on_relay_example :
    (on_relay 30 alive 1 (some " b ") (some " b ") none none "{}" both).outbox
    ≡ both.outbox
      ++ short_replies (
          relay_replies 1 none "{}"
            (both.regs 1)
            (target_name (some " b "))
            (route alive (target_name (some " b ")) both))
outbox-on_relay_example = outbox-on_relay 30 alive 1 (some " b ") (some " b ") none none "{}" both

delivered :
    relay_replies 1 none "{}"
      (both.regs 1)
      (target_name (some " b "))
      (route alive (target_name (some " b ")) both)
    ≡ (2, deliver "a" "{}") ∷ (1, relayed "b") ∷ (1, ack none status_forwarded none) ∷ []
unfolding relay_steps trim
delivered = refl

-- `{"ok":true,"type":"relayed","to":"b"}`
relayed_size : reply_size (relayed "b") ≡ 37
unfolding reply_size notice_size object_size members_size text_size escaped_length escaped_width
    utf8_length utf8_width
relayed_size = refl

-- Socket 3 takes the registration of socket 1 over, then socket 1 ends.
abbrev taken : Relay
taken = register 30 3 "a" "s1" both
