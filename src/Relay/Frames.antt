-- ===== src/Relay/Frames.antt =====
-- The WebSocket framing of src/relay/relayCoreV0_1.mjs: `writeWsText`, `writeWsPong`, `readWsFrames`.
-- A byte is a number below 256 and a buffer is a list of bytes.
pub mod Single
pub mod Stream
use a2a_fun.Prelude.{
  ℕ, zero, suc, ◌+◌, ◌*◌, ◌/◌, ◌%◌, bit_xor, Bool, Option, none, some, List, [], ◌∷◌, ltb, leb,
  ◌==◌, if◌then◌else◌, length, take, drop, get_or,
}

pub record Frame : Type 0 where
  pub opcode : ℕ
  pub payload : List ℕ

-- The header that both writers build from the first byte; a payload of 65536 bytes or more is not
-- written at all.
unfoldable pub write_frame : ℕ → List ℕ → Option (List ℕ)
write_frame first payload =
    let n = length payload in
    if ltb n 126
    then some (first ∷ n ∷ payload)
    else if ltb n 65536
    then some (first ∷ 126 ∷ n / 256 ∷ n % 256 ∷ payload)
    else none

abbrev pub write_ws_text : List ℕ → Option (List ℕ)
write_ws_text payload = write_frame 0x81 payload

abbrev pub write_ws_pong : List ℕ → Option (List ℕ)
write_ws_pong payload = write_frame 0x8a payload

-- `out[i] = payload[i] ^ mask[i % 4]`
unfoldable pub unmask_from : ℕ → List ℕ → List ℕ → List ℕ
unmask_from i mask [] = []
unmask_from i mask (b ∷ bs) = bit_xor b (get_or mask (i % 4) 0) ∷ unmask_from (suc i) mask bs

-- The 16-bit length that follows the code 126.
abbrev extended : List ℕ → Option (ℕ × ℕ)
extended (hi ∷ lo ∷ _) = some (hi * 256 + lo, 4)
extended _ = none

-- The length field of a frame, with the length of the header: `none` where the loop breaks.
unfoldable pub read_length : ℕ → List ℕ → Option (ℕ × ℕ)
read_length low rest =
    if low == 126 then extended rest else if low == 127 then none else some (low, 2)

-- A frame whose header is `header` bytes long, with the mask and the payload behind it: `none`
-- where the buffer ends too early.
unfoldable pub cut_frame : List ℕ → ℕ → Bool → ℕ → ℕ → Option (Frame × List ℕ)
unfolding unmask_from
cut_frame buffer b0 masked len header =
    let mask_len = if masked then 4 else 0 in
    let frame_len = header + mask_len + len in
    if ltb (length buffer) frame_len
    then none
    else some (
      record {
        opcode = b0 % 16;
        payload =
            let body = take len (drop (header + mask_len) buffer) in
            if masked then unmask_from 0 (take 4 (drop header buffer)) body else body;
      },
      drop frame_len buffer,
    )

-- One round of the loop: the frame and what follows it, or `none` where the loop breaks before it
-- has consumed anything.
unfoldable pub take_frame : List ℕ → Option (Frame × List ℕ)
unfolding read_length cut_frame
take_frame (b0 ∷ b1 ∷ rest) = if ltb b0 128 then none else elim (read_length (b1 % 128) rest) [
  | none ↦ none
  | some (len, header) ↦ cut_frame (b0 ∷ b1 ∷ rest) b0 (leb 128 b1) len header
]
take_frame _ = none

-- The loop: it ends where no frame is complete, and after a close frame.
unfoldable pub read_from : ℕ → List ℕ → List Frame × List ℕ
unfolding take_frame
read_from zero buffer = ([], buffer)
read_from (suc fuel) buffer = elim (take_frame buffer) [
  | none ↦ ([], buffer)
  | some (f, rest) ↦
      let (fs, left) = read_from fuel rest in
      if f.opcode == 8 then (f ∷ [], rest) else (f ∷ fs, left)
]

-- A round consumes two bytes or more, so the buffer's length is enough fuel.
unfoldable pub read_ws_frames : List ℕ → List Frame × List ℕ
unfolding read_from
read_ws_frames buffer = read_from (length buffer) buffer
