-- ===== src/Relay/Frames/Single.antt =====
-- One frame: what is written is read back, and what follows a complete frame does not matter.
use a2a_fun.Prelude.{
  ℕ, ◌+◌, ◌*◌, ◌/◌, ◌%◌, ◌≤◌, ◌<◌, ◌≡◌, ◌⊎◌, inl, inr, Bool, false, some, List, [], ◌∷◌, ◌++◌,
  arith, ltb, leb, if◌then◌else◌, Option-cases, length, take, drop, length-append, length-drop,
  take-append, drop-append, drop-append_le, take-append_le, drop-add,
}
use a2a_fun.Relay.Frames.{write_frame, read_length, cut_frame, take_frame, Frame}

read_length-header :
    (low : ℕ) (rest : List ℕ) (len header : ℕ)
    → read_length low rest ≡ some (len, header)
    → (2 ≤ header) × (header ≤ length rest + 2)
unfolding read_length
read_length-header low [] len header e = (ground arith, ground arith)
read_length-header low (a ∷ []) len header e = (ground arith, ground arith)
read_length-header low (a ∷ b ∷ r) len header e = (ground arith, ground arith)

read_length-append :
    (low : ℕ) (rest more : List ℕ) (v : ℕ × ℕ)
    → read_length low rest ≡ some v
    → read_length low (rest ++ more) ≡ some v
unfolding read_length
read_length-append low [] more v e = ground arith
read_length-append low (a ∷ []) more v e = ground arith
read_length-append low (a ∷ b ∷ r) more v e = ground arith

-- A slice inside a buffer does not see what is appended to the buffer.
slice-append :
    (k n : ℕ) (b more : List ℕ) → k + n ≤ length b → take n (drop k (b ++ more)) ≡ take n (drop k b)
slice-append k n b more h =
    rw (drop-append_le k b more (omega arith))
      (take-append_le n (drop k b) more (omega (arith, length-drop k b)))

module _ (buffer : List ℕ) (b0 : ℕ) (masked : Bool) (len header : ℕ) where
  cut_frame-eq-some :
      (f : Frame) (rest : List ℕ)
      → cut_frame buffer b0 masked len header ≡ some (f, rest)
      → (header + (if masked then 4 else 0) + len ≤ length buffer)
        × (rest ≡ drop (header + (if masked then 4 else 0) + len) buffer)
  unfolding cut_frame
  cut_frame-eq-some f rest e = (ground arith, ground arith)

  cut_frame-append :
      (f : Frame) (rest more : List ℕ)
      → cut_frame buffer b0 masked len header ≡ some (f, rest)
      → cut_frame (buffer ++ more) b0 masked len header ≡ some (f, rest ++ more)
  unfolding cut_frame
  cut_frame-append f rest more e =
      let k = header + (if masked then 4 else 0) in
      let (fits, _) = cut_frame-eq-some f rest e in
      ground (
        arith,
        length-append buffer more,
        drop-append_le (k + len) buffer more fits,
        slice-append k len buffer more fits,
        slice-append header 4 buffer more,
      )

-- A frame consumes its header at least.
pub take_frame-shorter :
    (buffer : List ℕ) (f : Frame) (rest : List ℕ)
    → take_frame buffer ≡ some (f, rest)
    → length rest < length buffer
unfolding take_frame
take_frame-shorter (b0 ∷ b1 ∷ tail) f rest e = elim (Option-cases (read_length (b1 % 128) tail)) [
  | inl missing ↦ ground arith
  | inr ((len, header), found) ↦
      let (small, _) = read_length-header (b1 % 128) tail len header found in
      let (fits, same) =
        cut_frame-eq-some (b0 ∷ b1 ∷ tail) b0 (leb 128 b1) len header f rest (ground arith) in
      rw same
        (omega (arith, length-drop (header + (if leb 128 b1 then 4 else 0) + len) (b0 ∷ b1 ∷ tail)))
]
take_frame-shorter (b0 ∷ []) f rest e = cc
take_frame-shorter [] f rest e = cc

-- A complete frame is read in the same way whatever comes behind it.
pub take_frame-append :
    (buffer more : List ℕ) (f : Frame) (rest : List ℕ)
    → take_frame buffer ≡ some (f, rest)
    → take_frame (buffer ++ more) ≡ some (f, rest ++ more)
unfolding take_frame
take_frame-append (b0 ∷ b1 ∷ tail) more f rest e =
    elim (Option-cases (read_length (b1 % 128) tail)) [
      | inl missing ↦ ground arith
      | inr ((len, header), found) ↦ ground (
        arith,
        read_length-append (b1 % 128) tail more (len, header) found,
        cut_frame-append (b0 ∷ b1 ∷ tail) b0 (leb 128 b1) len header f rest more,
      )
    ]
take_frame-append (b0 ∷ []) more f rest e = cc
take_frame-append [] more f rest e = cc

cut_frame-exact :
    (b0 : ℕ) (head payload rest : List ℕ)
    → cut_frame (head ++ (payload ++ rest)) b0 false (length payload) (length head)
      ≡ some (record { opcode = b0 % 16; payload = payload }, rest)
unfolding cut_frame
cut_frame-exact b0 head payload rest =
    let z : length head + 0 ≡ length head = omega arith in
    rw (z, drop-add, drop-append)
      (ground (
        arith,
        length-append head (payload ++ rest),
        length-append payload rest,
        take-append payload rest,
        drop-append payload rest,
      ))

read_length-short : (n : ℕ) (rest : List ℕ) → n < 126 → read_length n rest ≡ some (n, 2)
unfolding read_length
read_length-short n rest h = ground arith

write_short :
    (first : ℕ) (payload rest : List ℕ)
    → 128 ≤ first
    → length payload < 126
    → take_frame (first ∷ length payload ∷ (payload ++ rest))
      ≡ some (record { opcode = first % 16; payload = payload }, rest)
unfolding take_frame
write_short first payload rest high small =
    let n = length payload in
    let low : n % 128 ≡ n = omega arith in
    let plain : leb 128 n ≡ false = ground arith in
    let final : ltb first 128 ≡ false = ground arith in
    rw (low, final, read_length-short n (payload ++ rest) small)
      (rw plain (cut_frame-exact first (first ∷ n ∷ []) payload rest))

write_long :
    (first : ℕ) (payload rest : List ℕ)
    → 128 ≤ first
    → length payload < 65536
    → take_frame (first ∷ 126 ∷ length payload / 256 ∷ length payload % 256 ∷ (payload ++ rest))
      ≡ some (record { opcode = first % 16; payload = payload }, rest)
unfolding take_frame
write_long first payload rest high small =
    let n = length payload in
    let size : n / 256 * 256 + n % 256 ≡ n = omega arith in
    let final : ltb first 128 ≡ false = ground arith in
    rw (size, final) (cut_frame-exact first (first ∷ 126 ∷ n / 256 ∷ n % 256 ∷ []) payload rest)

-- A payload that is written at all is framed in one of two ways.
pub write_frame-cases :
    (first : ℕ) (payload bytes : List ℕ)
    → write_frame first payload ≡ some bytes
    → ((length payload < 126) × (bytes ≡ first ∷ length payload ∷ payload))
      ⊎ ((length payload < 65536)
          × (bytes ≡ first ∷ 126 ∷ length payload / 256 ∷ length payload % 256 ∷ payload))
unfolding write_frame
write_frame-cases first payload bytes e = ground arith

-- What is written is read back, with what follows it left over.
pub take_frame-write :
    (first : ℕ) (payload bytes rest : List ℕ)
    → 128 ≤ first
    → write_frame first payload ≡ some bytes
    → take_frame (bytes ++ rest) ≡ some (record { opcode = first % 16; payload = payload }, rest)
take_frame-write first payload bytes rest high e = elim (write_frame-cases first payload bytes e) [
  | inl (small, same) ↦ rw same (write_short first payload rest high small)
  | inr (small, same) ↦ rw same (write_long first payload rest high small)
]
