-- ===== src/Relay/Frames/Stream.antt =====
-- The reading loop over a whole buffer: it ends by its own test, it does not depend on how the
-- bytes were cut into chunks, and it gives back a stream of written frames.
use a2a_fun.Prelude.{
  ℕ, zero, suc, ◌≤◌, ◌≡◌, refl, sym, subst, ◌∙◌, ◌≢◌, inl, inr, Option, none, some, List, [], ◌∷◌,
  ◌++◌, map, arith, ◌==◌, Bool-cases, Option-cases, length, All,
}
use a2a_fun.Relay.Frames.{write_ws_text, take_frame, read_from, read_ws_frames, Frame}
use a2a_fun.Relay.Frames.Single.{take_frame-shorter, take_frame-append, take_frame-write}

-- What the loop is to read, without fuel: up to the first incomplete frame or the first close frame.
pub data Reads : List ℕ → List Frame → List ℕ → Type 0 where
  stop : {b left : List ℕ} → take_frame b ≡ none → left ≡ b → Reads b [] left
  close :
      {b left : List ℕ} {f : Frame}
      → take_frame b ≡ some (f, left)
      → f.opcode ≡ 8
      → Reads b (f ∷ []) left
  go_on :
      {b left : List ℕ} {f : Frame} {r : List ℕ} {fs : List Frame}
      → take_frame b ≡ some (f, r)
      → f.opcode ≢ 8
      → Reads r fs left
      → Reads b (f ∷ fs) left

take_frame-nil : take_frame [] ≡ none
unfolding take_frame
take_frame-nil = refl

read_from-Reads :
    (fuel : ℕ) (b : List ℕ) → length b ≤ fuel → Reads b (read_from fuel b).0 (read_from fuel b).1
unfolding read_from
read_from-Reads zero [] h = stop take_frame-nil refl
read_from-Reads zero (x ∷ b) h = absurd (omega arith)
read_from-Reads (suc fuel) b h = elim (Option-cases (take_frame b)) [
  | inl e ↦ rw (e, read_from) (stop e refl)
  | inr ((f, r), e) ↦
      let shorter = take_frame-shorter b f r e in
      let ih = read_from-Reads fuel r (omega arith) in
      elim (Bool-cases (f.opcode == 8)) [
        | inl closing ↦ rw (e, read_from) (rw closing (close e (ground arith)))
        | inr other ↦ rw (e, read_from) (rw other (go_on e (ground arith) ih))
      ]
]

-- The loop ends by its own test: what is read is all that can be.
pub read_ws_frames-Reads : (b : List ℕ) → Reads b (read_ws_frames b).0 (read_ws_frames b).1
unfolding read_ws_frames
read_ws_frames-Reads b = read_from-Reads (length b) b (omega arith)

same_frame :
    (b : List ℕ) {f g : Frame} {r q : List ℕ}
    → take_frame b ≡ some (f, r)
    → take_frame b ≡ some (g, q)
    → (f ≡ g) × (r ≡ q)
same_frame b e e' = (cc (e, e'), cc (e, e'))

Reads-unique :
    {b : List ℕ} {fs gs : List Frame} {l k : List ℕ}
    → Reads b fs l
    → Reads b gs k
    → (fs ≡ gs) × (l ≡ k)
Reads-unique (stop p e) (stop q e') = (refl, e ∙ sym e')
Reads-unique (stop p e) (close q z) = absurd (cc (p, q))
Reads-unique (stop p e) (go_on q z r) = absurd (cc (p, q))
Reads-unique (close p y) (stop q e) = absurd (cc (p, q))
Reads-unique (close p y) (close q z) = let (f, r) = same_frame _ p q in (cc f, r)
Reads-unique (close p y) (go_on q z r) = let (f, _) = same_frame _ p q in absurd (z (cc (f, y)))
Reads-unique (go_on p y r) (stop q e) = absurd (cc (p, q))
Reads-unique (go_on p y r) (close q z) = let (f, _) = same_frame _ p q in absurd (y (cc (f, z)))
Reads-unique (go_on {left} {f} {fs} p y r) (go_on {left = left'} {f = g} {r = q'} {fs = gs} q z s) =
    let (e, same) = same_frame _ p q in
    let (rest, last) = Reads-unique r (subst (λ x. Reads x gs left') (sym same) s) in
    (cc (e, rest), last)

Reads-append :
    {a : List ℕ} {fs : List Frame} {r : List ℕ} {gs : List Frame} {k : List ℕ} (c : List ℕ)
    → Reads a fs r
    → All (λ f. f.opcode ≢ 8) fs
    → Reads (r ++ c) gs k
    → Reads (a ++ c) (fs ++ gs) k
Reads-append {gs} {k} c (stop p e) free next = subst (λ x. Reads (x ++ c) gs k) e next
Reads-append c (close p z) (not_close, _) next = absurd (not_close z)
Reads-append c (go_on {b} {f} {r} p z rest) (_, others) next =
    go_on (take_frame-append b c f r p) z (Reads-append c rest others next)

-- Bytes that come in two chunks are read as if they had come in one, as long as no close frame is
-- among those of the first: the frames are the same, and so are the bytes left over.
pub read_ws_frames-append :
    (a c : List ℕ)
    → All (λ f. f.opcode ≢ 8) (read_ws_frames a).0
    → read_ws_frames (a ++ c) ≡ (
      (read_ws_frames a).0 ++ (read_ws_frames ((read_ws_frames a).1 ++ c)).0,
      (read_ws_frames ((read_ws_frames a).1 ++ c)).1,
    )
read_ws_frames-append a c h =
    let joined =
      Reads-append c (read_ws_frames-Reads a) h
        (read_ws_frames-Reads ((read_ws_frames a).1 ++ c)) in
    let (frames, left) = Reads-unique (read_ws_frames-Reads (a ++ c)) joined in
    λ i. (frames i, left i)

-- Texts written one after the other; `none` if one of them is too long for a frame.
unfoldable pub write_texts : List (List ℕ) → Option (List ℕ)
write_texts [] = some []
write_texts (p ∷ ps) = elim (write_ws_text p) [
  | none ↦ none
  | some bytes ↦ elim (write_texts ps) [ none ↦ none | some more ↦ some (bytes ++ more) ]
]

unfoldable pub text : List ℕ → Frame
text p = record { opcode = 1; payload = p }

write_texts-Reads :
    (ps : List (List ℕ)) (bytes : List ℕ)
    → write_texts ps ≡ some bytes
    → Reads bytes (map text ps) []
unfolding write_texts text
write_texts-Reads [] bytes e =
    let empty : [] ≡ bytes = ground arith in rw (← empty) (stop take_frame-nil refl)
write_texts-Reads (p ∷ ps) bytes e = elim (Option-cases (write_ws_text p)) [
  | inl bad ↦ absurd (ground (arith, bad))
  | inr (first, written) ↦ elim (Option-cases (write_texts ps)) [
    | inl bad ↦ absurd (ground (arith, bad, written))
    | inr (later, others) ↦
        let joined : first ++ later ≡ bytes = ground (arith, written, others) in
        rw (← joined) (
          go_on (take_frame-write 0x81 p first later (omega arith) written) (omega arith)
            (write_texts-Reads ps later others))
  ]
]

-- The texts that the relay writes to a socket are the frames that a reader at the other end finds,
-- each whole and in order, with nothing left over.
pub read-write_texts :
    (ps : List (List ℕ)) (bytes : List ℕ)
    → write_texts ps ≡ some bytes
    → read_ws_frames bytes ≡ (map text ps, [])
read-write_texts ps bytes e =
    let (frames, left) = Reads-unique (read_ws_frames-Reads bytes) (write_texts-Reads ps bytes e) in
    λ i. (frames i, left i)
