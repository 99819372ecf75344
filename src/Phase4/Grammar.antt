-- ===== src/Phase4/Grammar.antt =====
-- The transcripts that `analyzeSequence` accepts: whole rounds of a question and its answer, then a
-- summary, then the end.
use a2a_fun.Prelude.{
  ℕ, zero, suc, ◌+◌, ◌≡◌, refl, sym, subst, ap, ◌∙◌, ◌↔◌, ◌⊎◌, inl, inr, Bool, true, false, List,
  [], ◌∷◌, ◌++◌, append-nil, append_assoc, arith, Outcome-cases, ok-injective, ok,
}
use a2a_fun.Phase4.{
  at_start, analyze_event, analyze_from, analyze_sequence, EventType, question, answer, summary,
  done, other_event, Progress,
}

abbrev pub pairs : ℕ → List EventType
pairs zero = []
pairs (suc n) = question ∷ answer ∷ pairs n

abbrev when : Bool → EventType → List EventType
when true t = t ∷ []
when false t = []

-- The transcript that leads to a state of the loop.
abbrev pub script : Progress → List EventType
script p =
    pairs p.rounds
    ++ (when p.awaiting question ++ (when p.has_summary summary ++ when p.has_done done))

-- The end needs a summary, and neither stands behind an open question.
pub record IsOrdered (p : Progress) : Type 0 where
  pub summed : p.has_done ≡ true → p.has_summary ≡ true
  pub closed : p.awaiting ≡ true → p.has_summary ≡ false

pairs-snoc : (n : ℕ) → pairs (n + 1) ≡ pairs n ++ question ∷ answer ∷ []
pairs-snoc zero = refl
pairs-snoc (suc n) =
    let e : suc n + 1 ≡ suc (n + 1) = omega arith in
    rw e (ap (λ ts. question ∷ answer ∷ ts) (pairs-snoc n))

analyze_event-IsOrdered :
    (p q : Progress) (t : EventType) → IsOrdered p → analyze_event p t ≡ ok q → IsOrdered q
unfolding analyze_event
analyze_event-IsOrdered p q question h e = record { summed = ground arith; closed = ground arith }
analyze_event-IsOrdered p q answer h e = record { summed = ground arith; closed = ground arith }
analyze_event-IsOrdered p q summary h e = record { summed = ground arith; closed = ground arith }
analyze_event-IsOrdered p q done h e = record { summed = ground arith; closed = ground arith }
analyze_event-IsOrdered p q (other_event t) h e = cc

abbrev at : ℕ → Bool → Bool → Bool → Progress
at n w s d = record { rounds = n; awaiting = w; has_summary = s; has_done = d }

script-step :
    (n : ℕ) (w s d : Bool) (t : EventType) (q : Progress)
    → d ≡ false
    → (w ≡ true → s ≡ false)
    → analyze_event (at n w s d) t ≡ ok q
    → script q ≡ script (at n w s d) ++ t ∷ []
unfolding analyze_event
script-step n false false false question q _ _ e = rw (← ok-injective e) (simp append-nil)
script-step n true false false answer q _ _ e =
    rw (← ok-injective e) (rw (pairs-snoc n) (simp append_assoc))
script-step n false false false summary q _ _ e = rw (← ok-injective e) (simp append-nil)
script-step n false true false done q _ _ e = rw (← ok-injective e) (simp append_assoc)
script-step n w s d t q x y e = ground arith

analyze_from-script :
    (p q : Progress) (ts : List EventType)
    → IsOrdered p
    → analyze_from p ts ≡ ok q
    → (q.awaiting ≡ false) × IsOrdered q × (script q ≡ script p ++ ts)
unfolding analyze_from
analyze_from-script p q [] h e =
    let same : p ≡ q = ground arith in
    let closed : p.awaiting ≡ false = ground arith in
    (rw (← same) closed, subst IsOrdered same h, rw (← same) (sym (append-nil _)))
analyze_from-script p q (t ∷ ts) h e = elim (Outcome-cases (analyze_event p t)) [
  | inr (x, f) ↦ absurd (ground arith)
  | inl (p', f) ↦
      let open' : p.has_done ≡ false = ground arith in
      let rest : analyze_from p' ts ≡ ok q = ground arith in
      let (closed, ordered, same) =
        analyze_from-script p' q ts (analyze_event-IsOrdered p p' t h f) rest in
      let step = script-step p.rounds p.awaiting p.has_summary p.has_done t p' open' h.closed f in
      (closed, ordered, same ∙ ap (λ l. l ++ ts) step ∙ append_assoc (script p) (t ∷ []) ts)
]

start-IsOrdered : IsOrdered at_start
start-IsOrdered = record { summed = λ e. cc; closed = λ e. cc }

analyze_from-pairs :
    (k n : ℕ) (ts : List EventType)
    → analyze_from (at k false false false) (pairs n ++ ts)
      ≡ analyze_from (at (k + n) false false false) ts
unfolding analyze_from analyze_event
analyze_from-pairs k zero ts = let e : k + zero ≡ k = omega arith in rw e
analyze_from-pairs k (suc n) ts =
    let e : k + suc n ≡ k + 1 + n = omega arith in rw e (analyze_from-pairs (k + 1) n ts)

tail_accepted :
    (n : ℕ) (s d : Bool)
    → (d ≡ false) ⊎ (s ≡ true)
    → analyze_from (at n false false false) (when s summary ++ when d done) ≡ ok (at n false s d)
unfolding analyze_from analyze_event
tail_accepted n false false h = refl
tail_accepted n true false h = refl
tail_accepted n true true h = refl
tail_accepted n false true h = ground arith

-- A transcript is accepted exactly when it is a number of whole rounds of question and answer, then
-- a summary if the result says so, then the end if it says so; there is no end without a summary.
pub analyze_sequence_iff :
    (ts : List EventType) (q : Progress)
    → (analyze_sequence ts ≡ ok q) ↔ (
        (q.awaiting ≡ false)
        × ((q.has_done ≡ false) ⊎ (q.has_summary ≡ true))
        × (ts ≡ pairs q.rounds ++ (when q.has_summary summary ++ when q.has_done done)))
analyze_sequence_iff ts q = (to, from)
  where
    to :
        analyze_sequence ts ≡ ok q
        → (q.awaiting ≡ false)
          × ((q.has_done ≡ false) ⊎ (q.has_summary ≡ true))
          × (ts ≡ pairs q.rounds ++ (when q.has_summary summary ++ when q.has_done done))
    to e =
        let (closed, ordered, same) = analyze_from-script at_start q ts start-IsOrdered e in
        let summed = ordered.summed in (closed, ground arith, sym (rw closed at same))

    from :
        (q.awaiting ≡ false)
          × ((q.has_done ≡ false) ⊎ (q.has_summary ≡ true))
          × (ts ≡ pairs q.rounds ++ (when q.has_summary summary ++ when q.has_done done))
        → analyze_sequence ts ≡ ok q
    from (closed, summed, same) =
        let tail = when q.has_summary summary ++ when q.has_done done in
        let zero_add : 0 + q.rounds ≡ q.rounds = omega arith in
        rw same (
          analyze_from-pairs 0 q.rounds tail
          ∙ rw zero_add (
              tail_accepted q.rounds q.has_summary q.has_done summed
              ∙ ap (λ w. ok (at q.rounds w q.has_summary q.has_done)) (sym closed)))
