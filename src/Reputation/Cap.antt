-- ===== src/Reputation/Cap.antt =====
-- The limit on positive events per identity, source and hour.
use a2a_fun.Prelude.{
  ℕ, ◌+◌, ◌-◌, ◌≤◌, ◌<◌, ◌≡◌, refl, ap, inl, inr, Bool, true, false, not, ◌&&◌, List, [], ◌∷◌, ◌++◌,
  arith, eq_iff, if◌then◌else◌, Bool-cases, length, length-append, Outcome-cases,
}
use a2a_fun.Reputation.{
  normalize_event, is_competition, same_source, is_self, reaches, empty_book, effective_delta,
  counts_positive, is_rate_limited, is_competition_rate_limited, line_of, emit_event,
  emit_reputation_event, emit_all, Source, from_peer, from_self, from_system, Raw, Event, Numbers,
  Line, Book,
}

unfoldable pub count {ℓ} : {A : Type ℓ} → (A → Bool) → List A → ℕ
count p [] = 0
count p (x ∷ xs) = (if p x then 1 else 0) + count p xs

count-append {ℓ} :
    {A : Type ℓ} (p : A → Bool) (xs ys : List A) → count p (xs ++ ys) ≡ count p xs + count p ys
unfolding count
count-append p [] ys = omega arith
count-append p (x ∷ xs) ys = omega (arith, count-append p xs ys)

-- A scan that does not reach its limit has counted every element.
count-lt_of_reaches {ℓ} :
    {A : Type ℓ} (p : A → Bool) (max c : ℕ) (xs : List A)
    → reaches p max c xs ≡ false
    → c < max
    → c + count p xs < max
unfolding count reaches
count-lt_of_reaches p max c [] h lt = omega arith
count-lt_of_reaches p max c (x ∷ xs) h lt = elim (Bool-cases (p x)) [
  | inl counted ↦
      let tail = count-lt_of_reaches p max (c + 1) xs (ground arith) (ground arith) in ground arith
  | inr other ↦ let tail = count-lt_of_reaches p max c xs (ground arith) lt in ground arith
]

count-le {ℓ} :
    {A : Type ℓ} (p q : A → Bool) (xs : List A)
    → ((x : A) → p x ≡ true → q x ≡ true)
    → count p xs ≤ count q xs
unfolding count
count-le p q [] h = omega arith
count-le p q (x ∷ xs) h = let tail = count-le p q xs h in let here = h x in ground arith

module _ (n : Numbers) where
  -- The lines whose value counts towards the limit of an event's identity, source and hour.
  abbrev pub gains : Event → Line n → Bool
  gains ev l = not l.is_limited && counts_positive n ev l

  gains-counts : (ev : Event) (l : Line n) → gains ev l ≡ true → counts_positive n ev l ≡ true
  gains-counts ev l h = ground arith

  same_source-eq : (a b : Source) → same_source a b ≡ true → a ≡ b
  same_source-eq (from_peer a) (from_peer b) h = ap from_peer ((eq_iff a b).0 h)
  same_source-eq (from_peer a) from_self h = absurd (ground arith)
  same_source-eq (from_peer a) from_system h = absurd (ground arith)
  same_source-eq from_self (from_peer b) h = absurd (ground arith)
  same_source-eq from_self from_self h = refl
  same_source-eq from_self from_system h = absurd (ground arith)
  same_source-eq from_system (from_peer b) h = absurd (ground arith)
  same_source-eq from_system from_self h = absurd (ground arith)
  same_source-eq from_system from_system h = refl

  -- The limit of an event that gains for another has the other's identity, source and hour.
  gains-same :
      (ev e : Event) (value : n.Number)
      → gains ev (line_of n e value false) ≡ true
      → (l : Line n) → gains ev l ≡ true
      → counts_positive n e l ≡ true
  gains-same ev e value h l g =
      let source = same_source-eq e.source ev.source (ground arith) in
      let sid = (eq_iff e.super_identity_id ev.super_identity_id).0 (ground arith) in
      let hour = (eq_iff (n.bucket e.ts) (n.bucket ev.ts)).0 (ground arith) in
      ground (arith, source, sid, hour)

  module _ (ev : Event) (other : is_self ev.source ≡ false) where
    -- An event that gains has passed the limit.
    gains-accepted :
        (e : Event) (b : Book n)
        → length b.ledger ≤ 800
        → (n.is_positive (effective_delta n e) && is_rate_limited n e b.ledger) ≡ false
        → gains ev (line_of n e (effective_delta n e) false) ≡ true
        → count (gains ev) b.ledger < 5
    unfolding effective_delta is_rate_limited
    gains-accepted e b short accepted gained =
        let whole : length b.ledger - 800 ≡ 0 = omega arith in
        let source = same_source-eq e.source ev.source (ground arith) in
        let outside : is_self e.source ≡ false = rw source other in
        let free : reaches (counts_positive n e) 5 0 b.ledger ≡ false = ground (arith, whole) in
        let few = count-lt_of_reaches (counts_positive n e) 5 0 b.ledger free (omega arith) in
        let part =
          count-le (gains ev) (counts_positive n e) b.ledger
            (gains-same ev e (effective_delta n e) gained) in
        omega (arith, few, part)

    gains-emit :
        (e : Event) (b : Book n)
        → length b.ledger ≤ 800
        → count (gains ev) b.ledger ≤ 5
        → count (gains ev) (emit_event n e b).1.ledger ≤ 5
    unfolding emit_event count
    gains-emit e b short few =
        let line : Line n = line_of n e (effective_delta n e) false in
        let capped : Line n = line_of n e n.nought true in
        let appended = count-append (gains ev) b.ledger (line ∷ []) in
        let recorded = count-append (gains ev) b.ledger (capped ∷ []) in
        elim (Bool-cases
          (is_competition e.event_type && is_competition_rate_limited n e b.ledger)) [
            | inl competition ↦ rw competition (omega (arith, recorded, few))
            | inr usual ↦
                rw usual
                  (elim (Bool-cases
                    (n.is_positive (effective_delta n e) && is_rate_limited n e b.ledger)) [
                      | inl refused ↦ rw refused few
                      | inr accepted ↦ rw accepted (elim (Bool-cases (gains ev line)) [
                        | inl gained ↦
                            let less = gains-accepted e b short accepted gained in
                            ground (arith, appended)
                        | inr no_gain ↦ ground (arith, appended)
                      ])
                    ])
          ]

  -- No event takes lines off the ledger.
  length-emit_event :
      (e : Event) (b : Book n) → length b.ledger ≤ length (emit_event n e b).1.ledger
  unfolding emit_event
  length-emit_event e b =
      let appended = length-append b.ledger (line_of n e (effective_delta n e) false ∷ []) in
      let recorded = length-append b.ledger (line_of n e n.nought true ∷ []) in ground arith

  length-emit :
      (raw : Raw) (b : Book n) → length b.ledger ≤ length (emit_reputation_event n raw b).1.ledger
  unfolding emit_reputation_event
  length-emit raw b = elim (Outcome-cases (normalize_event raw)) [
    | inl (e, is) ↦
        let longer = length-emit_event e b in
        elim (Bool-cases (n.is_date e.ts)) [
          | inl dated ↦ rw (is, emit_reputation_event) (rw dated longer)
          | inr undated ↦ rw (is, emit_reputation_event) (rw undated (omega arith))
        ]
    | inr (x, is) ↦ rw (is, emit_reputation_event) (omega arith)
  ]

  length-emit_all :
      (raws : List Raw) (b : Book n) → length b.ledger ≤ length (emit_all n raws b).ledger
  unfolding emit_all
  length-emit_all [] b = omega arith
  length-emit_all (raw ∷ raws) b =
      omega (arith, length-emit raw b, length-emit_all raws (emit_reputation_event n raw b).1)

  gains-emit_all :
      (ev : Event)
      → is_self ev.source ≡ false
      → (raws : List Raw) (b : Book n) → length (emit_all n raws b).ledger ≤ 800
      → count (gains ev) b.ledger ≤ 5
      → count (gains ev) (emit_all n raws b).ledger ≤ 5
  unfolding emit_all emit_reputation_event
  gains-emit_all ev other [] b short few = few
  gains-emit_all ev other (raw ∷ raws) b short few =
      let next = (emit_reputation_event n raw b).1 in
      let before = length-emit raw b in
      let after = length-emit_all raws next in
      let fits : length b.ledger ≤ 800 = omega (arith, before, after, short) in
      let step : count (gains ev) next.ledger ≤ 5 = elim (Outcome-cases (normalize_event raw)) [
        | inl (e, is) ↦ elim (Bool-cases (n.is_date e.ts)) [
          | inl dated ↦ rw (is, emit_reputation_event) (rw dated (gains-emit ev other e b fits few))
          | inr undated ↦ rw (is, emit_reputation_event) (rw undated few)
        ]
        | inr (x, is) ↦ rw (is, emit_reputation_event) few
      ] in
      gains-emit_all ev other raws next short step

  -- After any events from the empty ledger, as long as it has at most 800 lines, at most five lines
  -- about an identity, from one peer or from the system and in one hour, have a positive weight,
  -- not counting the lines that the limit on competition events has appended.
  pub gains-bounded :
      (ev : Event)
      → is_self ev.source ≡ false
      → (raws : List Raw) → length (emit_all n raws (empty_book n)).ledger ≤ 800
      → count (gains ev) (emit_all n raws (empty_book n)).ledger ≤ 5
  unfolding count
  gains-bounded ev other raws short =
      gains-emit_all ev other raws (empty_book n) short (omega arith)
