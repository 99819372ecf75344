-- ===== src/Reputation/Rebuild.antt =====
-- The index that `rebuildReputationIndex` makes of the ledger, compared with the one that was kept.
use a2a_fun.Prelude.{
  ℕ, ◌+◌, ◌-◌, ◌≤◌, String, ◌≡◌, refl, inl, inr, true, false, ◌&&◌, List, [], ◌∷◌, ◌++◌, arith,
  str_eq, eq_iff, if◌then◌else◌, Bool-cases, Option-cases, length, Outcome-cases, ok, Dict, get,
  get-put,
}
use a2a_fun.Reputation.{
  event_type_of, is_super_id, source_of, normalize_event, is_competition, empty_book, entry_of,
  effective_delta, is_rate_limited, is_competition_rate_limited, add_event, add_to_index, line_of,
  append_line, emit_event, emit_reputation_event, emit_all, rebuild_from, rebuild_reputation_index,
  Raw, Event, Numbers, Line, Entry, Book,
}

module _ (n : Numbers) where
  -- The lines about an identity that the limit on competition events appended.
  abbrev pub limited_lines : String → List (Line n) → ℕ
  limited_lines sid [] = 0
  limited_lines sid (l ∷ ls) =
      (if l.is_limited && str_eq l.event.super_identity_id sid then 1 else 0) + limited_lines sid ls

  abbrev pub score_in : String → Dict (Entry n) → n.Number
  score_in sid index = (entry_of n (get sid index)).score

  abbrev pub events_in : String → Dict (Entry n) → ℕ
  events_in sid index = (entry_of n (get sid index)).events

  -- What a line adds to the index that is rebuilt.
  rebuild_line : Line n → Dict (Entry n) → Dict (Entry n)
  rebuild_line l index =
      if is_super_id l.event.super_identity_id then add_to_index n l index else index

  rebuild_from-append :
      (ls : List (Line n)) (l : Line n) (index : Dict (Entry n))
      → rebuild_from n index (ls ++ l ∷ []) ≡ rebuild_line l (rebuild_from n index ls)
  unfolding rebuild_from rebuild_line
  rebuild_from-append [] l index = ground arith
  rebuild_from-append (k ∷ ls) l index =
      let counted = rebuild_from-append ls l (add_to_index n k index) in
      let skipped = rebuild_from-append ls l index in ground arith

  limited_lines-append :
      (sid : String) (ls : List (Line n)) (l : Line n)
      → limited_lines sid (ls ++ l ∷ []) ≡ limited_lines sid ls + limited_lines sid (l ∷ [])
  limited_lines-append sid [] l = omega arith
  limited_lines-append sid (k ∷ ls) l = omega (arith, limited_lines-append sid ls l)

  -- The entry of an identity after a line is counted.
  entry-add :
      (sid : String) (l : Line n) (index : Dict (Entry n))
      → entry_of n (get sid (add_to_index n l index)) ≡ (
          if str_eq l.event.super_identity_id sid
          then add_event n l.event.event_type l.value (entry_of n (get sid index))
          else entry_of n (get sid index))
  unfolding add_to_index
  entry-add sid l index =
      let sid2 = l.event.super_identity_id in
      let stored =
        get-put sid2 sid (add_event n l.event.event_type l.value (entry_of n (get sid2 index)))
          index in
      elim (Bool-cases (str_eq sid2 sid)) [
        | inl same ↦ let is : sid2 ≡ sid = (eq_iff sid2 sid).0 same in ground (arith, is)
        | inr other ↦ ground arith
      ]

  module _ (sid : String) where
    -- The rebuilt index and the kept one give the same score, and differ by the limited lines.
    Agrees : Book n → Type 0
    Agrees b =
        let rebuilt = rebuild_from n [] b.ledger in
        (score_in sid rebuilt ≡ score_in sid b.index)
        × (events_in sid rebuilt ≡ events_in sid b.index + limited_lines sid b.ledger)

    Agrees-counted :
        (ev : Event) (value : n.Number) (b : Book n)
        → is_super_id ev.super_identity_id ≡ true
        → Agrees b
        → let line = line_of n ev value false in
          Agrees (record { ledger = b.ledger ++ line ∷ []; index = add_to_index n line b.index })
    unfolding Agrees rebuild_line add_event
    Agrees-counted ev value b h agrees =
        let line : Line n = line_of n ev value false in
        let appended = rebuild_from-append b.ledger line [] in
        let counted = limited_lines-append sid b.ledger line in
        let kept = entry-add sid line b.index in
        let rebuilt = entry-add sid line (rebuild_from n [] b.ledger) in ground arith

    Agrees-limited :
        ((x : n.Number) → n.sum x n.nought ≡ x)
        → (ev : Event) (b : Book n) → is_super_id ev.super_identity_id ≡ true
        → Agrees b
        → Agrees (append_line n (line_of n ev n.nought true) b)
    unfolding Agrees rebuild_line add_event
    Agrees-limited sum-nought ev b h agrees =
        let line : Line n = line_of n ev n.nought true in
        let appended = rebuild_from-append b.ledger line [] in
        let counted = limited_lines-append sid b.ledger line in
        let rebuilt = entry-add sid line (rebuild_from n [] b.ledger) in
        let same = sum-nought (score_in sid (rebuild_from n [] b.ledger)) in ground arith

    -- A normalized event is about a super identity.
    super_id-normalize :
        (raw : Raw) (ev : Event)
        → normalize_event raw ≡ ok ev
        → is_super_id ev.super_identity_id ≡ true
    unfolding normalize_event
    super_id-normalize raw ev h = elim (Bool-cases (is_super_id raw.super_identity_id)) [
      | inr bad ↦ absurd (ground (arith, bad, h))
      | inl good ↦ elim (Option-cases (event_type_of raw.event_type)) [
        | inl bad ↦ absurd (ground arith)
        | inr (type, e) ↦ elim (Outcome-cases (source_of raw.source)) [
          | inr (error, bad) ↦ absurd (ground arith)
          | inl (source, is) ↦ ground arith
        ]
      ]
    ]

    Agrees-event :
        ((x : n.Number) → n.sum x n.nought ≡ x)
        → (ev : Event) (b : Book n) → is_super_id ev.super_identity_id ≡ true
        → Agrees b
        → Agrees (emit_event n ev b).1
    unfolding emit_event
    Agrees-event sum-nought ev b h agrees =
        let counted = Agrees-counted ev (effective_delta n ev) b h agrees in
        let limited = Agrees-limited sum-nought ev b h agrees in
        elim (Bool-cases
          (is_competition ev.event_type && is_competition_rate_limited n ev b.ledger)) [
            | inl competition ↦ rw competition limited
            | inr other ↦
                rw other
                  (elim (Bool-cases
                    (n.is_positive (effective_delta n ev) && is_rate_limited n ev b.ledger)) [
                      | inl refused ↦ rw refused agrees
                      | inr accepted ↦ rw accepted counted
                    ])
          ]

    Agrees-emit :
        ((x : n.Number) → n.sum x n.nought ≡ x)
        → (raw : Raw) (b : Book n) → Agrees b
        → Agrees (emit_reputation_event n raw b).1
    unfolding emit_reputation_event
    Agrees-emit sum-nought raw b agrees = elim (Outcome-cases (normalize_event raw)) [
      | inl (ev, e) ↦
          let emitted = Agrees-event sum-nought ev b (super_id-normalize raw ev e) agrees in
          elim (Bool-cases (n.is_date ev.ts)) [
            | inl dated ↦ rw (e, emit_reputation_event) (rw dated emitted)
            | inr undated ↦ rw (e, emit_reputation_event) (rw undated agrees)
          ]
      | inr (x, e) ↦ rw (e, emit_reputation_event) agrees
    ]

    Agrees-all :
        ((x : n.Number) → n.sum x n.nought ≡ x)
        → (raws : List Raw) (b : Book n) → Agrees b
        → Agrees (emit_all n raws b)
    unfolding emit_all
    Agrees-all sum-nought [] b agrees = agrees
    Agrees-all sum-nought (raw ∷ raws) b agrees =
        Agrees-all sum-nought raws (emit_reputation_event n raw b).1
          (Agrees-emit sum-nought raw b agrees)

  -- After any events, as long as the ledger has at most 1,000,000 lines and adding zero changes no
  -- number, the index rebuilt from the ledger gives each identity the score that the kept index
  -- gives; its number of events exceeds the kept one by exactly the lines about the identity that
  -- the limit on competition events has appended.
  pub rebuild-agrees :
      ((x : n.Number) → n.sum x n.nought ≡ x)
      → (sid : String) (raws : List Raw)
      → let b = emit_all n raws (empty_book n) in
        length b.ledger ≤ 1000000
        → (score_in sid (rebuild_reputation_index n b).index ≡ score_in sid b.index)
          × (events_in sid (rebuild_reputation_index n b).index
              ≡ events_in sid b.index + limited_lines sid b.ledger)
  unfolding rebuild_reputation_index Agrees rebuild_from get
  rebuild-agrees sum-nought sid raws short =
      let b = emit_all n raws (empty_book n) in
      let whole : length b.ledger - 1000000 ≡ 0 = omega arith in
      rw whole (Agrees-all sid sum-nought raws (empty_book n) (refl, refl))
