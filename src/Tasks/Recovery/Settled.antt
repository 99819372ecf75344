-- ===== src/Tasks/Recovery/Settled.antt =====
-- What the recovery of tasks leaves behind.
use a2a_fun.Tasks.Recovery.Released.{status-release, release-IsReleased, IsReleased}
use a2a_fun.Tasks.Sync.{nth}
use a2a_fun.Tasks.{Table}
use a2a_fun.Prelude.{
  ℕ, zero, suc, ◌+◌, String, ◌≡◌, refl, ap, inl, inr, Bool, true, false, not, ◌&&◌, ◌||◌, Option,
  none, some, List, [], ◌∷◌, arith, str_eq, ltb, if◌then◌else◌, Bool-cases, Option-cases, length,
  Dict, get, trim, field_of, property, Fields, safe_str, is_true,
}
use a2a_fun.Tasks.Recovery.{
  peer_map, is_orphan, release, count_verdict, recover, is_lease_expired, verdict_of, recover_from,
  recover_stuck_tasks, Counts, Verdict, keep, lease_expired, orphan,
}

abbrev pub no_counts : Counts
no_counts = record { expired = 0; orphan_released = 0; recovered = 0 }

-- An accepted or running task.
abbrev pub is_taken : Fields → Bool
is_taken t =
    let status = safe_str (field_of "status" t) in
    str_eq status "accepted" || str_eq status "running"

abbrev verdict_if : Bool → Bool → Bool → Verdict
verdict_if held ended gone =
    if held then if ended then lease_expired else if gone then orphan else keep else keep

-- The number of the tasks of a kind.
abbrev pub tally : (Fields → Bool) → Table → ℕ
tally p [] = 0
tally p (t ∷ ts) = (if p t then 1 else 0) + tally p ts

abbrev one_if : Bool → ℕ
one_if b = if b then 1 else 0

record IsCounted (e o r : ℕ) (c d : Counts) : Type 0 where
  expired : d.expired ≡ c.expired + e
  orphans : d.orphan_released ≡ c.orphan_released + o
  recovered : d.recovered ≡ c.recovered + r

count_if-IsCounted :
    (held ended gone : Bool) (c : Counts)
    → IsCounted
        (one_if (held && ended))
        (one_if (held && (not ended && gone)))
        (one_if (held && (ended || gone)))
        c
        (count_verdict (verdict_if held ended gone) c)
count_if-IsCounted true true gone c = record {
  expired = refl;
  orphans = omega arith;
  recovered = refl;
}
count_if-IsCounted true false true c = record {
  expired = omega arith;
  orphans = refl;
  recovered = refl;
}
count_if-IsCounted true false false c = record {
  expired = omega arith;
  orphans = omega arith;
  recovered = omega arith;
}
count_if-IsCounted false ended gone c = record {
  expired = omega arith;
  orphans = omega arith;
  recovered = omega arith;
}

module _ (parse_date : String → Option ℕ) (now : ℕ) (peers : Dict Fields) where
  verdict-release : (t : Fields) → verdict_of parse_date now peers (release t) ≡ keep
  unfolding verdict_of safe_str trim
  verdict-release t = rw (status-release t) refl

  verdict-recover :
      (v : Verdict) (t : Fields)
      → verdict_of parse_date now peers t ≡ v
      → verdict_of parse_date now peers (recover v t) ≡ keep
  verdict-recover keep t e = e
  verdict-recover lease_expired t e = verdict-release t
  verdict-recover orphan t e = verdict-release t

  recover_from-twice :
      (ts : Table) (c d : Counts)
      → let after = (recover_from parse_date now peers ts c).1 in
        recover_from parse_date now peers after d ≡ (d, after)
  unfolding recover_from
  recover_from-twice [] c d = refl
  recover_from-twice (t ∷ ts) c d =
      let settled = verdict-recover (verdict_of parse_date now peers t) t refl in
      let rest = recover_from-twice ts (count_verdict (verdict_of parse_date now peers t) c) d in
      rw (settled, rest) refl

  -- Its lease has an end, which is before now.
  abbrev pub has_ended : Fields → Bool
  has_ended t =
      let end = safe_str (property "expires_at" (field_of "lease" t)) in
      not (str_eq end "") && elim (parse_date end) [ none ↦ false | some time ↦ ltb time now ]

  -- It has a holder, which no peer is that is known to be on the relay.
  abbrev pub is_gone : Fields → Bool
  is_gone t =
      let holder = safe_str (field_of "assigned_to" t) in
      not (str_eq holder "") && elim (get holder peers) [
        | none ↦ true
        | some p ↦ not (is_true (property "on_relay" (field_of "liveness" p)))
      ]

  abbrev pub is_stuck : Fields → Bool
  is_stuck t = is_taken t && (has_ended t || is_gone t)

  abbrev verdict_for : Fields → Verdict
  verdict_for t = verdict_if (is_taken t) (has_ended t) (is_gone t)

  expired-has_ended : (t : Fields) → is_lease_expired parse_date now t ≡ has_ended t
  unfolding is_lease_expired
  expired-has_ended t =
      let end = safe_str (property "expires_at" (field_of "lease" t)) in
      elim (Option-cases (parse_date end)) [
        | inl e ↦ rw e (ground arith)
        | inr (time, e) ↦ rw e (ground arith)
      ]

  orphan-is_gone :
      (t : Fields)
      → (not (str_eq (safe_str (field_of "assigned_to" t)) "")
          && is_orphan (get (safe_str (field_of "assigned_to" t)) peers))
        ≡ is_gone t
  orphan-is_gone t = elim (Option-cases (get (safe_str (field_of "assigned_to" t)) peers)) [
    | inl e ↦ rw e refl
    | inr (p, e) ↦ rw e refl
  ]

  verdict-verdict_for : (t : Fields) → verdict_of parse_date now peers t ≡ verdict_for t
  unfolding verdict_of
  verdict-verdict_for t =
      rw (expired-has_ended t, orphan-is_gone t)
        (elim (Bool-cases (is_taken t)) [ inl held ↦ rw held refl | inr free ↦ rw free refl ])

  recover-is_stuck :
      (t : Fields)
      → recover (verdict_of parse_date now peers t) t ≡ (if is_stuck t then release t else t)
  recover-is_stuck t = rw (verdict-verdict_for t) (rules (is_taken t) (has_ended t) (is_gone t))
    where
      rules :
          (held ended gone : Bool)
          → recover (verdict_if held ended gone) t
            ≡ (if held && (ended || gone) then release t else t)
      rules true true gone = refl
      rules true false true = refl
      rules true false false = refl
      rules false ended gone = refl

  nth-recover_from :
      (i : ℕ) (t : Fields) (ts : Table) (c : Counts)
      → nth i ts ≡ some t
      → nth i (recover_from parse_date now peers ts c).1
        ≡ some (if is_stuck t then release t else t)
  unfolding nth recover_from
  nth-recover_from i t [] c h = absurd (ground arith)
  nth-recover_from zero t (u ∷ ts) c h = ground (arith, recover-is_stuck u, h)
  nth-recover_from (suc i) t (u ∷ ts) c h =
      nth-recover_from i t ts (count_verdict (verdict_of parse_date now peers u) c) h

  length-recover_from :
      (ts : Table) (c : Counts) → length (recover_from parse_date now peers ts c).1 ≡ length ts
  unfolding recover_from
  length-recover_from [] c = refl
  length-recover_from (t ∷ ts) c =
      ap suc (length-recover_from ts (count_verdict (verdict_of parse_date now peers t) c))

  abbrev is_abandoned : Fields → Bool
  is_abandoned t = is_taken t && (not (has_ended t) && is_gone t)

  recover_from-IsCounted :
      (ts : Table) (c : Counts)
      → IsCounted
          (tally (λ t. is_taken t && has_ended t) ts)
          (tally is_abandoned ts)
          (tally is_stuck ts)
          c
          (recover_from parse_date now peers ts c).0
  unfolding recover_from
  recover_from-IsCounted [] c = record {
    expired = omega arith;
    orphans = omega arith;
    recovered = omega arith;
  }
  recover_from-IsCounted (t ∷ ts) c =
      let here = count_if-IsCounted (is_taken t) (has_ended t) (is_gone t) c in
      let rest = recover_from-IsCounted ts (count_verdict (verdict_for t) c) in
      rw (verdict-verdict_for t) (record {
        expired = omega (arith, here.expired, rest.expired);
        orphans = omega (arith, here.orphans, rest.orphans);
        recovered = omega (arith, here.recovered, rest.recovered);
      })

-- Exactly the accepted and running tasks whose lease has ended, or whose named holder is not known to
-- be on the relay, are published again, at their place, without a holder and an end of the lease, and
-- with their other fields; each other task stays as it is. Those whose lease has ended are counted as
-- expired, the others that are released as orphans, and all of them as recovered. A second recovery
-- at the same time finds nothing.
pub recovery_settles :
    (parse_date : String → Option ℕ) (now : ℕ) (peers : List Fields) (ts : Table)
    → let once = recover_stuck_tasks parse_date now peers ts in
      let known = peer_map peers [] in
      let stuck = is_stuck parse_date now known in
      let ended = has_ended parse_date now known in
      (length once.1 ≡ length ts)
      × ((i : ℕ) (t : Fields)
          → nth i ts ≡ some t
          → (stuck t ≡ true → (u : Fields) × (nth i once.1 ≡ some u) × IsReleased t u)
            × (stuck t ≡ false → nth i once.1 ≡ some t))
      × (once.0.expired ≡ tally (λ t. is_taken t && ended t) ts)
      × (once.0.orphan_released
          ≡ tally (λ t. is_taken t && (not (ended t) && is_gone parse_date now known t)) ts)
      × (once.0.recovered ≡ tally stuck ts)
      × (recover_stuck_tasks parse_date now peers once.1 ≡ (no_counts, once.1))
unfolding recover_stuck_tasks
recovery_settles parse_date now peers ts =
    let known = peer_map peers [] in
    let counted = recover_from-IsCounted parse_date now known ts no_counts in
    let at_place = nth-recover_from parse_date now known in
    (
      length-recover_from parse_date now known ts no_counts,
      λ i t h. (
        (λ stuck. (release t, rw stuck at (at_place i t ts no_counts h), release-IsReleased t)),
        (λ free. rw free at (at_place i t ts no_counts h)),
      ),
      omega (arith, counted.expired),
      omega (arith, counted.orphans),
      omega (arith, counted.recovered),
      recover_from-twice parse_date now known ts no_counts no_counts,
    )
