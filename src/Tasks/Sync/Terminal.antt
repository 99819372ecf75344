-- ===== src/Tasks/Sync/Terminal.antt =====
-- What a merge does to the tasks that are finished.
use a2a_fun.Prelude.{
  ℕ, zero, suc, String, ◌≡◌, refl, sym, ◌∙◌, inl, inr, Bool, true, false, Option, some, List, [],
  ◌∷◌, ◌++◌, arith, str_eq, ◌==◌, if◌then◌else◌, ==_iff, Bool-cases, Option-cases, All, get,
  field_of, Value, undefined, null, bool, num, str, arr, obj, exotic, Fields, no_field, field,
  safe_str, text_or_empty, object, has_key, assign, IsObject, field_of-assign, is_inherited,
}
use a2a_fun.Tasks.{Table}
use a2a_fun.Tasks.Store.{status_of}
use a2a_fun.Tasks.Sync.{
  rank_of, status_rank, is_final, nth, set_nth, index_ids, is_newer, update_at, insert_task,
  merge_task, merge_all, merge_tasks_into_store, Merge,
}

abbrev pub is_finished : Fields → Bool
is_finished t = is_final (status_rank (status_of t))

-- What the theorem asks of an incoming task: no key twice, and no status that is the name of an
-- inherited property.
abbrev pub IsRegular : Value → Type 0
IsRegular (obj fs) = IsObject fs × (is_inherited (text_or_empty (status_of fs)) ≡ false)
IsRegular _ = Unit {0}

abbrev pub FinishedAt : ℕ → Table → Type 0
FinishedAt i ts = (u : Fields) × (nth i ts ≡ some u) × (is_finished u ≡ true)

nth-set_nth :
    (i j : ℕ) (u t : Fields) (ts : Table)
    → nth i ts ≡ some t
    → nth i (set_nth j u ts) ≡ (if j == i then some u else some t)
unfolding nth set_nth
nth-set_nth zero zero u t (v ∷ ts) h = refl
nth-set_nth zero (suc j) u t (v ∷ ts) h = ground arith
nth-set_nth (suc i) zero u t (v ∷ ts) h = ground arith
nth-set_nth (suc i) (suc j) u t (v ∷ ts) h = let rest = nth-set_nth i j u t ts h in ground arith
nth-set_nth i j u t [] h = absurd (ground arith)

nth-append : (i : ℕ) (t : Fields) (ts us : Table) → nth i ts ≡ some t → nth i (ts ++ us) ≡ some t
unfolding nth
nth-append i t [] us h = absurd (ground arith)
nth-append zero t (v ∷ ts) us h = h
nth-append (suc i) t (v ∷ ts) us h = nth-append i t ts us h

-- A status that ranks as final has a key of its own.
absent_status : (fs : Fields) → has_key "status" fs ≡ false → status_of fs ≡ undefined
unfolding has_key field_of
absent_status no_field h = refl
absent_status (field k v fs) h = elim (Bool-cases (str_eq k "status")) [
  | inl same ↦ absurd (ground arith)
  | inr other ↦ let rest = absent_status fs (ground arith) in ground arith
]

rank_is_some : (s : String) → is_inherited s ≡ false → (n : ℕ) × (rank_of s ≡ some n)
unfolding rank_of
rank_is_some s h = elim (Option-cases (rank_of s)) [
  | inl missing ↦ absurd (ground arith)
  | inr ranked ↦ ranked
]

some-finished :
    {t u : Fields}
    → ◌≡◌ {A = Option Fields} (some t) (some u)
    → is_finished u ≡ true
    → is_finished t ≡ true
some-finished e h = cc

module _ (parse_time : Value → Option ℕ) where
  -- A newer task that replaces a finished one is finished.
  finished_newer :
      (cur incoming : Fields)
      → IsRegular (obj incoming)
      → is_finished cur ≡ true
      → is_newer parse_time cur incoming ≡ true
      → is_finished (assign cur incoming) ≡ true
  unfolding is_newer
  finished_newer cur incoming (object, regular) done newer =
      let assigned = field_of-assign "status" cur incoming object in
      elim (Bool-cases (has_key "status" incoming)) [
        | inl present ↦
            let ranked = rank_is_some (text_or_empty (status_of incoming)) regular in
            let merged : status_of (assign cur incoming) ≡ status_of incoming =
              rw present at assigned in
            let rank : status_rank (status_of incoming) ≡ some ranked.0 =
              unfold status_rank in ranked.1 in
            rw merged (ground (arith, rank))
        | inr absent ↦
            let merged : status_of (assign cur incoming) ≡ status_of cur = rw absent at assigned in
            rw merged done
      ]

  FinishedAt-update :
      (i j : ℕ) (incoming : Fields) (m : Merge)
      → IsRegular (obj incoming)
      → FinishedAt i m.local
      → FinishedAt i (update_at parse_time j incoming m).local
  unfolding update_at
  FinishedAt-update i j incoming m regular (u, found, done) = elim (Option-cases (nth j m.local)) [
    | inl missing ↦ rw (missing, update_at) (u, found, done)
    | inr (cur, is) ↦
        rw (is, update_at)
          (elim (Bool-cases (is_newer parse_time cur incoming)) [
            | inr older ↦ rw older (u, found, done)
            | inl newer ↦ rw newer (replaced cur is newer)
          ])
  ]
    where
      replaced :
          (cur : Fields)
          → nth j m.local ≡ some cur
          → is_newer parse_time cur incoming ≡ true
          → FinishedAt i (set_nth j (assign cur incoming) m.local)
      replaced cur is newer =
          let after = nth-set_nth i j (assign cur incoming) u m.local found in
          elim (Bool-cases (j == i)) [
            | inr other ↦ (u, rw other at after, done)
            | inl same ↦
                let place : j ≡ i = (==_iff j i).0 same in
                let is_here : nth i m.local ≡ some cur = rw place at is in
                let finished : is_finished cur ≡ true = some-finished (sym is_here ∙ found) done in
                (
                  assign cur incoming,
                  rw same at after,
                  finished_newer cur incoming regular finished newer,
                )
          ]

  FinishedAt-merge :
      (i : ℕ) (incoming : Fields) (m : Merge)
      → IsRegular (obj incoming)
      → FinishedAt i m.local
      → FinishedAt i (merge_task parse_time incoming m).local
  unfolding merge_task insert_task
  FinishedAt-merge i incoming m regular (u, found, done) =
      let inserted : FinishedAt i (m.local ++ incoming ∷ []) =
        (u, nth-append i u m.local (incoming ∷ []) found, done) in
      let id = safe_str (field_of "task_id" incoming) in
      elim (Bool-cases (str_eq id "")) [
        | inl blank ↦ rw blank (u, found, done)
        | inr named ↦ rw named (elim (Option-cases (get id m.by_id)) [
          | inl new ↦ rw (new, merge_task) inserted
          | inr (j, old) ↦
              rw (old, merge_task) (FinishedAt-update i j incoming m regular (u, found, done))
        ])
      ]

  FinishedAt-merge_all :
      (i : ℕ) (tasks : List Value) (m : Merge)
      → All IsRegular tasks
      → FinishedAt i m.local
      → FinishedAt i (merge_all parse_time tasks m).local
  unfolding merge_all
  FinishedAt-merge_all i [] m regular done = done
  FinishedAt-merge_all i (obj t ∷ ts) m (regular, rest) done =
      FinishedAt-merge_all i ts (merge_task parse_time t m) rest
        (FinishedAt-merge i t m regular done)
  FinishedAt-merge_all i (undefined ∷ ts) m (regular, rest) done =
      FinishedAt-merge_all i ts m rest done
  FinishedAt-merge_all i (null ∷ ts) m (regular, rest) done = FinishedAt-merge_all i ts m rest done
  FinishedAt-merge_all i (bool b ∷ ts) m (regular, rest) done =
      FinishedAt-merge_all i ts m rest done
  FinishedAt-merge_all i (num n ∷ ts) m (regular, rest) done = FinishedAt-merge_all i ts m rest done
  FinishedAt-merge_all i (str s ∷ ts) m (regular, rest) done = FinishedAt-merge_all i ts m rest done
  FinishedAt-merge_all i (arr vs ∷ ts) m (regular, rest) done =
      FinishedAt-merge_all i ts m rest done
  FinishedAt-merge_all i (exotic s ∷ ts) m (regular, rest) done =
      FinishedAt-merge_all i ts m rest done

  -- A merge with any tasks leaves every finished task, completed or failed, in its place and
  -- finished, if no incoming object has a key twice or, for its status, the name of a property that
  -- all objects inherit.
  pub FinishedAt-merge_tasks :
      (i : ℕ) (tasks : List Value) (ts : Table)
      → All IsRegular tasks
      → FinishedAt i ts
      → FinishedAt i (merge_tasks_into_store parse_time tasks ts).local
  unfolding merge_tasks_into_store
  FinishedAt-merge_tasks i tasks ts regular done =
      FinishedAt-merge_all i tasks
        (record { local = ts; by_id = index_ids ts 0 []; inserted = 0; updated = 0 }) regular done
