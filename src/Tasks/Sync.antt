-- ===== src/Tasks/Sync.antt =====
-- src/tasks/taskSync.mjs: the tables of two nodes are brought together. `parse_time` is `Date.parse`
-- of a value, where it gives a number, and `precedes a b` says that `a.localeCompare(b)` is negative.
pub mod Terminal
use a2a_fun.Prelude.{
  ℕ, zero, suc, ◌+◌, String, Bool, false, ◌&&◌, ◌||◌, Option, none, some, List, [], ◌∷◌, ◌++◌,
  str_eq, ltb, leb, ◌==◌, if◌then◌else◌, length, take, Outcome, ok, throw, Dict, get, put, field_of,
  elements, Value, str, arr, obj, Fields, safe_str, text_or_empty, or_else, assign, is_inherited,
}
use a2a_fun.Tasks.{Table, TaskError}
use a2a_fun.Tasks.Store.{status_of}
use a2a_fun.Tasks.Claim.{payload_of}

-- `order[status]`: what is inherited is no number, and compares with none.
unfoldable pub rank_of : String → Option ℕ
rank_of s =
    if str_eq s "published"
    then some 1
    else if str_eq s "accepted"
    then some 2
    else if str_eq s "running"
    then some 3
    else if str_eq s "completed"
    then some 4
    else if str_eq s "failed"
    then some 4
    else if is_inherited s
    then none
    else some 0

-- `statusRank`
unfoldable pub status_rank : Value → Option ℕ
status_rank status = rank_of (text_or_empty status)

-- `a >= 4`, `a < 4`, `a > b`, which are false where a side is no number
abbrev pub is_final : Option ℕ → Bool
is_final none = false
is_final (some a) = leb 4 a

abbrev pub is_early : Option ℕ → Bool
is_early none = false
is_early (some a) = ltb a 4

abbrev pub exceeds : Option ℕ → Option ℕ → Bool
exceeds (some a) (some b) = ltb b a
exceeds _ _ = false

-- The tasks, and for each identifier the place of its task in the table: `byId` holds the task
-- itself, so what is assigned to it stands in the table.
pub record Merge : Type 0 where
  pub local : Table
  pub by_id : Dict ℕ
  pub inserted : ℕ
  pub updated : ℕ

unfoldable pub nth : ℕ → Table → Option Fields
nth i [] = none
nth zero (t ∷ ts) = some t
nth (suc i) (t ∷ ts) = nth i ts

unfoldable pub set_nth : ℕ → Fields → Table → Table
set_nth i u [] = []
set_nth zero u (t ∷ ts) = u ∷ ts
set_nth (suc i) u (t ∷ ts) = t ∷ set_nth i u ts

-- `new Map(local.map((t) => [t.task_id, t]))`; a key that is no text is never asked for.
unfoldable pub index_ids : Table → ℕ → Dict ℕ → Dict ℕ
index_ids [] i m = m
index_ids (t ∷ ts) i m = index_ids ts (i + 1) (add_id (field_of "task_id" t) i m)
  where
    add_id : Value → ℕ → Dict ℕ → Dict ℕ
    add_id (str id) j d = put id j d
    add_id _ j d = d

module _ (parse_time : Value → Option ℕ) where
  abbrev pub time_of : Fields → Option ℕ
  time_of t =
      parse_time (or_else (field_of "updated_at" t) (or_else (field_of "created_at" t) (str "")))

  -- Whether an incoming task replaces the fields of the one that is there.
  unfoldable pub is_newer : Fields → Fields → Bool
  is_newer cur incoming =
      let cur_rank = status_rank (status_of cur) in
      let in_rank = status_rank (status_of incoming) in
      if is_final cur_rank && is_early in_rank
      then false
      else exceeds in_rank cur_rank || exceeds (time_of incoming) (time_of cur)

  unfoldable pub update_at : ℕ → Fields → Merge → Merge
  update_at i incoming m = elim (nth i m.local) [
    | none ↦ m
    | some cur ↦
        if is_newer cur incoming
        then record m { local = set_nth i (assign cur incoming) m.local; updated = m.updated + 1 }
        else m
  ]

  unfoldable pub insert_task : String → Fields → Merge → Merge
  insert_task id incoming m = record m {
    local = m.local ++ incoming ∷ [];
    by_id = put id (length m.local) m.by_id;
    inserted = m.inserted + 1;
  }

  unfoldable pub merge_task : Fields → Merge → Merge
  merge_task incoming m =
      let id = safe_str (field_of "task_id" incoming) in
      if str_eq id "" then m else elim (get id m.by_id) [
        | none ↦ insert_task id incoming m
        | some i ↦ update_at i incoming m
      ]

  unfoldable pub merge_all : List Value → Merge → Merge
  merge_all [] m = m
  merge_all (obj incoming ∷ rest) m = merge_all rest (merge_task incoming m)
  merge_all (_ ∷ rest) m = merge_all rest m

  -- `mergeTasksIntoStore`
  unfoldable pub merge_tasks_into_store : List Value → Table → Merge
  merge_tasks_into_store tasks ts =
      merge_all tasks (record { local = ts; by_id = index_ids ts 0 []; inserted = 0; updated = 0 })

  -- `receiveTaskSyncResponse`
  unfoldable pub receive_task_sync_response : Value → Table → Outcome TaskError (ℕ × ℕ × ℕ) × Table
  receive_task_sync_response payload ts = elim (payload_of "A2A_TASK_SYNC_RESPONSE" payload) [
    | throw e ↦ (throw e, ts)
    | ok p ↦
        let m = merge_tasks_into_store (tasks_of (field_of "tasks" p)) ts in
        (ok (m.inserted, m.updated, length m.local), m.local)
  ]
    where
      tasks_of : Value → List Value
      tasks_of (arr vs) = elements vs
      tasks_of _ = []

-- `Math.max(1, Math.min(200, Number(limit) || 50))` of a whole number
unfoldable pub clamp_limit : ℕ → ℕ
clamp_limit n =
    let wanted = if n == 0 then 50 else n in
    let most = if leb wanted 200 then wanted else 200 in if leb 1 most then most else 1

module _ (precedes : String → String → Bool) where
  -- The newest first; equal times keep their order.
  unfoldable pub insert_newest : Fields → Table → Table
  insert_newest t [] = t ∷ []
  insert_newest t (u ∷ us) =
      let rest = insert_newest t us in
      if precedes (created t) (created u) then u ∷ rest else t ∷ u ∷ us
    where
      created : Fields → String
      created x = text_or_empty (field_of "created_at" x)

  unfoldable pub newest_first : Table → Table
  newest_first [] = []
  newest_first (t ∷ ts) = insert_newest t (newest_first ts)

  -- The tasks of `buildTaskSyncResponse`.
  unfoldable pub sync_response_tasks : ℕ → Table → Table
  sync_response_tasks limit ts = take (clamp_limit limit) (newest_first ts)
