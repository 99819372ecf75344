-- ===== src/Tasks/Recovery.antt =====
-- src/tasks/taskRecovery.mjs: tasks whose lease has run out, or whose holder is gone, are published
-- again. `parse_date` is `Date.parse`, in milliseconds, where it gives a number.
pub mod Released
pub mod Settled
use a2a_fun.Prelude.{
  ℕ, ◌+◌, String, Bool, true, false, not, ◌&&◌, ◌||◌, Option, none, some, List, [], ◌∷◌, str_eq,
  ltb, if◌then◌else◌, Dict, get, put, field_of, property, Value, null, arr, obj, exotic, Fields,
  safe_str, is_true, set_field,
}
use a2a_fun.Tasks.{Table, free_lease}
use a2a_fun.Tasks.Store.{status_of, set_status}

-- `new Map(peers.map((p) => [safeStr(p.peer_id), p]))`
unfoldable pub peer_map : List Fields → Dict Fields → Dict Fields
peer_map [] m = m
peer_map (p ∷ ps) m = peer_map ps (put (safe_str (field_of "peer_id" p)) p m)

-- `!p || p.liveness?.on_relay !== true`
abbrev pub is_orphan : Option Fields → Bool
is_orphan none = true
is_orphan (some p) = not (is_true (property "on_relay" (field_of "liveness" p)))

-- What is written to an array is not saved.
unfoldable pub cleared_lease : Value → Value
cleared_lease (obj lease) = obj (set_field "expires_at" null (set_field "holder" null lease))
cleared_lease (arr vs) = arr vs
cleared_lease (exotic s) = exotic s
cleared_lease _ = free_lease

unfoldable pub clear_lease : Fields → Fields
clear_lease t =
    let u = set_field "assigned_to" null t in
    set_field "lease" (cleared_lease (field_of "lease" u)) u

unfoldable pub release : Fields → Fields
release t = clear_lease (set_status "published" t)

pub record Counts : Type 0 where
  pub expired : ℕ
  pub orphan_released : ℕ
  pub recovered : ℕ

pub data Verdict : Type 0 where
  keep lease_expired orphan : Verdict

abbrev pub count_verdict : Verdict → Counts → Counts
count_verdict keep c = c
count_verdict lease_expired c = record c { expired = c.expired + 1; recovered = c.recovered + 1 }
count_verdict orphan c = record c {
  orphan_released = c.orphan_released + 1;
  recovered = c.recovered + 1;
}

abbrev pub recover : Verdict → Fields → Fields
recover keep t = t
recover lease_expired t = release t
recover orphan t = release t

abbrev pub is_before : ℕ → Option ℕ → Bool
is_before now none = false
is_before now (some end) = ltb end now

-- `isLeaseExpired`
unfoldable pub is_lease_expired : (String → Option ℕ) → ℕ → Fields → Bool
is_lease_expired parse_date now t =
    let exp = safe_str (property "expires_at" (field_of "lease" t)) in
    if str_eq exp "" then false else is_before now (parse_date exp)

abbrev pub is_held : Fields → Bool
is_held t =
    let status = safe_str (status_of t) in str_eq status "accepted" || str_eq status "running"

module _ (parse_date : String → Option ℕ) (now : ℕ) (peers : Dict Fields) where
  -- What the loop decides for one task.
  unfoldable pub verdict_of : Fields → Verdict
  verdict_of t =
      let assigned = safe_str (field_of "assigned_to" t) in
      if not (is_held t)
      then keep
      else if is_lease_expired parse_date now t
      then lease_expired
      else if not (str_eq assigned "") && is_orphan (get assigned peers)
      then orphan
      else keep

  unfoldable pub recover_from : Table → Counts → Counts × Table
  recover_from [] c = (c, [])
  recover_from (t ∷ ts) c =
      let rest = recover_from ts (count_verdict (verdict_of t) c) in
      (rest.0, recover (verdict_of t) t ∷ rest.1)

-- `recoverStuckTasks`
unfoldable pub recover_stuck_tasks : (String → Option ℕ) → ℕ → List Fields → Table → Counts × Table
recover_stuck_tasks parse_date now peers ts =
    recover_from parse_date now (peer_map peers []) ts
      (record { expired = 0; orphan_released = 0; recovered = 0 })
