-- ===== src/Tasks/Store.antt =====
-- src/tasks/taskStore.mjs: the operations on the table. The file is read before and written after
-- each of them; here the table goes in and comes out, and stays as it was on an error.
use a2a_fun.Prelude.{
  String, Bool, Option, none, some, [], ◌∷◌, ◌++◌, if◌then◌else◌, require, Outcome, ok, throw, trim,
  field_of, is_object, Value, null, str, arr, obj, exotic, Fields, no_field, field, text_or_empty,
  is_text, or_null, text_or_null, set_field, ◌>>=◌, ◌>>◌,
}
use a2a_fun.Tasks.{
  Table, validate_task, TaskError, task_not_found, task_not_publishable, task_not_accepted,
  type_error,
}

-- `x.task_id === task_id`
abbrev pub has_id : String → Fields → Bool
has_id task_id t = is_text task_id (field_of "task_id" t)

unfoldable pub find : (Fields → Bool) → Table → Option Fields
find p [] = none
find p (t ∷ ts) = if p t then some t else find p ts

-- The entry that `find` gives is an object of the table, so what is written to it stands there.
unfoldable pub replace_first : (Fields → Bool) → Fields → Table → Table
replace_first p new [] = []
replace_first p new (t ∷ ts) =
    let rest = replace_first p new ts in if p t then new ∷ ts else t ∷ rest

abbrev pub Answer : Type 0 → Type 0
Answer A = Outcome TaskError A × Table

abbrev pub status_of : Fields → Value
status_of t = field_of "status" t

abbrev pub set_status : String → Fields → Fields
set_status s t = set_field "status" (str s) t

unfoldable pub publish_task : Value → Table → Answer Value
publish_task task ts = elim (validate_task task) [
  | throw e ↦ (throw e, ts)
  | ok t ↦ (ok (field_of "task_id" t), ts ++ t ∷ [])
]

-- A change of the task of an identifier, which may be refused.
unfoldable pub change_task : String → (Fields → Outcome TaskError Fields) → Table → Answer String
change_task task_id change ts = elim (find (has_id task_id) ts) [
  | none ↦ (throw task_not_found, ts)
  | some t ↦ elim (change t) [
    | throw e ↦ (throw e, ts)
    | ok u ↦ (ok task_id, replace_first (has_id task_id) u ts)
  ]
]

-- `t.lease.holder = …; t.lease.expires_at = …`; what is written to an array is not saved, and a lease
-- that is no object cannot be written to.
unfoldable pub write_lease : Value → Value → Value → Outcome TaskError Value
write_lease holder expires_at (obj lease) =
    ok (obj (set_field "expires_at" expires_at (set_field "holder" holder lease)))
write_lease holder expires_at (arr vs) = ok (arr vs)
write_lease holder expires_at (exotic s) = ok (exotic s)
write_lease holder expires_at _ = throw type_error

unfoldable pub accepted_by : Value → String → Fields → Outcome TaskError Fields
accepted_by holder expires_at t = do
  require (is_text "published" (status_of t)) task_not_publishable
  let assigned = text_or_null (trim (text_or_empty holder))
  lease ← write_lease assigned (str expires_at) (field_of "lease" t)
  ok (set_field "lease" lease (set_field "assigned_to" assigned (set_status "accepted" t)))

-- `acceptTask`, with the end of the lease given.
unfoldable pub accept_task : String → Value → String → Table → Answer String
accept_task task_id holder expires_at ts = change_task task_id (accepted_by holder expires_at) ts

unfoldable pub started : Fields → Outcome TaskError Fields
started t = do
  require (is_text "accepted" (status_of t)) task_not_accepted
  ok (set_status "running" t)

unfoldable pub mark_running : String → Table → Answer String
mark_running task_id ts = change_task task_id started ts

unfoldable pub completed_with : Value → Fields → Outcome TaskError Fields
completed_with result t =
    ok (set_field "error" null (set_field "result" (or_null result) (set_status "completed" t)))

unfoldable pub complete_task : String → Value → Table → Answer String
complete_task task_id result ts = change_task task_id (completed_with result) ts

unfoldable pub failed_with : Value → Fields → Outcome TaskError Fields
failed_with error t =
    let reason = if is_object error then error else obj (field "code" (str "FAILED") no_field) in
    ok (set_field "error" reason (set_status "failed" t))

unfoldable pub fail_task : String → Value → Table → Answer String
fail_task task_id error ts = change_task task_id (failed_with error) ts
