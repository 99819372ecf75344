-- ===== src/Tasks/Claim.antt =====
-- src/tasks/taskClaim.mjs: the messages with which a node claims a task.
use a2a_fun.Prelude.{
  String, not, ◌&&◌, ◌||◌, none, some, [], ◌∷◌, ◌++◌, str_eq, if◌then◌else◌, require, Outcome, ok,
  throw, field_of, property, Value, null, str, obj, Fields, no_field, field, safe_str, is_text,
  or_else, is_blank, object, set_field, ◌>>◌,
}
use a2a_fun.Tasks.{Table, TaskError, invalid_payload, missing_fields}
use a2a_fun.Tasks.Store.{has_id, find, replace_first, Answer, status_of}

-- `isObj(payload) && payload.kind === kind`, for a payload as JSON gives it.
unfoldable pub payload_of : String → Value → Outcome TaskError Fields
payload_of kind (obj p) = do require (is_text kind (field_of "kind" p)) invalid_payload; ok p
payload_of kind _ = throw invalid_payload

abbrev pub lease_of : Value → Value → Value
lease_of holder expires_at = obj (field "holder" holder (field "expires_at" expires_at no_field))

unfoldable pub build_task_accepted_payload :
    String → Value → Value → Value → Outcome TaskError Fields
build_task_accepted_payload now task_id holder lease =
    let tid = safe_str task_id in
    let h = safe_str holder in
    let exp = safe_str (property "expires_at" lease) in
    do
      require (not (is_blank tid || is_blank h || is_blank exp)) missing_fields
      ok (
          object (
            ("kind", str "A2A_TASK_ACCEPTED")
            ∷ ("timestamp", str now)
            ∷ ("task_id", str tid)
            ∷ ("holder", str h)
            ∷ ("lease", lease_of (str h) (str exp))
            ∷ []))

-- The record of a task that is not in the table yet.
abbrev pub placeholder : String → Value → String → String → Fields
placeholder task_id created_at holder expires_at = object (
    ("task_id", str task_id)
    ∷ ("type", str "query")
    ∷ ("topic", str "unknown")
    ∷ ("created_at", created_at)
    ∷ ("created_by", str "unknown")
    ∷ ("assigned_to", str holder)
    ∷ ("status", str "accepted")
    ∷ ("input", obj no_field)
    ∷ ("requires", null)
    ∷ ("fingerprint", null)
    ∷ ("result", null)
    ∷ ("result_hash", null)
    ∷ ("error", null)
    ∷ ("lease", lease_of (str holder) (str expires_at))
    ∷ [])

-- The status after a claim: a running task stays so under its own holder.
unfoldable pub claimed_status : String → Fields → Value
claimed_status holder t =
    if is_text "running" (status_of t)
      && str_eq (safe_str (property "holder" (field_of "lease" t))) holder
    then str "running"
    else str "accepted"

unfoldable pub claim : String → String → Fields → Fields
claim holder expires_at t =
    set_field "lease" (lease_of (str holder) (str expires_at))
      (set_field "status" (claimed_status holder t) (set_field "assigned_to" (str holder) t))

pub data Claimed : Type 0 where
  applied local_completed : Claimed

unfoldable pub claim_in : String → Value → String → String → Table → Answer Claimed
claim_in task_id created_at holder expires_at ts = elim (find (has_id task_id) ts) [
  | none ↦ (ok applied, ts ++ placeholder task_id created_at holder expires_at ∷ [])
  | some t ↦
      if is_text "completed" (status_of t)
      then (ok local_completed, ts)
      else (ok applied, replace_first (has_id task_id) (claim holder expires_at t) ts)
]

-- `receiveTaskAccepted`
unfoldable pub receive_task_accepted : String → Value → Table → Answer Claimed
receive_task_accepted now payload ts = elim (payload_of "A2A_TASK_ACCEPTED" payload) [
  | throw e ↦ (throw e, ts)
  | ok p ↦
      let task_id = safe_str (field_of "task_id" p) in
      let holder = safe_str (field_of "holder" p) in
      let expires_at = safe_str (property "expires_at" (field_of "lease" p)) in
      if is_blank task_id || is_blank holder || is_blank expires_at
      then (throw missing_fields, ts)
      else claim_in task_id (or_else (field_of "timestamp" p) (str now)) holder expires_at ts
]
