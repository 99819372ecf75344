-- ===== src/Tasks/Messages.antt =====
-- src/tasks/taskMessages.mjs: the messages in which a node announces tasks, results and claims.
pub mod Delivery
pub mod Claims
use a2a_fun.Prelude.{
  String, not, [], ◌∷◌, if◌then◌else◌, require, Outcome, ok, field_of, Value, str, Fields, safe_str,
  or_null, text_or_null, is_blank, object, ◌>>=◌, ◌>>◌,
}
use a2a_fun.Tasks.{validate_task, TaskError, missing_task_id}

abbrev pub safe_or_null : Value → Value
safe_or_null v = text_or_null (safe_str v)

unfoldable pub build_task_published_message : String → Value → Value → Outcome TaskError Fields
build_task_published_message now task from_peer_id = do
  t ← validate_task task
  let given = safe_str from_peer_id
  let from = if is_blank given then safe_str (field_of "created_by" t) else given
  ok (
      object (
        ("kind", str "A2A_TASK_PUBLISHED")
        ∷ ("timestamp", str now)
        ∷ ("from_peer_id", str from)
        ∷ ("task", task)
        ∷ []))

unfoldable pub build_task_result_message :
    String → Value → Value → Value → Value → Value → Value → Value → Outcome TaskError Fields
build_task_result_message now task_id from to final_status result result_hash error = do
  require (not (is_blank (safe_str task_id))) missing_task_id
  ok (
      object (
        ("kind", str "A2A_TASK_RESULT")
        ∷ ("timestamp", str now)
        ∷ ("from_peer_id", safe_or_null from)
        ∷ ("to_peer_id", safe_or_null to)
        ∷ ("task_id", str (safe_str task_id))
        ∷ ("final_status", safe_or_null final_status)
        ∷ ("result", or_null result)
        ∷ ("result_hash", safe_or_null result_hash)
        ∷ ("error", or_null error)
        ∷ []))

unfoldable pub build_task_accepted_message :
    String → Value → Value → Value → Value → Value → Outcome TaskError Fields
build_task_accepted_message now task_id from to holder lease_expires_at = do
  require (not (is_blank (safe_str task_id))) missing_task_id
  ok (
      object (
        ("kind", str "A2A_TASK_ACCEPTED")
        ∷ ("timestamp", str now)
        ∷ ("from_peer_id", safe_or_null from)
        ∷ ("to_peer_id", safe_or_null to)
        ∷ ("task_id", str (safe_str task_id))
        ∷ ("holder", safe_or_null holder)
        ∷ ("lease_expires_at", safe_or_null lease_expires_at)
        ∷ []))
