-- ===== src/Tasks.antt =====
-- src/tasks/taskSchema.mjs: what a task is. A task is an object as JSON gives it; the table of the
-- tasks is the list of them.
pub mod Store
pub mod Claim
pub mod Receiver
pub mod Recovery
pub mod Sync
pub mod Messages
use a2a_fun.Prelude.{
  String, Bool, List, [], ◌∷◌, if◌then◌else◌, any, require, Outcome, ok, throw, trim, starts_with,
  field_of, is_object, Value, null, str, arr, obj, exotic, Fields, no_field, field, text_or_empty,
  is_text, object, has_key, ◌>>=◌, ◌>>◌,
}

pub data TaskError : Type 0 where
  invalid_task invalid_task_id invalid_type invalid_status invalid_lease : TaskError
  missing_field : String → TaskError
  task_not_found task_not_publishable task_not_accepted : TaskError
  invalid_payload missing_fields missing_task_id type_error : TaskError

abbrev pub Table : Type 0
Table = List Fields

abbrev pub task_types : List String
task_types =
    "query" ∷ "fetch" ∷ "run_check" ∷ "web_research" ∷ "extract_structured_data" ∷ "node_diagnose"
    ∷ []

abbrev pub task_states : List String
task_states = "published" ∷ "accepted" ∷ "running" ∷ "completed" ∷ "failed" ∷ "expired" ∷ []

abbrev pub required_keys : List String
required_keys =
    "task_id" ∷ "type" ∷ "topic" ∷ "created_at" ∷ "created_by" ∷ "status" ∷ "input" ∷ "lease" ∷ []

-- `list.includes(v)` of a list of strings
unfoldable pub includes : List String → Value → Bool
includes xs v = any (λ s. is_text s v) xs

-- `validateTask`: every required key is there, and the checked fields have what they ask for. An
-- object that is no plain one has none of the keys.
unfoldable pub require_keys : List String → Fields → Outcome TaskError (Unit {0})
require_keys [] fs = ok tt
require_keys (k ∷ ks) fs =
    let rest = require_keys ks fs in if has_key k fs then rest else throw (missing_field k)

unfoldable pub validate_fields : Fields → Outcome TaskError (Unit {0})
validate_fields fs = do
  require_keys required_keys fs
  require (starts_with "task:" (text_or_empty (field_of "task_id" fs))) invalid_task_id
  require (includes task_types (field_of "type" fs)) invalid_type
  require (includes task_states (field_of "status" fs)) invalid_status
  require (is_object (field_of "lease" fs)) invalid_lease

unfoldable pub validate_task : Value → Outcome TaskError Fields
validate_task (obj fs) = do validate_fields fs; ok fs
validate_task (arr vs) = throw (missing_field "task_id")
validate_task (exotic s) = throw (missing_field "task_id")
validate_task _ = throw invalid_task

abbrev pub free_lease : Value
free_lease = obj (field "holder" null (field "expires_at" null no_field))

-- `createTask`, with the identifier and the time given.
unfoldable pub create_task :
    String → String → Value → Value → Value → Value → Outcome TaskError Fields
create_task task_id now type topic created_by input = validate_task (
    obj (
      object (
        ("task_id", str task_id)
        ∷ ("type", type)
        ∷ ("topic", str (trim (text_or_empty topic)))
        ∷ ("created_at", str now)
        ∷ ("created_by", str (trim (text_or_empty created_by)))
        ∷ ("assigned_to", null)
        ∷ ("status", str "published")
        ∷ ("input", if is_object input then input else obj no_field)
        ∷ ("requires", null)
        ∷ ("fingerprint", null)
        ∷ ("result", null)
        ∷ ("result_hash", null)
        ∷ ("error", null)
        ∷ ("lease", free_lease)
        ∷ [])))
