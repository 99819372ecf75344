-- ===== src/Tasks/Receiver.antt =====
-- src/tasks/taskReceiver.mjs and taskDedup.mjs: a task or a result that another node announces.
-- `digest` is the hash of a value's JSON text, whose keys have been sorted.
use Prim.Native.String
use a2a_fun.Prelude.{
  String, Bool, false, not, ◌&&◌, none, some, [], ◌∷◌, ◌++◌, str_eq, if◌then◌else◌, any, ok, throw,
  trim, field_of, property, Value, undefined, null, bool, num, str, arr, obj, exotic, Items,
  none_left, item, Fields, no_field, field, safe_str, text_or_empty, is_text, or_else, or_null,
  is_blank, object, set_field, insert_field,
}
use a2a_fun.Tasks.{Table, validate_task, missing_task_id}
use a2a_fun.Tasks.Store.{has_id, find, replace_first, Answer, status_of, publish_task}
use a2a_fun.Tasks.Claim.{payload_of, lease_of}

unfoldable mutual
  pub sorted_keys : Value → Value
  sorted_keys undefined = undefined
  sorted_keys null = null
  sorted_keys (bool b) = bool b
  sorted_keys (num n) = num n
  sorted_keys (str s) = str s
  sorted_keys (arr vs) = arr (sorted_items vs)
  sorted_keys (obj fs) = obj (sorted_fields fs)
  sorted_keys (exotic s) = obj no_field

  pub sorted_items : Items → Items
  sorted_items none_left = none_left
  sorted_items (item v vs) = item (sorted_keys v) (sorted_items vs)

  pub sorted_fields : Fields → Fields
  sorted_fields no_field = no_field
  sorted_fields (field k v fs) = insert_field k (sorted_keys v) (sorted_fields fs)

pub data Received : Type 0 where
  stored deduped ignored conflict : Received

-- `receiveTaskPublished`; `x.task_id === task.task_id` for a task that was checked.
abbrev pub same_id : Value → Fields → Bool
same_id (str task_id) t = has_id task_id t
same_id _ t = false

unfoldable pub receive_task_published : Value → Table → Answer Received
receive_task_published payload ts = elim (payload_of "A2A_TASK_PUBLISHED" payload) [
  | throw e ↦ (throw e, ts)
  | ok p ↦ elim (validate_task (field_of "task" p)) [
    | throw e ↦ (throw e, ts)
    | ok task ↦
        if any (same_id (field_of "task_id" task)) ts
        then (ok deduped, ts)
        else (ok stored, (publish_task (field_of "task" p) ts).1)
  ]
]

module _ (digest : Value → String) where
  unfoldable pub compute_result_hash : Value → String
  compute_result_hash result = String.◌++◌ "sha256:" (digest (sorted_keys (or_null result)))

  unfoldable pub compute_fingerprint : Value → String
  compute_fingerprint task =
      let input = property "input" task in
      let type = str (trim (text_or_empty (property "type" task))) in
      String.◌++◌ "sha256:" (
        digest
          (sorted_keys (obj (object (("type", type) ∷ ("normalized_input", safe_obj input) ∷ [])))))
    where
      safe_obj : Value → Value
      safe_obj (obj fs) = obj fs
      safe_obj (exotic s) = exotic s
      safe_obj _ = obj no_field

  -- `shouldSkipExecution`
  unfoldable pub should_skip_execution : Fields → Bool
  should_skip_execution task =
      is_text "completed" (status_of task)
      && is_text (compute_fingerprint (obj task)) (field_of "fingerprint" task)

  pub data Action : Type 0 where
    ignore clash apply : Action

  -- `handleDuplicateResult`, with the hash that the receiver has computed.
  unfoldable pub handle_duplicate_result : Fields → String → Action
  handle_duplicate_result t incoming_hash =
      if is_text "completed" (status_of t)
      then if not (str_eq incoming_hash "") && is_text incoming_hash (field_of "result_hash" t)
        then ignore
        else clash
      else apply

  unfoldable pub final_status_of : Fields → Value
  final_status_of p = or_else (field_of "final_status" p) (str "completed")

  unfoldable pub new_result : String → String → String → Fields → Fields
  new_result now task_id hash p = object (
      ("task_id", str task_id)
      ∷ ("type", str "query")
      ∷ ("topic", str "unknown")
      ∷ ("created_at", or_else (field_of "timestamp" p) (str now))
      ∷ ("created_by", or_else (field_of "to_peer_id" p) (str "unknown"))
      ∷ ("assigned_to", or_else (field_of "from_peer_id" p) null)
      ∷ ("status", final_status_of p)
      ∷ ("input", obj no_field)
      ∷ ("fingerprint", null)
      ∷ ("result", or_null (field_of "result" p))
      ∷ ("result_hash", str hash)
      ∷ ("error", or_null (field_of "error" p))
      ∷ ("lease", lease_of (or_else (field_of "from_peer_id" p) null) null)
      ∷ [])

  unfoldable pub with_result : String → Fields → Fields → Fields
  with_result hash p t = set_field "error" (or_null (field_of "error" p)) (
      set_field "result_hash" (str hash) (
        set_field "result" (or_null (field_of "result" p))
          (set_field "status" (final_status_of p) t)))

  -- The hash that comes with a result, or the one computed of it.
  unfoldable pub incoming_hash_of : Fields → String
  incoming_hash_of p =
      let given = safe_str (field_of "result_hash" p) in
      if str_eq given "" then compute_result_hash (field_of "result" p) else given

  unfoldable pub store_result : String → String → Fields → Table → Answer Received
  store_result now task_id p ts = elim (find (has_id task_id) ts) [
    | none ↦ (ok stored, ts ++ new_result now task_id (incoming_hash_of p) p ∷ [])
    | some t ↦ elim (handle_duplicate_result t (incoming_hash_of p)) [
      | ignore ↦ (ok ignored, ts)
      | clash ↦ (ok conflict, ts)
      | apply ↦
          (ok stored, replace_first (has_id task_id) (with_result (incoming_hash_of p) p t) ts)
    ]
  ]

  unfoldable pub receive_task_result : String → Value → Table → Answer Received
  receive_task_result now payload ts = elim (payload_of "A2A_TASK_RESULT" payload) [
    | throw e ↦ (throw e, ts)
    | ok p ↦
        let task_id = safe_str (field_of "task_id" p) in
        if is_blank task_id then (throw missing_task_id, ts) else store_result now task_id p ts
  ]
