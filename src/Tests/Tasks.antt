-- ===== src/Tests/Tasks.antt =====
-- The tasks on concrete tables and messages.
use a2a_fun.Tasks.Recovery.Released.{IsReleased}
use a2a_fun.Prelude.{
  ℕ, String, ◌≡◌, refl, true, false, not, ◌&&◌, Option, none, some, List, [], ◌∷◌, ◌++◌, str_eq,
  if◌then◌else◌, length, any, All, ok, throw, is_space, trim_start, trim_end, trim, starts_with,
  field_of, Value, null, str, obj, Fields, no_field, is_truthy, safe_str, string_of, text_or_empty,
  object, has_key, is_inherited,
}
use a2a_fun.Tasks.{Table, includes, require_keys, validate_fields, validate_task, missing_fields}
use a2a_fun.Tasks.Store.{has_id}
use a2a_fun.Tasks.Claim.{lease_of, build_task_accepted_payload, receive_task_accepted}
use a2a_fun.Tasks.Receiver.{receive_task_published, stored, deduped}
use a2a_fun.Tasks.Recovery.{
  peer_map, is_lease_expired, verdict_of, recover_from, recover_stuck_tasks,
}
use a2a_fun.Tasks.Recovery.Settled.{
  no_counts, is_taken, tally, has_ended, is_gone, is_stuck, recovery_settles,
}
use a2a_fun.Tasks.Sync.{rank_of, status_rank, nth, merge_tasks_into_store}
use a2a_fun.Tasks.Sync.Terminal.{is_finished, IsRegular, FinishedAt, FinishedAt-merge_tasks}
use a2a_fun.Tasks.Messages.{build_task_published_message, build_task_accepted_message}
use a2a_fun.Tasks.Messages.Delivery.{receive-build}
use a2a_fun.Tasks.Messages.Claims.{receive-accepted_message, Settled, receive-claim}

abbrev task_in : String → String → Fields
task_in status holder = object (
    ("task_id", str "task:1")
    ∷ ("type", str "query")
    ∷ ("topic", str "t")
    ∷ ("created_at", str "c")
    ∷ ("created_by", str "n")
    ∷ ("assigned_to", str holder)
    ∷ ("status", str status)
    ∷ ("input", obj no_field)
    ∷ ("lease", obj (object (("holder", str holder) ∷ ("expires_at", str "e") ∷ [])))
    ∷ [])

no_time : Value → Option ℕ
no_time v = none

abbrev incoming_tasks : List Value
incoming_tasks = obj (task_in "running" "b") ∷ obj (task_in "failed" "b") ∷ null ∷ []

completed_finished : is_finished (task_in "completed" "a") ≡ true
unfolding status_rank rank_of text_or_empty is_truthy string_of field_of
completed_finished = refl

incoming-IsRegular : All IsRegular incoming_tasks
unfolding has_key is_inherited text_or_empty is_truthy string_of field_of
incoming-IsRegular = (
  ((refl, (refl, (refl, (refl, (refl, (refl, (refl, (refl, (refl, tt))))))))), refl),
  (((refl, (refl, (refl, (refl, (refl, (refl, (refl, (refl, (refl, tt))))))))), refl), (tt, tt)),
)

first_task : nth 0 (task_in "completed" "a" ∷ []) ≡ some (task_in "completed" "a")
unfolding nth
first_task = refl

task_named : field_of "task_id" (task_in "published" "") ≡ str "task:1"
unfolding field_of
task_named = refl

FinishedAt-merge_tasks_example :
    FinishedAt 0
      (merge_tasks_into_store no_time incoming_tasks (task_in "completed" "a" ∷ [])).local
FinishedAt-merge_tasks_example =
    FinishedAt-merge_tasks no_time 0 incoming_tasks (task_in "completed" "a" ∷ [])
      incoming-IsRegular (task_in "completed" "a", first_task, completed_finished)

end_of : String → Option ℕ
end_of s = if str_eq s "e" then some 10 else none

abbrev two_tasks : Table
two_tasks = task_in "running" "a" ∷ task_in "completed" "a" ∷ []

recovery_settles_example :
    let once = recover_stuck_tasks end_of 20 [] two_tasks in
    let known = peer_map [] [] in
    let stuck = is_stuck end_of 20 known in
    let ended = has_ended end_of 20 known in
    (length once.1 ≡ length two_tasks)
    × ((i : ℕ) (t : Fields)
        → nth i two_tasks ≡ some t
        → (stuck t ≡ true → (u : Fields) × (nth i once.1 ≡ some u) × IsReleased t u)
          × (stuck t ≡ false → nth i once.1 ≡ some t))
    × (once.0.expired ≡ tally (λ t. is_taken t && ended t) two_tasks)
    × (once.0.orphan_released
        ≡ tally (λ t. is_taken t && (not (ended t) && is_gone end_of 20 known t)) two_tasks)
    × (once.0.recovered ≡ tally stuck two_tasks)
    × (recover_stuck_tasks end_of 20 [] once.1 ≡ (no_counts, once.1))
recovery_settles_example = recovery_settles end_of 20 [] two_tasks

-- The running task's lease has run out.
run_of_recovery : (recover_stuck_tasks end_of 20 [] two_tasks).0.expired ≡ 1
unfolding recover_stuck_tasks recover_from verdict_of is_lease_expired end_of safe_str trim
    trim_start trim_end is_space field_of
run_of_recovery = refl

abbrev announcement : Fields
announcement = object (
    ("kind", str "A2A_TASK_PUBLISHED")
    ∷ ("timestamp", str "now")
    ∷ ("from_peer_id", str "n")
    ∷ ("task", obj (task_in "published" ""))
    ∷ [])

announcement_built :
    build_task_published_message "now" (obj (task_in "published" "")) (str "n") ≡ ok announcement
unfolding build_task_published_message validate_task validate_fields require_keys has_key includes
    starts_with text_or_empty is_truthy string_of safe_str trim trim_start trim_end is_space
    field_of
announcement_built = refl

receive-build_example :
    let t = task_in "published" "" in
    let after = if any (has_id "task:1") two_tasks then two_tasks else two_tasks ++ t ∷ [] in
    (receive_task_published (obj announcement) two_tasks
      ≡ (ok (if any (has_id "task:1") two_tasks then deduped else stored), after))
    × (receive_task_published (obj announcement) after ≡ (ok deduped, after))
receive-build_example =
    receive-build "now" "task:1" (task_in "published" "") (str "n") announcement two_tasks
      task_named announcement_built

abbrev claim_message : Fields
claim_message = object (
    ("kind", str "A2A_TASK_ACCEPTED")
    ∷ ("timestamp", str "now")
    ∷ ("task_id", str "task:1")
    ∷ ("holder", str "b")
    ∷ ("lease", lease_of (str "b") (str "e"))
    ∷ [])

claim_message_built :
    build_task_accepted_payload "now"
      (str "task:1")
      (str " b ")
      (obj (object (("expires_at", str "e") ∷ [])))
    ≡ ok claim_message
unfolding build_task_accepted_payload safe_str trim trim_start trim_end is_space field_of
claim_message_built = refl

receive-claim_example :
    Settled
      (safe_str (str "task:1"))
      (str (safe_str (str " b ")))
      two_tasks
      (receive_task_accepted "later" (obj claim_message) two_tasks).1
receive-claim_example =
    receive-claim "now" "later" (str "task:1") (str " b ")
      (obj (object (("expires_at", str "e") ∷ []))) claim_message two_tasks claim_message_built

abbrev unread_claim : Fields
unread_claim = object (
    ("kind", str "A2A_TASK_ACCEPTED")
    ∷ ("timestamp", str "now")
    ∷ ("from_peer_id", null)
    ∷ ("to_peer_id", null)
    ∷ ("task_id", str "task:1")
    ∷ ("holder", str "b")
    ∷ ("lease_expires_at", str "e")
    ∷ [])

unread_claim_built :
    build_task_accepted_message "now" (str "task:1") null null (str "b") (str "e") ≡ ok unread_claim
unfolding build_task_accepted_message safe_str trim trim_start trim_end is_space
unread_claim_built = refl

receive-accepted_message_example :
    receive_task_accepted "later" (obj unread_claim) two_tasks ≡ (throw missing_fields, two_tasks)
receive-accepted_message_example =
    receive-accepted_message "now" "later" (str "task:1") null null (str "b") (str "e") unread_claim
      two_tasks unread_claim_built
