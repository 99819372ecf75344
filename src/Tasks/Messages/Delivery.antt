-- ===== src/Tasks/Messages/Delivery.antt =====
-- Messages about tasks, from the node that builds them to the node that receives them.
use a2a_fun.Tasks.Messages.{build_task_published_message}
use a2a_fun.Prelude.{
  String, ◌≡◌, refl, sym, ap, inl, inr, Bool, true, ◌||◌, List, [], ◌∷◌, ◌++◌, arith, eq_refl,
  if◌then◌else◌, Bool-cases, any, Outcome-cases, ok-injective, ok, field_of, Value, str, obj,
  Fields, safe_str, is_blank, object,
}
use a2a_fun.Tasks.{Table, validate_fields, validate_task}
use a2a_fun.Tasks.Store.{has_id, publish_task}
use a2a_fun.Tasks.Claim.{payload_of}
use a2a_fun.Tasks.Receiver.{same_id, receive_task_published, stored, deduped}

any-append {ℓ} :
    {A : Type ℓ} (p : A → Bool) (xs ys : List A) → any p (xs ++ ys) ≡ (any p xs || any p ys)
any-append p [] ys = refl
any-append p (x ∷ xs) ys = ground (arith, any-append p xs ys)

validate-obj : (t : Fields) → validate_fields t ≡ ok tt → validate_task (obj t) ≡ ok t
unfolding validate_task
validate-obj t h = rw h refl

published_message : String → Fields → Value → Fields
published_message now t from = object (
    ("kind", str "A2A_TASK_PUBLISHED")
    ∷ ("timestamp", str now)
    ∷ ("from_peer_id", from)
    ∷ ("task", obj t)
    ∷ [])

publish-valid :
    (t : Fields) (ts : Table)
    → validate_fields t ≡ ok tt
    → (publish_task (obj t) ts).1 ≡ ts ++ t ∷ []
unfolding publish_task
publish-valid t ts h = rw (validate-obj t h, publish_task) refl

receive-message :
    (now : String) (t : Fields) (from : Value) (ts : Table)
    → validate_fields t ≡ ok tt
    → receive_task_published (obj (published_message now t from)) ts ≡ (
        if any (same_id (field_of "task_id" t)) ts
        then (ok deduped, ts)
        else (ok stored, ts ++ t ∷ []))
unfolding receive_task_published payload_of published_message field_of publish_task
receive-message now t from ts h =
    let same = any (same_id (field_of "task_id" t)) ts in
    rw (validate-obj t h, receive_task_published)
      (ap (λ (after : Table). if same then (ok deduped, ts) else (ok stored, after))
        (publish-valid t ts h))

-- What a message that was built consists of.
built_message :
    (now : String) (t : Fields) (from : Value) (message : Fields)
    → build_task_published_message now (obj t) from ≡ ok message
    → (validate_fields t ≡ ok tt) × ((sender : Value) × (message ≡ published_message now t sender))
unfolding build_task_published_message validate_task published_message
built_message now t from message h = elim (Outcome-cases (validate_fields t)) [
  | inr (e, bad) ↦ absurd (ground (arith, bad))
  | inl (u, good) ↦
      let given = safe_str from in
      let sender = str (if is_blank given then safe_str (field_of "created_by" t) else given) in
      (good, (sender, sym (ok-injective (rw good at h))))
]

receive-built :
    (now task_id : String) (t : Fields) (sender : Value) (ts : Table)
    → field_of "task_id" t ≡ str task_id
    → validate_fields t ≡ ok tt
    → receive_task_published (obj (published_message now t sender)) ts
      ≡ (if any (has_id task_id) ts then (ok deduped, ts) else (ok stored, ts ++ t ∷ []))
receive-built now task_id t sender ts named valid =
    let received = receive-message now t sender ts valid in rw named at received

-- The announcement that a node builds of a task is taken by the node that receives it: the task is
-- stored exactly where its identifier is new there, and the same announcement changes nothing when
-- it comes again, if the identifier is a text.
pub receive-build :
    (now task_id : String) (t : Fields) (from : Value) (message : Fields) (ts : Table)
    → field_of "task_id" t ≡ str task_id
    → build_task_published_message now (obj t) from ≡ ok message
    → let after = if any (has_id task_id) ts then ts else ts ++ t ∷ [] in
      (receive_task_published (obj message) ts
        ≡ (ok (if any (has_id task_id) ts then deduped else stored), after))
      × (receive_task_published (obj message) after ≡ (ok deduped, after))
receive-build now task_id t from message ts named built =
    let (valid, (sender, is)) = built_message now t from message built in
    let own : has_id task_id t ≡ true = ground (arith, named, eq_refl task_id) in
    let longer = any-append (has_id task_id) ts (t ∷ []) in
    let once = receive-built now task_id t sender ts named valid in
    let again = receive-built now task_id t sender (ts ++ t ∷ []) named valid in
    rw is (elim (Bool-cases (any (has_id task_id) ts)) [
      | inl known ↦
          let kept : receive_task_published (obj (published_message now t sender)) ts
              ≡ (ok deduped, ts) =
            rw known at once in
          rw known (kept, kept)
      | inr new ↦
          let found : any (has_id task_id) (ts ++ t ∷ []) ≡ true = ground arith in
          rw new (rw new at once, rw found at again)
    ])
