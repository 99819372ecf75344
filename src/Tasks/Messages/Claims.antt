-- ===== src/Tasks/Messages/Claims.antt =====
-- Claims, from the node that makes them to the node that receives them.
use a2a_fun.Prelude.{
  String, ◌≡◌, refl, sym, ap, ◌∙◌, ◌⊎◌, inl, inr, Bool, true, ◌&&◌, ◌||◌, none, some, [], ◌∷◌, ◌++◌,
  arith, str_eq, eq_iff, eq_refl, Bool-cases, Option-cases, ok-injective, ok, throw, trim, field_of,
  property, Value, undefined, null, bool, num, str, arr, obj, exotic, Fields, safe_str, is_text,
  or_else, is_blank, set_field, field_of-set_field, field_of-set_field_other, trim-trim,
}
use a2a_fun.Tasks.{Table, missing_fields}
use a2a_fun.Tasks.Store.{has_id, find, replace_first, status_of}
use a2a_fun.Tasks.Claim.{
  payload_of, lease_of, build_task_accepted_payload, placeholder, claimed_status, claim, claim_in,
  receive_task_accepted,
}
use a2a_fun.Tasks.Messages.{build_task_accepted_message}

-- The claim that taskMessages builds is refused wherever it is received, and changes no table: it has
-- the end of the lease under another key than the receiver reads.
pub receive-accepted_message :
    (now later : String) (task_id from to holder expires_at : Value) (message : Fields) (ts : Table)
    → build_task_accepted_message now task_id from to holder expires_at ≡ ok message
    → receive_task_accepted later (obj message) ts ≡ (throw missing_fields, ts)
unfolding build_task_accepted_message receive_task_accepted payload_of field_of safe_str trim
receive-accepted_message now later task_id from to holder expires_at message ts built =
    elim (Bool-cases (is_blank (safe_str task_id))) [
      | inl blank ↦ absurd (ground arith)
      | inr named ↦ let is = ok-injective (rw named at built) in rw (sym is) (ground arith)
    ]

find-replace_first :
    (p : Fields → Bool) (t u : Fields) (ts : Table)
    → find p ts ≡ some t
    → p u ≡ true
    → find p (replace_first p u ts) ≡ some u
unfolding find replace_first
find-replace_first p t u [] found own = absurd (ground arith)
find-replace_first p t u (v ∷ ts) found own = elim (Bool-cases (p v)) [
  | inl here ↦ ground arith
  | inr later ↦ let rest = find-replace_first p t u ts (ground arith) own in ground arith
]

find-append :
    (p : Fields → Bool) (u : Fields) (ts : Table)
    → find p ts ≡ none
    → p u ≡ true
    → find p (ts ++ u ∷ []) ≡ some u
unfolding find
find-append p u [] missing own = ground arith
find-append p u (v ∷ ts) missing own = elim (Bool-cases (p v)) [
  | inl here ↦ absurd (ground arith)
  | inr later ↦ let rest = find-append p u ts (ground arith) own in ground arith
]

safe_str-safe_str : (v : Value) → safe_str (str (safe_str v)) ≡ safe_str v
unfolding safe_str
safe_str-safe_str (str s) = trim-trim s
safe_str-safe_str undefined = refl
safe_str-safe_str null = refl
safe_str-safe_str (bool b) = refl
safe_str-safe_str (num n) = refl
safe_str-safe_str (arr vs) = refl
safe_str-safe_str (obj fs) = refl
safe_str-safe_str (exotic s) = refl

-- The task that a claim leaves in the table.
abbrev pub IsHeldBy : String → Value → Fields → Type 0
IsHeldBy task_id holder t =
    (has_id task_id t ≡ true)
    × (field_of "assigned_to" t ≡ holder)
    × ((status_of t ≡ str "accepted") ⊎ (status_of t ≡ str "running"))

has_id-claim :
    (task_id holder expires_at : String) (t : Fields)
    → has_id task_id t ≡ true
    → has_id task_id (claim holder expires_at t) ≡ true
unfolding claim
has_id-claim task_id holder expires_at t own =
    let status = claimed_status holder t in
    let assigned = set_field "assigned_to" (str holder) t in
    let a = field_of-set_field_other "task_id" "assigned_to" (str holder) t refl in
    let b = field_of-set_field_other "task_id" "status" status assigned refl in
    let c =
      field_of-set_field_other "task_id" "lease" (lease_of (str holder) (str expires_at))
        (set_field "status" status assigned) refl in
    rw (c ∙ b ∙ a) own

status-cases :
    (h : String) (u : Fields)
    → (claimed_status h u ≡ str "accepted") ⊎ (claimed_status h u ≡ str "running")
unfolding claimed_status
status-cases h u =
    elim (Bool-cases (
      is_text "running" (status_of u)
      && str_eq (safe_str (property "holder" (field_of "lease" u))) h)) [
        | inl kept ↦ inr (rw kept refl)
        | inr other ↦ inl (rw other refl)
      ]

claim-IsHeldBy :
    (task_id holder expires_at : String) (t : Fields)
    → has_id task_id t ≡ true
    → IsHeldBy task_id (str holder) (claim holder expires_at t)
unfolding claim
claim-IsHeldBy task_id holder expires_at t own =
    let status = claimed_status holder t in
    let assigned = set_field "assigned_to" (str holder) t in
    let last = set_field "status" status assigned in
    let lease = lease_of (str holder) (str expires_at) in
    (
      has_id-claim task_id holder expires_at t own,
      field_of-set_field_other "assigned_to" "lease" lease last refl
          ∙ field_of-set_field_other "assigned_to" "status" status assigned refl
          ∙ field_of-set_field "assigned_to" (str holder) t,
      rw
          (field_of-set_field_other "status" "lease" lease last refl
            ∙ field_of-set_field "status" status assigned)
          (status-cases holder t),
    )

-- What became of a claim: the task is finished here and stays so, or it is held by the claimant.
abbrev pub Settled : String → Value → Table → Table → Type 0
Settled task_id holder before after =
    ((t : Fields) × (find (has_id task_id) before ≡ some t)
      × (status_of t ≡ str "completed")
      × (after ≡ before))
    ⊎ ((t : Fields) × (find (has_id task_id) after ≡ some t) × IsHeldBy task_id holder t)

completed-is_text : (v : Value) → is_text "completed" v ≡ true → v ≡ str "completed"
completed-is_text (str s) h = ap str ((eq_iff s "completed").0 h)
completed-is_text undefined h = absurd (ground arith)
completed-is_text null h = absurd (ground arith)
completed-is_text (bool b) h = absurd (ground arith)
completed-is_text (num n) h = absurd (ground arith)
completed-is_text (arr vs) h = absurd (ground arith)
completed-is_text (obj fs) h = absurd (ground arith)
completed-is_text (exotic s) h = absurd (ground arith)

find-holds : (p : Fields → Bool) (t : Fields) (ts : Table) → find p ts ≡ some t → p t ≡ true
unfolding find
find-holds p t [] found = absurd (ground arith)
find-holds p t (v ∷ ts) found = elim (Bool-cases (p v)) [
  | inl here ↦ ground arith
  | inr later ↦ find-holds p t ts (ground arith)
]

claim_in-Settled :
    (task_id : String) (created_at : Value) (holder expires_at : String) (ts : Table)
    → Settled task_id (str holder) ts (claim_in task_id created_at holder expires_at ts).1
unfolding claim_in field_of
claim_in-Settled task_id created_at holder expires_at ts =
    elim (Option-cases (find (has_id task_id) ts)) [
      | inl missing ↦
          let new = placeholder task_id created_at holder expires_at in
          rw (missing, claim_in)
            (inr (
              new,
              find-append (has_id task_id) new ts missing (eq_refl task_id),
              (eq_refl task_id, refl, inl refl),
            ))
      | inr (t, found) ↦ elim (Bool-cases (is_text "completed" (status_of t))) [
        | inl done ↦
            rw (found, claim_in, done) (inl (t, refl, completed-is_text (status_of t) done, refl))
        | inr open_task ↦
            let own = find-holds (has_id task_id) t ts found in
            let u = claim holder expires_at t in
            rw (found, claim_in, open_task)
              (inr (
                u,
                find-replace_first (has_id task_id) t u ts found
                    (has_id-claim task_id holder expires_at t own),
                claim-IsHeldBy task_id holder expires_at t own,
              ))
      ]
    ]

-- A claim that taskClaim builds and another node receives is applied there: the claimed task is then
-- in the table, held by the claimant and accepted or running, unless it was completed there, where
-- nothing changes.
pub receive-claim :
    (now later : String) (task_id holder lease : Value) (message : Fields) (ts : Table)
    → build_task_accepted_payload now task_id holder lease ≡ ok message
    → Settled
        (safe_str task_id)
        (str (safe_str holder))
        ts
        (receive_task_accepted later (obj message) ts).1
unfolding build_task_accepted_payload receive_task_accepted payload_of field_of
receive-claim now later task_id holder lease message ts built =
    let tid = safe_str task_id in
    let h = safe_str holder in
    let exp = safe_str (property "expires_at" lease) in
    elim (Bool-cases (is_blank tid || is_blank h || is_blank exp)) [
      | inl blank ↦ absurd (ground arith)
      | inr full ↦
          let is = ok-injective (rw full at built) in
          let t1 = safe_str-safe_str task_id in
          let t2 = safe_str-safe_str holder in
          let t3 = safe_str-safe_str (property "expires_at" lease) in
          rw (sym is)
            (rw (t1, t2, t3, full) (claim_in-Settled tid (or_else (str now) (str later)) h exp ts))
    ]
