-- ===== src/Tasks/Recovery/Released.antt =====
-- What a task says that the recovery has published again.
use a2a_fun.Prelude.{
  String, ◌≡◌, refl, ap, ◌∙◌, true, false, str_eq, field_of, is_nullish, property, Value, undefined,
  null, bool, num, str, arr, obj, exotic, Fields, set_field, field_of-set_field,
  field_of-set_field_other,
}
use a2a_fun.Tasks.Store.{status_of, set_status}
use a2a_fun.Tasks.Recovery.{cleared_lease, clear_lease, release}

pub status-release : (t : Fields) → status_of (release t) ≡ str "published"
unfolding release clear_lease
status-release t =
    let published = field_of-set_field "status" (str "published") t in
    let held =
      field_of-set_field_other "status" "assigned_to" null (set_status "published" t) refl in
    let u = set_field "assigned_to" null (set_status "published" t) in
    field_of-set_field_other "status" "lease" (cleared_lease (field_of "lease" u)) u refl
    ∙ held
    ∙ published

-- What a lease says that has been cleared.
cleared :
    (v : Value)
    → (is_nullish (property "holder" (cleared_lease v)) ≡ true)
      × (is_nullish (property "expires_at" (cleared_lease v)) ≡ true)
unfolding cleared_lease field_of
cleared (obj lease) =
    let freed = set_field "holder" null lease in
    let holder =
      field_of-set_field_other "holder" "expires_at" null freed refl
      ∙ field_of-set_field "holder" null lease in
    (ap is_nullish holder, ap is_nullish (field_of-set_field "expires_at" null freed))
cleared (arr vs) = (refl, refl)
cleared (exotic s) = (refl, refl)
cleared undefined = (refl, refl)
cleared null = (refl, refl)
cleared (bool b) = (refl, refl)
cleared (num n) = (refl, refl)
cleared (str s) = (refl, refl)

-- A task that has been published again: nobody holds it, and its other fields are as they were.
pub record IsReleased (t u : Fields) : Type 0 where
  pub published : field_of "status" u ≡ str "published"
  pub unassigned : field_of "assigned_to" u ≡ null
  pub no_holder : is_nullish (property "holder" (field_of "lease" u)) ≡ true
  pub no_end : is_nullish (property "expires_at" (field_of "lease" u)) ≡ true
  pub kept :
      (k : String)
      → str_eq "status" k ≡ false
      → str_eq "assigned_to" k ≡ false
      → str_eq "lease" k ≡ false
      → field_of k u ≡ field_of k t

pub release-IsReleased : (t : Fields) → IsReleased t (release t)
unfolding release clear_lease
release-IsReleased t =
    let s = set_status "published" t in
    let u = set_field "assigned_to" null s in
    let lease = cleared_lease (field_of "lease" u) in
    let written = field_of-set_field "lease" lease u in
    let free = cleared (field_of "lease" u) in
    record {
      published = status-release t;
      unassigned =
          field_of-set_field_other "assigned_to" "lease" lease u refl
          ∙ field_of-set_field "assigned_to" null s;
      no_holder = ap (λ v. is_nullish (property "holder" v)) written ∙ free.0;
      no_end = ap (λ v. is_nullish (property "expires_at" v)) written ∙ free.1;
      kept = λ k a b c.
          field_of-set_field_other k "lease" lease u c
          ∙ field_of-set_field_other k "assigned_to" null s b
          ∙ field_of-set_field_other k "status" (str "published") t a;
    }
