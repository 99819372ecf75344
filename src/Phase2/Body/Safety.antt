-- ===== src/Phase2/Body/Safety.antt =====
-- Which bodies are safe to send on: the schema and the outbound lint together.
use a2a_fun.Prelude.{
  String, ◌≡◌, refl, sym, ap, ◌∙◌, true, not, List, [], ◌∷◌, arith, str_eq, All, ◌>>◌, require,
  bind-eq-ok, ok-injective, Outcome, ok, field_of, is_named, Value, str, obj, Fields, is_true,
}
use a2a_fun.Identity.Lint.{default_max_string_scan, assert_no_raw_handle}
use a2a_fun.Phase2.SafeArray.{has}
use a2a_fun.Phase2.Checks.{
  check_keys, safe_text, BodyError, missing_v, missing_type, reserved_type, unknown_type,
  invalid_field,
}
use a2a_fun.Phase2.Body.{
  supported_types, reserved_types, is_one_of, validate_single_text, validate_done, close_reasons,
  validate_close, error_codes, error_reasons, validate_error, validate_fields, plain_fields,
  validate_body_of, validate_decrypted_body_by_type,
}
use a2a_fun.Phase2.Body.Meaning.{HasDistinctKeys}
use a2a_fun.Phase2.Body.Free.{
  IsFreeAt, lint_fields-eq, IsFreeText, fields-IsFree, keys_free, close_reasons_free,
  error_codes_free, error_reasons_free, is_one_of-IsFree, is_true-IsFree, safe_text-IsFree,
}

-- What is known of an object when the checks `m` of its type have been passed.
reached :
    (v type : String) (fs : Fields) (b : Value) (m : Outcome BodyError (Unit {0}))
    → validate_fields type fs ≡ (m >> ok fs)
    → validate_decrypted_body_by_type (str v) (str type) (obj fs) ≡ ok b
    → (m ≡ ok tt) × (b ≡ obj fs)
unfolding validate_decrypted_body_by_type validate_body_of plain_fields
reached v type fs b m h e =
    let (_, _, e1) = bind-eq-ok (require (is_named (str v)) missing_v) _ e in
    let (_, _, e2) = bind-eq-ok (require (not (str_eq type "")) missing_type) _ e1 in
    let (_, _, e3) = bind-eq-ok (require (not (has type reserved_types)) reserved_type) _ e2 in
    let (_, _, e4) = bind-eq-ok (require (has type supported_types) unknown_type) _ e3 in
    let (checked, e5, e6) = bind-eq-ok (validate_fields type fs) _ e4 in
    let (_, m_ok, e7) = bind-eq-ok m (λ _. ok fs) (sym h ∙ e5) in
    (m_ok, sym (ok-injective e6) ∙ ap obj (sym (ok-injective e7)))

-- Allowed keys, all of them free of contact tokens.
record IsGuarded (fs : Fields) : Type 0 where
  allowed : List String
  listed : check_keys allowed fs ≡ ok tt
  free : All (IsFreeAt fs) allowed

single_text-IsGuarded :
    (key : String) (fs : Fields)
    → IsFreeText key
    → validate_single_text key fs ≡ ok tt
    → IsGuarded fs
unfolding validate_single_text
single_text-IsGuarded key fs named e =
    let text : safe_text (field_of key fs) ≡ ok tt = ground arith in
    record {
      allowed = key ∷ [];
      listed = ground arith;
      free = ((named, safe_text-IsFree _ text), tt);
    }

done-IsGuarded : (fs : Fields) → validate_done fs ≡ ok tt → IsGuarded fs
unfolding validate_done
done-IsGuarded fs e =
    let (_, (_, (d, _))) = keys_free in
    let flag : is_true (field_of "done" fs) ≡ true = ground arith in
    record { allowed = "done" ∷ []; listed = ground arith; free = ((d, is_true-IsFree _ flag), tt) }

close-IsGuarded : (fs : Fields) → validate_close fs ≡ ok tt → IsGuarded fs
unfolding validate_close
close-IsGuarded fs e =
    let (_, (_, (_, (r, (f, _))))) = keys_free in
    let reason : is_one_of close_reasons (field_of "reason" fs) ≡ true = ground arith in
    let flag : is_true (field_of "final" fs) ≡ true = ground arith in
    let reason_free = is_one_of-IsFree close_reasons _ close_reasons_free reason in
    record {
      allowed = "reason" ∷ "final" ∷ [];
      listed = ground arith;
      free = ((r, reason_free), ((f, is_true-IsFree _ flag), tt));
    }

error_checked :
    (fs : Fields)
    → validate_error fs ≡ ok tt
    → (check_keys ("code" ∷ "reason" ∷ []) fs ≡ ok tt)
      × (is_one_of error_codes (field_of "code" fs) ≡ true)
      × (is_one_of error_reasons (field_of "reason" fs) ≡ true)
unfolding validate_error
error_checked fs e =
    let (_, keys_ok, e1) = bind-eq-ok (check_keys ("code" ∷ "reason" ∷ []) fs) _ e in
    let (_, code_ok, e2) =
      bind-eq-ok (require (is_one_of error_codes (field_of "code" fs)) (invalid_field "code")) _
        e1 in
    (keys_ok, ground arith, ground arith)

error-IsGuarded : (fs : Fields) → validate_error fs ≡ ok tt → IsGuarded fs
error-IsGuarded fs e =
    let (_, (_, (_, (r, (_, (c, _)))))) = keys_free in
    let (keys_ok, code, reason) = error_checked fs e in
    let code_free = is_one_of-IsFree error_codes _ error_codes_free code in
    let reason_free = is_one_of-IsFree error_reasons _ error_reasons_free reason in
    record {
      allowed = "code" ∷ "reason" ∷ [];
      listed = keys_ok;
      free = ((c, code_free), ((r, reason_free), tt));
    }

-- The types whose bodies hold nothing but checked texts and constants.
pub data MachineSafe : String → Type 0 where
  by_question : MachineSafe "probe.question"
  by_answer : MachineSafe "probe.answer"
  by_done : MachineSafe "probe.done"
  by_close : MachineSafe "session.close"
  by_error : MachineSafe "error"

validate_decrypted_body_by_type-IsGuarded :
    (v type : String) (fs : Fields) (b : Value)
    → MachineSafe type
    → validate_decrypted_body_by_type (str v) (str type) (obj fs) ≡ ok b
    → (b ≡ obj fs) × IsGuarded fs
unfolding validate_fields
validate_decrypted_body_by_type-IsGuarded v _ fs b by_question e =
    let (checked, kept) = reached v _ fs b (validate_single_text "q" fs) refl e in
    (kept, single_text-IsGuarded "q" fs keys_free.0 checked)
validate_decrypted_body_by_type-IsGuarded v _ fs b by_answer e =
    let (checked, kept) = reached v _ fs b (validate_single_text "a" fs) refl e in
    (kept, single_text-IsGuarded "a" fs keys_free.1.0 checked)
validate_decrypted_body_by_type-IsGuarded v _ fs b by_done e =
    let (checked, kept) = reached v _ fs b (validate_done fs) refl e in
    (kept, done-IsGuarded fs checked)
validate_decrypted_body_by_type-IsGuarded v _ fs b by_close e =
    let (checked, kept) = reached v _ fs b (validate_close fs) refl e in
    (kept, close-IsGuarded fs checked)
validate_decrypted_body_by_type-IsGuarded v _ fs b by_error e =
    let (checked, kept) = reached v _ fs b (validate_error fs) refl e in
    (kept, error-IsGuarded fs checked)

-- An accepted body of the types `probe.question`, `probe.answer`, `probe.done`, `session.close` and
-- `error`, whose object has no key twice, is left as it is and passes the outbound lint as a whole.
pub guarded_is_free :
    (v type : String) (fs : Fields) (b : Value)
    → MachineSafe type
    → HasDistinctKeys fs
    → validate_decrypted_body_by_type (str v) (str type) (obj fs) ≡ ok b
    → (b ≡ obj fs) × (assert_no_raw_handle default_max_string_scan b ≡ ok tt)
guarded_is_free v type fs b kind d e =
    let (kept, guarded) = validate_decrypted_body_by_type-IsGuarded v type fs b kind e in
    (
      kept,
      rw kept (fields-IsFree fs (lint_fields-eq fs guarded.allowed d guarded.listed guarded.free)),
    )
