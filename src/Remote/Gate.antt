-- ===== src/Remote/Gate.antt =====
-- What has happened where a remote invocation succeeds.
use a2a_fun.Remote.Bounds.{IsBounded-check, IsBounded}
use a2a_fun.Remote.{friendship_gate, answer_execution, handle_remote_invocation, done}
use a2a_fun.Prelude.{
  String, ◌≡◌, refl, sym, ap, inl, inr, true, false, some, arith, eq_iff, eq_refl, Option-cases,
  ◌>>=◌, Outcome-cases, ok, get, field_of, property, Value, undefined, null, bool, num, str, arr,
  obj, exotic, Fields, is_text, is_filled, is_plain, is_true, has_key, own_fields, sort_fields,
}
use a2a_fun.Capability.{
  text_of, check_object, invocation_result, create_capability_invocation_result,
}
use a2a_fun.Execution.{
  Handler, Registry, get_capability_handler, all_filled, is_request, execution_result, run_handler,
  execute_invocation, assert_outcome, assert_execution_result, adapted, adapt_execution_result,
}

-- An established friendship whose identifier is the one that the request names.
pub record AreFriends (friendship_record request : Value) : Type 0 where
  pub established : property "established" friendship_record ≡ bool true
  pub friendship_id : String
  pub theirs : property "friendship_id" friendship_record ≡ str friendship_id
  pub named : property "friendship_id" request ≡ str friendship_id

-- The handler of the capability was run on the payload and gave a bounded object.
pub record Executed (registry : Registry) (request : Value) (fs : Fields) : Type 0 where
  pub handler : Handler
  pub raw : Value
  pub found : get (text_of (property "capability_id" request)) registry ≡ some handler
  pub gave : handler (property "payload" request) ≡ some raw
  pub bounded : IsBounded raw fs

-- A text that is filled is itself.
pub filled_text : (v : Value) → is_filled v ≡ true → v ≡ str (text_of v)
unfolding is_filled
filled_text (str s) h = refl
filled_text undefined h = absurd (ground arith)
filled_text null h = absurd (ground arith)
filled_text (bool b) h = absurd (ground arith)
filled_text (num n) h = absurd (ground arith)
filled_text (arr vs) h = absurd (ground arith)
filled_text (obj fs) h = absurd (ground arith)
filled_text (exotic s) h = absurd (ground arith)

pub filled-is_text : (v : Value) → is_filled v ≡ true → is_text (text_of v) v ≡ true
filled-is_text v h = rw (filled_text v h) (eq_refl (text_of v))

create-succeeded :
    (request raw : Value)
    → is_plain request ≡ true
    → is_filled (property "invocation_id" request) ≡ true
    → create_capability_invocation_result request true raw null ≡ (
        check_object "INVALID_RESULT" raw >>= λ fs.
        ok (invocation_result (property "invocation_id" request) true (obj (sort_fields fs)) null))
unfolding create_capability_invocation_result
create-succeeded request raw plain filled = rw (plain, filled) refl

-- A checked request that a handler has answered is adapted to what the checks of the answer allow.
pub adapt-executed :
    (request raw : Value)
    → is_plain request ≡ true
    → is_filled (property "invocation_id" request) ≡ true
    → let id = property "invocation_id" request in
      adapt_execution_result request (obj (execution_result id true raw null)) ≡ (
        check_object "INVALID_RESULT" raw >>= λ fs.
        ok (invocation_result id true (obj (sort_fields fs)) null))
unfolding adapt_execution_result assert_execution_result assert_outcome adapted field_of has_key
adapt-executed request raw plain filled =
    rw (plain, filled, filled-is_text (property "invocation_id" request) filled)
      (create-succeeded request raw plain filled)

pub property-own_fields : (k : String) (v : Value) → field_of k (own_fields v) ≡ property k v
unfolding field_of
property-own_fields k (obj fs) = refl
property-own_fields k undefined = refl
property-own_fields k null = refl
property-own_fields k (bool b) = refl
property-own_fields k (num n) = refl
property-own_fields k (str s) = refl
property-own_fields k (arr vs) = refl
property-own_fields k (exotic s) = refl

pub record RequestParts (request : Value) : Type 0 where
  pub plain : is_plain request ≡ true
  pub has_id : is_filled (property "invocation_id" request) ≡ true
  pub has_capability : is_filled (property "capability_id" request) ≡ true

pub request-RequestParts : (request : Value) → is_request request ≡ true → RequestParts request
unfolding is_request all_filled
request-RequestParts request good =
    let id = property-own_fields "invocation_id" request in
    let capability = property-own_fields "capability_id" request in
    record {
      plain = ground arith;
      has_id = rw (sym id) (ground arith);
      has_capability = rw (sym capability) (ground arith);
    }

-- A checked request is run by the handler of its capability.
pub execute-request :
    (registry : Registry) (request : Value)
    → is_request request ≡ true
    → execute_invocation registry request
      ≡ ok (
          run_handler
            (property "invocation_id" request)
            (property "payload" request)
            (get (text_of (property "capability_id" request)) registry))
unfolding execute_invocation get_capability_handler
execute-request registry request good =
    rw (good, (request-RequestParts request good).has_capability) refl

-- An execution whose answer is a result has found a handler, which gave a bounded object.
Executed-answer :
    (registry : Registry) (request id : Value) (result : Fields)
    → is_request request ≡ true
    → answer_execution request (
        run_handler
          (property "invocation_id" request)
          (property "payload" request)
          (get (text_of (property "capability_id" request)) registry))
      ≡ done id result
    → (fs : Fields) × Executed registry request fs
      × (id ≡ property "invocation_id" request)
      × (result ≡ invocation_result id true (obj (sort_fields fs)) null)
unfolding answer_execution run_handler field_of
Executed-answer registry request id result good h =
    elim (Option-cases (get (text_of (property "capability_id" request)) registry)) [
      | inl missing ↦ absurd (ground arith)
      | inr (handler, found) ↦ elim (Option-cases (handler (property "payload" request))) [
        | inl threw ↦ absurd (ground arith)
        | inr (raw, gave) ↦
            let parts = request-RequestParts request good in
            let adapted_to = adapt-executed request raw parts.plain parts.has_id in
            elim (Outcome-cases (check_object "INVALID_RESULT" raw)) [
              | inr (code, bad) ↦ absurd (ground arith)
              | inl (fs, checked) ↦
                  let is : id ≡ property "invocation_id" request = ground arith in
                  (
                    fs,
                    record {
                      handler = handler;
                      raw = raw;
                      found = found;
                      gave = gave;
                      bounded = IsBounded-check "INVALID_RESULT" raw fs checked;
                    },
                    is,
                    ground arith,
                  )
            ]
      ]
    ]

true-is_true : (v : Value) → is_true v ≡ true → v ≡ bool true
true-is_true (bool true) h = refl
true-is_true (bool false) h = absurd (ground arith)
true-is_true undefined h = absurd (ground arith)
true-is_true null h = absurd (ground arith)
true-is_true (num n) h = absurd (ground arith)
true-is_true (str s) h = absurd (ground arith)
true-is_true (arr vs) h = absurd (ground arith)
true-is_true (obj fs) h = absurd (ground arith)
true-is_true (exotic s) h = absurd (ground arith)

text-is_text : (s : String) (v : Value) → is_text s v ≡ true → v ≡ str s
text-is_text s (str t) h = ap str ((eq_iff t s).0 h)
text-is_text s undefined h = absurd (ground arith)
text-is_text s null h = absurd (ground arith)
text-is_text s (bool b) h = absurd (ground arith)
text-is_text s (num n) h = absurd (ground arith)
text-is_text s (arr vs) h = absurd (ground arith)
text-is_text s (obj fs) h = absurd (ground arith)
text-is_text s (exotic t) h = absurd (ground arith)

AreFriends-gate :
    (friendship_record request : Value)
    → friendship_gate friendship_record request ≡ true
    → AreFriends friendship_record request
unfolding friendship_gate
AreFriends-gate friendship_record request h =
    let id = property "friendship_id" friendship_record in
    record {
      established = true-is_true (property "established" friendship_record) (ground arith);
      friendship_id = text_of id;
      theirs = filled_text id (ground arith);
      named = text-is_text (text_of id) (property "friendship_id" request) (ground arith);
    }

-- A node answers a remote invocation with a result only if the request is complete, the friendship
-- that it names is the established one of the record, and the handler registered for its capability
-- was run on its payload; the result is then the object that the handler gave, with its keys sorted,
-- and that has at most ten keys and only short texts, numbers and truth values.
pub done-Executed :
    (payload friendship_record id : Value) (registry : Registry) (result : Fields)
    → handle_remote_invocation payload registry friendship_record ≡ ok (done id result)
    → let request = property "invocation_request" payload in
      (property "kind" payload ≡ str "REMOTE_INVOCATION_REQUEST")
      × (is_request request ≡ true)
      × AreFriends friendship_record request
      × ((fs : Fields) × Executed registry request fs
          × (id ≡ property "invocation_id" request)
          × (result ≡ invocation_result id true (obj (sort_fields fs)) null))
unfolding handle_remote_invocation
done-Executed payload friendship_record id registry result h =
    let request = property "invocation_request" payload in
    let kind : is_text "REMOTE_INVOCATION_REQUEST" (property "kind" payload) ≡ true =
      ground arith in
    let good : is_request request ≡ true = ground arith in
    let friends : friendship_gate friendship_record request ≡ true = ground arith in
    let run = execute-request registry request good in
    let answered = Executed-answer registry request id result good (ground arith) in
    (
      text-is_text "REMOTE_INVOCATION_REQUEST" (property "kind" payload) kind,
      good,
      AreFriends-gate friendship_record request friends,
      answered,
    )
