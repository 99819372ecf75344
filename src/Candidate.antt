-- ===== src/Candidate.antt =====
-- src/friendship: a friendship candidate, its confirmations, and the record that is made of it. The
-- objects are JavaScript's; `digest` is the SHA-256 of a text in hexadecimal.
use Prim.Native.String
use a2a_fun.Prelude.{
  String, Bool, true, false, List, [], ◌∷◌, require, Outcome, ok, field_of, Value, bool, str,
  Fields, is_filled, is_plain, is_true, object, own_fields, ◌>>=◌, ◌>>◌,
}
use a2a_fun.Capability.{epoch, require_filled, text_of}

abbrev pub is_boolean_value : Value → Bool
is_boolean_value (bool b) = true
is_boolean_value _ = false

abbrev pub is_false : Value → Bool
is_false (bool false) = true
is_false _ = false

-- The fields of a list, each with a bar before it.
abbrev pub barred : List String → String
barred [] = ""
barred (s ∷ ss) = String.◌++◌ "|" (String.◌++◌ s (barred ss))

unfoldable pub create_friendship_candidate :
    (String → String) → Value → Value → Value → Outcome String Fields
create_friendship_candidate digest session_id peer_actor_id phase3_state = do
  require (is_filled session_id) "INVALID_INPUT"
  require (is_filled peer_actor_id) "INVALID_INPUT"
  require (is_filled phase3_state) "INVALID_INPUT"
  let ids = text_of session_id ∷ text_of peer_actor_id ∷ text_of phase3_state ∷ []
  let hash = digest (String.◌++◌ "phase3" (barred ids))
  ok (
      object (
        ("candidate_id", str (String.◌++◌ "fcand:sha256:" hash))
        ∷ ("session_id", session_id)
        ∷ ("peer_actor_id", peer_actor_id)
        ∷ ("created_at", epoch)
        ∷ ("phase3_state", phase3_state)
        ∷ ("local_confirmed", bool false)
        ∷ ("remote_confirmed", bool false)
        ∷ []))

-- The checks that the confirmations and the record begin with.
unfoldable pub assert_candidate : Value → Outcome String Fields
assert_candidate v = do
  require (is_plain v) "INVALID_INPUT"
  let c = own_fields v
  require_filled ("candidate_id" ∷ "session_id" ∷ "peer_actor_id" ∷ []) c
  require (is_boolean_value (field_of "local_confirmed" c)) "INVALID_INPUT"
  require (is_boolean_value (field_of "remote_confirmed" c)) "INVALID_INPUT"
  ok c

unfoldable pub confirm_locally : Value → Outcome String Fields
confirm_locally candidate = do
  c ← assert_candidate candidate
  require (is_false (field_of "remote_confirmed" c)) "ILLEGAL_STATE"
  require (is_false (field_of "local_confirmed" c)) "ILLEGAL_STATE"
  ok (
      object (
        ("candidate_id", field_of "candidate_id" c)
        ∷ ("session_id", field_of "session_id" c)
        ∷ ("peer_actor_id", field_of "peer_actor_id" c)
        ∷ ("local_confirmed", bool true)
        ∷ ("remote_confirmed", bool false)
        ∷ ("confirmed_at", epoch)
        ∷ []))

unfoldable pub confirm_remotely : Value → Outcome String Fields
confirm_remotely candidate = do
  c ← assert_candidate candidate
  require (is_true (field_of "local_confirmed" c)) "ILLEGAL_STATE"
  require (is_false (field_of "remote_confirmed" c)) "ILLEGAL_STATE"
  ok (
      object (
        ("candidate_id", field_of "candidate_id" c)
        ∷ ("session_id", field_of "session_id" c)
        ∷ ("peer_actor_id", field_of "peer_actor_id" c)
        ∷ ("local_confirmed", bool true)
        ∷ ("remote_confirmed", bool true)
        ∷ ("mutually_confirmed", bool true)
        ∷ ("confirmed_at", epoch)
        ∷ []))

unfoldable pub trigger_friendship_persistence : (String → String) → Value → Outcome String Fields
trigger_friendship_persistence digest candidate = do
  c ← assert_candidate candidate
  require (is_boolean_value (field_of "mutually_confirmed" c)) "INVALID_INPUT"
  require (is_true (field_of "local_confirmed" c)) "ILLEGAL_STATE"
  require (is_true (field_of "remote_confirmed" c)) "ILLEGAL_STATE"
  require (is_true (field_of "mutually_confirmed" c)) "ILLEGAL_STATE"
  let candidate_id = field_of "candidate_id" c
  let session_id = field_of "session_id" c
  let peer_actor_id = field_of "peer_actor_id" c
  let ids = text_of candidate_id ∷ text_of session_id ∷ text_of peer_actor_id ∷ []
  let hash = digest (String.◌++◌ "friendship" (barred ids))
  ok (
      object (
        ("friendship_id", str (String.◌++◌ "friendship:sha256:" hash))
        ∷ ("candidate_id", candidate_id)
        ∷ ("session_id", session_id)
        ∷ ("peer_actor_id", peer_actor_id)
        ∷ ("established", bool true)
        ∷ ("established_at", epoch)
        ∷ []))
