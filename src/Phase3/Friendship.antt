-- ===== src/Phase3/Friendship.antt =====
-- src/phase3/friendship: `writeFriendshipIfNeeded` and `triggerFriendshipWriteIfNeeded`. The file
-- of friends is explicit state, so that what a call has written before it throws is seen. The clock
-- is an argument, and so is whether the storage's write throws.
pub mod Writing
pub mod Consent
use a2a_fun.Prelude.{
  String, Bool, true, false, not, Option, none, some, List, [], ◌∷◌, ◌++◌, str_eq, if◌then◌else◌,
  any, require, Outcome, ok, throw, ◌>>=◌, ◌>>◌,
}
use a2a_fun.Phase2.Constants.{State, mutual_entry_confirmed}

pub record Friend : Type 0 where
  pub peer_actor_id : String
  pub peer_key_fpr : Option String
  pub session_id : String
  pub established_at : String

-- What a storage holds: nothing yet, something that is no array, or an array, in which an element
-- may be null or without a peer id (`none`).
pub data Content : Type 0 where
  nothing not_an_array : Content
  friends : List (Option Friend) → Content

pub data Interface : Type 0 where
  friends_interface json_interface unsupported : Interface

pub record Storage : Type 0 where
  pub interface : Interface
  pub content : Content

-- `auditBinder`: not given, without the method, or with it.
pub data Binder : Type 0 where
  no_binder no_method with_method : Binder

pub data FriendError : Type 0 where
  missing_session_state missing_peer missing_session missing_storage missing_binder : FriendError
  unsupported_storage not_array write_failed method_missing : FriendError
  missing_apply_result missing_next_state unexpected_status : FriendError

pub data WriteStatus : Type 0 where
  state_mismatch idempotent_skip : WriteStatus
  wrote : Friend → WriteStatus

pub record Request : Type 0 where
  pub state : Option State
  pub peer_actor_id : String
  pub peer_key_fpr : Option String
  pub session_id : String

abbrev pub is_mutual : State → Bool
is_mutual mutual_entry_confirmed = true
is_mutual _ = false

abbrev load_content : Content → Outcome FriendError (List (Option Friend))
load_content nothing = ok []
load_content not_an_array = throw not_array
load_content (friends fs) = ok fs

-- `loadFriendsStorage`
unfoldable pub load_friends : Storage → Outcome FriendError (List (Option Friend))
load_friends s = elim s.interface [
  | unsupported ↦ throw unsupported_storage
  | _ ↦ load_content s.content
]

abbrev pub has_peer : String → Option Friend → Bool
has_peer peer none = false
has_peer peer (some f) = str_eq f.peer_actor_id peer

-- `save(nextFriends)`, which may throw, and the audit record, which needs the audit's method.
unfoldable pub save_friend :
    Bool
    → Binder
    → Friend
    → List (Option Friend)
    → Storage
    → Outcome FriendError WriteStatus × Storage
save_friend true audit f fs s = (throw write_failed, s)
save_friend false with_method f fs s =
    (ok (wrote f), record s { content = friends (fs ++ some f ∷ []) })
save_friend false _ f fs s =
    (throw method_missing, record s { content = friends (fs ++ some f ∷ []) })

-- The part of the call behind its guards: the outcome, and the storage after it.
unfoldable pub add_friend :
    Bool
    → Binder
    → Friend
    → List (Option Friend)
    → Storage
    → Outcome FriendError WriteStatus × Storage
add_friend write_throws audit f fs s =
    if any (has_peer f.peer_actor_id) fs
    then (ok idempotent_skip, s)
    else save_friend write_throws audit f fs s

abbrev pub friend_of : String → Request → Friend
friend_of now r = record {
  peer_actor_id = r.peer_actor_id;
  peer_key_fpr = r.peer_key_fpr;
  session_id = r.session_id;
  established_at = now;
}

abbrev pub is_given : Binder → Bool
is_given no_binder = false
is_given _ = true

-- The guards of `writeFriendshipIfNeeded`: the friends that are there, or `none` in another state.
unfoldable pub write_guards :
    Binder → Request → Option Storage → Outcome FriendError (Option (List (Option Friend)))
unfolding load_friends
write_guards audit r storage = elim r.state [
  | none ↦ throw missing_session_state
  | some st ↦ do
    require (not (str_eq r.peer_actor_id "")) missing_peer
    require (not (str_eq r.session_id "")) missing_session
    elim storage [
      | none ↦ throw missing_storage
      | some s ↦ do
        require (is_given audit) missing_binder
        if is_mutual st then (do fs ← load_friends s; ok (some fs)) else ok none
    ]
]

abbrev pub with_storage :
    Outcome FriendError WriteStatus × Storage → Outcome FriendError WriteStatus × Option Storage
with_storage p = (p.0, some p.1)

-- The write or the refusal; without a storage nothing is written.
unfoldable pub write_friendship_if_needed :
    String
    → Bool
    → Binder
    → Request
    → Option Storage
    → Outcome FriendError WriteStatus × Option Storage
write_friendship_if_needed now write_throws audit r none = elim (write_guards audit r none) [
  | throw e ↦ (throw e, none)
  | ok none ↦ (ok state_mismatch, none)
  | ok (some fs) ↦ (throw missing_storage, none)
]
write_friendship_if_needed now write_throws audit r (some s) =
    elim (write_guards audit r (some s)) [
      | throw e ↦ (throw e, some s)
      | ok none ↦ (ok state_mismatch, some s)
      | ok (some fs) ↦ with_storage (add_friend write_throws audit (friend_of now r) fs s)
    ]

pub data TriggerStatus : Type 0 where
  no_trigger triggered_write triggered_idempotent : TriggerStatus

abbrev pub status_of : Outcome FriendError WriteStatus → Outcome FriendError TriggerStatus
status_of (ok (wrote f)) = ok triggered_write
status_of (ok idempotent_skip) = ok triggered_idempotent
status_of (ok state_mismatch) = throw unexpected_status
status_of (throw e) = throw e

abbrev pub with_status :
    Outcome FriendError WriteStatus × Option Storage
    → Outcome FriendError TriggerStatus × Option Storage
with_status p = (status_of p.0, p.1)

-- `triggerFriendshipWriteIfNeeded` with the writer above; the outer option is the apply result, the
-- request's state its `next_state`.
unfoldable pub trigger_friendship_write_if_needed :
    String
    → Bool
    → Binder
    → Option Request
    → Option Storage
    → Outcome FriendError TriggerStatus × Option Storage
trigger_friendship_write_if_needed now write_throws audit none storage =
    (throw missing_apply_result, storage)
trigger_friendship_write_if_needed now write_throws audit (some r) storage = elim r.state [
  | none ↦ (throw missing_next_state, storage)
  | some st ↦
      if is_mutual st
      then with_status (write_friendship_if_needed now write_throws audit r storage)
      else (ok no_trigger, storage)
]
