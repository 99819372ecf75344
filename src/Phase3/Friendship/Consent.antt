-- ===== src/Phase3/Friendship/Consent.antt =====
-- Friendship and session together: what is written down was agreed to by both sides.
use a2a_fun.Prelude.{String, ◌≡◌, ◌⊎◌, inl, inr, Bool, true, some, List, any, Outcome}
use a2a_fun.Phase2.Constants.{mutual_entry_confirmed}
use a2a_fun.Phase2.Session.{SessionState}
use a2a_fun.Phase2.Session.Rules.{Input}
use a2a_fun.Phase2.Session.Runs.{fresh, is_remote_entry, is_local_entry, mutual_consent, Run}
use a2a_fun.Phase3.Friendship.{
  trigger_friendship_write_if_needed, Storage, Binder, FriendError, Request, TriggerStatus,
}
use a2a_fun.Phase3.Friendship.Writing.{trigger-Effect, Effect, unchanged, appended}

-- When the trigger is called with the state that a session has reached, it leaves the friends file as
-- it is, or the session has both received the peer's entry message and had the local entry injected.
pub friendship_consent :
    (session_id peer : String) (is : List Input) (t : SessionState) (now : String) (throws : Bool)
    (audit : Binder) (r : Request) (s s' : Storage) (result : Outcome FriendError TriggerStatus)
    → Run (fresh session_id peer) is t
    → r.state ≡ some t.state
    → trigger_friendship_write_if_needed now throws audit (some r) (some s) ≡ (result, some s')
    → (s' ≡ s) ⊎ ((any is_remote_entry is ≡ true) × (any is_local_entry is ≡ true))
friendship_consent a b is t now throws audit r s s' result run same e =
    agreed (trigger-Effect now throws audit r s s' result e)
  where
    agreed :
        Effect now r s result s'
        → (s' ≡ s) ⊎ ((any is_remote_entry is ≡ true) × (any is_local_entry is ≡ true))
    agreed (unchanged kept _) = inl kept
    agreed (appended confirmed _ _ _) =
        let reached : t.state ≡ mutual_entry_confirmed = cc in
        inr (mutual_consent a b is t run reached)
