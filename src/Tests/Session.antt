-- ===== src/Tests/Session.antt =====
-- The session manager on concrete sessions.
use a2a_fun.Prelude.{◌≡◌, refl, ◌↔◌, true, some, List, [], ◌∷◌, arith, eq_iff, any, ok, throw}
use a2a_fun.Phase2.Constants.{
  probe_hello, probe_done, human_entry, probing, probe_complete, await_entry,
  mutual_entry_confirmed, user_close, not_a_reason, local_human_entry, local_session_close,
}
use a2a_fun.Phase2.Session.{
  raw, is_known_state, assert_state, SessionState, illegal_local_event, ApplyResult,
}
use a2a_fun.Phase2.Session.Inbound.{apply_session_message}
use a2a_fun.Phase2.Session.Local.{apply_local_event}
use a2a_fun.Phase2.Session.Rules.{msg, IsValid, Input, received, injected, Step}
use a2a_fun.Phase2.Session.Exact.{Runs, message-Step, local_of, local-Step}
use a2a_fun.Phase2.Session.Patches.{message-IsFaithful, local-IsFaithful, IsFaithful}
use a2a_fun.Phase2.Session.Runs.{
  fresh, IsConsistent, Run-IsConsistent, is_remote_entry, is_local_entry, mutual_consent, Run,
  start, then,
}

abbrev begun : SessionState
begun = fresh "s" "p"

begun-IsValid : IsValid begun
unfolding is_known_state
begun-IsValid = record {
  known = refl;
  session = ground (arith, eq_iff "s" "");
  peer = ground (arith, eq_iff "p" "");
}

abbrev probing_now : SessionState
probing_now = record begun { state = probing }

abbrev awaiting : SessionState
awaiting = record begun { state = await_entry; remote_entered = true }

awaiting-IsValid : IsValid awaiting
unfolding is_known_state
awaiting-IsValid = record {
  known = refl;
  session = ground (arith, eq_iff "s" "");
  peer = ground (arith, eq_iff "p" "");
}

message-Step_example :
    Runs
      (apply_session_message (some (raw begun)) (some (msg probe_hello "m")) (some not_a_reason))
      probing_now
    ↔ Step begun probing_now (received probe_hello not_a_reason)
message-Step_example =
    message-Step begun probing_now (msg probe_hello "m") not_a_reason begun-IsValid

local-Step_example :
    Runs
      (apply_local_event (some (raw awaiting)) (some (local_of local_human_entry "e" not_a_reason)))
      (record awaiting { state = mutual_entry_confirmed; local_entered = true })
    ↔ Step awaiting
        (record awaiting { state = mutual_entry_confirmed; local_entered = true })
        (injected local_human_entry not_a_reason)
local-Step_example =
    local-Step awaiting (record awaiting { state = mutual_entry_confirmed; local_entered = true })
      local_human_entry "e" not_a_reason awaiting-IsValid (ground (arith, eq_iff "e" ""))

hello_runs :
    (r : ApplyResult) × (apply_session_message
        (some (raw begun))
        (some (msg probe_hello "m"))
        (some not_a_reason)
      ≡ ok r)
unfolding apply_session_message
hello_runs = (_, refl)

message-IsFaithful_example :
    (s : SessionState) × (assert_state (some (raw begun)) ≡ ok s) × IsFaithful s hello_runs.0
message-IsFaithful_example =
    message-IsFaithful (some (raw begun)) (msg probe_hello "m") not_a_reason hello_runs.0
      hello_runs.1

entry_runs :
    (r : ApplyResult) × (apply_local_event
        (some (raw awaiting))
        (some (local_of local_human_entry "e" not_a_reason))
      ≡ ok r)
unfolding apply_local_event
entry_runs = (_, refl)

local-IsFaithful_example :
    (s : SessionState) × (assert_state (some (raw awaiting)) ≡ ok s) × IsFaithful s entry_runs.0
local-IsFaithful_example =
    local-IsFaithful (some (raw awaiting)) (some (local_of local_human_entry "e" not_a_reason))
      entry_runs.0 entry_runs.1

-- A session that is mutually confirmed: the peer enters first.
abbrev pub inputs : List Input
inputs =
    injected local_human_entry not_a_reason
    ∷ received human_entry not_a_reason
    ∷ received probe_done not_a_reason
    ∷ received probe_hello not_a_reason
    ∷ []

abbrev pub confirmed : SessionState
confirmed = record awaiting { state = mutual_entry_confirmed; local_entered = true }

pub whole_session : Run begun inputs confirmed
unfolding apply_session_message apply_local_event
whole_session =
    then {t = awaiting}
      (then {t = record begun { state = probe_complete }}
        (then {t = probing_now} (then {t = begun} start ("1", (_, refl, refl)))
          ("2", (_, refl, refl)))
        ("3", (_, refl, refl)))
      ("4", (_, refl, refl))

Run-IsConsistent_example : IsConsistent confirmed
Run-IsConsistent_example = Run-IsConsistent "s" "p" inputs confirmed whole_session

mutual_consent_example : (any is_remote_entry inputs ≡ true) × (any is_local_entry inputs ≡ true)
mutual_consent_example = mutual_consent "s" "p" inputs confirmed whole_session refl

-- The local close is refused before the session is connected.
local_close_disconnected :
    apply_local_event (some (raw begun)) (some (local_of local_session_close "e" user_close))
    ≡ throw illegal_local_event
unfolding apply_local_event
local_close_disconnected = refl
