-- ===== src/Phase2/Constants.antt =====
-- The allowlists of src/phase2/config/phase2.constants.mjs. Each family of string constants is an
-- enumeration, with one more constructor for a string that is no constant of the family.
use a2a_fun.Prelude.{String, Bool, true, false, List, [], ◌∷◌, str_eq, any}

pub data MessageType : Type 0 where
  probe_hello probe_question probe_answer probe_summary probe_done : MessageType
  human_entry human_exit friendship_establish session_close error : MessageType
  exchange_request exchange_response : MessageType
  other_type : String → MessageType

-- `===` on message types.
unfoldable pub same_type : MessageType → MessageType → Bool
same_type probe_hello probe_hello = true
same_type probe_question probe_question = true
same_type probe_answer probe_answer = true
same_type probe_summary probe_summary = true
same_type probe_done probe_done = true
same_type human_entry human_entry = true
same_type human_exit human_exit = true
same_type friendship_establish friendship_establish = true
same_type session_close session_close = true
same_type error error = true
same_type exchange_request exchange_request = true
same_type exchange_response exchange_response = true
same_type (other_type s) (other_type t) = str_eq s t
same_type _ _ = false

-- `list.includes(type)`
abbrev pub includes_type : List MessageType → MessageType → Bool
includes_type types t = any (same_type t) types

abbrev pub supported_message_types : List MessageType
supported_message_types =
    probe_hello ∷ probe_question ∷ probe_answer ∷ probe_summary ∷ probe_done ∷ human_entry
    ∷ human_exit ∷ friendship_establish ∷ session_close ∷ error ∷ []

abbrev pub reserved_message_types : List MessageType
reserved_message_types = exchange_request ∷ exchange_response ∷ []

pub data State : Type 0 where
  disconnected probing probe_complete await_entry mutual_entry_confirmed closed failed : State
  unknown_state : String → State

pub data CloseReason : Type 0 where
  no_human_entry_timeout probe_timeout user_close policy_reject : CloseReason
  transport_fail protocol_violation : CloseReason
  -- any other value of the field, a missing one included
  not_a_reason : CloseReason

-- `CLOSE_REASONS_PHASE2.includes(reason)`
unfoldable pub is_close_reason : CloseReason → Bool
is_close_reason no_human_entry_timeout = true
is_close_reason probe_timeout = true
is_close_reason user_close = true
is_close_reason policy_reject = true
is_close_reason transport_fail = true
is_close_reason protocol_violation = true
is_close_reason not_a_reason = false

pub data LocalType : Type 0 where
  local_human_entry local_session_close : LocalType
  other_local : String → LocalType

unfoldable pub same_local : LocalType → LocalType → Bool
same_local local_human_entry local_human_entry = true
same_local local_session_close local_session_close = true
same_local (other_local s) (other_local t) = str_eq s t
same_local _ _ = false

abbrev pub includes_local : List LocalType → LocalType → Bool
includes_local types t = any (same_local t) types

abbrev pub local_event_types : List LocalType
local_event_types = local_human_entry ∷ local_session_close ∷ []

-- A state outside the table gives `undefined`, which the callers read as an empty allowlist.
unfoldable pub allowed_local_events : State → List LocalType
allowed_local_events disconnected = []
allowed_local_events probing = local_session_close ∷ []
allowed_local_events probe_complete = local_human_entry ∷ local_session_close ∷ []
allowed_local_events await_entry = local_human_entry ∷ local_session_close ∷ []
allowed_local_events mutual_entry_confirmed = local_session_close ∷ []
allowed_local_events closed = []
allowed_local_events failed = []
allowed_local_events (unknown_state _) = []

unfoldable pub allowed_transitions : State → List MessageType
allowed_transitions disconnected = probe_hello ∷ session_close ∷ error ∷ []
allowed_transitions probing =
    probe_question ∷ probe_answer ∷ probe_summary ∷ probe_done ∷ session_close ∷ error ∷ []
allowed_transitions probe_complete = human_entry ∷ session_close ∷ error ∷ []
allowed_transitions await_entry = human_entry ∷ session_close ∷ error ∷ []
allowed_transitions mutual_entry_confirmed = session_close ∷ error ∷ []
allowed_transitions closed = []
allowed_transitions failed = []
allowed_transitions (unknown_state _) = []
