-- ===== src/Tests/Probes.antt =====
-- What a session and the friends file agree on, the session probe and the probe engine on concrete
-- inputs.
use a2a_fun.Prelude.{
  ◌≡◌, refl, ◌↔◌, ◌⊎◌, true, false, some, List, [], ◌∷◌, ◌++◌, any, ok, test, str,
}
use a2a_fun.Phase2.Constants.{mutual_entry_confirmed}
use a2a_fun.Phase2.SafeText.{
  is_line_end, is_markdown, url_re, tld_re, has_url_like, check_text, validate_safe_short_text,
}
use a2a_fun.Phase2.Session.Runs.{is_remote_entry, is_local_entry}
use a2a_fun.Identity.Lint.{
  email_re, at_handle_re, messenger_re, wa_me_re, long_digits_re, is_phone, find_contact_like_token,
}
use a2a_fun.Phase3.Friendship.{
  save_friend, add_friend, friend_of, write_guards, write_friendship_if_needed,
  trigger_friendship_write_if_needed, nothing, friends, friends_interface, Storage, with_method,
  Request, triggered_write,
}
use a2a_fun.Phase3.Friendship.Consent.{friendship_consent}
use a2a_fun.Phase3.Probe.{probe_init, probe_ack, Message}
use a2a_fun.Phase3.Probe.Order.{
  message, new_session, apply_all, acknowledged, apply_all_iff, Accepted,
}
use a2a_fun.Phase4.{analyze_sequence, question, answer, summary, Progress}
use a2a_fun.Phase4.Completion.{play, whole_probe, probe_completes, finished}
use a2a_fun.Phase4.Grammar.{pairs, analyze_sequence_iff}
use a2a_fun.Tests.Session.{inputs, confirmed, whole_session}

abbrev empty_file : Storage
empty_file = record { interface = friends_interface; content = nothing }

abbrev peer_request : Request
peer_request = record {
  state = some mutual_entry_confirmed;
  peer_actor_id = "p";
  peer_key_fpr = some "f";
  session_id = "s";
}

abbrev first_friend : Storage
first_friend = record empty_file { content = friends (some (friend_of "2027" peer_request) ∷ []) }

first_written :
    trigger_friendship_write_if_needed "2027" false with_method
      (some peer_request)
      (some empty_file)
    ≡ (ok triggered_write, some first_friend)
unfolding trigger_friendship_write_if_needed write_friendship_if_needed write_guards add_friend
    save_friend
first_written = refl

friendship_consent_example :
    (first_friend ≡ empty_file)
    ⊎ ((any is_remote_entry inputs ≡ true) × (any is_local_entry inputs ≡ true))
friendship_consent_example =
    friendship_consent "s" "p" inputs confirmed "2027" false with_method peer_request empty_file
      first_friend (ok triggered_write) whole_session refl first_written

abbrev exchange : List Message
exchange = message probe_init "s" "p" ∷ message probe_ack "s" "p" ∷ []

apply_all_iff_example :
    (apply_all new_session exchange ≡ ok (acknowledged "s" "p"))
    ↔ Accepted exchange (acknowledged "s" "p")
apply_all_iff_example = apply_all_iff exchange (acknowledged "s" "p")

goal_safe : validate_safe_short_text 160 (str "To plan a trip") ≡ ok tt
unfolding validate_safe_short_text check_text is_line_end is_markdown has_url_like url_re tld_re
    find_contact_like_token email_re is_phone at_handle_re messenger_re wa_me_re long_digits_re test
goal_safe = refl

limits_safe : validate_safe_short_text 160 (str "No more than 3 days") ≡ ok tt
unfolding validate_safe_short_text check_text is_line_end is_markdown has_url_like url_re tld_re
    find_contact_like_token email_re is_phone at_handle_re messenger_re wa_me_re long_digits_re test
limits_safe = refl

probe_completes_example :
    play ("To plan a trip" ∷ "No more than 3 days" ∷ "" ∷ "" ∷ []) []
    ≡ finished (whole_probe "To plan a trip" "No more than 3 days")
probe_completes_example =
    probe_completes "To plan a trip" "No more than 3 days" "" "" goal_safe limits_safe

abbrev one_round : Progress
one_round = record { rounds = 1; awaiting = false; has_summary = true; has_done = false }

analyze_sequence_iff_example :
    (analyze_sequence (question ∷ answer ∷ summary ∷ []) ≡ ok one_round) ↔ (
      (one_round.awaiting ≡ false)
      × ((one_round.has_done ≡ false) ⊎ (one_round.has_summary ≡ true))
      × (question ∷ answer ∷ summary ∷ [] ≡ pairs 1 ++ (summary ∷ [] ++ [])))
analyze_sequence_iff_example = analyze_sequence_iff (question ∷ answer ∷ summary ∷ []) one_round
