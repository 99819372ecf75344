-- ===== src/Phase4/Completion.antt =====
-- The completion of a probe: with any safe answers the engine asks its two questions, sums up and
-- finishes.
use a2a_fun.Prelude.{
  String, ◌≡◌, refl, ◌∙◌, true, Option, none, some, List, [], ◌∷◌, ◌++◌, ok, throw, test, Value,
  bool, str,
}
use a2a_fun.Phase2.Constants.{probing}
use a2a_fun.Identity.Lint.{
  email_re, at_handle_re, messenger_re, wa_me_re, long_digits_re, is_phone, find_contact_like_token,
}
use a2a_fun.Phase2.SafeText.{
  is_line_end, is_markdown, url_re, tld_re, has_url_like, check_text, validate_safe_short_text,
}
use a2a_fun.Phase4.{
  Transcript, safe_value, assert_event, assert_transcript, at_start, analyze_event, analyze_from,
  analyze_sequence, question_1, question_2, question_of, next_move, next, EventType, question,
  answer, summary, done, Event, ProbeError, Progress, Move, ask, summarize, finish,
}

abbrev event : EventType → Value → Option Event
event type value = some (record { type = type; value = value })

-- What a host does with a move: it writes the move down, with the peer's answer to a question.
abbrev pub record_move : Move → String → Transcript → Transcript
record_move (ask q) answered log = log ++ event question (str q) ∷ event answer (str answered) ∷ []
record_move summarize answered log = log ++ event summary (str "Probe complete.") ∷ []
record_move finish answered log = log ++ event done (bool true) ∷ []

pub data Ending : Type 0 where
  finished : Transcript → Ending
  failed_with : ProbeError → Ending
  out_of_rounds : Transcript → Ending

-- A host that lets the engine go on until it has no move, with one answer for each move.
pub play : List String → Transcript → Ending
play [] log = elim (next (some probing) log) [
  | ok none ↦ finished log
  | ok (some m) ↦ out_of_rounds log
  | throw e ↦ failed_with e
]
play (a ∷ answers) log = elim (next (some probing) log) [
  | ok none ↦ finished log
  | ok (some m) ↦ play answers (record_move m a log)
  | throw e ↦ failed_with e
]

question_1_safe : safe_value (str question_1) ≡ ok tt
unfolding safe_value validate_safe_short_text check_text is_line_end is_markdown has_url_like url_re
    tld_re find_contact_like_token email_re is_phone at_handle_re messenger_re wa_me_re
    long_digits_re test
question_1_safe = refl

question_2_safe : safe_value (str question_2) ≡ ok tt
unfolding safe_value validate_safe_short_text check_text is_line_end is_markdown has_url_like url_re
    tld_re find_contact_like_token email_re is_phone at_handle_re messenger_re wa_me_re
    long_digits_re test
question_2_safe = refl

summary_safe : safe_value (str "Probe complete.") ≡ ok tt
unfolding safe_value validate_safe_short_text check_text is_line_end is_markdown has_url_like url_re
    tld_re find_contact_like_token email_re is_phone at_handle_re messenger_re wa_me_re
    long_digits_re test
summary_safe = refl

-- The transcript of a whole probe.
abbrev pub whole_probe : String → String → Transcript
whole_probe a b =
    event question (str question_1)
    ∷ event answer (str a)
    ∷ event question (str question_2)
    ∷ event answer (str b)
    ∷ event summary (str "Probe complete.")
    ∷ event done (bool true)
    ∷ []

safe_value-ok : (v : Value) → validate_safe_short_text 160 v ≡ ok tt → safe_value v ≡ ok tt
unfolding safe_value
safe_value-ok v h = rw (h, safe_value)

-- The engine's move on a transcript that passes the checks.
next-eq :
    (log : Transcript) (types : List EventType) (p : Progress)
    → assert_transcript log ≡ ok types
    → analyze_sequence types ≡ ok p
    → next (some probing) log ≡ next_move p
unfolding next
next-eq log types p e f = rw e (rw f)

play-move :
    (x : String) (xs : List String) (log : Transcript) (m : Move)
    → next (some probing) log ≡ ok (some m)
    → play (x ∷ xs) log ≡ play xs (record_move m x log)
unfolding play
play-move x xs log m e = rw (e, play)

play-end : (log : Transcript) → next (some probing) log ≡ ok none → play [] log ≡ finished log
unfolding play
play-end log e = rw (e, play)

-- The engine's moves on the five transcripts of a probe.
module _ (a b : String) (safe_a : safe_value (str a) ≡ ok tt)
    (safe_b : safe_value (str b) ≡ ok tt) where
  abbrev asked_1 : Transcript
  asked_1 = event question (str question_1) ∷ event answer (str a) ∷ []

  abbrev asked_2 : Transcript
  asked_2 = asked_1 ++ event question (str question_2) ∷ event answer (str b) ∷ []

  abbrev summed_up : Transcript
  summed_up = asked_2 ++ event summary (str "Probe complete.") ∷ []

  checked_1 : assert_transcript asked_1 ≡ ok (question ∷ answer ∷ [])
  unfolding assert_transcript assert_event
  checked_1 = simp (question_1_safe, safe_a)

  checked_2 : assert_transcript asked_2 ≡ ok (question ∷ answer ∷ question ∷ answer ∷ [])
  unfolding assert_transcript assert_event
  checked_2 = simp (question_1_safe, question_2_safe, safe_a, safe_b)

  checked_3 :
      assert_transcript summed_up ≡ ok (question ∷ answer ∷ question ∷ answer ∷ summary ∷ [])
  unfolding assert_transcript assert_event
  checked_3 = simp (question_1_safe, question_2_safe, summary_safe, safe_a, safe_b)

  checked_4 :
      assert_transcript (summed_up ++ event done (bool true) ∷ [])
      ≡ ok (question ∷ answer ∷ question ∷ answer ∷ summary ∷ done ∷ [])
  unfolding assert_transcript assert_event
  checked_4 = simp (question_1_safe, question_2_safe, summary_safe, safe_a, safe_b)

moves : Unit {0}
unfolding analyze_from analyze_event next_move question_of assert_transcript
moves = tt

-- From an empty transcript the engine asks its first question, its second, sums up, finishes and
-- then has no more move, whatever the two answers are, as long as they are safe short texts.
pub probe_completes :
    (a b c d : String)
    → validate_safe_short_text 160 (str a) ≡ ok tt
    → validate_safe_short_text 160 (str b) ≡ ok tt
    → play (a ∷ b ∷ c ∷ d ∷ []) [] ≡ finished (whole_probe a b)
unfolding moves
probe_completes a b c d safe_a safe_b =
    let sa = safe_value-ok (str a) safe_a in
    let sb = safe_value-ok (str b) safe_b in
    let m1 : next (some probing) [] ≡ ok (some (ask question_1)) =
      next-eq [] [] at_start refl refl in
    let m2 : next (some probing) (asked_1 a b sa sb) ≡ ok (some (ask question_2)) =
      next-eq _ _ _ (checked_1 a b sa sb) refl in
    let m3 : next (some probing) (asked_2 a b sa sb) ≡ ok (some summarize) =
      next-eq _ _ _ (checked_2 a b sa sb) refl in
    let m4 : next (some probing) (summed_up a b sa sb) ≡ ok (some finish) =
      next-eq _ _ _ (checked_3 a b sa sb) refl in
    let m5 : next (some probing) (whole_probe a b) ≡ ok none =
      next-eq _ _ _ (checked_4 a b sa sb) refl in
    play-move a _ _ _ m1
    ∙ play-move b _ _ _ m2
    ∙ play-move c _ _ _ m3
    ∙ play-move d _ _ _ m4
    ∙ play-end _ m5
