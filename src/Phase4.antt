-- ===== src/Phase4.antt =====
-- The deterministic probe engine, src/phase4/probe/probeEngine.mjs.
pub mod Completion
pub mod Grammar
use a2a_fun.Prelude.{
  ℕ, zero, suc, ◌+◌, String, Bool, true, false, Option, none, some, List, [], ◌∷◌, leb,
  if◌then◌else◌, Outcome, ok, throw, Value, bool, ◌>>=◌, ◌>>◌,
}
use a2a_fun.Phase2.Constants.{State, probing}
use a2a_fun.Phase2.SafeText.{validate_safe_short_text, TextError}

-- A transcript event that is an object with a string `type` and an object `body`; the field that
-- its type needs is `value`, `undefined` where the body does not have it.
pub data EventType : Type 0 where
  question answer summary done : EventType
  other_event : String → EventType

pub record Event : Type 0 where
  pub type : EventType
  pub value : Value

-- `none` is an element that fails one of the four shape checks.
abbrev pub Transcript : Type 0
Transcript = List (Option Event)

pub data ProbeError : Type 0 where
  missing_state bad_shape done_not_true unsupported_type : ProbeError
  unsafe_text : TextError → ProbeError
  after_done question_after_summary unexpected_question : ProbeError
  answer_after_summary unexpected_answer summary_awaiting duplicate_summary : ProbeError
  done_awaiting done_before_summary unsupported_token dangling_question no_question : ProbeError

unfoldable pub safe_value : Value → Outcome ProbeError (Unit {0})
safe_value v = elim (validate_safe_short_text 160 v) [
  | ok _ ↦ ok tt
  | throw e ↦ throw (unsafe_text e)
]

-- The checks on one event.
unfoldable pub assert_event : EventType → Value → Outcome ProbeError (Unit {0})
assert_event question v = safe_value v
assert_event answer v = safe_value v
assert_event summary v = safe_value v
assert_event done (bool true) = ok tt
assert_event done v = throw done_not_true
assert_event (other_event t) v = throw unsupported_type

-- `assertTranscript`, which gives the events that it has checked.
unfoldable pub assert_transcript : Transcript → Outcome ProbeError (List EventType)
assert_transcript [] = ok []
assert_transcript (none ∷ rest) = throw bad_shape
assert_transcript (some e ∷ rest) = do
  assert_event e.type e.value
  types ← assert_transcript rest
  ok (e.type ∷ types)

-- The variables of the loop; `awaiting` is `expecting === 'answer'`.
pub record Progress : Type 0 where
  pub rounds : ℕ
  pub awaiting : Bool
  pub has_summary : Bool
  pub has_done : Bool

abbrev pub at_start : Progress
at_start = record { rounds = 0; awaiting = false; has_summary = false; has_done = false }

-- The tests of the loop on one event type, after the test for `hasDone`.
unfoldable pub analyze_event : Progress → EventType → Outcome ProbeError Progress
analyze_event p question =
    if p.has_summary
    then throw question_after_summary
    else if p.awaiting
    then throw unexpected_question
    else ok (record p { awaiting = true })
analyze_event p answer =
    if p.has_summary
    then throw answer_after_summary
    else if p.awaiting
    then ok (record p { rounds = p.rounds + 1; awaiting = false })
    else throw unexpected_answer
analyze_event p summary =
    if p.awaiting
    then throw summary_awaiting
    else if p.has_summary
    then throw duplicate_summary
    else ok (record p { has_summary = true })
analyze_event p done =
    if p.awaiting
    then throw done_awaiting
    else if p.has_summary
    then ok (record p { has_done = true })
    else throw done_before_summary
analyze_event p (other_event t) = throw unsupported_token

unfoldable pub analyze_from : Progress → List EventType → Outcome ProbeError Progress
analyze_from p [] = if p.awaiting then throw dangling_question else ok p
analyze_from p (t ∷ ts) =
    if p.has_done
    then throw after_done
    else elim (analyze_event p t) [ ok q ↦ analyze_from q ts | throw e ↦ throw e ]

abbrev pub analyze_sequence : List EventType → Outcome ProbeError Progress
analyze_sequence ts = analyze_from at_start ts

pub data Move : Type 0 where
  ask : String → Move
  summarize finish : Move

abbrev pub question_1 : String
question_1 = "What are you trying to accomplish in this session?"

abbrev pub question_2 : String
question_2 = "What constraints should we follow while probing?"

abbrev pub completion_rounds : ℕ
completion_rounds = 2

-- `QUESTION_SET[rounds]`
unfoldable pub question_of : ℕ → Outcome ProbeError Move
question_of zero = ok (ask question_1)
question_of (suc zero) = ok (ask question_2)
question_of _ = throw no_question

-- The completion rule; `none` is the result `null`.
unfoldable pub next_move : Progress → Outcome ProbeError (Option Move)
next_move p =
    if p.has_done
    then ok none
    else if p.has_summary
    then ok (some finish)
    else if leb completion_rounds p.rounds
    then ok (some summarize)
    else elim (question_of p.rounds) [ ok m ↦ ok (some m) | throw e ↦ throw e ]

abbrev is_probing : State → Bool
is_probing probing = true
is_probing _ = false

-- `probeEngine.next`; `none` is a missing state.
unfoldable pub next : Option State → Transcript → Outcome ProbeError (Option Move)
next none transcript = throw missing_state
next (some st) transcript =
    if is_probing st
    then (do
      types ← assert_transcript transcript
      progress ← analyze_sequence types
      next_move progress)
    else ok none
