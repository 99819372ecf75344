-- ===== src/Tests/Ledgers.antt =====
-- The reputation ledger and the reward ledger on concrete events.
use a2a_fun.Reward.{
  is_credit_of, already_credited, add_credit, credit_amount, credit_reward, rebuild_reward_balance,
  credit_all, Amounts, Claimed,
}
use a2a_fun.Reward.Ledger.{empty_account, IsUnique, credit_all-booked}
use a2a_fun.Prelude.{
  ℕ, ◌+◌, ◌≤◌, String, ◌≡◌, refl, true, some, List, [], ◌∷◌, arith, ltb, length, trim, starts_with,
  field_of, str, obj, is_truthy, string_of, text_or_empty, object,
}
use a2a_fun.Reputation.{
  event_type_of, source_of, normalize_event, reaches, empty_book, base_weight, effective_delta,
  is_rate_limited, is_competition_rate_limited, emit_event, emit_reputation_event, emit_all,
  rebuild_reputation_index, competition_win, from_peer, Raw, Event, Numbers,
}
use a2a_fun.Reputation.Rebuild.{limited_lines, score_in, events_in, rebuild-agrees}
use a2a_fun.Reputation.Cap.{count, gains, gains-bounded}

-- Numbers as a gain and a loss.
plus_numbers : ℕ × ℕ → ℕ × ℕ → ℕ × ℕ
plus_numbers (a, b) (c, d) = (a + c, b + d)

abbrev whole_numbers : Numbers
whole_numbers = record {
  Number = ℕ × ℕ;
  nought = (0, 0);
  one = (1, 0);
  minus_one = (0, 1);
  minus_two = (0, 2);
  win_weight = (1, 0);
  loss_weight = (0, 1);
  sum = plus_numbers;
  is_positive = λ x. ltb x.1 x.0;
  is_date = λ ts. true;
  bucket = λ ts. ts;
  max_competition = 1;
}

sum-nought : (x : ℕ × ℕ) → plus_numbers x (0, 0) ≡ x
unfolding plus_numbers
sum-nought (a, b) = ground arith

abbrev raw_event : String → Raw
raw_event type = record {
  event_id = "e";
  ts = "10h";
  super_identity_id = "sid-a";
  event_type = type;
  source = some ("peer", "sid-b");
  context = "";
}

abbrev raw_events : List Raw
raw_events =
    raw_event "competition_win" ∷ raw_event "competition_win" ∷ raw_event "task_failure" ∷ []

-- The second win is over the limit of one: it stands in the ledger only.
run_of_events : length (emit_all whole_numbers raw_events (empty_book whole_numbers)).ledger ≡ 3
unfolding emit_all emit_reputation_event emit_event normalize_event event_type_of source_of
    starts_with is_competition_rate_limited is_rate_limited reaches effective_delta base_weight
    plus_numbers
run_of_events = refl

rebuild-agrees_example :
    let b = emit_all whole_numbers raw_events (empty_book whole_numbers) in
    (score_in whole_numbers "sid-a" (rebuild_reputation_index whole_numbers b).index
      ≡ score_in whole_numbers "sid-a" b.index)
    × (events_in whole_numbers "sid-a" (rebuild_reputation_index whole_numbers b).index
        ≡ events_in whole_numbers "sid-a" b.index + limited_lines whole_numbers "sid-a" b.ledger)
rebuild-agrees_example =
    rebuild-agrees whole_numbers sum-nought "sid-a" raw_events (omega (arith, run_of_events))

abbrev win_event : Event
win_event = record {
  event_id = "e";
  ts = "10h";
  super_identity_id = "sid-a";
  event_type = competition_win;
  source = from_peer "sid-b";
  context = "";
}

gains-bounded_example :
    count
      (gains whole_numbers win_event)
      (emit_all whole_numbers raw_events (empty_book whole_numbers)).ledger
    ≤ 5
gains-bounded_example =
    gains-bounded whole_numbers win_event refl raw_events (omega (arith, run_of_events))

abbrev coins : Amounts
coins = record { Amount = ℕ; nought = 0; plus = λ a b. a + b; is_positive = λ a. ltb 0 a }

abbrev reward_of : String → ℕ → Claimed coins
reward_of event amount = record {
  super_identity_id = str " sid-a ";
  amount = some amount;
  context = obj (object (("value_event_id", str event) ∷ []));
}

-- The second request is for the event of the first, the third for nothing.
abbrev requests : List (Claimed coins)
requests = reward_of "e" 5 ∷ reward_of "e" 7 ∷ reward_of "f" 0 ∷ reward_of "f" 2 ∷ []

run_of_requests : length (credit_all coins requests (empty_account coins)).ledger ≡ 2
unfolding credit_all credit_reward credit_amount already_credited is_credit_of add_credit
    starts_with trim text_or_empty is_truthy string_of field_of
run_of_requests = refl

credit_all-booked_example :
    let a = credit_all coins requests (empty_account coins) in
    IsUnique coins a.ledger × (rebuild_reward_balance coins a ≡ a)
credit_all-booked_example = credit_all-booked coins requests (omega (arith, run_of_requests))
