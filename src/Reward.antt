-- ===== src/Reward.antt =====
-- src/reward/reward.mjs: the ledger of credits and the balances that are made of it. Of the amounts,
-- JavaScript's floats, only the sum and the test for being positive are used; an amount that is no
-- finite number is `none`.
pub mod Ledger
use a2a_fun.Prelude.{
  ℕ, ◌+◌, ◌-◌, String, Bool, false, not, ◌&&◌, ◌||◌, Option, none, some, List, [], ◌∷◌, ◌++◌,
  reverse, str_eq, leb, if◌then◌else◌, any, Outcome, ok, throw, Dict, get, put, trim, property,
  Value, str, text_or_empty, is_blank,
}
use a2a_fun.Reputation.{is_super_id, last_of}

pub data RewardError : Type 0 where
  invalid_super_id : RewardError

pub data Credited : Type 0 where
  credited non_positive_amount duplicate_credit : Credited

pub record Amounts : Type 1 where
  pub Amount : Type 0
  pub nought : Amount
  pub plus : Amount → Amount → Amount
  pub is_positive : Amount → Bool

-- `typeof v === 'string' ? v : null`
abbrev pub text_field : Value → Option String
text_field (str s) = some s
text_field _ = none

-- `s || null`, for a text or null
abbrev pub nonblank : Option String → Option String
nonblank none = none
nonblank (some s) = if is_blank s then none else some s

-- `s && t === s`
abbrev pub is_same : Option String → Option String → Bool
is_same (some s) (some t) = not (is_blank s) && str_eq t s
is_same _ _ = false

module _ (n : Amounts) where
  -- A line of the ledger, with what is read of it again.
  pub record Credit : Type 0 where
    pub super_identity_id : String
    pub amount : n.Amount
    pub offer_id : Option String
    pub value_event_id : Option String

  pub record Balance : Type 0 where
    pub balance : n.Amount
    pub credited_events : ℕ

  pub record Account : Type 0 where
    pub ledger : List Credit
    pub balances : Dict Balance

  -- The test of one line in `alreadyCredited`.
  unfoldable pub is_credit_of : String → Option String → Option String → Credit → Bool
  is_credit_of sid offer_id value_event_id l =
      str_eq l.super_identity_id sid
      && (is_same value_event_id l.value_event_id || is_same offer_id l.offer_id)

  -- The code goes through the lines from the last to the first; all of them are tested alike.
  unfoldable pub already_credited : List Credit → String → Option String → Option String → Bool
  already_credited ledger sid offer_id value_event_id =
      any (is_credit_of sid offer_id value_event_id) (last_of 8000 ledger)

  abbrev pub balance_or_new : Option Balance → Balance
  balance_or_new none = record { balance = n.nought; credited_events = 0 }
  balance_or_new (some b) = b

  unfoldable pub add_credit : Credit → Dict Balance → Dict Balance
  add_credit l balances =
      let old = balance_or_new (get l.super_identity_id balances) in
      put l.super_identity_id
        (record {
          balance = n.plus old.balance l.amount;
          credited_events = old.credited_events + 1;
        })
        balances

  -- `creditReward` with an amount that is positive.
  unfoldable pub credit_amount : String → n.Amount → Value → Account → Credited × Account
  credit_amount sid amount context a =
      let offer_id = text_field (property "offer_id" context) in
      let value_event_id = text_field (property "value_event_id" context) in
      let line : Credit = record {
        super_identity_id = sid;
        amount = amount;
        offer_id = nonblank offer_id;
        value_event_id = nonblank value_event_id;
      } in
      if already_credited a.ledger sid offer_id value_event_id then (duplicate_credit, a) else (
        credited,
        record { ledger = a.ledger ++ line ∷ []; balances = add_credit line a.balances },
      )

  abbrev pub is_creditable : Option n.Amount → Bool
  is_creditable none = false
  is_creditable (some x) = n.is_positive x

  unfoldable pub credit_reward :
      Value → Option n.Amount → Value → Account → Outcome RewardError Credited × Account
  credit_reward super_identity_id none context a =
      if is_super_id (trim (text_or_empty super_identity_id))
      then (ok non_positive_amount, a)
      else (throw invalid_super_id, a)
  credit_reward super_identity_id (some amount) context a =
      let sid = trim (text_or_empty super_identity_id) in
      let given = credit_amount sid amount context a in
      if not (is_super_id sid)
      then (throw invalid_super_id, a)
      else if n.is_positive amount
      then (ok given.0, given.1)
      else (ok non_positive_amount, a)

  unfoldable pub rebuild_balances : Dict Balance → List Credit → Dict Balance
  rebuild_balances balances [] = balances
  rebuild_balances balances (l ∷ ls) =
      let sid = trim l.super_identity_id in
      let counted =
        rebuild_balances (add_credit (record l { super_identity_id = sid }) balances) ls in
      let skipped = rebuild_balances balances ls in if is_super_id sid then counted else skipped

  unfoldable pub rebuild_reward_balance : Account → Account
  rebuild_reward_balance a = record a { balances = rebuild_balances [] (last_of 1000000 a.ledger) }

  unfoldable pub get_reward_balance : Value → Account → Option Balance
  get_reward_balance super_identity_id a = get (trim (text_or_empty super_identity_id)) a.balances

  -- The scan of `getRecentRewardCredits`, newest first.
  unfoldable pub recent_credits : String → ℕ → List Credit → List Credit
  recent_credits sid limit [] = []
  recent_credits sid limit (l ∷ ls) =
      let more = recent_credits sid (limit - 1) ls in
      let rest = recent_credits sid limit ls in
      if str_eq l.super_identity_id sid then if leb limit 1 then l ∷ [] else l ∷ more else rest

  unfoldable pub get_recent_reward_credits : Value → ℕ → Account → List Credit
  get_recent_reward_credits super_identity_id limit a =
      recent_credits (trim (text_or_empty super_identity_id)) limit
        (reverse (last_of 8000 a.ledger))

  -- A request to credit a reward, and one after another.
  pub record Claimed : Type 0 where
    pub super_identity_id : Value
    pub amount : Option n.Amount
    pub context : Value

  unfoldable pub credit_all : List Claimed → Account → Account
  credit_all [] a = a
  credit_all (c ∷ cs) a = credit_all cs (credit_reward c.super_identity_id c.amount c.context a).1
