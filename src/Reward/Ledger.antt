-- ===== src/Reward/Ledger.antt =====
-- What the ledger of credits and the balances have in common.
use mathlib.Core.Path.{fun_ext}
use a2a_fun.Prelude.{
  ◌-◌, ◌≤◌, String, ◌≡◌, refl, ap, ◌∙◌, inl, inr, Bool, true, false, ◌||◌, Option, none, some, List,
  [], ◌∷◌, ◌++◌, arith, Bool-cases, length, any, length-append, Dict, trim, property, Value,
  text_or_empty, trim-trim,
}
use a2a_fun.Reputation.{is_super_id}
use a2a_fun.Reward.{
  text_field, nonblank, is_same, is_credit_of, already_credited, add_credit, credit_amount,
  credit_reward, rebuild_balances, rebuild_reward_balance, credit_all, Amounts, Credit, Balance,
  Account, Claimed,
}

module _ (n : Amounts) where
  abbrev pub empty_account : Account n
  empty_account = record { ledger = []; balances = [] }

  -- Two credits of one identity for one offer or one value event.
  abbrev same_cause : Credit n → Credit n → Bool
  same_cause l m = is_credit_of n m.super_identity_id m.offer_id m.value_event_id l

  abbrev pub IsUnique : List (Credit n) → Type 0
  IsUnique [] = Unit {0}
  IsUnique (l ∷ ls) = (any (same_cause l) ls ≡ false) × IsUnique ls

  any-append :
      (p : Credit n → Bool) (xs ys : List (Credit n)) → any p (xs ++ ys) ≡ (any p xs || any p ys)
  any-append p [] ys = refl
  any-append p (x ∷ xs) ys = ground (arith, any-append p xs ys)

  IsUnique-append :
      (ls : List (Credit n)) (m : Credit n)
      → IsUnique ls
      → any (λ l. same_cause l m) ls ≡ false
      → IsUnique (ls ++ m ∷ [])
  IsUnique-append [] m h fresh = (refl, tt)
  IsUnique-append (l ∷ ls) m (alone, h) fresh =
      (ground (arith, any-append (same_cause l) ls (m ∷ [])), IsUnique-append ls m h (ground arith))

  rebuild-append :
      (ls : List (Credit n)) (l : Credit n) (balances : Dict (Balance n))
      → is_super_id (trim l.super_identity_id) ≡ true
      → trim l.super_identity_id ≡ l.super_identity_id
      → rebuild_balances n balances (ls ++ l ∷ []) ≡ add_credit n l (rebuild_balances n balances ls)
  unfolding rebuild_balances
  rebuild-append [] l balances super same = rw (super, same) refl
  rebuild-append (k ∷ ls) l balances super same =
      let counted =
        rebuild-append ls l
          (add_credit n (record k { super_identity_id = trim k.super_identity_id }) balances) super
          same in
      let skipped = rebuild-append ls l balances super same in ground arith

  is_same-nonblank : (x y : Option String) → is_same (nonblank x) y ≡ is_same x y
  is_same-nonblank none y = refl
  is_same-nonblank (some s) none = ground arith
  is_same-nonblank (some s) (some t) = ground arith

  credit_of-nonblank :
      (sid : String) (offer event : Option String) (l : Credit n)
      → is_credit_of n sid (nonblank offer) (nonblank event) l ≡ is_credit_of n sid offer event l
  unfolding is_credit_of
  credit_of-nonblank sid offer event l =
      rw (is_same-nonblank offer l.offer_id, is_same-nonblank event l.value_event_id) refl

  any-nonblank :
      (sid : String) (offer event : Option String) (ls : List (Credit n))
      → any (is_credit_of n sid offer event) ls ≡ false
      → any (is_credit_of n sid (nonblank offer) (nonblank event)) ls ≡ false
  any-nonblank sid offer event ls h =
      let same : is_credit_of n sid (nonblank offer) (nonblank event)
          ≡ is_credit_of n sid offer event =
        fun_ext (credit_of-nonblank sid offer event) in
      rw same h

  -- Each cause stands once in the ledger, and the balances are what the ledger gives.
  record IsBooked (a : Account n) : Type 0 where
    unique : IsUnique a.ledger
    balanced : rebuild_balances n [] a.ledger ≡ a.balances

  IsBooked-credit_amount :
      (sid : String) (amount : n.Amount) (context : Value) (a : Account n)
      → is_super_id sid ≡ true
      → trim sid ≡ sid
      → length a.ledger ≤ 8000
      → IsBooked a
      → IsBooked (credit_amount n sid amount context a).1
  unfolding credit_amount already_credited
  IsBooked-credit_amount sid amount context a super same short good =
      let offer = text_field (property "offer_id" context) in
      let event = text_field (property "value_event_id" context) in
      let whole : length a.ledger - 8000 ≡ 0 = omega arith in
      let line : Credit n = record {
        super_identity_id = sid;
        amount = amount;
        offer_id = nonblank offer;
        value_event_id = nonblank event;
      } in
      rw whole (elim (Bool-cases (any (is_credit_of n sid offer event) a.ledger)) [
        | inl known ↦ rw known good
        | inr new ↦ rw new (record {
          unique =
              IsUnique-append a.ledger line good.unique (any-nonblank sid offer event a.ledger new);
          balanced =
              rebuild-append a.ledger line [] (rw same super) same
              ∙ ap (add_credit n line) good.balanced;
        })
      ])

  length-credit_amount :
      (sid : String) (amount : n.Amount) (context : Value) (a : Account n)
      → length a.ledger ≤ length (credit_amount n sid amount context a).1.ledger
  unfolding credit_amount
  length-credit_amount sid amount context a =
      let line : Credit n = record {
        super_identity_id = sid;
        amount = amount;
        offer_id = nonblank (text_field (property "offer_id" context));
        value_event_id = nonblank (text_field (property "value_event_id" context));
      } in
      ground (arith, length-append a.ledger (line ∷ []))

  -- A step leaves the account as it is, or credits an amount to a super identity.
  credit-step :
      (P : Account n → Type 0) (v : Value) (amount : Option n.Amount) (context : Value)
      (a : Account n)
      → P a
      → ((sid : String) (x : n.Amount)
          → is_super_id sid ≡ true
          → trim sid ≡ sid
          → P (credit_amount n sid x context a).1)
      → P (credit_reward n v amount context a).1
  unfolding credit_reward
  credit-step P v none context a same given =
      elim (Bool-cases (is_super_id (trim (text_or_empty v)))) [
        | inl super ↦ rw super same
        | inr other ↦ rw other same
      ]
  credit-step P v (some x) context a same given =
      let sid = trim (text_or_empty v) in
      elim (Bool-cases (is_super_id sid)) [
        | inr other ↦ rw other same
        | inl super ↦ rw super (elim (Bool-cases (n.is_positive x)) [
          | inr nothing ↦ rw nothing same
          | inl positive ↦ rw positive (given sid x super (trim-trim (text_or_empty v)))
        ])
      ]

  length-credit_reward :
      (v : Value) (amount : Option n.Amount) (context : Value) (a : Account n)
      → length a.ledger ≤ length (credit_reward n v amount context a).1.ledger
  length-credit_reward v amount context a =
      credit-step (λ b. length a.ledger ≤ length b.ledger) v amount context a (omega arith)
        (λ sid x super same. length-credit_amount sid x context a)

  length-credit_all :
      (cs : List (Claimed n)) (a : Account n) → length a.ledger ≤ length (credit_all n cs a).ledger
  unfolding credit_all
  length-credit_all [] a = omega arith
  length-credit_all (c ∷ cs) a =
      let next = (credit_reward n c.super_identity_id c.amount c.context a).1 in
      omega (
        arith,
        length-credit_reward c.super_identity_id c.amount c.context a,
        length-credit_all cs next,
      )

  IsBooked-credit_all :
      (cs : List (Claimed n)) (a : Account n)
      → length (credit_all n cs a).ledger ≤ 8000
      → IsBooked a
      → IsBooked (credit_all n cs a)
  unfolding credit_all
  IsBooked-credit_all [] a short good = good
  IsBooked-credit_all (c ∷ cs) a short good =
      let next = (credit_reward n c.super_identity_id c.amount c.context a).1 in
      let before = length-credit_reward c.super_identity_id c.amount c.context a in
      let after = length-credit_all cs next in
      let fits : length a.ledger ≤ 8000 = omega (arith, before, after, short) in
      IsBooked-credit_all cs next short (
        credit-step IsBooked c.super_identity_id c.amount c.context a good
          (λ sid x super same. IsBooked-credit_amount sid x c.context a super same fits good))

  -- After any requests, as long as the ledger has at most 8,000 lines, no identity has been credited
  -- twice for one offer or one value event, and rebuilding the balances from the ledger gives exactly
  -- the ones that were kept.
  pub credit_all-booked :
      (cs : List (Claimed n))
      → let a = credit_all n cs empty_account in
        length a.ledger ≤ 8000 → IsUnique a.ledger × (rebuild_reward_balance n a ≡ a)
  unfolding rebuild_reward_balance rebuild_balances
  credit_all-booked cs short =
      let a = credit_all n cs empty_account in
      let good =
        IsBooked-credit_all cs empty_account short (record { unique = tt; balanced = refl }) in
      let whole : length a.ledger - 1000000 ≡ 0 = omega arith in
      (good.unique, rw whole (ap (λ b. record a { balances = b }) good.balanced))
