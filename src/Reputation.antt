-- ===== src/Reputation.antt =====
-- src/reputation/reputation.mjs: the ledger of reputation events and the index that is made of it.
-- Each line of the ledger is an event; the index maps an identity to its entry. The numbers of the
-- scores are JavaScript's floats, of which only the sum is used: they are a type with a zero, a sum
-- and a test for being positive. `bucket` is `hourBucket`, the hour of a time; the weights of the
-- two competition events and the limit on them are configured.
pub mod Rebuild
pub mod Cap
use Prim.Native.Char.{code}
use Prim.Native.String
use a2a_fun.Prelude.{
  ℕ, ◌+◌, ◌-◌, String, Bool, true, false, ◌&&◌, Option, none, some, List, [], ◌∷◌, ◌++◌, reverse,
  str_eq, leb, if◌then◌else◌, length, drop, require, Outcome, ok, throw, Dict, get, put, trim,
  starts_with, ◌>>=◌, ◌>>◌,
}

pub data EventType : Type 0 where
  task_success task_failure peer_ack peer_flag manual_feedback : EventType
  competition_win competition_loss : EventType

pub data Source : Type 0 where
  from_peer : String → Source
  from_self from_system : Source

pub data ReputationError : Type 0 where
  invalid_super_id invalid_event_type invalid_source_type invalid_peer_source : ReputationError
  invalid_time rate_limited : ReputationError

-- An event as it comes in, with its texts as `String(x || '').trim()` gives them and `none` for a
-- source that is no plain object; the identifier, the time and the context are given.
pub record Raw : Type 0 where
  pub event_id : String
  pub ts : String
  pub super_identity_id : String
  pub event_type : String
  pub source : Option (String × String)
  pub context : String

pub record Event : Type 0 where
  pub event_id : String
  pub ts : String
  pub super_identity_id : String
  pub event_type : EventType
  pub source : Source
  pub context : String

unfoldable pub event_type_of : String → Option EventType
event_type_of s =
    if str_eq s "task_success"
    then some task_success
    else if str_eq s "task_failure"
    then some task_failure
    else if str_eq s "peer_ack"
    then some peer_ack
    else if str_eq s "peer_flag"
    then some peer_flag
    else if str_eq s "manual_feedback"
    then some manual_feedback
    else if str_eq s "competition_win"
    then some competition_win
    else if str_eq s "competition_loss"
    then some competition_loss
    else none

abbrev pub is_super_id : String → Bool
is_super_id s = starts_with "sid-" s

unfoldable pub source_of : Option (String × String) → Outcome ReputationError Source
source_of none = ok from_system
source_of (some (type, peer)) =
    if str_eq type "peer"
    then if is_super_id peer then ok (from_peer peer) else throw invalid_peer_source
    else if str_eq type "self"
    then ok from_self
    else if str_eq type "system"
    then ok from_system
    else throw invalid_source_type

-- `normalizeEvent` of a plain object.
unfoldable pub normalize_event : Raw → Outcome ReputationError Event
normalize_event e = do
  require (is_super_id e.super_identity_id) invalid_super_id
  type ← elim (event_type_of e.event_type) [ none ↦ throw invalid_event_type | some t ↦ ok t ]
  source ← source_of e.source
  ok (record {
    event_id = e.event_id;
    ts = e.ts;
    super_identity_id = e.super_identity_id;
    event_type = type;
    source = source;
    context = e.context;
  })

unfoldable pub same_event_type : EventType → EventType → Bool
same_event_type task_success task_success = true
same_event_type task_failure task_failure = true
same_event_type peer_ack peer_ack = true
same_event_type peer_flag peer_flag = true
same_event_type manual_feedback manual_feedback = true
same_event_type competition_win competition_win = true
same_event_type competition_loss competition_loss = true
same_event_type _ _ = false

abbrev pub is_competition : EventType → Bool
is_competition competition_win = true
is_competition competition_loss = true
is_competition _ = false

-- `sourceKey`, as equality of sources.
abbrev pub same_source : Source → Source → Bool
same_source (from_peer a) (from_peer b) = str_eq a b
same_source from_self from_self = true
same_source from_system from_system = true
same_source _ _ = false

abbrev pub is_self : Source → Bool
is_self from_self = true
is_self _ = false

-- The last `n` elements: `slice(-n)`.
abbrev pub last_of {ℓ} : {A : Type ℓ} → ℕ → List A → List A
last_of n xs = drop (length xs - n) xs

-- The scan of the two limits stops as soon as `max` lines have been counted.
unfoldable pub reaches {ℓ} : {A : Type ℓ} → (A → Bool) → ℕ → ℕ → List A → Bool
reaches p max c [] = false
reaches p max c (x ∷ xs) =
    let next = if p x then c + 1 else c in
    let rest = reaches p max next xs in if p x && leb max next then true else rest

-- What the code asks of its numbers and of the platform.
pub record Numbers : Type 1 where
  pub Number : Type 0
  pub nought : Number
  pub one : Number
  pub minus_one : Number
  pub minus_two : Number
  pub win_weight : Number
  pub loss_weight : Number
  pub sum : Number → Number → Number
  pub is_positive : Number → Bool
  -- whether `new Date(ts)` is a date; `hourBucket` throws a RangeError where it is none
  pub is_date : String → Bool
  pub bucket : String → String
  pub max_competition : ℕ

module _ (n : Numbers) where
  -- A line of the ledger: the event with its value, and whether it was appended by the limit on
  -- competition events.
  pub record Line : Type 0 where
    pub event : Event
    pub value : n.Number
    pub is_limited : Bool

  pub record Entry : Type 0 where
    pub score : n.Number
    pub events : ℕ
    pub breakdown : EventType → ℕ

  pub record Book : Type 0 where
    pub ledger : List Line
    pub index : Dict Entry

  abbrev pub empty_book : Book
  empty_book = record { ledger = []; index = [] }

  abbrev pub empty_entry : Entry
  empty_entry = record { score = n.nought; events = 0; breakdown = λ _. 0 }

  -- `ensureSidEntry`
  abbrev pub entry_of : Option Entry → Entry
  entry_of none = empty_entry
  entry_of (some e) = e

  unfoldable pub base_weight : EventType → n.Number
  base_weight task_success = n.one
  base_weight task_failure = n.minus_one
  base_weight peer_ack = n.one
  base_weight peer_flag = n.minus_two
  base_weight manual_feedback = n.nought
  base_weight competition_win = n.win_weight
  base_weight competition_loss = n.loss_weight

  unfoldable pub effective_delta : Event → n.Number
  effective_delta ev = if is_self ev.source then n.nought else base_weight ev.event_type

  abbrev pub in_hour : Event → Line → Bool
  in_hour ev l =
      str_eq l.event.super_identity_id ev.super_identity_id
      && str_eq (n.bucket l.event.ts) (n.bucket ev.ts)

  -- The lines that count for the limit on positive events.
  abbrev pub counts_positive : Event → Line → Bool
  counts_positive ev l =
      in_hour ev l
      && same_source l.event.source ev.source
      && n.is_positive (base_weight l.event.event_type)

  abbrev pub counts_competition : Event → Line → Bool
  counts_competition ev l = in_hour ev l && is_competition l.event.event_type

  unfoldable pub is_rate_limited : Event → List Line → Bool
  is_rate_limited ev ledger = reaches (counts_positive ev) 5 0 (last_of 800 ledger)

  unfoldable pub is_competition_rate_limited : Event → List Line → Bool
  is_competition_rate_limited ev ledger =
      reaches (counts_competition ev) n.max_competition 0 (last_of 1200 ledger)

  -- The entry after an event with its value.
  unfoldable pub add_event : EventType → n.Number → Entry → Entry
  add_event type value e = record {
    score = n.sum e.score value;
    events = e.events + 1;
    breakdown = λ t. if same_event_type t type then e.breakdown t + 1 else e.breakdown t;
  }

  unfoldable pub add_to_index : Line → Dict Entry → Dict Entry
  add_to_index l index =
      let sid = l.event.super_identity_id in
      put sid (add_event l.event.event_type l.value (entry_of (get sid index))) index

  pub data Emitted : Type 0 where
    applied : n.Number → Emitted
    limited : Emitted

  abbrev pub line_of : Event → n.Number → Bool → Line
  line_of ev value is_limited = record { event = ev; value = value; is_limited = is_limited }

  abbrev pub append_line : Line → Book → Book
  append_line l b = record b { ledger = b.ledger ++ l ∷ [] }

  -- `emitReputationEvent` of an event that is normalized and whose time is a date. Every line of the
  -- ledger has been one.
  unfoldable pub emit_event : Event → Book → Outcome ReputationError Emitted × Book
  emit_event ev b =
      let delta = effective_delta ev in
      let line = line_of ev delta false in
      if is_competition ev.event_type && is_competition_rate_limited ev b.ledger
      then (ok limited, append_line (line_of ev n.nought true) b)
      else if n.is_positive delta && is_rate_limited ev b.ledger
      then (throw rate_limited, b)
      else (
        ok (applied delta),
        record { ledger = b.ledger ++ line ∷ []; index = add_to_index line b.index },
      )

  unfoldable pub emit_reputation_event : Raw → Book → Outcome ReputationError Emitted × Book
  emit_reputation_event raw b = elim (normalize_event raw) [
    | throw e ↦ (throw e, b)
    | ok ev ↦ if n.is_date ev.ts then emit_event ev b else (throw invalid_time, b)
  ]

  -- One event after another.
  unfoldable pub emit_all : List Raw → Book → Book
  emit_all [] b = b
  emit_all (raw ∷ raws) b = emit_all raws (emit_reputation_event raw b).1

  unfoldable pub rebuild_from : Dict Entry → List Line → Dict Entry
  rebuild_from index [] = index
  rebuild_from index (l ∷ ls) =
      let counted = rebuild_from (add_to_index l index) ls in
      let skipped = rebuild_from index ls in
      if is_super_id l.event.super_identity_id then counted else skipped

  -- `rebuildReputationIndex`: the index that is written.
  unfoldable pub rebuild_reputation_index : Book → Book
  rebuild_reputation_index b = record b { index = rebuild_from [] (last_of 1000000 b.ledger) }

  unfoldable pub get_reputation : String → Book → Option Entry
  get_reputation sid b = get (trim sid) b.index

  -- The scan of `getRecentReputationEvents` over the reversed lines.
  unfoldable pub recent_from : String → ℕ → List Line → List Line
  recent_from sid limit [] = []
  recent_from sid limit (l ∷ ls) =
      let more = recent_from sid (limit - 1) ls in
      let rest = recent_from sid limit ls in
      if str_eq l.event.super_identity_id sid
      then if leb limit 1 then l ∷ [] else l ∷ more
      else rest

  unfoldable pub get_recent_reputation_events : String → ℕ → Book → List Line
  get_recent_reputation_events sid limit b =
      recent_from (trim sid) limit (reverse (last_of 5000 b.ledger))
