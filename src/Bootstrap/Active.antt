-- ===== src/Bootstrap/Active.antt =====
-- Which nodes the registry lists.
use a2a_fun.Prelude.{
  ℕ, ◌-◌, String, ◌≡◌, refl, inl, inr, Bool, true, false, ◌&&◌, ◌||◌, Option, List, [], ◌∷◌, arith,
  str_eq, eq_iff, if◌then◌else◌, Bool-cases, any, field_of, property, Value, undefined, null, bool,
  num, str, arr, obj, exotic, Fields, no_field, field, is_text, set_field, field_of-set_field,
  field_of-set_field_other, has_key, IsObject, has_key-set_field, own_fields,
}
use a2a_fun.Bootstrap.{
  peer_view, last_seen_of, is_since, active_nodes, insert_peer, sort_peers, list_peers,
}

-- Each entry carries the identifier that it is kept under.
abbrev pub IsNamed : Fields → Type 0
IsNamed no_field = Unit {0}
IsNamed (field k n nodes) = (property "node_id" n ≡ str k) × IsNamed nodes

abbrev is_of : String → Fields → Bool
is_of node_id p = is_text node_id (field_of "node_id" p)

abbrev pub is_listed : String → List Fields → Bool
is_listed node_id ps = any (is_of node_id) ps

pub IsNamed-set_field :
    (k : String) (n : Value) (nodes : Fields)
    → property "node_id" n ≡ str k
    → IsNamed nodes
    → IsNamed (set_field k n nodes)
unfolding set_field
IsNamed-set_field k n no_field named h = (named, tt)
IsNamed-set_field k n (field j m nodes) named (head, h) = elim (Bool-cases (str_eq j k)) [
  | inl same ↦
      let is : j ≡ k = (eq_iff j k).0 same in
      let own : property "node_id" n ≡ str j = rw is named in rw same (own, h)
  | inr other ↦ rw other (head, IsNamed-set_field k n nodes named h)
]

pub IsObject-set_field :
    (k : String) (n : Value) (nodes : Fields) → IsObject nodes → IsObject (set_field k n nodes)
unfolding set_field has_key
IsObject-set_field k n no_field h = (refl, tt)
IsObject-set_field k n (field j m nodes) (fresh, h) =
    let kept = has_key-set_field j k n nodes in
    elim (Bool-cases (str_eq j k)) [
      | inl same ↦ rw same (fresh, h)
      | inr other ↦
          let different : str_eq k j ≡ false = ground (arith, eq_iff j k, eq_iff k j) in
          rw other (ground (arith, kept, different), IsObject-set_field k n nodes h)
    ]

pub named-own_fields :
    (k : String) (n : Value)
    → property "node_id" n ≡ str k
    → field_of "node_id" (own_fields n) ≡ str k
named-own_fields k (obj fs) h = h
named-own_fields k undefined h = absurd (ground arith)
named-own_fields k null h = absurd (ground arith)
named-own_fields k (bool b) h = absurd (ground arith)
named-own_fields k (num n) h = absurd (ground arith)
named-own_fields k (str s) h = absurd (ground arith)
named-own_fields k (arr vs) h = absurd (ground arith)
named-own_fields k (exotic s) h = absurd (ground arith)

pub named-field_of :
    (k : String) (nodes : Fields)
    → IsNamed nodes
    → has_key k nodes ≡ true
    → property "node_id" (field_of k nodes) ≡ str k
unfolding has_key field_of
named-field_of k no_field h has = absurd (ground arith)
named-field_of k (field j n nodes) (named, h) has = elim (Bool-cases (str_eq j k)) [
  | inl same ↦ let is : j ≡ k = (eq_iff j k).0 same in rw same (rw is at named)
  | inr other ↦ rw other (named-field_of k nodes h (ground arith))
]

is_of-peer_view :
    (node_id k : String) (n : Value)
    → property "node_id" n ≡ str k
    → is_of node_id (peer_view n) ≡ str_eq k node_id
unfolding peer_view field_of
is_of-peer_view node_id k n name = rw name refl

module _ (parse_iso : String → Option ℕ) where
  absent-active_nodes :
      (node_id : String) (cutoff : ℕ) (nodes : Fields)
      → IsNamed nodes
      → has_key node_id nodes ≡ false
      → is_listed node_id (active_nodes parse_iso cutoff nodes) ≡ false
  unfolding active_nodes has_key
  absent-active_nodes node_id cutoff no_field named absent = refl
  absent-active_nodes node_id cutoff (field k n nodes) (name, named) absent =
      let rest = absent-active_nodes node_id cutoff nodes named (ground arith) in
      ground (arith, is_of-peer_view node_id k n name)

  listed-active_nodes :
      (node_id : String) (cutoff : ℕ) (nodes : Fields)
      → IsNamed nodes
      → IsObject nodes
      → has_key node_id nodes ≡ true
      → is_listed node_id (active_nodes parse_iso cutoff nodes)
        ≡ is_since parse_iso cutoff (last_seen_of parse_iso (field_of node_id nodes))
  unfolding active_nodes has_key field_of
  listed-active_nodes node_id cutoff no_field named unique has = absurd (ground arith)
  listed-active_nodes node_id cutoff (field k n nodes) (name, named) (fresh, unique) has =
      let view = is_of-peer_view node_id k n name in
      elim (Bool-cases (str_eq k node_id)) [
        | inl same ↦
            let is : k ≡ node_id = (eq_iff k node_id).0 same in
            let alone = absent-active_nodes node_id cutoff nodes named (rw is at fresh) in
            ground (arith, view)
        | inr other ↦
            let rest = listed-active_nodes node_id cutoff nodes named unique (ground arith) in
            ground (arith, view)
      ]

module _ (precedes : String → String → Bool) (node_id : String) where
  listed-insert_peer :
      (p : Fields) (ps : List Fields)
      → is_listed node_id (insert_peer precedes p ps) ≡ (is_of node_id p || is_listed node_id ps)
  unfolding insert_peer
  listed-insert_peer p [] = refl
  listed-insert_peer p (q ∷ qs) = let rest = listed-insert_peer p qs in ground arith

  listed-sort_peers :
      (ps : List Fields) → is_listed node_id (sort_peers precedes ps) ≡ is_listed node_id ps
  unfolding sort_peers
  listed-sort_peers [] = refl
  listed-sort_peers (p ∷ ps) =
      ground (arith, listed-insert_peer p (sort_peers precedes ps), listed-sort_peers ps)

-- The registry as the requests leave it.
pub record IsRegistry (nodes : Fields) : Type 0 where
  pub has_names : IsNamed nodes
  pub has_keys : IsObject nodes

module _ (parse_iso : String → Option ℕ) (precedes : String → String → Bool) (timeout now : ℕ) where
  abbrev pub is_current : Value → Bool
  is_current n = is_since parse_iso (now - timeout) (last_seen_of parse_iso n)

  pub listed-has_key :
      (node_id : String) (nodes : Fields)
      → IsRegistry nodes
      → is_listed node_id (list_peers parse_iso precedes timeout now nodes)
        ≡ (has_key node_id nodes && is_current (field_of node_id nodes))
  unfolding list_peers
  listed-has_key node_id nodes good =
      let sorted =
        listed-sort_peers precedes node_id (active_nodes parse_iso (now - timeout) nodes) in
      elim (Bool-cases (has_key node_id nodes)) [
        | inl has ↦ ground (
          arith,
          sorted,
          listed-active_nodes parse_iso node_id (now - timeout) nodes good.has_names good.has_keys
              has,
        )
        | inr no_key ↦ ground (
          arith,
          sorted,
          absent-active_nodes parse_iso node_id (now - timeout) nodes good.has_names no_key,
        )
      ]

  -- The entry that is written decides for its own node, and for no other.
  pub listed-set_field :
      (node_id other : String) (n : Value) (nodes : Fields)
      → IsRegistry nodes
      → IsRegistry (set_field node_id n nodes)
      → is_listed other (list_peers parse_iso precedes timeout now (set_field node_id n nodes)) ≡ (
          if str_eq node_id other
          then is_current n
          else is_listed other (list_peers parse_iso precedes timeout now nodes))
  listed-set_field node_id other n nodes good better =
      let after = listed-has_key other (set_field node_id n nodes) better in
      let before = listed-has_key other nodes good in
      let has = has_key-set_field other node_id n nodes in
      elim (Bool-cases (str_eq node_id other)) [
        | inl same ↦
            let is : node_id ≡ other = (eq_iff node_id other).0 same in
            let written = field_of-set_field node_id n nodes in ground (arith, is)
        | inr different ↦
            let kept = field_of-set_field_other other node_id n nodes different in ground arith
      ]
