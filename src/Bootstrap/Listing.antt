-- ===== src/Bootstrap/Listing.antt =====
-- What an accepted request does to the list of nodes.
use a2a_fun.Prelude.{
  ℕ, ◌+◌, ◌-◌, ◌<◌, String, ◌≡◌, refl, sym, subst, ◌∙◌, inl, inr, Bool, true, false, ◌&&◌, Option,
  some, arith, str_eq, eq_refl, leb, Bool-cases, Option-cases, ok, field_of, property, Value, str,
  obj, Fields, is_truthy, string_of, set_field, field_of-set_field, field_of-set_field_other,
  has_key, is_inherited, lookup, own_fields,
}
use a2a_fun.Bootstrap.{
  is_non_empty_string, Handled, node_id_of, write_registry, country_field, next_node, publish_self,
  refreshed_addrs, refreshed, heartbeat, last_seen_of, is_since, list_peers, Request,
}
use a2a_fun.Bootstrap.Active.{
  is_listed, IsNamed-set_field, IsObject-set_field, named-own_fields, named-field_of, is_current,
  listed-set_field, IsRegistry,
}

pub data RequestKind : Type 0 where
  announcement beat : RequestKind

abbrev pub handle_request : (String → String) → RequestKind → Request → Fields → Handled
handle_request upper announcement r nodes = publish_self upper r nodes
handle_request upper beat r nodes = heartbeat upper r nodes

-- An entry that a request writes.
abbrev IsEntry : String → Request → Fields → Type 0
IsEntry node_id r node =
    (field_of "node_id" node ≡ str node_id) × (field_of "last_seen" node ≡ str r.now)

abbrev Written : Request → Fields → String → Fields → Type 0
Written r nodes node_id after =
    (node : Fields) × (after ≡ set_field node_id (obj node) nodes) × IsEntry node_id r node

Written-write :
    (r : Request) (node_id id : String) (node nodes after : Fields)
    → IsEntry id r node
    → write_registry r.can_write id node nodes ≡ (ok node_id, after)
    → Written r nodes node_id after
unfolding write_registry
Written-write r node_id id node nodes after entry h = elim (Bool-cases r.can_write) [
  | inr fails ↦ absurd (ground arith)
  | inl writes ↦
      let same : id ≡ node_id = ground arith in
      let is : after ≡ set_field id (obj node) nodes = ground arith in
      subst (λ (i : String). Written r nodes i after) same (node, is, entry)
]

write-id :
    (r : Request) (node_id id : String) (node nodes after : Fields)
    → write_registry r.can_write id node nodes ≡ (ok node_id, after)
    → id ≡ node_id
unfolding write_registry
write-id r node_id id node nodes after h = ground arith

-- What is found under a name of its own is an entry of the registry.
lookup-named :
    (id : String) (nodes : Fields)
    → IsRegistry nodes
    → is_inherited id ≡ false
    → is_truthy (lookup id nodes) ≡ true
    → property "node_id" (lookup id nodes) ≡ str id
unfolding lookup is_truthy
lookup-named id nodes good own found = elim (Bool-cases (has_key id nodes)) [
  | inl has ↦ rw has (named-field_of id nodes good.has_names has)
  | inr missing ↦ absurd (ground arith)
]

module _ (upper : String → String) where
  next_node-IsEntry :
      (r : Request) (body : Value) (node_id : String) (prev : Value)
      → IsEntry node_id r (next_node upper r body node_id prev)
  unfolding next_node field_of
  next_node-IsEntry r body node_id prev = (refl, refl)

  refreshed-IsEntry :
      (r : Request) (node_id : String) (prev : Value)
      → property "node_id" prev ≡ str node_id
      → IsEntry node_id r (refreshed upper r prev)
  unfolding refreshed
  refreshed-IsEntry r node_id prev named =
      let a = set_field "country_code" (country_field r.country prev) (own_fields prev) in
      let addrs = refreshed_addrs upper r prev in
      let b = set_field "observed_addrs" addrs a in
      (
        field_of-set_field_other "node_id" "last_seen" (str r.now) b refl
            ∙ field_of-set_field_other "node_id" "observed_addrs" addrs a refl
            ∙ field_of-set_field_other "node_id" "country_code" (country_field r.country prev)
                (own_fields prev) refl
            ∙ named-own_fields node_id prev named,
        field_of-set_field "last_seen" (str r.now) b,
      )

  Written-publish_self :
      (r : Request) (nodes after : Fields) (node_id : String)
      → publish_self upper r nodes ≡ (ok node_id, after)
      → Written r nodes node_id after
  unfolding publish_self
  Written-publish_self r nodes after node_id h = elim (Option-cases r.body) [
    | inl missing ↦ absurd (ground arith)
    | inr (body, is) ↦
        let id = node_id_of body in
        let node = next_node upper r body id (lookup id nodes) in
        elim (Bool-cases (is_non_empty_string 120 (str id))) [
          | inr bad ↦ absurd (ground arith)
          | inl good ↦
              let written : write_registry r.can_write id node nodes ≡ (ok node_id, after) =
                ground arith in
              Written-write r node_id id node nodes after
                (next_node-IsEntry r body id (lookup id nodes)) written
        ]
  ]

  Written-heartbeat :
      (r : Request) (nodes after : Fields) (node_id : String)
      → IsRegistry nodes
      → is_inherited node_id ≡ false
      → heartbeat upper r nodes ≡ (ok node_id, after)
      → Written r nodes node_id after
  unfolding heartbeat
  Written-heartbeat r nodes after node_id good own h = elim (Option-cases r.body) [
    | inl missing ↦ absurd (ground arith)
    | inr (body, is) ↦
        let id = node_id_of body in
        let prev = lookup id nodes in
        elim (Bool-cases (is_non_empty_string 120 (str id) && is_truthy prev)) [
          | inr bad ↦ absurd (ground arith)
          | inl known ↦
              let node = refreshed upper r prev in
              let written : write_registry r.can_write id node nodes ≡ (ok node_id, after) =
                ground arith in
              let same = write-id r node_id id node nodes after written in
              let named = lookup-named id nodes good (rw (sym same) at own) (ground arith) in
              Written-write r node_id id node nodes after (refreshed-IsEntry r id prev named)
                written
        ]
  ]

  Written-request :
      (kind : RequestKind) (r : Request) (nodes after : Fields) (node_id : String)
      → IsRegistry nodes
      → is_inherited node_id ≡ false
      → handle_request upper kind r nodes ≡ (ok node_id, after)
      → Written r nodes node_id after
  Written-request announcement r nodes after node_id good own h =
      Written-publish_self r nodes after node_id h
  Written-request beat r nodes after node_id good own h =
      Written-heartbeat r nodes after node_id good own h

current-since :
    (parse_iso : String → Option ℕ) (node : Fields) (time timeout now : ℕ) (stamp : String)
    → field_of "last_seen" node ≡ str stamp
    → parse_iso stamp ≡ some time
    → 0 < time
    → is_since parse_iso (now - timeout) (last_seen_of parse_iso (obj node))
      ≡ leb now (time + timeout)
unfolding string_of
current-since parse_iso node time timeout now stamp seen parsed since =
    rw (seen, parsed) (ground arith)

-- A registry whose entries stand under their own identifiers stays one when an announcement or a
-- heartbeat is accepted, for a node whose identifier is no inherited name. From then on the node is
-- in the list of peers exactly as long as no more than the timeout has passed since the time of the
-- request, and every other node is in the list exactly when it was before.
pub listed-handle_request :
    (upper : String → String) (parse_iso : String → Option ℕ) (precedes : String → String → Bool)
    (kind : RequestKind) (r : Request) (nodes after : Fields) (node_id : String)
    (time timeout now : ℕ)
    → IsRegistry nodes
    → is_inherited node_id ≡ false
    → parse_iso r.now ≡ some time
    → 0 < time
    → handle_request upper kind r nodes ≡ (ok node_id, after)
    → IsRegistry after
      × (is_listed node_id (list_peers parse_iso precedes timeout now after)
          ≡ leb now (time + timeout))
      × ((other : String)
          → str_eq node_id other ≡ false
          → is_listed other (list_peers parse_iso precedes timeout now after)
            ≡ is_listed other (list_peers parse_iso precedes timeout now nodes))
listed-handle_request upper parse_iso precedes kind r nodes after node_id time timeout now good own
      parsed since h =
    let (node, is, (named, seen)) = Written-request upper kind r nodes after node_id good own h in
    let better : IsRegistry (set_field node_id (obj node) nodes) = record {
      has_names = IsNamed-set_field node_id (obj node) nodes named good.has_names;
      has_keys = IsObject-set_field node_id (obj node) nodes good.has_keys;
    } in
    let current : is_current parse_iso precedes timeout now (obj node) ≡ leb now (time + timeout) =
      current-since parse_iso node time timeout now r.now seen parsed since in
    let listed = λ (other : String).
      listed-set_field parse_iso precedes timeout now node_id other (obj node) nodes good better in
    rw is (
      better,
      ground (arith, listed node_id, eq_refl node_id, current),
      λ other different. rw different at (listed other),
    )
