-- ===== src/Bootstrap/Refusals.antt =====
-- The requests that the registry refuses.
use a2a_fun.Bootstrap.Active.{IsNamed, named-field_of, IsRegistry}
use a2a_fun.Prelude.{
  String, ◌≡◌, refl, sym, subst, inl, inr, true, false, Option, none, some, arith, Bool-cases,
  Option-cases, throw, field_of, property, Value, undefined, null, bool, num, str, arr, obj, exotic,
  Fields, is_truthy, has_key, lookup,
}
use a2a_fun.Bootstrap.{
  is_non_empty_string, node_id_of, write_registry, next_node, publish_self, refreshed, heartbeat,
  RegistryError, bad_json, invalid_node_id, unknown_node, persist_fail, Request,
}
use a2a_fun.Bootstrap.Listing.{handle_request, RequestKind, announcement, beat}

-- The body names a node that meets the predicate.
abbrev Names : (String → Type 0) → Option Value → Type 0
Names P none = ⊥
Names P (some body) = P (node_id_of body)

-- Why a request is refused with an error.
abbrev pub Reason : RegistryError → RequestKind → Request → Fields → Type 0
Reason bad_json kind r nodes = r.body ≡ none
Reason invalid_node_id kind r nodes =
    Names (λ node_id. is_non_empty_string 120 (str node_id) ≡ false) r.body
Reason unknown_node kind r nodes =
    (kind ≡ beat) × Names (λ node_id. has_key node_id nodes ≡ false) r.body
Reason persist_fail kind r nodes = r.can_write ≡ false

refused-write :
    (r : Request) (id : String) (node nodes after : Fields) (e : RegistryError)
    → write_registry r.can_write id node nodes ≡ (throw e, after)
    → (e ≡ persist_fail) × (r.can_write ≡ false) × (after ≡ nodes)
unfolding write_registry
refused-write r id node nodes after e h = elim (Bool-cases r.can_write) [
  | inl writes ↦ absurd (ground arith)
  | inr fails ↦ (ground arith, fails, ground arith)
]

Reason-of :
    (kind : RequestKind) (r : Request) (nodes : Fields) (e f : RegistryError)
    → e ≡ f
    → Reason f kind r nodes
    → Reason e kind r nodes
Reason-of kind r nodes e f same why = subst (λ x. Reason x kind r nodes) (sym same) why

object-is_truthy : (id : String) (v : Value) → property "node_id" v ≡ str id → is_truthy v ≡ true
unfolding is_truthy
object-is_truthy id (obj fs) h = refl
object-is_truthy id undefined h = absurd (ground arith)
object-is_truthy id null h = absurd (ground arith)
object-is_truthy id (bool b) h = absurd (ground arith)
object-is_truthy id (num n) h = absurd (ground arith)
object-is_truthy id (str s) h = absurd (ground arith)
object-is_truthy id (arr vs) h = refl
object-is_truthy id (exotic s) h = refl

-- An entry is an object, so it is truthy.
entry-is_truthy :
    (id : String) (nodes : Fields)
    → IsNamed nodes
    → has_key id nodes ≡ true
    → is_truthy (lookup id nodes) ≡ true
unfolding lookup is_truthy
entry-is_truthy id nodes named has =
    rw has (object-is_truthy id (field_of id nodes) (named-field_of id nodes named has))

module _ (upper : String → String) where
  refused-publish_self :
      (r : Request) (nodes after : Fields) (e : RegistryError)
      → publish_self upper r nodes ≡ (throw e, after)
      → (after ≡ nodes) × Reason e announcement r nodes
  unfolding publish_self
  refused-publish_self r nodes after e h = elim (Option-cases r.body) [
    | inl missing ↦ (ground arith, Reason-of announcement r nodes e bad_json (ground arith) missing)
    | inr (body, is) ↦
        let id = node_id_of body in
        elim (Bool-cases (is_non_empty_string 120 (str id))) [
          | inr bad ↦ (
            ground arith,
            Reason-of announcement r nodes e invalid_node_id (ground arith) (rw is bad),
          )
          | inl good ↦
              let node = next_node upper r body id (lookup id nodes) in
              let why = refused-write r id node nodes after e (ground arith) in
              (why.2, Reason-of announcement r nodes e persist_fail why.0 why.1)
        ]
  ]

  refused-heartbeat :
      (r : Request) (nodes after : Fields) (e : RegistryError)
      → IsRegistry nodes
      → heartbeat upper r nodes ≡ (throw e, after)
      → (after ≡ nodes) × Reason e beat r nodes
  unfolding heartbeat
  refused-heartbeat r nodes after e good h = elim (Option-cases r.body) [
    | inl missing ↦ (ground arith, Reason-of beat r nodes e bad_json (ground arith) missing)
    | inr (body, is) ↦
        let id = node_id_of body in
        elim (Bool-cases (is_non_empty_string 120 (str id))) [
          | inr bad ↦
              (ground arith, Reason-of beat r nodes e invalid_node_id (ground arith) (rw is bad))
          | inl named ↦ elim (Bool-cases (is_truthy (lookup id nodes))) [
            | inr unknown ↦
                let absent : has_key id nodes ≡ false =
                  ground (arith, entry-is_truthy id nodes good.has_names) in
                (
                  ground arith,
                  Reason-of beat r nodes e unknown_node (ground arith) (refl, rw is absent),
                )
            | inl known ↦
                let why =
                  refused-write r id (refreshed upper r (lookup id nodes)) nodes after e
                    (ground arith) in
                (why.2, Reason-of beat r nodes e persist_fail why.0 why.1)
          ]
        ]
  ]

-- A refused announcement or heartbeat changes nothing, and the error says why: the body is no JSON,
-- its identifier is blank or too long, a heartbeat's node is not registered, or the registry could
-- not be written.
pub refused-handle_request :
    (upper : String → String) (kind : RequestKind) (r : Request) (nodes after : Fields)
    (e : RegistryError)
    → IsRegistry nodes
    → handle_request upper kind r nodes ≡ (throw e, after)
    → (after ≡ nodes) × Reason e kind r nodes
refused-handle_request upper announcement r nodes after e good h =
    refused-publish_self upper r nodes after e h
refused-handle_request upper beat r nodes after e good h =
    refused-heartbeat upper r nodes after e good h
