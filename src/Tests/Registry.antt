-- ===== src/Tests/Registry.antt =====
-- The registry of nodes on concrete requests.
use a2a_fun.Prelude.{
  ℕ, ◌+◌, String, ◌≡◌, refl, Bool, true, false, Option, none, some, [], ◌∷◌, arith, str_eq, leb,
  if◌then◌else◌, ok, throw, is_space, trim_start, trim_end, trim, utf16_length, field_of, str, obj,
  Fields, no_field, field, is_truthy, string_of, text_or_empty, object, has_key, is_inherited,
  lookup,
}
use a2a_fun.Bootstrap.{
  is_non_empty_string, unchanged, node_id_of, write_registry, heartbeat, active_nodes, sort_peers,
  list_peers, unknown_node, Request,
}
use a2a_fun.Bootstrap.Active.{is_listed, IsRegistry}
use a2a_fun.Bootstrap.Listing.{handle_request, listed-handle_request, beat}
use a2a_fun.Bootstrap.Refusals.{Reason, refused-handle_request}

abbrev beat_request : String → Request
beat_request node_id = record {
  body = some (obj (object (("node_id", str node_id) ∷ [])));
  ip = none;
  country = some "DE";
  now = "t2";
  can_write = true;
}

abbrev old_node : Fields
old_node = object (("node_id", str "a") ∷ ("last_seen", str "t1") ∷ [])

abbrev nodes_before : Fields
nodes_before =
    field "a" (obj old_node)
      (field "b" (obj (object (("node_id", str "b") ∷ ("last_seen", str "t1") ∷ []))) no_field)

clock_of : String → Option ℕ
clock_of s = if str_eq s "t1" then some 100 else if str_eq s "t2" then some 200 else none

no_order : String → String → Bool
no_order a b = false

nodes_before-IsRegistry : IsRegistry nodes_before
unfolding field_of has_key
nodes_before-IsRegistry = record { has_names = (refl, (refl, tt)); has_keys = (refl, (refl, tt)) }

heartbeat_accepted :
    handle_request unchanged beat (beat_request " a ") nodes_before
    ≡ (ok "a", (handle_request unchanged beat (beat_request " a ") nodes_before).1)
unfolding heartbeat node_id_of text_or_empty is_truthy string_of trim trim_start trim_end is_space
    is_non_empty_string utf16_length lookup has_key field_of write_registry
heartbeat_accepted = refl

a_own_name : is_inherited "a" ≡ false
unfolding is_inherited
a_own_name = refl

clock_of_t2 : clock_of "t2" ≡ some 200
unfolding clock_of
clock_of_t2 = refl

abbrev nodes_after : Fields
nodes_after = (handle_request unchanged beat (beat_request " a ") nodes_before).1

listed-handle_request_example :
    IsRegistry nodes_after
    × (is_listed "a" (list_peers clock_of no_order 50 220 nodes_after) ≡ leb 220 (200 + 50))
    × ((other : String)
        → str_eq "a" other ≡ false
        → is_listed other (list_peers clock_of no_order 50 220 nodes_after)
          ≡ is_listed other (list_peers clock_of no_order 50 220 nodes_before))
listed-handle_request_example =
    listed-handle_request unchanged clock_of no_order beat (beat_request " a ") nodes_before
      nodes_after "a" 200 50 220 nodes_before-IsRegistry a_own_name clock_of_t2 (omega arith)
      heartbeat_accepted

-- Before the heartbeat the node had run out.
not_listed_before : is_listed "a" (list_peers clock_of no_order 50 220 nodes_before) ≡ false
unfolding list_peers active_nodes clock_of string_of field_of sort_peers
not_listed_before = refl

heartbeat_unknown :
    handle_request unchanged beat (beat_request "c") nodes_before
    ≡ (throw unknown_node, nodes_before)
unfolding heartbeat node_id_of text_or_empty is_truthy string_of trim trim_start trim_end is_space
    is_non_empty_string utf16_length lookup has_key is_inherited field_of
heartbeat_unknown = refl

refused-handle_request_example :
    (nodes_before ≡ nodes_before) × Reason unknown_node beat (beat_request "c") nodes_before
refused-handle_request_example =
    refused-handle_request unchanged beat (beat_request "c") nodes_before nodes_before unknown_node
      nodes_before-IsRegistry heartbeat_unknown

-- A heartbeat under the name of an inherited property is accepted for a node that never announced
-- itself.
inherited_accepted :
    (handle_request unchanged beat (beat_request "constructor") no_field).0 ≡ ok "constructor"
unfolding heartbeat node_id_of text_or_empty is_truthy string_of trim trim_start trim_end is_space
    is_non_empty_string utf16_length lookup has_key is_inherited field_of write_registry
inherited_accepted = refl
