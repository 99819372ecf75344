-- ===== src/Bootstrap.antt =====
-- src/bootstrap/bootstrapServer.mjs: the registry of nodes and the requests that change or read it.
-- The address and the country that the server derives for a request are given to a handler, and so
-- are the clock, `upper` (`toUpperCase`), `parse_iso` (the time of a date in milliseconds, where it
-- is one) and `precedes a b`, which says that `a.localeCompare(b)` is negative.
pub mod Active
pub mod Listing
pub mod Refusals
use a2a_fun.Prelude.{
  ℕ, ◌+◌, ◌-◌, String, Bool, false, ◌&&◌, ◌||◌, Option, none, some, List, [], ◌∷◌, ◌++◌, map,
  str_eq, ltb, leb, if◌then◌else◌, length, Outcome, ok, throw, trim, utf16_length, field_of,
  elements, is_nullish, is_object, property, Value, undefined, null, str, arr, obj, exotic, Items,
  none_left, item, Fields, no_field, field, is_truthy, safe_str, string_of, text_or_empty, or_else,
  or_null, object, set_field, lookup, own_fields,
}

-- `isNonEmptyString`
unfoldable pub is_non_empty_string : ℕ → Value → Bool
is_non_empty_string max (str s) = let n = utf16_length (trim s) in ltb 0 n && leb n max
is_non_empty_string max _ = false

-- The trimmed text of a value that is one.
abbrev pub trimmed : Value → Value
trimmed v = str (safe_str v)

-- The loop of `normalizeStringArray`; it stops after the text with which `max_items` are reached.
unfoldable pub strings_from : ℕ → ℕ → List Value → List String → List String
strings_from max_items max_len [] out = out
strings_from max_items max_len (it ∷ its) out =
    let kept = out ++ safe_str it ∷ [] in
    let more = strings_from max_items max_len its kept in
    let rest = strings_from max_items max_len its out in
    if is_non_empty_string max_len it
    then if leb max_items (length kept) then kept else more
    else rest

unfoldable pub normalize_string_array : ℕ → ℕ → Value → List String
normalize_string_array max_items max_len (arr vs) = strings_from max_items max_len (elements vs) []
normalize_string_array max_items max_len _ = []

abbrev pub items_of : List Value → Items
items_of [] = none_left
items_of (v ∷ vs) = item v (items_of vs)

-- Sets a field where the value is a text of the right length.
unfoldable pub keep_text : (String → String) → String → ℕ → Value → Fields → Fields
keep_text change key max v o =
    if is_non_empty_string max v then set_field key (str (change (safe_str v))) o else o

abbrev pub unchanged : String → String
unchanged s = s

module _ (upper : String → String) where
  -- The small subset of an address object that is stored.
  unfoldable pub address_of : Value → Fields
  address_of it = keep_text unchanged "source" 40 (property "source" it) (
      keep_text unchanged "country_name" 80 (property "country_name" it) (
        keep_text upper "country_code" 2 (property "country_code" it) (
          keep_text unchanged "region" 80 (property "region" it) (
            keep_text unchanged "local_ip" 80 (property "local_ip" it)
              (keep_text unchanged "public_ip" 80 (property "public_ip" it) no_field)))))

  unfoldable pub address_object : Value → Option Value
  address_object it = elim (address_of it) [
    | no_field ↦ none
    | field k v fs ↦ some (obj (field k v fs))
  ]

  unfoldable pub kept_address : Value → Option Value
  kept_address (str s) =
      if str_eq (trim s) "" || ltb 300 (utf16_length (trim s)) then none else some (str (trim s))
  kept_address (arr vs) = none
  kept_address (obj fs) = address_object (obj fs)
  kept_address (exotic s) = none
  kept_address _ = none

  -- The loop of `normalizeObservedAddrs`; a text that is passed over is not followed by the test of
  -- the length, which changes nothing as the list has not grown.
  unfoldable pub addresses_from : List Value → List Value → List Value
  addresses_from [] out = out
  addresses_from (it ∷ its) out = elim (kept_address it) [
    | none ↦ addresses_from its out
    | some a ↦
        let kept = out ++ a ∷ [] in
        let more = addresses_from its kept in if leb 20 (length kept) then kept else more
  ]

  unfoldable pub normalize_observed_addrs : Value → List Value
  normalize_observed_addrs (arr vs) = addresses_from (elements vs) []
  normalize_observed_addrs _ = []

  -- What the server itself knows of the address: its number, and the country where it has one.
  unfoldable pub derived_addrs : String → String → Option String → List Value
  derived_addrs source ip country = normalize_observed_addrs (
      arr (
        item
          (obj (
            object (
              ("public_ip", str ip)
              ∷ ("country_code", country_or undefined country)
              ∷ ("region", country_or (str "unknown") country)
              ∷ ("source", str source)
              ∷ [])))
          none_left))
    where
      country_or : Value → Option String → Value
      country_or v none = v
      country_or v (some cc) = str cc

-- A field that is set where the object has none that is truthy.
abbrev pub default_field : String → Value → Fields → Fields
default_field key v o = if is_truthy (field_of key o) then o else set_field key v o

-- The first address is given the country, unless it is a text or has one.
unfoldable pub enriched : String → List Value → List Value
enriched country (obj o ∷ rest) =
    if is_truthy (field_of "country_code" o)
    then obj o ∷ rest
    else obj (
        default_field "source" (str "bootstrap_enriched")
          (default_field "region" (str country) (set_field "country_code" (str country) o)))
      ∷ rest
enriched country addrs = addrs

pub data RegistryError : Type 0 where
  bad_json invalid_node_id unknown_node persist_fail : RegistryError

-- What a request brings along: the body where it is JSON, the derived address and country, and
-- whether the registry can be written.
pub record Request : Type 0 where
  pub body : Option Value
  pub ip : Option String
  pub country : Option String
  pub now : String
  pub can_write : Bool

abbrev pub Handled : Type 0
Handled = Outcome RegistryError String × Fields

-- `String(body?.node_id || '').trim()`
unfoldable pub node_id_of : Value → String
node_id_of body = trim (text_or_empty (property "node_id" body))

unfoldable pub write_registry : Bool → String → Fields → Fields → Handled
write_registry can_write node_id node nodes =
    if can_write
    then (ok node_id, set_field node_id (obj node) nodes)
    else (throw persist_fail, nodes)

-- `cc0 || prev.country_code || null`
abbrev pub country_field : Option String → Value → Value
country_field none prev = or_else (property "country_code" prev) null
country_field (some cc) prev =
    if str_eq cc "" then or_else (property "country_code" prev) null else str cc

abbrev pub list_or : Value → List Value → Value
list_or prev [] = if is_nullish prev then arr none_left else prev
list_or prev (v ∷ vs) = arr (items_of (v ∷ vs))

module _ (upper : String → String) where
  -- The addresses of a node that announces itself.
  unfoldable pub announced_addrs : Request → Value → List Value
  announced_addrs r body = elim (normalize_observed_addrs upper (property "observed_addrs" body)) [
    | [] ↦ derived r.ip
    | a ∷ addrs ↦ known r.country (a ∷ addrs)
  ]
    where
      derived : Option String → List Value
      derived none = []
      derived (some ip) = derived_addrs upper "bootstrap_derived" ip r.country

      known : Option String → List Value → List Value
      known none addrs = addrs
      known (some cc) addrs = enriched cc addrs

  -- The entry that `POST /publish-self` writes.
  unfoldable pub next_node : Request → Value → String → Value → Fields
  next_node r body node_id prev =
      let version = property "version" body in
      let capabilities = property "capabilities" body in
      let ts = property "ts" body in
      object (
        ("node_id", str node_id)
        ∷ (
          "version",
          if is_non_empty_string 80 version
              then trimmed version
              else or_null (property "version" prev),
        )
        ∷ ("capabilities", if is_object capabilities then capabilities else obj no_field)
        ∷ (
          "relay_urls",
          list_or (property "relay_urls" prev)
              (map str (normalize_string_array 20 300 (property "relay_urls" body))),
        )
        ∷ ("observed_addrs", list_or (property "observed_addrs" prev) (announced_addrs r body))
        ∷ ("country_code", country_field r.country prev)
        ∷ ("ts", if is_non_empty_string 80 ts then trimmed ts else str r.now)
        ∷ ("last_seen", str r.now)
        ∷ [])

  unfoldable pub publish_self : Request → Fields → Handled
  publish_self r nodes = elim r.body [
    | none ↦ (throw bad_json, nodes)
    | some body ↦
        let node_id = node_id_of body in
        if is_non_empty_string 120 (str node_id)
        then write_registry r.can_write node_id (next_node r body node_id (lookup node_id nodes))
            nodes
        else (throw invalid_node_id, nodes)
  ]

  unfoldable pub refreshed_addrs : Request → Value → Value
  refreshed_addrs r prev = choose (property "observed_addrs" prev) r.ip
    where
      derive : Option String → Value
      derive none = arr none_left
      derive (some ip) = arr (items_of (derived_addrs upper "bootstrap_heartbeat" ip r.country))

      choose : Value → Option String → Value
      choose (arr (item v vs)) ip = arr (item v vs)
      choose _ ip = derive ip

  -- The entry that `POST /heartbeat` writes.
  unfoldable pub refreshed : Request → Value → Fields
  refreshed r prev = set_field "last_seen" (str r.now) (
      set_field "observed_addrs" (refreshed_addrs r prev)
        (set_field "country_code" (country_field r.country prev) (own_fields prev)))

  unfoldable pub heartbeat : Request → Fields → Handled
  heartbeat r nodes = elim r.body [
    | none ↦ (throw bad_json, nodes)
    | some body ↦
        let node_id = node_id_of body in
        let prev = lookup node_id nodes in
        if is_non_empty_string 120 (str node_id)
        then if is_truthy prev
          then write_registry r.can_write node_id (refreshed r prev) nodes
          else (throw unknown_node, nodes)
        else (throw invalid_node_id, nodes)
  ]

abbrev pub array_or_empty : Value → Value
array_or_empty (arr vs) = arr vs
array_or_empty _ = arr none_left

-- What `GET /peers` tells of a node.
unfoldable pub peer_view : Value → Fields
peer_view n = object (
    ("node_id", property "node_id" n)
    ∷ ("version", or_null (property "version" n))
    ∷ ("country_code", or_null (property "country_code" n))
    ∷ ("relay_urls", array_or_empty (property "relay_urls" n))
    ∷ ("observed_addrs", array_or_empty (property "observed_addrs" n))
    ∷ ("last_seen", property "last_seen" n)
    ∷ (
      "capabilities",
      if is_nullish (property "capabilities" n) then obj no_field else property "capabilities" n,
    )
    ∷ [])

module _ (parse_iso : String → Option ℕ) where
  -- `parseIso(n?.last_seen) ?? null`
  abbrev pub last_seen_of : Value → Option ℕ
  last_seen_of n = parse_iso (string_of (property "last_seen" n))

  -- `!(!lastSeenMs || lastSeenMs < cutoff)`
  abbrev pub is_since : ℕ → Option ℕ → Bool
  is_since cutoff none = false
  is_since cutoff (some ms) = ltb 0 ms && leb cutoff ms

  unfoldable pub active_nodes : ℕ → Fields → List Fields
  active_nodes cutoff no_field = []
  active_nodes cutoff (field k n nodes) =
      let rest = active_nodes cutoff nodes in
      if is_since cutoff (last_seen_of n) then peer_view n ∷ rest else rest

  unfoldable pub count_since : ℕ → Fields → ℕ
  count_since cutoff no_field = 0
  count_since cutoff (field k n nodes) =
      (if is_since cutoff (last_seen_of n) then 1 else 0) + count_since cutoff nodes

module _ (precedes : String → String → Bool) where
  unfoldable pub insert_peer : Fields → List Fields → List Fields
  insert_peer p [] = p ∷ []
  insert_peer p (q ∷ qs) =
      let rest = insert_peer p qs in
      if precedes (string_of (field_of "node_id" q)) (string_of (field_of "node_id" p))
      then q ∷ rest
      else p ∷ q ∷ qs

  unfoldable pub sort_peers : List Fields → List Fields
  sort_peers [] = []
  sort_peers (p ∷ ps) = insert_peer p (sort_peers ps)

-- `GET /peers`
unfoldable pub list_peers :
    (String → Option ℕ) → (String → String → Bool) → ℕ → ℕ → Fields → List Fields
list_peers parse_iso precedes timeout now_ms nodes =
    sort_peers precedes (active_nodes parse_iso (now_ms - timeout) nodes)

pub record Stats : Type 0 where
  pub connected_nodes : ℕ
  pub active_agents_last_24h : ℕ

-- The two counts of `computeStats`.
unfoldable pub compute_stats : (String → Option ℕ) → ℕ → ℕ → Fields → Stats
compute_stats parse_iso timeout now_ms nodes = record {
  connected_nodes = count_since parse_iso (now_ms - timeout) nodes;
  active_agents_last_24h = count_since parse_iso (now_ms - 86400000) nodes;
}
