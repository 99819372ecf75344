-- ===== src/RelayClient.antt =====
-- src/runtime/network/relaySingleton.mjs and src/runtime/transport/relayClient.mjs: the one connection
-- to a relay that a process has, and the client around it. Sockets are asked through a `Network`;
-- no two connects overlap, so `CONNECTING` is not seen by another call.
use a2a_fun.Prelude.{
  ℕ, zero, suc, ◌+◌, String, Bool, true, false, not, ◌&&◌, Option, none, some, List, [], ◌∷◌, ◌++◌,
  str_eq, ◌==◌, if◌then◌else◌, any, require, Outcome, ok, throw, Value, str, is_blank, ◌>>◌,
}

pub data TransportError : Type 0 where
  invalid_input no_usable_transport direct_timeout direct_failed relay_misconfigured :
      TransportError
  missing_relay_url missing_node_id node_id_mismatch bad_relay_url invalid_to : TransportError
  not_connected : TransportError

-- What comes of a socket: the relay has acknowledged the registration, or not, or the address is
-- none, for which the constructor of the socket throws.
pub data Attempt : Type 0 where
  registered closed rejected : Attempt

-- What comes of an HTTP request.
pub data Reply : Type 0 where
  responded : ℕ → Reply
  timed_out unreached : Reply

pub record Network : Type 0 where
  -- `isLocalOnlyUrl`, which is `new URL` and three names
  pub is_local : String → Bool
  -- RELAY_RECONNECT_ATTEMPTS
  pub attempts : ℕ
  pub register : String → ℕ → Attempt
  -- the socket is open, and takes what is written
  pub is_open : Bool
  pub takes : Bool
  -- `new URL(url)`: its protocol and its normal form
  pub protocol : String → Option String
  pub href : String → String
  pub probe : String → ℕ → Reply
  pub post : String → Value → ℕ → Reply

-- What a process has done on the network, in its order.
pub data Effect : Type 0 where
  probed : String → Effect
  posted : String → Value → Reply → Effect
  opened : String → Effect
  -- relay, sender, receiver, payload
  sent : String → String → String → Value → Effect

pub record Singleton : Type 0 where
  pub node_id : Option String
  pub relay_candidates : List String
  pub allow_local_relay : Bool
  pub stopping : Bool
  pub active_ws : Option String
  -- the handlers for every topic, by an identity
  pub handlers : List ℕ

pub record World : Type 0 where
  pub singleton : Singleton
  pub effects : List Effect

abbrev pub Run : Type 0 → Type 0
Run A = Outcome TransportError A × World

abbrev pub and_then : {A B : Type 0} → Run A → (A → World → Run B) → Run B
and_then (ok a, w) f = f a w
and_then (throw e, w) f = (throw e, w)

abbrev pub log : Effect → World → World
log e w = record w { effects = w.effects ++ e ∷ [] }

abbrev pub set_active : Option String → World → World
set_active url w = record w { singleton = record (w.singleton) { active_ws = url } }

abbrev pub after_register : String → Attempt → World → Run Bool
after_register url registered w = (ok true, set_active (some url) w)
after_register url closed w = (ok false, w)
after_register url rejected w = (throw bad_relay_url, w)

abbrev pub or_next : Run Bool → (World → Run Bool) → Run Bool
or_next (ok true, w) f = (ok true, w)
or_next (ok false, w) f = f w
or_next (throw e, w) f = (throw e, w)

abbrev pub has_socket : Option String → Bool
has_socket none = false
has_socket (some url) = true

abbrev pub is_handler : ℕ → ℕ → Bool
is_handler h k = k == h

unfoldable pub connect_once : Network → String → ℕ → World → Run Bool
connect_once net url attempt w =
    if is_blank url
    then (ok false, w)
    else if not w.singleton.allow_local_relay && net.is_local url
    then (ok false, w)
    else if has_socket w.singleton.active_ws
    then (ok true, w)
    else after_register url (net.register url attempt) (log (opened url) w)

-- The attempts with one relay; the answer says whether `ensureConnected` returns.
unfoldable pub try_relay : Network → String → ℕ → ℕ → World → Run Bool
try_relay net url zero attempt w = (ok false, w)
try_relay net url (suc left) attempt w =
    if w.singleton.stopping
    then (ok true, w)
    else or_next (connect_once net url attempt w) (λ v. try_relay net url left (attempt + 1) v)

unfoldable pub try_relays : Network → List String → World → Run Bool
try_relays net [] w = (ok false, w)
try_relays net (url ∷ urls) w =
    or_next (try_relay net url net.attempts 1 w) (λ v. try_relays net urls v)

unfoldable pub ensure_connected : Network → World → Run (Unit {0})
ensure_connected net w =
    if has_socket w.singleton.active_ws
    then (ok tt, w)
    else and_then (try_relays net w.singleton.relay_candidates w) (λ done v. (ok tt, v))

abbrev pub init_or_check : String → List String → Bool → Option String → World → Run (Unit {0})
init_or_check node_id relay_candidates allow_local_relay none w = (
  ok tt,
  record w {
    singleton = record (w.singleton) {
      node_id = some node_id;
      relay_candidates = relay_candidates;
      allow_local_relay = allow_local_relay;
    };
  },
)
init_or_check node_id relay_candidates allow_local_relay (some have) w =
    (if str_eq have node_id then ok tt else throw node_id_mismatch, w)

unfoldable pub init_relay_singleton : String → List String → Bool → World → Run (Unit {0})
init_relay_singleton node_id relay_candidates allow_local_relay w =
    if is_blank node_id
    then (throw missing_node_id, w)
    else init_or_check node_id relay_candidates allow_local_relay w.singleton.node_id w

abbrev pub name_or_empty : Option String → String
name_or_empty none = ""
name_or_empty (some s) = s

-- The write of `send`, after the test of the socket.
abbrev pub write_to : Network → Option String → String → Value → World → Run (Unit {0})
write_to net none to payload w = (throw not_connected, w)
write_to net (some url) to payload w =
    if net.is_open && net.takes
    then (ok tt, log (sent url (name_or_empty w.singleton.node_id) to payload) w)
    else (throw not_connected, w)

-- `send` of the singleton, with the error that the client makes of `ok: false`.
unfoldable pub send : Network → String → Value → World → Run (Unit {0})
send net to payload w =
    and_then (ensure_connected net w) (λ u v. write_to net v.singleton.active_ws to payload v)

pub record Client : Type 0 where
  pub relay_url : String
  pub node_id : String
  -- the identity of the function that it subscribes
  pub handler : ℕ

abbrev pub client_of : String → String → ℕ → Client
client_of relay_url node_id handler = record {
  relay_url = relay_url;
  node_id = node_id;
  handler = handler;
}

unfoldable pub create_relay_client : String → String → ℕ → Outcome TransportError Client
create_relay_client relay_url node_id handler = do
  require (not (is_blank relay_url)) missing_relay_url
  require (not (is_blank node_id)) missing_node_id
  ok (client_of relay_url node_id handler)

abbrev pub set_handlers : List ℕ → World → World
set_handlers hs w = record w { singleton = record (w.singleton) { handlers = hs } }

-- `if (!unsubscribe) unsubscribe = relay.subscribe('*', …)`
unfoldable pub subscribe : ℕ → World → World
subscribe h w =
    let hs = w.singleton.handlers in
    if any (is_handler h) hs then w else set_handlers (hs ++ h ∷ []) w

unfoldable pub connect : Network → Client → World → Run (Unit {0})
connect net c w =
    and_then (init_relay_singleton c.node_id (c.relay_url ∷ []) true w)
      (λ u v. ensure_connected net (subscribe c.handler v))

unfoldable pub send_again : Network → Client → String → Value → World → Run (Unit {0})
send_again net c to payload w =
    and_then (init_relay_singleton c.node_id (c.relay_url ∷ []) true w)
      (λ u v. send net to payload v)

-- A receiver that is no text, or an empty one, is refused before the client connects.
abbrev pub relay_to_text : Network → Client → Option String → Value → World → Run (Unit {0})
relay_to_text net c none payload w = (throw invalid_to, w)
relay_to_text net c (some to) payload w =
    and_then (connect net c w) (λ u v. send_again net c to payload v)

-- `!v || typeof v !== 'string'`
abbrev pub text_filled : Value → Option String
text_filled (str s) = if is_blank s then none else some s
text_filled _ = none

unfoldable pub relay : Network → Client → Value → Value → World → Run (Unit {0})
relay net c to payload w = relay_to_text net c (text_filled to) payload w

unfoldable pub without : ℕ → List ℕ → List ℕ
without h [] = []
without h (k ∷ ks) = let rest = without h ks in if is_handler h k then rest else k ∷ rest

unfoldable pub close : Client → World → World
close c w = set_handlers (without c.handler w.singleton.handlers) w
