-- ===== src/Transport.antt =====
-- src/runtime/transport: checkDirectReachability, selectTransport, decideTransport, executeTransport.
mod Kept
pub mod Quiet
mod Relayed
pub mod Delivery
mod Reached
pub mod Fallback
use a2a_fun.Prelude.{
  ℕ, String, Bool, true, false, ◌&&◌, ◌||◌, Option, none, some, str_eq, ltb, leb, if◌then◌else◌,
  Outcome, ok, throw, is_nullish, Value, undefined, bool, num, is_truthy, or_else, is_blank,
}
use a2a_fun.RelayClient.{
  Run, and_then, log, create_relay_client, connect, text_filled, relay, close, TransportError,
  invalid_input, no_usable_transport, direct_timeout, direct_failed, relay_misconfigured, Reply,
  responded, timed_out, unreached, Network, probed, posted, World, Client,
}

pub data Transport : Type 0 where
  direct by_relay : Transport

pub data Unreachable : Type 0 where
  invalid_url timeout unreachable : Unreachable

pub record Reach : Type 0 where
  pub direct_reachable : Bool
  pub reason : Option Unreachable
  pub status : Option ℕ

pub record Decision : Type 0 where
  pub transport : Transport
  pub direct_reachable : Bool
  pub relay_available : Bool
  pub reason : Option Unreachable
  pub status : Option ℕ

-- `timeoutMs = 3000`, and the bounds of it
abbrev pub timeout_or_default : Value → Value
timeout_or_default undefined = num 3000
timeout_or_default v = v

abbrev pub timeout_of : Value → Option ℕ
timeout_of (num n) = if ltb 0 n && leb n 30000 then some n else none
timeout_of _ = none

abbrev pub is_web : Option String → Bool
is_web none = false
is_web (some p) = str_eq p "http:" || str_eq p "https:"

abbrev pub unreached_for : Unreachable → Reach
unreached_for why = record { direct_reachable = false; reason = some why; status = none }

abbrev pub reach_of : Reply → Reach
reach_of (responded s) = record { direct_reachable = true; reason = none; status = some s }
reach_of timed_out = unreached_for timeout
reach_of unreached = unreached_for unreachable

abbrev pub probe_url : Network → String → ℕ → World → Run Reach
probe_url net url timeout_ms w =
    if is_web (net.protocol url)
    then (ok (reach_of (net.probe (net.href url) timeout_ms)), log (probed (net.href url)) w)
    else (ok (unreached_for invalid_url), w)

abbrev pub probe_within : Network → String → Option ℕ → World → Run Reach
probe_within net url none w = (throw invalid_input, w)
probe_within net url (some ms) w = probe_url net url ms w

abbrev pub check_url : Network → Option String → Value → World → Run Reach
check_url net none timeout_ms w = (throw invalid_input, w)
check_url net (some url) timeout_ms w = probe_within net url (timeout_of timeout_ms) w

unfoldable pub check_direct_reachability : Network → Value → Value → World → Run Reach
check_direct_reachability net peer_url timeout_ms w =
    check_url net (text_filled peer_url) (timeout_or_default timeout_ms) w

unfoldable pub select_transport : Value → Value → Outcome TransportError Transport
select_transport (bool true) (bool r) = ok direct
select_transport (bool false) (bool true) = ok by_relay
select_transport (bool false) (bool false) = throw no_usable_transport
select_transport _ _ = throw invalid_input

-- `reach.reason ?? 'UNREACHABLE'`
abbrev pub reason_or_unreachable : Option Unreachable → Option Unreachable
reason_or_unreachable none = some unreachable
reason_or_unreachable (some why) = some why

abbrev pub decision_of : Reach → Bool → Transport → Decision
decision_of reach relay_available transport = record {
  transport = transport;
  direct_reachable = reach.direct_reachable;
  relay_available = relay_available;
  reason = if reach.direct_reachable then none else reason_or_unreachable reach.reason;
  status = if reach.direct_reachable then reach.status else none;
}

abbrev pub decided :
    Reach → Bool → Outcome TransportError Transport → Outcome TransportError Decision
decided reach r (ok t) = ok (decision_of reach r t)
decided reach r (throw e) = throw e

unfoldable pub decide_transport : Network → Value → Value → Value → World → Run Decision
decide_transport net peer_url timeout_ms (bool r) w =
    and_then (check_direct_reachability net peer_url (timeout_or_default timeout_ms) w)
      (λ reach v. (decided reach r (select_transport (bool reach.direct_reachable) (bool r)), v))
decide_transport net peer_url timeout_ms _ w = (throw invalid_input, w)

-- `r.ok`
abbrev pub is_success : ℕ → Bool
is_success s = leb 200 s && leb s 299

-- An answer that is no success throws inside the `try`, so it becomes a failure like the others.
abbrev pub sent_status : Reply → Outcome TransportError ℕ
sent_status (responded s) = if is_success s then ok s else throw direct_failed
sent_status timed_out = throw direct_timeout
sent_status unreached = throw direct_failed

abbrev pub milliseconds : Value → ℕ
milliseconds (num n) = n
milliseconds _ = 0

unfoldable pub send_direct : Network → String → Value → Value → World → Run ℕ
send_direct net peer_url payload timeout_ms w =
    let reply = net.post peer_url payload (milliseconds timeout_ms) in
    (sent_status reply, log (posted peer_url payload reply) w)

pub record Request : Type 0 where
  pub peer_url : Value
  pub payload : Value
  pub relay_available : Value
  pub timeout_ms : Value
  pub relay_url : String
  pub node_id : String
  pub relay_to : Value

pub record Report : Type 0 where
  pub transport : Transport
  pub direct_reachable : Bool
  pub relay_available : Bool
  pub reason : Option Unreachable
  pub status : Option ℕ

abbrev pub report : Decision → Option ℕ → Report
report d status = record {
  transport = d.transport;
  direct_reachable = d.direct_reachable;
  relay_available = d.relay_available;
  reason = d.reason;
  status = status;
}

-- `finally { await client.close() }`
abbrev pub closing : {A : Type 0} → Client → Run A → Run A
closing c (r, w) = (r, close c w)

-- The `try` block, and what follows it on every way.
unfoldable pub use_client : Network → Client → Request → Decision → World → Run Report
use_client net c q d w = closing c (
    and_then
      (and_then (connect net c w) (λ u v. relay net c (or_else q.relay_to q.peer_url) q.payload v))
      (λ u v. (ok (report d none), v)))

abbrev pub send_with :
    Network → Outcome TransportError Client → Request → Decision → World → Run Report
send_with net (throw e) q d w = (throw e, w)
send_with net (ok c) q d w = use_client net c q d w

unfoldable pub send_by_relay : Network → ℕ → Request → Decision → World → Run Report
send_by_relay net handler q d w =
    if is_blank q.relay_url || is_blank q.node_id
    then (throw relay_misconfigured, w)
    else send_with net (create_relay_client q.relay_url q.node_id handler) q d w

unfoldable pub send_decided :
    Network → ℕ → Request → String → Decision → Transport → World → Run Report
send_decided net handler q url d direct w =
    and_then (send_direct net url q.payload (timeout_or_default q.timeout_ms) w)
      (λ status v. (ok (report d (some status)), v))
send_decided net handler q url d by_relay w = send_by_relay net handler q d w

abbrev pub execute_for : Network → ℕ → Request → Option String → World → Run Report
execute_for net handler q none w = (throw invalid_input, w)
execute_for net handler q (some url) w =
    if is_nullish q.payload
    then (throw invalid_input, w)
    else and_then
        (decide_transport net q.peer_url (timeout_or_default q.timeout_ms)
          (bool (is_truthy q.relay_available)) w)
        (λ d v. send_decided net handler q url d d.transport v)

-- `handler` is the identity of the function that the call makes for its client.
unfoldable pub execute_transport : Network → ℕ → Request → World → Run Report
execute_transport net handler q w = execute_for net handler q (text_filled q.peer_url) w
