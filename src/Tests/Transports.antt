-- ===== src/Tests/Transports.antt =====
-- A payload on its way through the transport.
use a2a_fun.Transport.Fallback.{execute_transport-falls_back}
use a2a_fun.Prelude.{
  ℕ, ◌<◌, String, ◌≡◌, refl, true, false, none, some, [], ◌∷◌, ◌++◌, arith, ◌==◌, if◌then◌else◌, ok,
  bool, num, str, is_truthy,
}
use a2a_fun.RelayClient.{
  connect_once, try_relay, try_relays, ensure_connected, init_relay_singleton, send,
  create_relay_client, subscribe, connect, send_again, relay, without, close, Attempt, registered,
  closed, timed_out, unreached, Network, probed, opened, sent, World,
}
use a2a_fun.Transport.{
  check_direct_reachability, select_transport, decide_transport, use_client, send_by_relay,
  send_decided, execute_transport, by_relay, timeout, Request,
}
use a2a_fun.Transport.Delivery.{execute_transport-delivers}
use a2a_fun.Transport.Quiet.{deliveries, reported}

-- Nobody answers directly, and the relay acknowledges at the second attempt.
second_attempt : String → ℕ → Attempt
second_attempt url attempt = if attempt == 2 then registered else closed

abbrev away : Network
away = record {
  is_local = λ url. false;
  attempts = 3;
  register = second_attempt;
  is_open = true;
  takes = true;
  protocol = λ url. some "http:";
  href = λ url. url;
  probe = λ url ms. timed_out;
  post = λ url payload ms. unreached;
}

abbrev unconnected : World
unconnected = record {
  singleton = record {
    node_id = none;
    relay_candidates = [];
    allow_local_relay = false;
    stopping = false;
    active_ws = none;
    handlers = 4 ∷ [];
  };
  effects = [];
}

abbrev letter : Request
letter = record {
  peer_url = str "http://b";
  payload = str "hi";
  relay_available = bool true;
  timeout_ms = num 500;
  relay_url = "wss://r";
  node_id = "a";
  relay_to = str "b";
}

run_of_letter :
    (execute_transport away 7 letter unconnected).1.effects
    ≡ probed "http://b"
      ∷ opened "wss://r"
      ∷ opened "wss://r"
      ∷ sent "wss://r" "a" "b" (str "hi")
      ∷ []
unfolding execute_transport decide_transport check_direct_reachability select_transport send_decided
    send_by_relay create_relay_client use_client connect init_relay_singleton subscribe
    ensure_connected try_relays try_relay connect_once relay send_again send close without is_truthy
    second_attempt
run_of_letter = refl

execute_transport-delivers_example :
    let (answer, after) = execute_transport away 7 letter unconnected in
    (deliveries after.effects ≡ deliveries unconnected.effects ++ reported letter answer)
    × (after.singleton.handlers ≡ unconnected.singleton.handlers)
execute_transport-delivers_example = execute_transport-delivers away 7 letter unconnected refl

closed_before : (m : ℕ) → m < 2 → away.register "wss://r" m ≡ closed
unfolding second_attempt
closed_before m below = ground arith

execute_transport-falls_back_example :
    (execute_transport away 7 letter unconnected).0
    ≡ ok (record {
      transport = by_relay;
      direct_reachable = false;
      relay_available = true;
      reason = some timeout;
      status = none;
    })
unfolding is_truthy second_attempt
execute_transport-falls_back_example =
    execute_transport-falls_back away 7 letter "http://b" "b" 500 refl refl refl refl refl refl refl
      refl refl refl 2 refl closed_before (omega arith) (omega arith) refl unconnected refl refl
      refl
