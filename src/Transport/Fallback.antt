-- ===== src/Transport/Fallback.antt =====
-- What happens to a payload for a peer that does not answer.
use a2a_fun.Prelude.{
  ℕ, ◌≤◌, ◌<◌, String, ◌≡◌, refl, ap, ◌∙◌, true, false, ◌&&◌, none, some, ok-injective, ok, throw,
  is_nullish, bool, num, is_truthy, or_else, is_blank,
}
use a2a_fun.RelayClient.{
  Run, and_then, log, client_of, create_relay_client, connect, text_filled, relay, registered,
  closed, Network, probed, World, Client,
}
use a2a_fun.Transport.{
  timeout_or_default, timeout_of, is_web, reach_of, probe_within, check_url,
  check_direct_reachability, select_transport, decision_of, decided, decide_transport, report,
  closing, use_client, send_by_relay, send_decided, execute_for, execute_transport, by_relay, Reach,
  Decision, Request, Report,
}
use a2a_fun.Transport.Reached.{if_no, if_yes, Connects, connect-Connects, relay-reaches}

closing-answer : {A : Type 0} (c : Client) (r : Run A) → (closing c r).0 ≡ r.0
closing-answer c (r, w) = refl

and_then-answer :
    {A B : Type 0} (r : Run A) (f : A → B) (a : A)
    → r.0 ≡ ok a
    → (and_then r (λ x v. (ok (f x), v))).0 ≡ ok (f a)
and_then-answer (ok x, v) f a e = ap (λ o. ok (f o)) (ok-injective e)
and_then-answer (throw x, v) f a e = cc

module _ (net : Network) (handler : ℕ) (q : Request) (peer to_node : String) (ms : ℕ)
    (text : text_filled q.peer_url ≡ some peer) (present : is_nullish q.payload ≡ false)
    (wait : q.timeout_ms ≡ num ms) (bounded : timeout_of (num ms) ≡ some ms)
    (web : is_web (net.protocol peer) ≡ true)
    (silent : (reach_of (net.probe (net.href peer) ms)).direct_reachable ≡ false)
    (available : is_truthy q.relay_available ≡ true) (shown : is_blank q.relay_url ≡ false)
    (named : is_blank q.node_id ≡ false)
    (target : text_filled (or_else q.relay_to q.peer_url) ≡ some to_node) (n : ℕ)
    (last : net.register q.relay_url n ≡ registered)
    (early : (m : ℕ) → m < n → net.register q.relay_url m ≡ closed) (from : 1 ≤ n)
    (to : n ≤ net.attempts) (writes : (net.is_open && net.takes) ≡ true) where
  abbrev reach : Reach
  reach = reach_of (net.probe (net.href peer) ms)

  abbrev pub relayed_report : Report
  relayed_report = report (decision_of reach true by_relay) none

  decide-by_relay :
      (w : World)
      → decide_transport net q.peer_url
          (timeout_or_default q.timeout_ms)
          (bool (is_truthy q.relay_available))
          w
        ≡ (ok (decision_of reach true by_relay), log (probed (net.href peer)) w)
  unfolding decide_transport check_direct_reachability select_transport
  decide-by_relay w =
      let v = log (probed (net.href peer)) w in
      let end : Run Reach → Run Decision = λ r.
        and_then r
          (λ x u. (decided x true (select_transport (bool x.direct_reachable) (bool true)), u)) in
      ap (λ b. decide_transport net q.peer_url (timeout_or_default q.timeout_ms) (bool b) w)
        available
      ∙ ap
          (λ t. end (
            check_url net (text_filled q.peer_url)
              (timeout_or_default (timeout_or_default (timeout_or_default t))) w))
          wait
      ∙ ap (λ o. end (check_url net o (num ms) w)) text
      ∙ ap (λ o. end (probe_within net peer o w)) bounded
      ∙ ap end (if_yes (is_web (net.protocol peer)) _ _ web)
      ∙ ap (λ b. (decided reach true (select_transport (bool b) (bool true)), v)) silent

  use_client-answer :
      (d : Decision) (w : World)
      → w.singleton.node_id ≡ none
      → w.singleton.stopping ≡ false
      → w.singleton.active_ws ≡ none
      → (use_client net (client_of q.relay_url q.node_id handler) q d w).0 ≡ ok (report d none)
  unfolding use_client Connects
  use_client-answer d w fresh running alone =
      let c = client_of q.relay_url q.node_id handler in
      let goal = or_else q.relay_to q.peer_url in
      let (v, e, there) =
        connect-Connects net q.node_id q.relay_url handler named shown n last early from to w fresh
          running alone in
      let off : Run (Unit {0}) = and_then (connect net c w) (λ u x. relay net c goal q.payload x) in
      let sent_off : off.0 ≡ ok tt =
        ap (λ r. (and_then r (λ u x. relay net c goal q.payload x)).0) e
        ∙ relay-reaches net q.node_id q.relay_url handler named shown n last early from to goal
            to_node q.payload v target writes there in
      closing-answer c (and_then off (λ u x. (ok (report d none), x)))
      ∙ and_then-answer off (λ u. report d none) tt sent_off

  send_by_relay-answer :
      (d : Decision) (w : World)
      → w.singleton.node_id ≡ none
      → w.singleton.stopping ≡ false
      → w.singleton.active_ws ≡ none
      → (send_by_relay net handler q d w).0 ≡ ok (report d none)
  unfolding send_by_relay create_relay_client
  send_by_relay-answer d w fresh running alone =
      rw (shown, named) (use_client-answer d w fresh running alone)

  -- There is a payload, the timeout is a number within its bounds, and a peer with a web address does
  -- not answer the probe; the relay is available and configured and the receiver there has a name; the
  -- process has not used a relay before and is not stopping. If one of the attempts that are allowed
  -- is acknowledged, where those before it were closed, and the socket takes what is written, then
  -- the call reports a delivery by relay.
  pub execute_transport-falls_back :
      (w : World)
      → w.singleton.node_id ≡ none
      → w.singleton.stopping ≡ false
      → w.singleton.active_ws ≡ none
      → (execute_transport net handler q w).0 ≡ ok relayed_report
  unfolding execute_transport send_decided
  execute_transport-falls_back w fresh running alone =
      ap (λ o. (execute_for net handler q o w).0) text
      ∙ ap (λ (r : Run Report). r.0) (if_no (is_nullish q.payload) _ _ present)
      ∙ ap (λ r. (and_then r (λ d v. send_decided net handler q peer d d.transport v)).0)
          (decide-by_relay w)
      ∙ send_by_relay-answer (decision_of reach true by_relay) (log (probed (net.href peer)) w)
          fresh running alone
