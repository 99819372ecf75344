-- ===== src/Transport/Delivery.antt =====
-- What an executed transport has delivered, and what it leaves behind.
use a2a_fun.Prelude.{
  ℕ, String, ◌≡◌, refl, sym, ap, ◌∙◌, inl, inr, false, Option, none, some, List, [], ◌∷◌, ◌++◌,
  append-nil, arith, Bool-cases, any, ok, throw, is_nullish, bool, is_truthy, or_else, is_blank,
}
use a2a_fun.RelayClient.{
  Run, is_handler, name_or_empty, client_of, create_relay_client, connect, text_filled, relay,
  without, close, invalid_input, Network, World, Client,
}
use a2a_fun.Transport.{
  timeout_or_default, decide_transport, milliseconds, send_direct, report, closing, use_client,
  send_by_relay, send_decided, execute_for, execute_transport, Transport, direct, by_relay,
  Decision, Request, Report,
}
use a2a_fun.Transport.Quiet.{
  Delivery, deliveries, text_in, name-text_filled, name-or_else, address, reported, IsQuiet,
  HasDelivered, quiet-and_then, delivered-and_then, delivered-if, IsQuiet-decide_transport,
  delivered-post,
}
use a2a_fun.Transport.Relayed.{IsQuiet-connect, delivered-relay_to_text}

-- Nothing is left of a handler that was not there before.
without-absent : (h : ℕ) (ks : List ℕ) → any (is_handler h) ks ≡ false → without h ks ≡ ks
unfolding without
without-absent h [] e = refl
without-absent h (k ∷ ks) e = let rest = without-absent h ks in ground arith

abbrev delivery_of : Request → Report → List Delivery
delivery_of q r = (r.transport, address q r.transport, q.payload) ∷ []

module _ (ds : List Delivery) (hs : List ℕ) where
  abbrev HasReported : Request → Run Report → Type 0
  HasReported q = HasDelivered ds (λ ks. ks) hs (delivery_of q)

  delivered-closing :
      (f : Report → List Delivery) (c : Client) (r : Run Report)
      → HasDelivered ds (without c.handler) hs f r
      → HasDelivered ds (λ ks. ks) hs f (closing c r)
  unfolding close
  delivered-closing f c (ok a, w) done = done
  delivered-closing f c (throw e, w) done = done

  delivered-use_client :
      (net : Network) (q : Request) (handler : ℕ) (d : Decision) (w : World)
      → d.transport ≡ by_relay
      → any (is_handler handler) hs ≡ false
      → IsQuiet ds (λ ks. ks) hs w
      → HasReported q (use_client net (client_of q.relay_url q.node_id handler) q d w)
  unfolding use_client relay
  delivered-use_client net q handler d w e fresh (same, rest) =
      let h = handler in
      let c = client_of q.relay_url q.node_id h in
      let to = or_else q.relay_to q.peer_url in
      let found = name_or_empty (text_filled to) in
      let start : IsQuiet ds (without h) hs w =
        (same, ap (without h) rest ∙ without-absent h hs fresh) in
      let relayed =
        quiet-and_then ds (without h) hs (λ u. (by_relay, found, q.payload) ∷ []) (connect net c w)
          (λ u v. relay net c to q.payload v)
          (IsQuiet-connect ds h hs net q.relay_url q.node_id w start)
          (λ u v still.
            delivered-relay_to_text ds h hs net q.relay_url q.node_id (text_filled to) q.payload v
              still) in
      delivered-closing _ c _ (
        delivered-and_then ds (without h) hs (λ u. (by_relay, found, q.payload) ∷ [])
          (delivery_of q) _ (λ u. report d none) relayed
          (λ u.
            rw e (ap (λ s. (by_relay, s, q.payload) ∷ []) (name-or_else q.relay_to q.peer_url))))

  delivered-send_by_relay :
      (net : Network) (handler : ℕ) (q : Request) (d : Decision) (w : World)
      → d.transport ≡ by_relay
      → any (is_handler handler) hs ≡ false
      → IsQuiet ds (λ ks. ks) hs w
      → HasReported q (send_by_relay net handler q d w)
  unfolding send_by_relay create_relay_client
  delivered-send_by_relay net handler q d w e fresh quiet =
      elim (Bool-cases (is_blank q.relay_url)) [
        | inl blank ↦ rw blank quiet
        | inr url ↦ elim (Bool-cases (is_blank q.node_id)) [
          | inl blank ↦ rw (url, blank) quiet
          | inr name ↦ rw (url, name) (delivered-use_client net q handler d w e fresh quiet)
        ]
      ]

  delivered-send_decided :
      (net : Network) (handler : ℕ) (q : Request) (url : String) (d : Decision) (t : Transport)
      (w : World)
      → d.transport ≡ t
      → text_filled q.peer_url ≡ some url
      → any (is_handler handler) hs ≡ false
      → IsQuiet ds (λ ks. ks) hs w
      → HasReported q (send_decided net handler q url d t w)
  unfolding send_decided send_direct
  delivered-send_decided net handler q url d direct w e text fresh quiet =
      let there : url ≡ text_in q.peer_url =
        sym (ap name_or_empty text) ∙ name-text_filled q.peer_url in
      delivered-and_then ds (λ ks. ks) hs (λ s. (direct, url, q.payload) ∷ []) (delivery_of q) _
        (λ s. report d (some s))
        (delivered-post ds (λ ks. ks) hs url q.payload
          (net.post url q.payload (milliseconds (timeout_or_default q.timeout_ms))) w quiet)
        (λ s. rw e (ap (λ a. (direct, a, q.payload) ∷ []) there))
  delivered-send_decided net handler q url d by_relay w e text fresh quiet =
      delivered-send_by_relay net handler q d w e fresh quiet

  delivered-execute_for :
      (net : Network) (handler : ℕ) (q : Request) (o : Option String) (w : World)
      → text_filled q.peer_url ≡ o
      → any (is_handler handler) hs ≡ false
      → IsQuiet ds (λ ks. ks) hs w
      → HasReported q (execute_for net handler q o w)
  delivered-execute_for net handler q none w text fresh quiet = quiet
  delivered-execute_for net handler q (some url) w text fresh quiet =
      let timeout_ms = timeout_or_default q.timeout_ms in
      let r = is_truthy q.relay_available in
      delivered-if ds (λ ks. ks) hs (delivery_of q) (is_nullish q.payload) (throw invalid_input, w)
        _ quiet
        (quiet-and_then ds (λ ks. ks) hs (delivery_of q)
          (decide_transport net q.peer_url timeout_ms (bool r) w)
          (λ d v. send_decided net handler q url d d.transport v)
          (IsQuiet-decide_transport ds (λ ks. ks) hs net q.peer_url timeout_ms r w quiet)
          (λ d v still.
            delivered-send_decided net handler q url d d.transport v refl text fresh still))

  answered :
      (q : Request) (r : Run Report)
      → HasReported q r
      → (deliveries r.1.effects ≡ ds ++ reported q r.0) × (r.1.singleton.handlers ≡ hs)
  answered q (ok a, w) done = done
  answered q (throw e, w) (same, rest) = (same ∙ sym (append-nil ds), rest)

-- Whatever the network does, a call has delivered its payload exactly once, unchanged and where its
-- report says, if it returns a report, and not at all if it throws, where a direct request counts
-- as delivered if the status of its answer is from 200 to 299; and the handlers that are subscribed
-- at the relay are those of before, if the call's own was not among them.
pub execute_transport-delivers :
    (net : Network) (handler : ℕ) (q : Request) (w : World)
    → any (is_handler handler) w.singleton.handlers ≡ false
    → let (answer, after) = execute_transport net handler q w in
      (deliveries after.effects ≡ deliveries w.effects ++ reported q answer)
      × (after.singleton.handlers ≡ w.singleton.handlers)
unfolding execute_transport
execute_transport-delivers net handler q w fresh =
    let ds = deliveries w.effects in
    let hs = w.singleton.handlers in
    answered ds hs q (execute_transport net handler q w)
      (delivered-execute_for ds hs net handler q (text_filled q.peer_url) w refl fresh (refl, refl))
