-- ===== src/Transport/Relayed.antt =====
-- A delivery over the relay, and the handler that is subscribed for it.
use a2a_fun.Prelude.{
  ℕ, String, ◌≡◌, ap, ◌∙◌, true, false, ◌&&◌, Option, none, some, List, [], ◌∷◌, ◌++◌, arith,
  if◌then◌else◌, any, ok, throw, Value,
}
use a2a_fun.RelayClient.{
  Run, log, is_handler, ensure_connected, init_relay_singleton, name_or_empty, write_to, send,
  client_of, set_handlers, subscribe, connect, send_again, relay_to_text, without, not_connected,
  Network, sent, World,
}
use a2a_fun.Transport.{by_relay}
use a2a_fun.Transport.Quiet.{
  Delivery, deliveries-log, IsQuiet, HasDelivered, quiet-and_then, IsQuiet-bind,
  IsQuiet-ensure_connected, IsQuiet-init_relay_singleton,
}

-- What is done with a handler `h`, which is left out where the handlers are compared.
module _ (ds : List Delivery) (h : ℕ) (hs : List ℕ) where
  abbrev IsStill : World → Type 0
  IsStill = IsQuiet ds (without h) hs

  abbrev pub HasRelayed : String → Value → Run (Unit {0}) → Type 0
  HasRelayed to payload = HasDelivered ds (without h) hs (λ u. (by_relay, to, payload) ∷ [])

  without-append : (ks : List ℕ) → without h (ks ++ h ∷ []) ≡ without h ks
  unfolding without
  without-append [] = ground arith
  without-append (k ∷ ks) = ground (arith, without-append ks)

  IsQuiet-subscribe : (w : World) → IsStill w → IsStill (subscribe h w)
  unfolding subscribe
  IsQuiet-subscribe w (same, rest) =
      elim (any (is_handler h) w.singleton.handlers)
        as (λ t. IsStill (if t then w else set_handlers (w.singleton.handlers ++ h ∷ []) w)) [
          | true ↦ (same, rest)
          | false ↦ (same, without-append w.singleton.handlers ∙ rest)
        ]

  module _ (net : Network) (relay_url node_id : String) where
    pub IsQuiet-connect :
        (w : World) → IsStill w → IsStill (connect net (client_of relay_url node_id h) w).1
    unfolding connect
    IsQuiet-connect w quiet =
        IsQuiet-bind ds (without h) hs (init_relay_singleton node_id (relay_url ∷ []) true w)
          (λ u v. ensure_connected net (subscribe h v))
          (IsQuiet-init_relay_singleton ds (without h) hs node_id (relay_url ∷ []) true w quiet)
          (λ u v still.
            IsQuiet-ensure_connected ds (without h) hs net (subscribe h v)
              (IsQuiet-subscribe v still))

    delivered-write_to :
        (o : Option String) (to : String) (payload : Value) (w : World)
        → IsStill w
        → HasRelayed to payload (write_to net o to payload w)
    delivered-write_to none to payload w quiet = quiet
    delivered-write_to (some url) to payload w (same, rest) =
        let from = name_or_empty w.singleton.node_id in
        let more =
          deliveries-log w.effects (sent url from to payload)
          ∙ ap (λ xs. xs ++ (by_relay, to, payload) ∷ []) same in
        elim (net.is_open && net.takes)
          as (λ t.
            HasRelayed to payload
              (if t then (ok tt, log (sent url from to payload) w) else (throw not_connected, w))) [
                | true ↦ (more, rest)
                | false ↦ (same, rest)
              ]

    delivered-send :
        (to : String) (payload : Value) (w : World)
        → IsStill w
        → HasRelayed to payload (send net to payload w)
    unfolding send
    delivered-send to payload w quiet =
        quiet-and_then ds (without h) hs (λ u. (by_relay, to, payload) ∷ [])
          (ensure_connected net w) _ (IsQuiet-ensure_connected ds (without h) hs net w quiet)
          (λ u v still. delivered-write_to v.singleton.active_ws to payload v still)

    pub delivered-relay_to_text :
        (o : Option String) (payload : Value) (w : World)
        → IsStill w
        → HasRelayed
            (name_or_empty o)
            payload
            (relay_to_text net (client_of relay_url node_id h) o payload w)
    unfolding send_again
    delivered-relay_to_text none payload w quiet = quiet
    delivered-relay_to_text (some to) payload w quiet =
        quiet-and_then ds (without h) hs (λ u. (by_relay, to, payload) ∷ [])
          (connect net (client_of relay_url node_id h) w) _ (IsQuiet-connect w quiet)
          (λ u v still.
            quiet-and_then ds (without h) hs (λ u. (by_relay, to, payload) ∷ [])
              (init_relay_singleton node_id (relay_url ∷ []) true v) _
              (IsQuiet-init_relay_singleton ds (without h) hs node_id (relay_url ∷ []) true v still)
              (λ u' v' quiet'. delivered-send to payload v' quiet'))
