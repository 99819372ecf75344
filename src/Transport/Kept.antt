-- ===== src/Transport/Kept.antt =====
-- What connecting to a relay keeps.
use a2a_fun.Prelude.{
  ℕ, zero, suc, ◌+◌, String, Bool, true, false, some, List, [], ◌∷◌, arith, if◌then◌else◌, ok,
  throw,
}
use a2a_fun.RelayClient.{
  Run, and_then, log, set_active, after_register, or_next, has_socket, connect_once, try_relay,
  try_relays, ensure_connected, Attempt, registered, closed, rejected, Network, opened, World,
}

-- A property that neither an opened socket nor a registered one changes is kept.
module _ (net : Network) (P : World → Type 0)
    (at_open : (url : String) (w : World) → P w → P (log (opened url) w))
    (at_register : (url : String) (w : World) → P w → P (set_active (some url) w)) where
  kept-if : {A : Type 0} (b : Bool) (x y : Run A) → P x.1 → P y.1 → P (if b then x else y).1
  kept-if true x y p q = p
  kept-if false x y p q = q

  kept-after_register :
      (url : String) (a : Attempt) (w : World) → P w → P (after_register url a w).1
  kept-after_register url registered w p = at_register url w p
  kept-after_register url closed w p = p
  kept-after_register url rejected w p = p

  kept-connect_once : (url : String) (n : ℕ) (w : World) → P w → P (connect_once net url n w).1
  unfolding connect_once
  kept-connect_once url n w p =
      let v = log (opened url) w in
      let tried = kept-after_register url (net.register url n) v (at_open url w p) in ground arith

  kept-or_next :
      (r : Run Bool) (f : World → Run Bool)
      → P r.1
      → ((v : World) → P v → P (f v).1)
      → P (or_next r f).1
  kept-or_next (ok true, w) f p step = p
  kept-or_next (ok false, w) f p step = step w p
  kept-or_next (throw e, w) f p step = p

  kept-try_relay : (url : String) (left n : ℕ) (w : World) → P w → P (try_relay net url left n w).1
  unfolding try_relay
  kept-try_relay url zero n w p = p
  kept-try_relay url (suc left) n w p = kept-if w.singleton.stopping _ _ p (
      kept-or_next (connect_once net url n w) (λ v. try_relay net url left (n + 1) v)
        (kept-connect_once url n w p) (λ v q. kept-try_relay url left (n + 1) v q))

  kept-try_relays : (urls : List String) (w : World) → P w → P (try_relays net urls w).1
  unfolding try_relays
  kept-try_relays [] w p = p
  kept-try_relays (url ∷ urls) w p =
      kept-or_next (try_relay net url net.attempts 1 w) (λ v. try_relays net urls v)
        (kept-try_relay url net.attempts 1 w p) (λ v q. kept-try_relays urls v q)

  kept-ignore : (r : Run Bool) → P r.1 → P (and_then r (λ done v. (ok tt, v))).1
  kept-ignore (ok b, w) p = p
  kept-ignore (throw e, w) p = p

  pub kept-ensure_connected : (w : World) → P w → P (ensure_connected net w).1
  unfolding ensure_connected
  kept-ensure_connected w p = kept-if (has_socket w.singleton.active_ws) _ _ p (
      kept-ignore (try_relays net w.singleton.relay_candidates w)
        (kept-try_relays w.singleton.relay_candidates w p))
