-- ===== src/Transport/Reached.antt =====
-- When a process gets its connection to a relay.
use a2a_fun.Prelude.{
  ℕ, zero, suc, ◌+◌, ◌≤◌, ◌<◌, String, ◌≡◌, refl, ap, ◌∙◌, inl, inr, Bool, true, false, not, ◌&&◌,
  none, some, [], ◌∷◌, ◌++◌, arith, eq_refl, ltb, if◌then◌else◌, ltb→lt, Bool-cases, any, ok, throw,
  Value, is_blank,
}
use a2a_fun.RelayClient.{
  Run, and_then, log, set_active, after_register, or_next, has_socket, is_handler, connect_once,
  try_relay, try_relays, ensure_connected, init_or_check, init_relay_singleton, write_to, send,
  client_of, set_handlers, subscribe, connect, send_again, relay_to_text, text_filled, relay,
  node_id_mismatch, registered, closed, Network, opened, Singleton, World,
}

pub if_no : {A : Type 0} (b : Bool) (x y : A) → b ≡ false → (if b then x else y) ≡ y
if_no true x y e = cc
if_no false x y e = refl

pub if_yes : {A : Type 0} (b : Bool) (x y : A) → b ≡ true → (if b then x else y) ≡ x
if_yes true x y e = refl
if_yes false x y e = cc

-- A world in which the process `name` may connect to any relay, and has not yet.
record IsReady (name url : String) (w : World) : Type 0 where
  named : w.singleton.node_id ≡ some name
  local : w.singleton.allow_local_relay ≡ true
  running : w.singleton.stopping ≡ false
  alone : w.singleton.active_ws ≡ none
  listed : w.singleton.relay_candidates ≡ url ∷ []

-- A world in which it has a connection to the relay.
pub record IsConnected (name url : String) (w : World) : Type 0 where
  named : w.singleton.node_id ≡ some name
  active : w.singleton.active_ws ≡ some url

connect_once-IsReady :
    (net : Network) (name url : String) (n : ℕ) (w : World)
    → is_blank url ≡ false
    → IsReady name url w
    → connect_once net url n w ≡ after_register url (net.register url n) (log (opened url) w)
unfolding connect_once
connect_once-IsReady net name url n w shown ready =
    let inner : (not w.singleton.allow_local_relay && net.is_local url) ≡ false =
      ap (λ b. not b && net.is_local url) ready.local in
    let gone : has_socket w.singleton.active_ws ≡ false = ap has_socket ready.alone in
    if_no (is_blank url) _ _ shown
    ∙ if_no (not w.singleton.allow_local_relay && net.is_local url) _ _ inner
    ∙ if_no (has_socket w.singleton.active_ws) _ _ gone

unfoldable Reaches : String → String → Run Bool → Type 0
Reaches name url r = (v : World) × (r ≡ (ok true, v)) × IsConnected name url v

-- The loop over the attempts gets to the first that succeeds.
try_relay-Reaches :
    (net : Network) (name url : String) (n left attempt : ℕ) (w : World)
    → is_blank url ≡ false
    → net.register url n ≡ registered
    → ((m : ℕ) → m < n → net.register url m ≡ closed)
    → attempt ≤ n
    → n < attempt + left
    → IsReady name url w
    → Reaches name url (try_relay net url left attempt w)
unfolding Reaches try_relay
try_relay-Reaches net name url n zero attempt w shown last early from to ready = ground arith
try_relay-Reaches net name url n (suc left) attempt w shown last early from to ready =
    let more : World → Run Bool = λ v. try_relay net url left (attempt + 1) v in
    let step =
      if_no w.singleton.stopping _ _ ready.running
      ∙ ap (λ r. or_next r more) (connect_once-IsReady net name url attempt w shown ready) in
    let w' = log (opened url) w in
    elim (Bool-cases (ltb attempt n)) [
      | inl before ↦
          let below = ltb→lt attempt n before in
          let (v, e, there) =
            try_relay-Reaches net name url n left (attempt + 1) w' shown last early (omega arith)
              (omega arith)
              (record {
                named = ready.named;
                local = ready.local;
                running = ready.running;
                alone = ready.alone;
                listed = ready.listed;
              }) in
          (
            v,
            step ∙ ap (λ a. or_next (after_register url a w') more) (early attempt below) ∙ e,
            there,
          )
      | inr here ↦
          let same : attempt ≡ n = ground arith in
          (
            set_active (some url) w',
            step
                ∙ ap (λ a. or_next (after_register url a w') more)
                    (ap (net.register url) same ∙ last),
            record { named = ready.named; active = refl },
          )
    ]

module _ (net : Network) (name url : String) (handler : ℕ) (named : is_blank name ≡ false)
    (shown : is_blank url ≡ false) (n : ℕ) (last : net.register url n ≡ registered)
    (early : (m : ℕ) → m < n → net.register url m ≡ closed) (from : 1 ≤ n)
    (to : n ≤ net.attempts) where
  unfoldable pub Connects : Run (Unit {0}) → Type 0
  Connects r = (v : World) × (r ≡ (ok tt, v)) × IsConnected name url v

  ensure_connected-Connects : (w : World) → IsReady name url w → Connects (ensure_connected net w)
  unfolding Connects Reaches ensure_connected try_relays
  ensure_connected-Connects w ready =
      let (v, e, there) =
        try_relay-Reaches net name url n net.attempts 1 w shown last early from (omega arith)
          ready in
      let finish : Run Bool → Run (Unit {0}) = λ r. and_then r (λ done v. (ok tt, v)) in
      (
        v,
        if_no (has_socket w.singleton.active_ws) _ _ (ap has_socket ready.alone)
            ∙ ap (λ urls. finish (try_relays net urls w)) ready.listed
            ∙ ap (λ r. finish (or_next r (λ v. (ok false, v)))) e,
        there,
      )

  subscribe-IsReady : (w : World) → IsReady name url w → IsReady name url (subscribe handler w)
  unfolding subscribe
  subscribe-IsReady w ready =
      elim (any (is_handler handler) w.singleton.handlers)
        as (λ b.
          IsReady name url
            (if b then w else set_handlers (w.singleton.handlers ++ handler ∷ []) w)) [
              | true ↦ ready
              | false ↦ record {
                named = ready.named;
                local = ready.local;
                running = ready.running;
                alone = ready.alone;
                listed = ready.listed;
              }
            ]

  pub connect-Connects :
      (w : World)
      → w.singleton.node_id ≡ none
      → w.singleton.stopping ≡ false
      → w.singleton.active_ws ≡ none
      → Connects (connect net (client_of url name handler) w)
  unfolding Connects connect init_relay_singleton
  connect-Connects w fresh running alone =
      let s : Singleton = record (w.singleton) {
        node_id = some name;
        relay_candidates = url ∷ [];
        allow_local_relay = true;
      } in
      let w' : World = record w { singleton = s } in
      let next : World → Run (Unit {0}) = λ v. ensure_connected net (subscribe handler v) in
      let start : init_relay_singleton name (url ∷ []) true w ≡ (ok tt, w') =
        if_no (is_blank name) _ _ named ∙ ap (λ o. init_or_check name (url ∷ []) true o w) fresh in
      let (v, e, there) = ensure_connected-Connects (subscribe handler w') (
        subscribe-IsReady w' (record {
          named = refl;
          local = refl;
          running = running;
          alone = alone;
          listed = refl;
        })) in
      (v, ap (λ r. and_then r (λ u x. next x)) start ∙ e, there)

  init-IsConnected :
      (v : World)
      → IsConnected name url v
      → init_relay_singleton name (url ∷ []) true v ≡ (ok tt, v)
  unfolding init_relay_singleton
  init-IsConnected v there =
      if_no (is_blank name) _ _ named
      ∙ ap (λ o. init_or_check name (url ∷ []) true o v) there.named
      ∙ ap (λ b. (if b then ok tt else throw node_id_mismatch, v)) (eq_refl name)

  ensure-IsConnected : (v : World) → IsConnected name url v → ensure_connected net v ≡ (ok tt, v)
  unfolding ensure_connected
  ensure-IsConnected v there =
      if_yes (has_socket v.singleton.active_ws) _ _ (ap has_socket there.active)

  subscribe-IsConnected :
      (v : World) → IsConnected name url v → IsConnected name url (subscribe handler v)
  unfolding subscribe
  subscribe-IsConnected v there =
      elim (any (is_handler handler) v.singleton.handlers)
        as (λ b.
          IsConnected name url
            (if b then v else set_handlers (v.singleton.handlers ++ handler ∷ []) v)) [
              | true ↦ there
              | false ↦ record { named = there.named; active = there.active }
            ]

  connect-again :
      (v : World) → IsConnected name url v → Connects (connect net (client_of url name handler) v)
  unfolding Connects connect
  connect-again v there =
      let v' = subscribe handler v in
      let still = subscribe-IsConnected v there in
      (
        v',
        ap (λ r. and_then r (λ u x. ensure_connected net (subscribe handler x)))
              (init-IsConnected v there)
            ∙ ensure-IsConnected v' still,
        still,
      )

  send_again-IsConnected :
      (to_node : String) (payload : Value) (v : World)
      → (net.is_open && net.takes) ≡ true
      → IsConnected name url v
      → (send_again net (client_of url name handler) to_node payload v).0 ≡ ok tt
  unfolding send_again send
  send_again-IsConnected to_node payload v writes there =
      let write : World → Run (Unit {0}) =
        λ x. write_to net x.singleton.active_ws to_node payload x in
      let first =
        ap (λ r. and_then r (λ u x. and_then (ensure_connected net x) (λ u y. write y)))
          (init-IsConnected v there)
        ∙ ap (λ r. and_then r (λ u y. write y)) (ensure-IsConnected v there)
        ∙ ap (λ o. write_to net o to_node payload v) there.active
        ∙ if_yes (net.is_open && net.takes) _ _ writes in
      ap (λ r. r.0) first

  pub relay-reaches :
      (to : Value) (to_node : String) (payload : Value) (v : World)
      → text_filled to ≡ some to_node
      → (net.is_open && net.takes) ≡ true
      → IsConnected name url v
      → (relay net (client_of url name handler) to payload v).0 ≡ ok tt
  unfolding Connects relay
  relay-reaches to to_node payload v text writes there =
      let c = client_of url name handler in
      let (v', e, still) = connect-again v there in
      ap (λ o. (relay_to_text net c o payload v).0) text
      ∙ ap (λ r. (and_then r (λ u x. send_again net c to_node payload x)).0) e
      ∙ send_again-IsConnected to_node payload v' writes still
