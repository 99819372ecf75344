-- ===== src/Transport/Quiet.antt =====
-- Runs of the transport that deliver nothing, or what belongs to their result.
use a2a_fun.Prelude.{
  ℕ, String, ◌≡◌, refl, sym, ap, ap₂, ◌∙◌, inl, inr, Bool, true, false, ◌&&◌, Option, none, some,
  List, [], ◌∷◌, ◌++◌, append-nil, append_assoc, arith, eq_iff, ltb, if◌then◌else◌, Bool-cases,
  Outcome, ok, throw, Value, bool, str, is_truthy, or_else, is_blank,
}
use a2a_fun.RelayClient.{
  Run, and_then, log, ensure_connected, init_or_check, init_relay_singleton, name_or_empty,
  text_filled, TransportError, missing_node_id, Reply, responded, timed_out, unreached, Network,
  Effect, probed, posted, opened, sent, World,
}
use a2a_fun.Transport.{
  timeout_or_default, timeout_of, is_web, unreached_for, probe_within, check_url,
  check_direct_reachability, decide_transport, is_success, sent_status, Transport, direct, by_relay,
  invalid_url, Request, Report,
}
use a2a_fun.Transport.Kept.{kept-ensure_connected}

-- What a receiver has been given: a request is delivered if its answer has a status from 200 to 299.
abbrev pub Delivery : Type 0
Delivery = Transport × String × Value

abbrev pub delivered_by : Effect → List Delivery
delivered_by (probed url) = []
delivered_by (posted url payload (responded s)) =
    if ltb 199 s && ltb s 300 then (direct, url, payload) ∷ [] else []
delivered_by (posted url payload _) = []
delivered_by (opened url) = []
delivered_by (sent url from to payload) = (by_relay, to, payload) ∷ []

abbrev pub deliveries : List Effect → List Delivery
deliveries [] = []
deliveries (e ∷ es) = delivered_by e ++ deliveries es

pub deliveries-log :
    (es : List Effect) (e : Effect) → deliveries (es ++ e ∷ []) ≡ deliveries es ++ delivered_by e
deliveries-log [] e = append-nil (delivered_by e)
deliveries-log (d ∷ es) e =
    ap (λ r. delivered_by d ++ r) (deliveries-log es e)
    ∙ sym (append_assoc (delivered_by d) (deliveries es) (delivered_by e))

abbrev pub text_in : Value → String
text_in (str s) = s
text_in _ = ""

pub name-text_filled : (v : Value) → name_or_empty (text_filled v) ≡ text_in v
name-text_filled (str s) = ground (arith, eq_iff s "")
name-text_filled _ = refl

pub name-or_else :
    (v w : Value)
    → name_or_empty (text_filled (or_else v w)) ≡ (if is_truthy v then text_in v else text_in w)
name-or_else v w = elim (Bool-cases (is_truthy v)) [
  | inl given ↦ rw given (name-text_filled v)
  | inr blank ↦ rw blank (name-text_filled w)
]

-- `address` is where a transport delivers what is asked for.
abbrev pub address : Request → Transport → String
address q direct = text_in q.peer_url
address q by_relay = if is_truthy q.relay_to then text_in q.relay_to else text_in q.peer_url

abbrev pub reported : Request → Outcome TransportError Report → List Delivery
reported q (ok r) = (r.transport, address q r.transport, q.payload) ∷ []
reported q (throw e) = []

-- The deliveries are `ds` so far, and the handlers are `hs` as far as `view` shows them.
module _ (ds : List Delivery) (view : List ℕ → List ℕ) (hs : List ℕ) where
  abbrev pub IsQuiet : World → Type 0
  IsQuiet w = (deliveries w.effects ≡ ds) × (view w.singleton.handlers ≡ hs)

  -- A run that has delivered what belongs to its result, and nothing if it throws.
  abbrev pub HasDelivered : {A : Type 0} → (A → List Delivery) → Run A → Type 0
  HasDelivered f (ok a, w) = (deliveries w.effects ≡ ds ++ f a) × (view w.singleton.handlers ≡ hs)
  HasDelivered f (throw e, w) = IsQuiet w

  pub quiet-and_then :
      {A B : Type 0} (f : B → List Delivery) (r : Run A) (k : A → World → Run B)
      → IsQuiet r.1
      → ((a : A) (w : World) → IsQuiet w → HasDelivered f (k a w))
      → HasDelivered f (and_then r k)
  quiet-and_then f (ok a, w) k quiet next = next a w quiet
  quiet-and_then f (throw e, w) k quiet next = quiet

  pub delivered-and_then :
      {A B : Type 0} (f : A → List Delivery) (g : B → List Delivery) (r : Run A) (k : A → B)
      → HasDelivered f r
      → ((a : A) → f a ≡ g (k a))
      → HasDelivered g (and_then r (λ a w. (ok (k a), w)))
  delivered-and_then f g (ok a, w) k (done, rest) same = (done ∙ ap (λ xs. ds ++ xs) (same a), rest)
  delivered-and_then f g (throw e, w) k quiet same = quiet

  pub IsQuiet-if :
      {A : Type 0} (b : Bool) (x y : Run A)
      → IsQuiet x.1
      → IsQuiet y.1
      → IsQuiet (if b then x else y).1
  IsQuiet-if true x y p q = p
  IsQuiet-if false x y p q = q

  pub delivered-if :
      {A : Type 0} (f : A → List Delivery) (b : Bool) (x y : Run A)
      → HasDelivered f x
      → HasDelivered f y
      → HasDelivered f (if b then x else y)
  delivered-if f true x y p q = p
  delivered-if f false x y p q = q

  pub IsQuiet-bind :
      {A B : Type 0} (r : Run A) (k : A → World → Run B)
      → IsQuiet r.1
      → ((a : A) (w : World) → IsQuiet w → IsQuiet (k a w).1)
      → IsQuiet (and_then r k).1
  IsQuiet-bind (ok a, w) k quiet next = next a w quiet
  IsQuiet-bind (throw e, w) k quiet next = quiet

  pub IsQuiet-log : (e : Effect) (w : World) → delivered_by e ≡ [] → IsQuiet w → IsQuiet (log e w)
  IsQuiet-log e w nothing (same, rest) = (
    deliveries-log w.effects e
        ∙ ap (λ xs. deliveries w.effects ++ xs) nothing
        ∙ append-nil (deliveries w.effects)
        ∙ same,
    rest,
  )

  pub IsQuiet-ensure_connected :
      (net : Network) (w : World) → IsQuiet w → IsQuiet (ensure_connected net w).1
  IsQuiet-ensure_connected net w quiet =
      kept-ensure_connected net IsQuiet
        (λ url v (same, rest).
          (deliveries-log v.effects (opened url) ∙ append-nil (deliveries v.effects) ∙ same, rest))
        (λ url v kept. kept) w quiet

  pub IsQuiet-init_or_check :
      (node_id : String) (urls : List String) (b : Bool) (o : Option String) (w : World)
      → IsQuiet w
      → IsQuiet (init_or_check node_id urls b o w).1
  IsQuiet-init_or_check node_id urls b none w quiet = quiet
  IsQuiet-init_or_check node_id urls b (some have) w quiet = quiet

  pub IsQuiet-init_relay_singleton :
      (node_id : String) (urls : List String) (b : Bool) (w : World)
      → IsQuiet w
      → IsQuiet (init_relay_singleton node_id urls b w).1
  unfolding init_relay_singleton
  IsQuiet-init_relay_singleton node_id urls b w quiet =
      IsQuiet-if (is_blank node_id) (throw missing_node_id, w) _ quiet
        (IsQuiet-init_or_check node_id urls b w.singleton.node_id w quiet)

  pub IsQuiet-probe_within :
      (net : Network) (url : String) (ms : Option ℕ) (w : World)
      → IsQuiet w
      → IsQuiet (probe_within net url ms w).1
  IsQuiet-probe_within net url none w quiet = quiet
  IsQuiet-probe_within net url (some ms) w quiet =
      let probed_too = IsQuiet-log (probed (net.href url)) w refl quiet in
      IsQuiet-if (is_web (net.protocol url)) _ (ok (unreached_for invalid_url), w) probed_too quiet

  pub IsQuiet-check_url :
      (net : Network) (url : Option String) (timeout_ms : Value) (w : World)
      → IsQuiet w
      → IsQuiet (check_url net url timeout_ms w).1
  IsQuiet-check_url net none timeout_ms w quiet = quiet
  IsQuiet-check_url net (some url) timeout_ms w quiet =
      IsQuiet-probe_within net url (timeout_of timeout_ms) w quiet

  pub IsQuiet-decide_transport :
      (net : Network) (peer_url timeout_ms : Value) (r : Bool) (w : World)
      → IsQuiet w
      → IsQuiet (decide_transport net peer_url timeout_ms (bool r) w).1
  unfolding decide_transport check_direct_reachability
  IsQuiet-decide_transport net peer_url timeout_ms r w quiet =
      IsQuiet-bind _ _
        (IsQuiet-check_url net (text_filled peer_url)
          (timeout_or_default (timeout_or_default timeout_ms)) w quiet)
        (λ reach v still. still)

  success-status : (s : ℕ) → (ltb 199 s && ltb s 300) ≡ is_success s
  success-status s = ground arith

  pub delivered-post :
      (url : String) (payload : Value) (reply : Reply) (w : World)
      → IsQuiet w
      → HasDelivered
          (λ s. (direct, url, payload) ∷ [])
          (sent_status reply, log (posted url payload reply) w)
  delivered-post url payload (responded s) w quiet = elim (Bool-cases (is_success s)) [
    | inl taken ↦
        let e = posted url payload (responded s) in
        let given : delivered_by e ≡ (direct, url, payload) ∷ [] =
          rw (delivered_by, success-status s, taken) refl in
        rw taken (deliveries-log w.effects e ∙ ap₂ (λ xs ys. xs ++ ys) quiet.0 given, quiet.1)
    | inr refused ↦ rw refused (
        IsQuiet-log (posted url payload (responded s)) w
          (rw (delivered_by, success-status s, refused) refl) quiet)
  ]
  delivered-post url payload timed_out w quiet =
      IsQuiet-log (posted url payload timed_out) w refl quiet
  delivered-post url payload unreached w quiet =
      IsQuiet-log (posted url payload unreached) w refl quiet
