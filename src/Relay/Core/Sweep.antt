-- ===== src/Relay/Core/Sweep.antt =====
-- What the sweep of the relay core keeps.
use a2a_fun.Prelude.{
  ℕ, String, ◌≡◌, refl, ◌∙◌, inl, inr, Bool, false, ◌&&◌, ◌||◌, Option, none, some, [], ◌∷◌, arith,
  str_eq, eq_iff, if◌then◌else◌, Bool-cases, Dict, get, delete, get-delete,
}
use a2a_fun.Relay.Core.{
  say, close_socket, is_idle, sweep_over, sweep, Conn, idle_timeout, error_reply, Core,
}

abbrev pub HasUniqueNames : Dict Conn → Type 0
HasUniqueNames [] = Unit {0}
HasUniqueNames ((k, conn) ∷ rest) = (get k rest ≡ none) × HasUniqueNames rest

-- Whether an idle entry of the name is among the entries.
idle_in : ℕ → ℕ → String → Dict Conn → Bool
idle_in now timeout node [] = false
idle_in now timeout node ((k, conn) ∷ rest) =
    (str_eq k node && is_idle now timeout conn) || idle_in now timeout node rest

abbrev fresh_conn : ℕ → ℕ → Option Conn → Option Conn
fresh_conn now timeout none = none
fresh_conn now timeout (some conn) = if is_idle now timeout conn then none else some conn

module _ (now timeout : ℕ) (node : String) where
  get-sweep_over :
      (es : Dict Conn) (c : Core)
      → get node (sweep_over now timeout es c).conns
        ≡ (if idle_in now timeout node es then none else get node c.conns)
  unfolding sweep_over idle_in close_socket say
  get-sweep_over [] c = refl
  get-sweep_over ((k, conn) ∷ rest) c = elim (Bool-cases (is_idle now timeout conn)) [
    | inr awake ↦ let kept = get-sweep_over rest c in ground arith
    | inl idle ↦
        let told = close_socket conn.socket (say conn.socket (error_reply none idle_timeout) c) in
        let swept = get-sweep_over rest (record told { conns = delete k told.conns }) in
        let gone = get-delete k node c.conns in ground arith
  ]

  idle_in-absent : (es : Dict Conn) → get node es ≡ none → idle_in now timeout node es ≡ false
  unfolding idle_in get
  idle_in-absent [] h = refl
  idle_in-absent ((k, conn) ∷ rest) h = elim (Bool-cases (str_eq k node)) [
    | inr other ↦ let tail = idle_in-absent rest (ground arith) in ground arith
    | inl same ↦ absurd (ground arith)
  ]

  idle_in-get :
      (es : Dict Conn)
      → HasUniqueNames es
      → (if idle_in now timeout node es then none else get node es)
        ≡ fresh_conn now timeout (get node es)
  unfolding idle_in get
  idle_in-get [] h = refl
  idle_in-get ((k, conn) ∷ rest) (fresh, h) = elim (Bool-cases (str_eq k node)) [
    | inr other ↦ let tail = idle_in-get rest h in ground arith
    | inl same ↦
        let is : k ≡ node = (eq_iff k node).0 same in
        let absent : get node rest ≡ none = rw is at fresh in
        let tail = idle_in-absent rest absent in ground arith
  ]

  -- In a table where each name stands once, the sweep removes exactly the nodes that were last seen
  -- more than the timeout ago, and keeps the entry of every other node.
  get-sweep :
      (c : Core)
      → HasUniqueNames c.conns
      → get node (sweep now timeout c).conns ≡ fresh_conn now timeout (get node c.conns)
  unfolding sweep
  get-sweep c h = get-sweep_over c.conns c ∙ idle_in-get c.conns h
