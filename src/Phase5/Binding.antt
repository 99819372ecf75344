-- ===== src/Phase5/Binding.antt =====
-- `bindPeerKeyFingerprint`. An absent or empty string is `none`: the code tests the arguments for
-- truth. `sha256_hex`, the digest of a text by Node's crypto, is a parameter.
use Prim.Native.String
use a2a_fun.Prelude.{
  String, ◌≡◌, ◌↔◌, ◌⊎◌, Bool, false, not, Option, none, some, arith, str_eq, eq_iff, if◌then◌else◌,
  Outcome, ok, throw,
}

pub data BindError : Type 0 where
  invalid_input missing_key mismatch : BindError

pub data BindStatus : Type 0 where
  bound already_bound : BindStatus

pub record Binding : Type 0 where
  pub status : BindStatus
  pub peer_key_fpr : String
  -- `{ peer_key_fpr }`, or `none` for null
  pub patch : Option String

abbrev pub Request : Type 0
Request = record {
  peer_actor_id : Option String;
  peer_public_key_pem : Option String;
  expected : Option String;
  already : Option String;
}

abbrev differs : Option String → String → Bool
differs none s = false
differs (some t) s = not (str_eq t s)

-- The decision on a fingerprint, by what is expected and what is bound.
unfoldable pub decide_binding : String → Option String → Option String → Outcome BindError Binding
decide_binding fpr expected none =
    if differs expected fpr
    then throw mismatch
    else ok (record { status = bound; peer_key_fpr = fpr; patch = some fpr })
decide_binding fpr expected (some old) =
    if differs expected old
    then throw mismatch
    else if not (str_eq fpr old)
    then throw mismatch
    else ok (record { status = already_bound; peer_key_fpr = fpr; patch = none })

module _ (sha256_hex : String → String) where
  -- `computePeerKeyFingerprint` of a key that is there
  unfoldable pub compute_peer_key_fingerprint : String → String
  compute_peer_key_fingerprint pem = String.◌++◌ "sha256:" (sha256_hex pem)

  unfoldable pub bind_peer_key_fingerprint : Request → Outcome BindError Binding
  bind_peer_key_fingerprint r = elim r.peer_actor_id [
    | none ↦ throw invalid_input
    | some _ ↦ elim r.peer_public_key_pem [
      | none ↦ throw missing_key
      | some pem ↦ decide_binding (compute_peer_key_fingerprint pem) r.expected r.already
    ]
  ]

-- What the store holds for the peer after an accepted call: the patch, or what it held before.
abbrev pub bound_after : Option String → Binding → Option String
bound_after already b = elim b.patch [ none ↦ already | some fpr ↦ some fpr ]

-- The fingerprint of an accepted call, and what it agrees with.
pub record IsBinding (fpr : String) (expected already : Option String) (b : Binding) : Type 0 where
  pub own : b.peer_key_fpr ≡ fpr
  pub expected_agrees : (expected ≡ none) ⊎ (expected ≡ some fpr)
  pub bound_agrees : (already ≡ none) ⊎ (already ≡ some fpr)
  pub kept : bound_after already b ≡ some fpr
  pub honest : b.status ≡ (elim already [ none ↦ bound | some _ ↦ already_bound ])
  pub minimal : b.patch ≡ (elim already [ none ↦ some fpr | some _ ↦ none ])

module _ (fpr : String) (b : Binding) where
  decide_binding-IsBinding :
      (expected already : Option String)
      → decide_binding fpr expected already ≡ ok b
      → IsBinding fpr expected already b
  unfolding decide_binding
  decide_binding-IsBinding none none e = ground arith
  decide_binding-IsBinding (some x) none e = ground (arith, eq_iff x fpr)
  decide_binding-IsBinding none (some y) e = ground (arith, eq_iff fpr y)
  decide_binding-IsBinding (some x) (some y) e = ground (arith, eq_iff x y, eq_iff fpr y)

  IsBinding-decide_binding :
      (expected already : Option String)
      → IsBinding fpr expected already b
      → decide_binding fpr expected already ≡ ok b
  unfolding decide_binding
  IsBinding-decide_binding none none h = ground arith
  IsBinding-decide_binding (some x) none h = ground (arith, eq_iff x fpr)
  IsBinding-decide_binding none (some y) h = ground (arith, eq_iff fpr y)
  IsBinding-decide_binding (some x) (some y) h = ground (arith, eq_iff x y, eq_iff fpr y)

module _ (sha256_hex : String → String) where
  -- With peer and key given, a call is accepted exactly when the key's fingerprint agrees with the
  -- bound one and with the expected one, as far as there are such. The store then holds that
  -- fingerprint, and a bound one is never replaced.
  pub bind_iff :
      (r : Request) (peer pem : String) (b : Binding)
      → r.peer_actor_id ≡ some peer
      → r.peer_public_key_pem ≡ some pem
      → (bind_peer_key_fingerprint sha256_hex r ≡ ok b)
        ↔ IsBinding (compute_peer_key_fingerprint sha256_hex pem) r.expected r.already b
  unfolding bind_peer_key_fingerprint
  bind_iff r peer pem b with_peer with_key =
      let fpr = compute_peer_key_fingerprint sha256_hex pem in
      rw (with_peer, with_key, bind_peer_key_fingerprint)
        (
          decide_binding-IsBinding fpr b r.expected r.already,
          IsBinding-decide_binding fpr b r.expected r.already,
        )
