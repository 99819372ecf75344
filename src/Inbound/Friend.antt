-- ===== src/Inbound/Friend.antt =====
-- When the entry gives out a friendship record.
use Prim.Native.String
use a2a_fun.Prelude.{
  String, ◌≡◌, refl, sym, ◌∙◌, ◌⊎◌, inl, inr, Bool, true, false, none, some, [], ◌∷◌, arith,
  Bool-cases, ◌>>=◌, Outcome-cases, bind-eq-ok, ok-injective, ok, field_of, Value, bool, str, obj,
  Fields, is_true, object,
}
use a2a_fun.Capability.{epoch, text_of}
use a2a_fun.Candidate.{
  barred, create_friendship_candidate, assert_candidate, confirm_locally, confirm_remotely,
  trigger_friendship_persistence,
}
use a2a_fun.Inbound.{
  confirm_local_step, record_step, confirm_remote_step, befriend, Response, Wanted,
}

-- Two objects are about the same session and peer.
pub record SamePeer (a b : Fields) : Type 0 where
  pub session : field_of "session_id" a ≡ field_of "session_id" b
  pub peer : field_of "peer_actor_id" a ≡ field_of "peer_actor_id" b

locally-SamePeer : (c d : Fields) → confirm_locally (obj c) ≡ ok d → SamePeer d c
unfolding confirm_locally assert_candidate field_of
locally-SamePeer c d h =
    let is : object (
          ("candidate_id", field_of "candidate_id" c)
          ∷ ("session_id", field_of "session_id" c)
          ∷ ("peer_actor_id", field_of "peer_actor_id" c)
          ∷ ("local_confirmed", bool true)
          ∷ ("remote_confirmed", bool false)
          ∷ ("confirmed_at", epoch)
          ∷ [])
        ≡ d =
      ground arith in
    rw (sym is) (record { session = refl; peer = refl })

remotely-SamePeer :
    (c d : Fields)
    → confirm_remotely (obj c) ≡ ok d
    → SamePeer d c × (is_true (field_of "local_confirmed" c) ≡ true)
unfolding confirm_remotely assert_candidate field_of
remotely-SamePeer c d h =
    let is : object (
          ("candidate_id", field_of "candidate_id" c)
          ∷ ("session_id", field_of "session_id" c)
          ∷ ("peer_actor_id", field_of "peer_actor_id" c)
          ∷ ("local_confirmed", bool true)
          ∷ ("remote_confirmed", bool true)
          ∷ ("mutually_confirmed", bool true)
          ∷ ("confirmed_at", epoch)
          ∷ [])
        ≡ d =
      ground arith in
    (rw (sym is) (record { session = refl; peer = refl }), ground arith)

persistence-SamePeer :
    (digest : String → String) (c f : Fields)
    → trigger_friendship_persistence digest (obj c) ≡ ok f
    → SamePeer f c × (field_of "established" f ≡ bool true)
unfolding trigger_friendship_persistence assert_candidate field_of
persistence-SamePeer digest c f h =
    let ids =
      text_of (field_of "candidate_id" c)
      ∷ text_of (field_of "session_id" c)
      ∷ text_of (field_of "peer_actor_id" c)
      ∷ [] in
    let is : object (
          (
            "friendship_id",
            str (String.◌++◌ "friendship:sha256:" (digest (String.◌++◌ "friendship" (barred ids)))),
          )
          ∷ ("candidate_id", field_of "candidate_id" c)
          ∷ ("session_id", field_of "session_id" c)
          ∷ ("peer_actor_id", field_of "peer_actor_id" c)
          ∷ ("established", bool true)
          ∷ ("established_at", epoch)
          ∷ [])
        ≡ f =
      ground arith in
    rw (sym is) (record { session = refl; peer = refl }, refl)

SamePeer-trans : (a b c : Fields) → SamePeer a b → SamePeer b c → SamePeer a c
SamePeer-trans a b c p q = record { session = p.session ∙ q.session; peer = p.peer ∙ q.peer }

-- What a record that comes out of the confirmations stands on.
abbrev pub Befriended : Wanted → Fields → Fields → Type 0
Befriended wanted c f =
    (wanted.local ≡ true)
    × (wanted.remote ≡ true)
    × SamePeer f c
    × (field_of "established" f ≡ bool true)

recorded :
    (digest : String → String) (c f : Fields) (r : Response) (out : Fields × Response)
    → r.friendship_record ≡ none
    → record_step digest c r ≡ ok out
    → out.1.friendship_record ≡ some f
    → SamePeer f c × (field_of "established" f ≡ bool true)
unfolding record_step
recorded digest c f r out fresh h e =
    elim (Bool-cases (is_true (field_of "mutually_confirmed" c))) [
      | inr single ↦ absurd (ground arith)
      | inl mutually ↦ elim (Outcome-cases (trigger_friendship_persistence digest (obj c))) [
        | inr (code, bad) ↦ absurd (ground arith)
        | inl (g, made) ↦
            let same : f ≡ g = ground arith in persistence-SamePeer digest c f (rw same made)
      ]
    ]

befriended_remotely :
    (digest : String → String) (wants : Bool) (c f : Fields) (r : Response)
    (out : Fields × Response)
    → r.friendship_record ≡ none
    → confirm_remote_step digest wants c r ≡ ok out
    → out.1.friendship_record ≡ some f
    → (wants ≡ true)
      × SamePeer f c
      × (field_of "established" f ≡ bool true)
      × (is_true (field_of "local_confirmed" c) ≡ true)
unfolding confirm_remote_step
befriended_remotely digest false c f r out fresh h e = absurd (ground arith)
befriended_remotely digest true c f r out fresh h e =
    elim (Outcome-cases (confirm_remotely (obj c))) [
      | inr (code, bad) ↦ absurd (ground arith)
      | inl (d, confirmed) ↦
          let next : Response = record r { friendship_confirmation_remote = some d } in
          let step : record_step digest d next ≡ ok out = ground arith in
          let (same, established) = recorded digest d f next out fresh step e in
          let (kept, both) = remotely-SamePeer c d confirmed in
          (refl, SamePeer-trans f d c same kept, established, both)
    ]

-- The local confirmation leaves no record, and the candidate as it was or confirmed.
confirmed_locally :
    (wants : Bool) (c : Fields) (r : Response) (out : Fields × Response)
    → r.friendship_record ≡ none
    → confirm_local_step wants c r ≡ ok out
    → (out.1.friendship_record ≡ none) × SamePeer out.0 c × ((wants ≡ true) ⊎ (out.0 ≡ c))
unfolding confirm_local_step
confirmed_locally false c r out fresh h =
    let is : c ≡ out.0 = ground arith in
    (ground arith, rw (sym is) (record { session = refl; peer = refl }), inr (sym is))
confirmed_locally true c r out fresh h = elim (Outcome-cases (confirm_locally (obj c))) [
  | inr (code, bad) ↦ absurd (ground arith)
  | inl (d, confirmed) ↦
      let is : d ≡ out.0 = ground arith in
      (ground arith, rw (sym is) (locally-SamePeer c d confirmed), inl refl)
]

pub befriend-Befriended :
    (digest : String → String) (wanted : Wanted) (c f : Fields) (r out : Response)
    → r.friendship_record ≡ none
    → field_of "local_confirmed" c ≡ bool false
    → befriend digest wanted c r ≡ ok out
    → out.friendship_record ≡ some f
    → Befriended wanted c f
unfolding befriend
befriend-Befriended digest wanted c f r out fresh alone h e =
    let start : Response = record r { friendship_candidate = some c } in
    let (side, first, h1) =
      bind-eq-ok (confirm_local_step wanted.local c start)
        (λ side. confirm_remote_step digest wanted.remote side.0 side.1 >>= λ both. ok both.1) h in
    let (both, second, h2) =
      bind-eq-ok (confirm_remote_step digest wanted.remote side.0 side.1) (λ both. ok both.1) h1 in
    let last : both.1 ≡ out = ok-injective h2 in
    let (clean, kept, local) = confirmed_locally wanted.local c start side fresh first in
    let (remote, same, established, mine) =
      befriended_remotely digest wanted.remote side.0 f side.1 both clean second (rw last e) in
    let wants : wanted.local ≡ true = elim local [
      | inl yes_local ↦ yes_local
      | inr unchanged ↦
          let bad : is_true (field_of "local_confirmed" c) ≡ true = rw unchanged at mine in
          absurd (ground (arith, alone, bad))
    ] in
    (wants, remote, SamePeer-trans f side.0 c same kept, established)

pub candidate-created :
    (digest : String → String) (session_id peer_actor_id state : Value) (c : Fields)
    → create_friendship_candidate digest session_id peer_actor_id state ≡ ok c
    → (field_of "local_confirmed" c ≡ bool false)
      × (field_of "session_id" c ≡ session_id)
      × (field_of "peer_actor_id" c ≡ peer_actor_id)
unfolding create_friendship_candidate field_of
candidate-created digest session_id peer_actor_id state c h =
    let ids = text_of session_id ∷ text_of peer_actor_id ∷ text_of state ∷ [] in
    let is : object (
          (
            "candidate_id",
            str (String.◌++◌ "fcand:sha256:" (digest (String.◌++◌ "phase3" (barred ids)))),
          )
          ∷ ("session_id", session_id)
          ∷ ("peer_actor_id", peer_actor_id)
          ∷ ("created_at", epoch)
          ∷ ("phase3_state", state)
          ∷ ("local_confirmed", bool false)
          ∷ ("remote_confirmed", bool false)
          ∷ [])
        ≡ c =
      ground arith in
    rw (sym is) (refl, refl, refl)
