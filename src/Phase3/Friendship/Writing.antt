-- ===== src/Phase3/Friendship/Writing.antt =====
-- What a call of the trigger may do to the friends file.
use a2a_fun.Prelude.{
  String, ◌≡◌, refl, subst, ◌≢◌, ◌⊎◌, inl, inr, Bool, true, false, ◌||◌, Option, none, some, List,
  [], ◌∷◌, ◌++◌, arith, str_eq, eq_iff, eq_refl, Bool-cases, Option-cases, any, Outcome-cases,
  Outcome, ok, throw,
}
use a2a_fun.Phase2.Constants.{mutual_entry_confirmed}
use a2a_fun.Phase3.Friendship.{
  is_mutual, load_friends, has_peer, save_friend, add_friend, friend_of, is_given, write_guards,
  write_friendship_if_needed, status_of, trigger_friendship_write_if_needed, Friend, Content,
  nothing, not_an_array, friends, Storage, Binder, no_binder, no_method, with_method, FriendError,
  method_missing, Request, TriggerStatus, triggered_write, triggered_idempotent,
}

abbrev pub listed : Content → List (Option Friend)
listed nothing = []
listed not_an_array = []
listed (friends fs) = fs

-- Every peer is in the file once at most.
abbrev pub HasUniquePeers : List (Option Friend) → Type 0
HasUniquePeers [] = Unit {0}
HasUniquePeers (none ∷ fs) = HasUniquePeers fs
HasUniquePeers (some f ∷ fs) = (any (has_peer f.peer_actor_id) fs ≡ false) × HasUniquePeers fs

any-append :
    {A : Type 0} (p : A → Bool) (xs ys : List A) → any p (xs ++ ys) ≡ (any p xs || any p ys)
any-append p [] ys = refl
any-append p (x ∷ xs) ys = ground (arith, any-append p xs ys)

HasUniquePeers-snoc :
    (fs : List (Option Friend)) (f : Friend)
    → HasUniquePeers fs
    → any (has_peer f.peer_actor_id) fs ≡ false
    → HasUniquePeers (fs ++ some f ∷ [])
HasUniquePeers-snoc [] f h e = (refl, tt)
HasUniquePeers-snoc (none ∷ fs) f h e = HasUniquePeers-snoc fs f h e
HasUniquePeers-snoc (some g ∷ fs) f h e = (
  ground (
    arith,
    any-append (has_peer g.peer_actor_id) fs (some f ∷ []),
    eq_iff f.peer_actor_id g.peer_actor_id,
    eq_iff g.peer_actor_id f.peer_actor_id,
  ),
  HasUniquePeers-snoc fs f h.1 (ground arith),
)

-- The two things that a call may do to a storage.
pub data Effect (now : String) (r : Request) (s : Storage)
    (result : Outcome FriendError TriggerStatus) (s' : Storage) : Type 0 where
  unchanged : s' ≡ s → result ≢ ok triggered_write → Effect now r s result s'
  -- the record is appended for a peer that is not there, in the confirmed state, and the call reports
  -- it, or throws for want of the audit method
  appended :
      r.state ≡ some mutual_entry_confirmed
      → any (has_peer r.peer_actor_id) (listed s.content) ≡ false
      → s' ≡ record s { content = friends (listed s.content ++ some (friend_of now r) ∷ []) }
      → (result ≡ ok triggered_write) ⊎ (result ≡ throw method_missing)
      → Effect now r s result s'

module _ (audit : Binder) (r : Request) (s : Storage) where
  load_friends-listed : (fs : List (Option Friend)) → load_friends s ≡ ok fs → listed s.content ≡ fs
  unfolding load_friends
  load_friends-listed fs e = ground arith

  write_guards-eq-some :
      (fs : List (Option Friend))
      → write_guards audit r (some s) ≡ ok (some fs)
      → (r.state ≡ some mutual_entry_confirmed) × (load_friends s ≡ ok fs)
  unfolding write_guards
  write_guards-eq-some fs e = (ground arith, ground arith)

save_friend-Effect :
    (now : String) (throws : Bool) (audit : Binder) (r : Request) (s : Storage)
    → r.state ≡ some mutual_entry_confirmed
    → any (has_peer r.peer_actor_id) (listed s.content) ≡ false
    → Effect now r s
        (status_of (save_friend throws audit (friend_of now r) (listed s.content) s).0)
        (save_friend throws audit (friend_of now r) (listed s.content) s).1
unfolding save_friend
save_friend-Effect now true audit r s confirmed new = unchanged refl (λ e. cc e)
save_friend-Effect now false with_method r s confirmed new = appended confirmed new refl (inl refl)
save_friend-Effect now false no_binder r s confirmed new = appended confirmed new refl (inr refl)
save_friend-Effect now false no_method r s confirmed new = appended confirmed new refl (inr refl)

add_friend-Effect :
    (now : String) (throws : Bool) (audit : Binder) (r : Request) (s : Storage)
    → r.state ≡ some mutual_entry_confirmed
    → Effect now r s
        (status_of (add_friend throws audit (friend_of now r) (listed s.content) s).0)
        (add_friend throws audit (friend_of now r) (listed s.content) s).1
unfolding add_friend
add_friend-Effect now throws audit r s confirmed =
    elim (Bool-cases (any (has_peer r.peer_actor_id) (listed s.content))) [
      | inl known ↦ rw known (unchanged refl (λ e. cc e))
      | inr new ↦ rw new (save_friend-Effect now throws audit r s confirmed new)
    ]

-- Whatever the inputs, the trigger leaves the file as it is, and then does not report a write; or it
-- appends one record for a peer that is not there, in the mutually confirmed state only, and reports
-- that, unless the audit method is missing: then it throws with the record written.
pub trigger-Effect :
    (now : String) (throws : Bool) (audit : Binder) (r : Request) (s s' : Storage)
    (result : Outcome FriendError TriggerStatus)
    → trigger_friendship_write_if_needed now throws audit (some r) (some s) ≡ (result, some s')
    → Effect now r s result s'
unfolding trigger_friendship_write_if_needed write_friendship_if_needed
trigger-Effect now throws audit r s s' result e = elim (Option-cases r.state) [
  | inl z ↦ unchanged (ground arith) (ground arith)
  | inr (st, z) ↦ elim (Bool-cases (is_mutual st)) [
    | inr other ↦ unchanged (ground arith) (ground arith)
    | inl confirmed ↦ elim (Outcome-cases (write_guards audit r (some s))) [
      | inr (x, w) ↦ unchanged (ground arith) (ground arith)
      | inl (none, w) ↦ unchanged (ground arith) (ground arith)
      | inl (some fs, w) ↦
          let (mutually, loaded) = write_guards-eq-some audit r s fs w in
          let added = add_friend-Effect now throws audit r s mutually in
          let old = load_friends-listed audit r s fs loaded in
          let here = rw old at added in
          let same_result : status_of (add_friend throws audit (friend_of now r) fs s).0 ≡ result =
            ground arith in
          let same_storage : (add_friend throws audit (friend_of now r) fs s).1 ≡ s' =
            ground arith in
          subst (λ x. Effect now r s x s') same_result
            (subst
              (λ x. Effect now r s (status_of (add_friend throws audit (friend_of now r) fs s).0) x)
              same_storage here)
    ]
  ]
]

-- The trigger keeps the peers of the file unique, also where it throws.
pub trigger-HasUniquePeers :
    (now : String) (throws : Bool) (audit : Binder) (r : Request) (s s' : Storage)
    (result : Outcome FriendError TriggerStatus)
    → HasUniquePeers (listed s.content)
    → trigger_friendship_write_if_needed now throws audit (some r) (some s) ≡ (result, some s')
    → HasUniquePeers (listed s'.content)
trigger-HasUniquePeers now throws audit r s s' result h e =
    keeps (trigger-Effect now throws audit r s s' result e)
  where
    keeps : Effect now r s result s' → HasUniquePeers (listed s'.content)
    keeps (unchanged same _) = rw same h
    keeps (appended _ new same _) =
        rw same (HasUniquePeers-snoc (listed s.content) (friend_of now r) h new)

-- What the guards of a call that has written tell of its inputs.
record Admitted (audit : Binder) (r : Request) (s : Storage) : Type 0 where
  peer : str_eq r.peer_actor_id "" ≡ false
  given : is_given audit ≡ true
  loaded : (fs : List (Option Friend)) × (load_friends s ≡ ok fs)

write_guards-Admitted :
    (audit : Binder) (r : Request) (s : Storage) (fs : List (Option Friend))
    → write_guards audit r (some s) ≡ ok (some fs)
    → Admitted audit r s
unfolding write_guards
write_guards-Admitted audit r s fs e = record {
  peer = ground arith;
  given = ground arith;
  loaded = (fs, ground arith);
}

triggered_write-Admitted :
    (now : String) (throws : Bool) (audit : Binder) (r : Request) (s s' : Storage)
    → trigger_friendship_write_if_needed now throws audit (some r) (some s)
      ≡ (ok triggered_write, some s')
    → Admitted audit r s
unfolding trigger_friendship_write_if_needed write_friendship_if_needed
triggered_write-Admitted now throws audit r s s' e =
    elim (Outcome-cases (write_guards audit r (some s))) [
      | inr (x, w) ↦ absurd (ground arith)
      | inl (none, w) ↦ absurd (ground arith)
      | inl (some fs, w) ↦ write_guards-Admitted audit r s fs w
    ]

write_guards-again :
    (audit : Binder) (q : Request) (s s' : Storage) (fs : List (Option Friend))
    → Admitted audit q s
    → q.state ≡ some mutual_entry_confirmed
    → str_eq q.session_id "" ≡ false
    → s' ≡ record s { content = friends fs }
    → write_guards audit q (some s') ≡ ok (some fs)
unfolding write_guards load_friends
write_guards-again audit q s s' fs a mutually session same =
    let given = a.given in let peer = a.peer in let loaded = a.loaded.1 in ground arith

known_peer :
    (fs : List (Option Friend)) (f : Friend)
    → any (has_peer f.peer_actor_id) (fs ++ some f ∷ []) ≡ true
known_peer fs f =
    ground (arith, any-append (has_peer f.peer_actor_id) fs (some f ∷ []), eq_refl f.peer_actor_id)

-- A second trigger for the peer that a trigger has just written finds the record: it changes nothing
-- and reports that, with whatever clock, key and audit method it comes, as long as its state is
-- the mutually confirmed one and its ids are given.
trigger_twice :
    (now later : String) (throws throws' : Bool) (audit : Binder) (r q : Request) (s s' : Storage)
    → trigger_friendship_write_if_needed now throws audit (some r) (some s)
      ≡ (ok triggered_write, some s')
    → q.state ≡ some mutual_entry_confirmed
    → q.peer_actor_id ≡ r.peer_actor_id
    → q.session_id ≢ ""
    → trigger_friendship_write_if_needed later throws' audit (some q) (some s')
      ≡ (ok triggered_idempotent, some s')
unfolding trigger_friendship_write_if_needed write_friendship_if_needed add_friend
trigger_twice now later throws throws' audit r q s s' e mutually same_peer session =
    again (trigger-Effect now throws audit r s s' (ok triggered_write) e)
  where
    again :
        Effect now r s (ok triggered_write) s'
        → trigger_friendship_write_if_needed later throws' audit (some q) (some s')
          ≡ (ok triggered_idempotent, some s')
    again (unchanged _ not_written) = absurd (not_written refl)
    again (appended _ _ same _) =
        let fs = listed s.content ++ some (friend_of now r) ∷ [] in
        let a = triggered_write-Admitted now throws audit r s s' e in
        let q_peer : str_eq q.peer_actor_id "" ≡ false = rw same_peer a.peer in
        let a' : Admitted audit q s = record {
          peer = q_peer;
          given = a.given;
          loaded = a.loaded;
        } in
        let named : str_eq q.session_id "" ≡ false = ground (arith, eq_iff q.session_id "") in
        let guards = write_guards-again audit q s s' fs a' mutually named same in
        let known : any (has_peer q.peer_actor_id) fs ≡ true =
          rw same_peer (known_peer (listed s.content) (friend_of now r)) in
        ground (arith, guards, known, mutually)
