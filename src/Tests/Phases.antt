-- ===== src/Tests/Phases.antt =====
-- The friendship file, the session probe, the probe engine and the key binding on concrete inputs.
use a2a_fun.Prelude.{◌≡◌, refl, false, none, some, [], ◌∷◌, ok, throw}
use a2a_fun.Phase2.Constants.{mutual_entry_confirmed}
use a2a_fun.Phase3.Friendship.{
  save_friend, add_friend, friend_of, write_guards, write_friendship_if_needed,
  trigger_friendship_write_if_needed, Friend, friends, json_interface, Storage, no_method,
  with_method, method_missing, Request, triggered_write,
}
use a2a_fun.Phase3.Friendship.Writing.{
  listed, HasUniquePeers, trigger-Effect, trigger-HasUniquePeers, Effect,
}

friendship_steps : Unit {0}
unfolding trigger_friendship_write_if_needed write_friendship_if_needed write_guards add_friend
    save_friend
friendship_steps = tt

abbrev carol : Friend
carol = record {
  peer_actor_id = "carol";
  peer_key_fpr = none;
  session_id = "s0";
  established_at = "2026";
}

abbrev file : Storage
file = record { interface = json_interface; content = friends (some carol ∷ none ∷ []) }

abbrev dave : Request
dave = record {
  state = some mutual_entry_confirmed;
  peer_actor_id = "dave";
  peer_key_fpr = none;
  session_id = "s1";
}

abbrev longer : Storage
longer = record file { content = friends (some carol ∷ none ∷ some (friend_of "2027" dave) ∷ []) }

dave_written :
    trigger_friendship_write_if_needed "2027" false with_method (some dave) (some file)
    ≡ (ok triggered_write, some longer)
unfolding friendship_steps
dave_written = refl

-- The audit method is looked for after the write.
written_and_thrown :
    trigger_friendship_write_if_needed "2027" false no_method (some dave) (some file)
    ≡ (throw method_missing, some longer)
unfolding friendship_steps
written_and_thrown = refl

trigger-Effect_example : Effect "2027" dave file (ok triggered_write) longer
trigger-Effect_example =
    trigger-Effect "2027" false with_method dave file longer (ok triggered_write) dave_written

trigger-HasUniquePeers_example : HasUniquePeers (listed longer.content)
trigger-HasUniquePeers_example =
    trigger-HasUniquePeers "2027" false with_method dave file longer (ok triggered_write) (refl, tt)
      dave_written
