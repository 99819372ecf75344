-- ===== src/Inbound/Consent.antt =====
-- What the entry's answer with a friendship record says of the payload and of the probe.
use a2a_fun.Phase2.Envelope.{validate_envelope}
use a2a_fun.Capability.{text_of}
use a2a_fun.Prelude.{
  String, ◌≡◌, refl, sym, ◌∙◌, inl, inr, Bool, true, false, Option, none, some, arith, Bool-cases,
  Option-cases, ◌>>=◌, Outcome-cases, bind-eq-ok, ok-injective, ok, field_of, property, Value, bool,
  str, obj, Fields, or_null, is_true,
}
use a2a_fun.Candidate.{
  create_friendship_candidate, confirm_locally, confirm_remotely, trigger_friendship_persistence,
}
use a2a_fun.Inbound.{
  default_state, input_or_new, id_value, is_probing, confirm_local_step, record_step,
  confirm_remote_step, befriend, after_probe, after_processor, run_processor, enter_session,
  enter_envelope, wanted_of, formal_inbound_entry, Returned, Caller, Response, answered, Wanted,
}
use a2a_fun.Inbound.Friend.{befriend-Befriended, candidate-created}
use a2a_fun.Phase3.Probe.{apply_session_probe_message, ProbeState, probing, Session, Message}

-- The processor, called on the envelope, has given out a probe message, and that has led to the
-- session: it was accepted in the state that the processor gave with it, or in a new session.
pub record IsLedBy (caller : Caller) (session_id : String) (envelope : Value) (session : Session)
    : Type 0 where
  pub process : Value → Fields → Option Returned
  pub state : Fields
  pub returned : Returned
  pub message : Message
  pub called : caller.process ≡ some process
  pub gave : process envelope state ≡ some returned
  pub spoke : returned.phase3_message ≡ some message
  pub led :
      apply_session_probe_message
        (some (input_or_new session_id returned.phase3_state))
        (some message)
      ≡ ok session

-- What a record in a response stands on.
pub record HasConsent (caller : Caller) (envelope : Value) (wanted : Wanted) (r : Response)
    (f : Fields) : Type 0 where
  pub local : wanted.local ≡ true
  pub remote : wanted.remote ≡ true
  pub session : Session
  pub probe : r.phase3 ≡ some session
  pub led_by : IsLedBy caller (text_of (property "session_id" envelope)) envelope session
  pub reached : session.state ≡ probing
  pub same_session : field_of "session_id" f ≡ id_value session.session_id
  pub same_peer : field_of "peer_actor_id" f ≡ id_value session.peer_actor_id
  pub established : field_of "established" f ≡ bool true

probing_state : (s : ProbeState) → is_probing s ≡ true → s ≡ probing
probing_state probing e = refl
probing_state _ e = cc

local-phase3 :
    (wants : Bool) (c : Fields) (r : Response) (out : Fields × Response)
    → confirm_local_step wants c r ≡ ok out
    → out.1.phase3 ≡ r.phase3
unfolding confirm_local_step
local-phase3 false c r out h = ground arith
local-phase3 true c r out h = elim (Outcome-cases (confirm_locally (obj c))) [
  | inr (code, bad) ↦ absurd (ground arith)
  | inl (d, confirmed) ↦ ground arith
]

record-phase3 :
    (digest : String → String) (c : Fields) (r : Response) (out : Fields × Response)
    → record_step digest c r ≡ ok out
    → out.1.phase3 ≡ r.phase3
unfolding record_step
record-phase3 digest c r out h = elim (Bool-cases (is_true (field_of "mutually_confirmed" c))) [
  | inr single ↦ ground arith
  | inl mutually ↦ elim (Outcome-cases (trigger_friendship_persistence digest (obj c))) [
    | inr (code, bad) ↦ absurd (ground arith)
    | inl (g, made) ↦ ground arith
  ]
]

remote-phase3 :
    (digest : String → String) (wants : Bool) (c : Fields) (r : Response) (out : Fields × Response)
    → confirm_remote_step digest wants c r ≡ ok out
    → out.1.phase3 ≡ r.phase3
unfolding confirm_remote_step
remote-phase3 digest false c r out h = ground arith
remote-phase3 digest true c r out h = elim (Outcome-cases (confirm_remotely (obj c))) [
  | inr (code, bad) ↦ absurd (ground arith)
  | inl (d, confirmed) ↦
      record-phase3 digest d (record r { friendship_confirmation_remote = some d }) out
        (ground arith)
]

befriend-phase3 :
    (digest : String → String) (wanted : Wanted) (c : Fields) (r out : Response)
    → befriend digest wanted c r ≡ ok out
    → out.phase3 ≡ r.phase3
unfolding befriend
befriend-phase3 digest wanted c r out h =
    let start : Response = record r { friendship_candidate = some c } in
    let (side, first, h1) =
      bind-eq-ok (confirm_local_step wanted.local c start)
        (λ side. confirm_remote_step digest wanted.remote side.0 side.1 >>= λ both. ok both.1) h in
    let (both, second, h2) =
      bind-eq-ok (confirm_remote_step digest wanted.remote side.0 side.1) (λ both. ok both.1) h1 in
    let last : both.1 ≡ out = ok-injective h2 in
    let a = local-phase3 wanted.local c start side first in
    let b = remote-phase3 digest wanted.remote side.0 side.1 both second in rw (sym last) (b ∙ a)

module _ (caller : Caller) (envelope : Value) (wanted : Wanted) (f : Fields) (out : Response)
    (id : String) (known : Option Bool) where
  abbrev named_session : String
  named_session = text_of (property "session_id" envelope)

  HasConsent-after_probe :
      (found : Option Bool) (next : Session) (r : Response)
      → IsLedBy caller named_session envelope next
      → r.friendship_record ≡ none
      → r.phase3 ≡ some next
      → after_probe caller wanted named_session found next r ≡ answered id known out
      → out.friendship_record ≡ some f
      → HasConsent caller envelope wanted out f
  unfolding after_probe
  HasConsent-after_probe found next r led_by fresh probe h e =
      elim (Bool-cases (is_probing next.state)) [
        | inr early ↦ absurd (ground arith)
        | inl reached ↦
            let sid = id_value next.session_id in
            let peer = id_value next.peer_actor_id in
            elim (Outcome-cases
              (create_friendship_candidate caller.digest sid peer (str "PROBING"))) [
                | inr (code, bad) ↦ absurd (ground arith)
                | inl (c, created) ↦ elim (Outcome-cases (befriend caller.digest wanted c r)) [
                  | inr (code, bad) ↦ absurd (ground arith)
                  | inl (response, done) ↦
                      let is : response ≡ out = ground arith in
                      let made : befriend caller.digest wanted c r ≡ ok out = rw is at done in
                      let (alone, s, p) =
                        candidate-created caller.digest sid peer (str "PROBING") c created in
                      let (local, remote, same, established) =
                        befriend-Befriended caller.digest wanted c f r out fresh alone made e in
                      record {
                        local = local;
                        remote = remote;
                        session = next;
                        probe = befriend-phase3 caller.digest wanted c r out made ∙ probe;
                        led_by = led_by;
                        reached = probing_state next.state reached;
                        same_session = same.session ∙ s;
                        same_peer = same.peer ∙ p;
                        established = established;
                      }
                ]
              ]
      ]

  HasConsent-after_processor :
      (process : Value → Fields → Option Returned) (state : Fields) (found : Option Bool)
      (r : Returned)
      → caller.process ≡ some process
      → process envelope state ≡ some r
      → after_processor caller wanted named_session found r ≡ answered id known out
      → out.friendship_record ≡ some f
      → HasConsent caller envelope wanted out f
  unfolding after_processor
  HasConsent-after_processor process given found r called gave h e =
      elim (Option-cases r.phase3_message) [
        | inl silent ↦ absurd (ground arith)
        | inr (m, is) ↦
            let state = input_or_new named_session r.phase3_state in
            elim (Outcome-cases (apply_session_probe_message (some state) (some m))) [
              | inr (error, bad) ↦ absurd (ground arith)
              | inl (next, moved) ↦
                  let led_by : IsLedBy caller named_session envelope next = record {
                    process = process;
                    state = given;
                    returned = r;
                    message = m;
                    called = called;
                    gave = gave;
                    spoke = is;
                    led = moved;
                  } in
                  let response : Response = record {
                    session_state = or_null r.next_state;
                    audit_records_count = r.audit_count;
                    phase3 = some next;
                    friendship_candidate = none;
                    friendship_confirmation_local = none;
                    friendship_confirmation_remote = none;
                    friendship_record = none;
                  } in
                  HasConsent-after_probe found next response led_by refl refl (ground arith) e
            ]
      ]

  HasConsent-run_processor :
      (found : Option Bool) (state : Fields)
      → run_processor caller wanted named_session found envelope state ≡ answered id known out
      → out.friendship_record ≡ some f
      → HasConsent caller envelope wanted out f
  unfolding run_processor
  HasConsent-run_processor found state h e = elim (Option-cases caller.process) [
    | inl no_value ↦ absurd (ground arith)
    | inr (process, is) ↦ elim (Option-cases (process envelope state)) [
      | inl threw ↦ absurd (ground arith)
      | inr (r, gave) ↦ HasConsent-after_processor process state found r is gave (ground arith) e
    ]
  ]

  HasConsent-enter_session :
      enter_session caller wanted named_session envelope ≡ answered id known out
      → out.friendship_record ≡ some f
      → HasConsent caller envelope wanted out f
  unfolding enter_session
  HasConsent-enter_session h e =
      let fresh = default_state named_session envelope in
      elim (Option-cases caller.read_session) [
        | inl no_storage ↦ HasConsent-run_processor none fresh (ground arith) e
        | inr (read, is) ↦ elim (Option-cases (read named_session)) [
          | inl no_value ↦ HasConsent-run_processor (some false) fresh (ground arith) e
          | inr (snap, found) ↦ HasConsent-run_processor (some true) snap (ground arith) e
        ]
      ]

-- The entry answers with a friendship record only if the envelope is valid, the payload asks for both
-- confirmations, and the processor, called on the envelope, gave out a probe message that was accepted
-- and has led to the probing state; the record is then an established one of the session and the peer
-- of that probe.
pub formal_inbound_entry-HasConsent :
    (caller : Caller) (payload : Value) (id : String) (found : Option Bool) (r : Response)
    (f : Fields)
    → formal_inbound_entry caller payload ≡ answered id found r
    → r.friendship_record ≡ some f
    → (validate_envelope (property "envelope" payload) ≡ ok tt)
      × HasConsent caller (property "envelope" payload) (wanted_of payload) r f
unfolding formal_inbound_entry enter_envelope
formal_inbound_entry-HasConsent caller payload id found r f h e =
    let envelope = property "envelope" payload in
    elim (Outcome-cases (validate_envelope envelope)) [
      | inr (error, bad) ↦ absurd (ground arith)
      | inl (u, valid) ↦
          let sid = text_of (property "session_id" envelope) in
          let entered : enter_session caller (wanted_of payload) sid envelope
              ≡ answered id found r =
            ground arith in
          (
            valid,
            HasConsent-enter_session caller envelope (wanted_of payload) f r id found entered e,
          )
    ]
