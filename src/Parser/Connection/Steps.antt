-- ===== src/Parser/Connection/Steps.antt =====
-- The steps that a connection can take, in any order, and what holds after all of them.
use mathlib.Core.List.{map-append}
use actorgo.Common.{
  ℕ, ◌≡◌, refl, ◌∙◌, ap, sym, subst, All-append_remove, append-cons-ne-nil, Bool, Bool-cases, inl,
  inr, false, Option, none, some, List, ◌∷◌, ◌++◌, Text, Bytes, arith, ℕ_discrete,
}
use actorgo.Common.Int.{ℤ}
use actorgo.Common.Dict.{Distinct, delete-append_key, delete-Distinct, length-delete-le}
use actorgo.Proto.Packet.{Packet, system_method_kick, system_method_go_away}
use actorgo.Proto.Validate.{Checked, ok, err}
use actorgo.Facade.Result.{InvokeResult}
use actorgo.Parser.Connection.State.{
  Phase, draining, reading, decoded, tested, leaving, ended, Session, Task, Connection, Env,
  enqueue, send, close, close_unless, to_uint32, to_milliseconds,
}
use actorgo.Parser.Connection.Process.{release, process_seen, set_idle_deadline}
use actorgo.Parser.Connection.Serving.{
  finish_request, ask_drain, test_state, act_on, leave_run, start_kick, start_go_away, start_drain,
  push_notify, push_body, write_step, touch, receive,
}
use actorgo.Parser.Connection.Invariant.{
  IsSound, IsLast, IsBusiness, slots, enqueue-IsSound, close-IsSound,
}
use actorgo.Parser.Connection.Rounds.{
  IsLast-delete, AfterHandshake-draining, IsLast-draining, moved-IsSound, leaving-IsSound,
  seen-IsAfterHandshake, seen-IsLast, tested-IsShut, tested-MayTake,
}
use actorgo.Parser.Connection.Packets.{
  process_seen-IsSound, close_unless-IsSound, touch-IsSound, IsShut, process_kind-IsShut,
}

-- A handler that ends frees its own slot and no other.
removed-IsSound :
    (c : Connection) (before : List Task) (t : Task) (later : List Task) (cs : List ℕ)
    → c.running ≡ before ++ t ∷ later
    → IsSound c
    → IsSound (release (record c { running = before ++ later; cancelled = cs }) t.call.request_id)
unfolding release
removed-IsSound c before t later cs e v = record {
  usable = v.usable;
  tracked = λ d.
      rw (v.tracked d, e, slots-append)
        (rw (slots-append) (
          delete-append_key ℕ_discrete t.call.request_id t.context (slots before) (slots later)
            (split d)));
  distinct = delete-Distinct ℕ_discrete t.call.request_id c.inflight v.distinct;
  bounded = omega (arith, length-delete-le ℕ_discrete t.call.request_id c.inflight, v.bounded);
  queued = v.queued;
  quiet = λ h. absurd (append-cons-ne-nil before later t (sym e ∙ (v.quiet h).0));
  business =
      All-append_remove (λ (u : Task). IsBusiness u.call.method_id) before later t
        (rw e at (v.business));
  business_notified = v.business_notified;
  after_handshake = v.after_handshake;
  closed_once = λ d.
      let (late, few, once) = v.closed_once d in
      (late, omega (arith, few, length-delete-le ℕ_discrete t.call.request_id c.inflight), once);
  last_round = λ d. IsLast-delete t.call.request_id c.round c.state c.inflight (v.last_round d);
  open_still = v.open_still;
}
  where
    slots-append : (xs ys : List Task) → slots (xs ++ ys) ≡ slots xs ++ slots ys
    slots-append xs ys = map-append _ xs ys

    split :
        c.is_done ≡ false
        → Distinct ℕ_discrete (slots before ++ (t.call.request_id, t.context) ∷ slots later)
    split d =
        subst (Distinct ℕ_discrete) (v.tracked d ∙ ap slots e ∙ slots-append before (t ∷ later))
          v.distinct

running-close_unless : (c : Connection) (p : Packet) → (close_unless (send c p)).running ≡ c.running
unfolding send enqueue close
running-close_unless c p = ground arith

module _ {V : Type 0} (env : Env V) where
  -- One step: Run has read, tests the state, acts on what it saw, or leaves; the end of a handler; a
  -- round of the write loop; a push; the test of Kick or GoAway; their store of Draining; Close; or a
  -- Bind of the manager.
  pub data Step : Connection → Connection → Type 0 where
    received :
        (c : Connection) (input : Option (Checked Packet))
        → c.round ≡ reading
        → Step c (receive c input)
    looked : (c : Connection) (p : Packet) → c.round ≡ decoded p → Step c (test_state c p)
    acted :
        (c : Connection) (p : Packet) (s : Phase) → c.round ≡ tested p s → Step c (act_on env c p s)
    left : (c : Connection) → c.round ≡ leaving → Step c (leave_run c)
    finished :
        (c d : Connection) (before : List Task) (t : Task) (later : List Task)
        (r : Option (InvokeResult V))
        → c.running ≡ before ++ t ∷ later
        → d ≡ finish_request env c t (before ++ later) r
        → Step c d
    wrote : (c : Connection) (written : Packet → Bool) → Step c (write_step c written).0
    pushed : (c : Connection) (method : ℕ) (v : V) → Step c (push_notify env c method v).0
    kicked :
        (c : Connection) (reason : ℤ) (text : Text) (again : Bool)
        → Step c (start_kick env c reason text again)
    went_away : (c : Connection) (reason retry : ℤ) → Step c (start_go_away env c reason retry)
    drained :
        (c : Connection) (before : List (ℕ × Option Bytes)) (method : ℕ) (body : Option Bytes)
        (later : List (ℕ × Option Bytes))
        → c.drains ≡ before ++ (method, body) ∷ later
        → Step c (start_drain c method body (before ++ later))
    shut : (c : Connection) → Step c (close c)
    rebound : (c : Connection) (s : Session) → Step c (record c { session = s })

  pub data Reach (c : Connection) : Connection → Type 0 where
    start : Reach c c
    next : {d e : Connection} → Reach c d → Step d e → Reach c e

  finish_request-IsSound :
      (c : Connection) (before : List Task) (t : Task) (later : List Task)
      (r : Option (InvokeResult V))
      → c.running ≡ before ++ t ∷ later
      → IsSound c
      → IsSound (finish_request env c t (before ++ later) r)
  unfolding finish_request send
  finish_request-IsSound c before t later r e v =
      removed-IsSound _ before t later _ (running-close_unless c _ ∙ e)
        (close_unless-IsSound _ (enqueue-IsSound c _ v))

  write_step-IsSound : (c : Connection) (w : Packet → Bool) → IsSound c → IsSound (write_step c w).0
  unfolding write_step close
  write_step-IsSound c w v = ground arith

  push_body-IsSound :
      (c : Connection) (codec : ℤ) (method : ℕ) (b : Option Bytes)
      → IsSound c
      → IsSound (push_body c codec method b).0
  unfolding push_body
  push_body-IsSound c codec method none v = v
  push_body-IsSound c codec method (some b) v = enqueue-IsSound c _ v

  push_notify-IsSound :
      (c : Connection) (method : ℕ) (x : V) → IsSound c → IsSound (push_notify env c method x).0
  unfolding push_notify
  push_notify-IsSound c method x v =
      ground (
        arith,
        push_body-IsSound c env.default_codec method (env.encode_body env.default_codec x) v,
      )

  ask_drain-IsSound :
      (c : Connection) (method : ℕ) (b : Option Bytes) → IsSound c → IsSound (ask_drain c method b)
  unfolding ask_drain
  ask_drain-IsSound c method b v = ground arith

  draining-IsSound :
      (c : Connection) (others : List (ℕ × Option Bytes))
      → IsSound c
      → IsSound (record c { state = draining; drains = others })
  draining-IsSound c others v = record {
    usable = v.usable;
    tracked = v.tracked;
    distinct = v.distinct;
    bounded = v.bounded;
    queued = v.queued;
    quiet = λ h. absurd (cc);
    business = v.business;
    business_notified = v.business_notified;
    after_handshake = AfterHandshake-draining c.round c.state v.after_handshake;
    closed_once = λ d. ((λ h. cc), (v.closed_once d).1, (v.closed_once d).2);
    last_round = λ d. IsLast-draining c.round c.state c.inflight (v.last_round d);
    open_still = λ d. ((λ h. cc), (v.open_still d).1);
  }

  start_drain-IsSound :
      (c : Connection) (method : ℕ) (b : Option Bytes) (others : List (ℕ × Option Bytes))
      → IsSound c
      → IsSound (start_drain c method b others)
  unfolding start_drain
  start_drain-IsSound c method none others v = draining-IsSound c others v
  start_drain-IsSound c method (some b) others v =
      enqueue-IsSound (record c { state = draining; drains = others }) _
        (draining-IsSound c others v)

  -- Run goes on or leaves.
  receive-IsSound :
      (c : Connection) (input : Option (Checked Packet))
      → c.round ≡ reading
      → IsSound c
      → IsSound (receive c input)
  unfolding receive
  receive-IsSound c none e v = leaving-IsSound c v
  receive-IsSound c (some (err x)) e v = leaving-IsSound c v
  receive-IsSound c (some (ok p)) e v = touched (touch-IsSound c c.state v)
    where
      same : (touch c c.state).round ≡ reading
      same = unfold touch set_idle_deadline in ground (arith, e)

      touched : IsSound (touch c c.state) → IsSound (record (touch c c.state) { round = decoded p })
      touched w = moved-IsSound (touch c c.state) (decoded p) w tt (λ d.
          subst (λ r. IsLast r (touch c c.state).state (touch c c.state).inflight) same
            (w.last_round d))

  test_state-IsSound :
      (c : Connection) (p : Packet) → c.round ≡ decoded p → IsSound c → IsSound (test_state c p)
  unfolding test_state
  test_state-IsSound c p e v =
      moved-IsSound c (tested p c.state) v (seen-IsAfterHandshake p c.state) (λ d.
        seen-IsLast p c.state c.inflight
          (subst (λ r. IsLast r c.state c.inflight) e (v.last_round d)))

  act_on-IsSound :
      (c : Connection) (p : Packet) (s : Phase)
      → c.round ≡ tested p s
      → IsSound c
      → IsSound (act_on env c p s)
  unfolding act_on process_seen
  act_on-IsSound c p s e v =
      elim (Bool-cases (process_seen env (record c { round = leaving }) p s).1) [
        | inl goes_on ↦ rw goes_on (
            moved-IsSound _ reading after tt (λ d.
              process_kind-IsShut env (record c { round = leaving }) p p.kind s goes_on shut d))
        | inr over ↦ rw over after
      ]
    where
      after : IsSound (process_seen env (record c { round = leaving }) p s).0
      after =
          process_seen-IsSound env (record c { round = leaving }) p s refl
            (tested-MayTake c p s e v) (leaving-IsSound c v)

      shut : IsShut (record c { round = leaving })
      shut d =
          tested-IsShut p s c.state c.inflight
            (subst (λ r. IsLast r c.state c.inflight) e (v.last_round d))

  leave_run-IsSound : (c : Connection) → IsSound c → IsSound (leave_run c)
  unfolding leave_run
  leave_run-IsSound c v = let w = close-IsSound c v in moved-IsSound (close c) ended w tt (λ d. tt)

  Step-IsSound : {c d : Connection} → Step c d → IsSound c → IsSound d
  Step-IsSound (received c input e) v = receive-IsSound c input e v
  Step-IsSound (looked c p e) v = test_state-IsSound c p e v
  Step-IsSound (acted c p s e) v = act_on-IsSound c p s e v
  Step-IsSound (left c e) v = leave_run-IsSound c v
  Step-IsSound (finished c d before t later r e f) v =
      rw f (finish_request-IsSound c before t later r e v)
  Step-IsSound (wrote c w) v = write_step-IsSound c w v
  Step-IsSound (pushed c method x) v = push_notify-IsSound c method x v
  Step-IsSound (kicked c reason text again) v =
      unfold start_kick in
      ask_drain-IsSound c system_method_kick (env.kick_notify reason text again) v
  Step-IsSound (went_away c reason retry) v =
      unfold start_go_away in
      ask_drain-IsSound c system_method_go_away
        (env.go_away_notify reason (to_uint32 (to_milliseconds retry))) v
  Step-IsSound (drained c before method body later e) v =
      start_drain-IsSound c method body (before ++ later) v
  Step-IsSound (shut c) v = close-IsSound c v
  Step-IsSound (rebound c s) v = ground arith

  -- Whatever steps a sound connection takes, in any order, it stays sound: handlers run only for
  -- business methods and only after the handshake, each holds exactly one slot under its own request
  -- id while the connection is open, there are never more than MaxInflight slots, the write queue
  -- keeps its bound, and a closed connection has started its cleanup once and has at most one slot,
  -- that of a request that Run had begun to take before the Close.
  pub Reach-IsSound : {c d : Connection} → Reach c d → IsSound c → IsSound d
  Reach-IsSound start v = v
  Reach-IsSound (next r s) v = Step-IsSound s (Reach-IsSound r v)
