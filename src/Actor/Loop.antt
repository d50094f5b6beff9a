-- ===== src/Actor/Loop.antt =====
-- The run loop of an actor, net/actor/actor.go: one mailbox, event or timer entry at a time. The three
-- queues are lists here, in the order of the producers' swaps (`Actor.Queue` has their nodes), and
-- beside the mailbox and the events stand their counts, int32 as in `Actor.Queue`, and how many
-- Pushes are in flight, which have yet to count. The select is a choice that stands for the channel
-- it takes. What the handlers do is a parameter: a call returns a result or panics, and what it does
-- to its own actor meanwhile stands in the steps after it. A child actor is a number. `handled` are
-- the messages that are done with, and `fired` the events, oldest first.
pub mod Order
pub mod Ending
use actorgo.Common.{
  ℕ, suc, ◌&&◌, ◌==◌, Bool, true, false, not, Option, none, some, List, [], ◌∷◌, ◌++◌, Text,
  Text_discrete, if◌then◌else◌, codes,
}
use actorgo.Common.Int.{ℤ, pos}
use actorgo.Common.Dict.{lookup}
use actorgo.Facade.Path.{ActorPath, is_child}
use actorgo.Facade.Result.{
  InvokeResult, Payload, error_result, status_invalid_argument, status_not_found, status_internal,
}
use actorgo.Method.Table.{ContextError}
use actorgo.Actor.Mailbox.{
  ActorState, init_state, worker_state, stop_state, Mailbox, MethodEntry, get_method, BodyCodecs,
  Decoded, decoded, decode_failed, decode_payload,
}
use actorgo.Actor.Events.{EventData}
use actorgo.Actor.Routing.{context_failure, invoking}
use actorgo.Actor.Queue.{inc, dec, is_positive}
use actorgo.Actor.Timer.{ActorTimer, begin_timer, end_timer}

-- A message with its parsed path, the codec and the failure of its context (a context of nil has
-- codec 0 and none), and whether there is a channel for its result.
pub record Message (V : Type 0) : Type 0 where
  pub id : ℕ
  pub target_path : ActorPath
  pub method_id : ℕ
  pub codec : ℤ
  pub failure : Option ContextError
  pub payload : Payload V
  pub wants_result : Bool

-- What the handler of a method does: the result may be nil.
pub data Called (V : Type 0) : Type 0 where
  returned : Option (InvokeResult V) → Called V
  panicked : Called V

-- What the loop calls: the codecs, the methods' handlers and OnFindChild of the actor's handler.
pub record Code (V H : Type 0) : Type 0 where
  pub codecs' : Option (BodyCodecs V)
  pub call : H → Message V → Payload V → Called V
  pub on_find_child : Message V → Option ℕ

pub data Handled (V : Type 0) : Type 0 where
  finished : InvokeResult V → Handled V
  to_child : ℕ → Handled V

pub record Actor (V H : Type 0) : Type 0 where
  pub path : ActorPath
  pub state : ActorState
  pub closing : Bool
  pub last_at : ℕ
  pub mailbox : Mailbox H
  pub children : List (Text × ℕ)
  pub mail : List (Message V)
  pub mail_count : ℕ
  pub mail_uncounted : ℕ
  pub event : List EventData
  pub event_count : ℕ
  pub event_uncounted : ℕ
  pub timer : ActorTimer
  pub handled : List (Message V × Handled V)
  pub fired : List EventData

-- The channel that the select takes; `take_unlinked` is the mailbox or the events where the first
-- Push has not stored its link yet, so that Pop gives nil.
pub data Choice : Type 0 where
  take_mail take_event take_timer take_close take_unlinked : Choice

abbrev pub is_stopped : ActorState → Bool
is_stopped init_state = false
is_stopped worker_state = false
is_stopped stop_state = true

module _ {V : Type 0} where
  -- The deferred recover, and the nil result.
  unfoldable pub result_of : Called V → InvokeResult V
  result_of (returned (some r)) = r
  result_of (returned none) =
      error_result status_internal (codes "actor method returned nil result")
  result_of panicked = error_result status_internal (codes "actor method panic")

module _ {V H : Type 0} (code : Code V H) where
  call_decoded : MethodEntry H → Message V → Decoded V → InvokeResult V
  unfolding result_of
  call_decoded entry m (decode_failed failure) = failure
  call_decoded entry m (decoded payload) = result_of (code.call entry.invoke m payload)

  call_entry : Message V → Option (MethodEntry H) → InvokeResult V
  unfolding call_decoded
  call_entry m none = error_result status_not_found (codes "actor method not found")
  call_entry m (some entry) =
      call_decoded entry m (decode_payload code.codecs' m.codec entry m.payload)

  -- invokeTyped: the result that it finishes the message with.
  unfoldable pub invoke_typed : Mailbox H → Message V → InvokeResult V
  unfolding call_entry context_failure
  invoke_typed box m = elim m.failure [
    | some e ↦ context_failure e invoking
    | none ↦ call_entry m (get_method box m.method_id)
  ]

  -- findChildActor
  unfoldable pub find_child_actor : Actor V H → Message V → Option ℕ
  find_child_actor a m =
      if is_child a.path
      then none
      else elim (lookup Text_discrete m.target_path.child_id a.children) [
        | some child ↦ some child
        | none ↦ code.on_find_child m
      ]

  -- processTyped
  unfoldable pub process_typed : Actor V H → Message V → Handled V
  unfolding find_child_actor invoke_typed
  process_typed a m =
      if is_child m.target_path && not (is_child a.path)
      then elim (find_child_actor a m) [
        | none ↦ finished (error_result status_not_found (codes "actor child not found"))
        | some child ↦ to_child child
      ]
      else finished (invoke_typed a.mailbox m)

  outcome_of : Actor V H → Message V → Handled V
  unfolding process_typed
  outcome_of a m =
      if m.method_id == 0
      then finished (error_result status_invalid_argument (codes "method id is required"))
      else process_typed a m

  -- processMail, at this time.
  unfoldable pub process_mail : ℕ → Actor V H → Actor V H
  unfolding outcome_of
  process_mail now a = elim a.mail [
    | [] ↦ a
    | m ∷ rest ↦ record a {
      mail = rest;
      mail_count = dec a.mail_count;
      last_at = now;
      handled = a.handled ++ (m, outcome_of a m) ∷ [];
    }
  ]

  unfoldable pub process_event : ℕ → Actor V H → Actor V H
  process_event now a = elim a.event [
    | [] ↦ a
    | e ∷ rest ↦ record a {
      event = rest;
      event_count = dec a.event_count;
      last_at = now;
      fired = a.fired ++ e ∷ [];
    }
  ]

  -- The timer's callback, from its start to its end.
  unfoldable pub run_timer : ActorTimer → ActorTimer
  unfolding begin_timer end_timer
  run_timer t =
      let u = begin_timer t in elim u.busy [ none ↦ u | some (id, once) ↦ end_timer u id once ]

  unfoldable pub process_timer : Actor V H → Actor V H
  unfolding run_timer
  process_timer a = record a { timer = run_timer a.timer }

  serve : Choice → ℕ → Actor V H → Actor V H
  unfolding process_mail process_event process_timer
  serve take_mail now a = process_mail now a
  serve take_event now a = process_event now a
  serve take_timer now a = process_timer a
  serve take_close now a = record a { state = stop_state; closing = false }
  serve take_unlinked now a = a

  -- loop: the actor after it, and whether the loop is over, by the counts. The mailbox's was read
  -- before that of the events, and may be another by now.
  unfoldable pub loop : Choice → ℕ → ℕ → Actor V H → Actor V H × Bool
  unfolding serve
  loop c now mail_count a =
      if is_stopped a.state && (not (is_positive mail_count) && not (is_positive a.event_count))
      then (a, true)
      else (serve c now a, false)

  -- The loop of run, under these choices, each with its time.
  unfoldable pub run_loop : List (Choice × ℕ) → Actor V H → Actor V H × Bool
  unfolding loop
  run_loop [] a = (a, false)
  run_loop ((c, now) ∷ cs) a =
      let (b, over) = loop c now a.mail_count a in
      let rest = run_loop cs b in if over then (b, true) else rest

-- Exit, and what other goroutines append to the queues.
module _ {V H : Type 0} where
  unfoldable pub exit : Actor V H → Actor V H
  exit a = record a { closing = true }

  -- post: its Push from the swap on, up to the count.
  unfoldable pub begin_post : Actor V H → Message V → Actor V H
  begin_post a m = record a { mail = a.mail ++ m ∷ []; mail_uncounted = suc a.mail_uncounted }

  -- The count of a Push, with the Pushes that have yet to count after it.
  unfoldable pub end_post : Actor V H → ℕ → Actor V H
  end_post a left = record a { mail_count = inc a.mail_count; mail_uncounted = left }

  unfoldable pub begin_event : Actor V H → EventData → Actor V H
  begin_event a e = record a { event = a.event ++ e ∷ []; event_uncounted = suc a.event_uncounted }

  unfoldable pub end_event : Actor V H → ℕ → Actor V H
  end_event a left = record a { event_count = inc a.event_count; event_uncounted = left }
