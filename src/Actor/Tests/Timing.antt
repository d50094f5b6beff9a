-- ===== src/Actor/Tests/Timing.antt =====
-- Timers of one actor.
use actorgo.Common.{◌≡◌, ◌≤◌, refl, true, some, arith, ℕ_discrete}
use actorgo.Common.Int.{pos}
use actorgo.Common.Dict.{lookup, insert, delete}
use actorgo.Actor.Timer.{
  ActorTimer, new_timer, added, add_once, start_timer, remove_timer, fire, begin_timer, end_timer,
}
use actorgo.Actor.Timer.Steps.{Steps, start, next, added_once, fired, began, ended, calls}
use actorgo.Actor.Timer.Once.{add_once-calls}
use actorgo.Actor.Timer.Removed.{remove_timer-calls}

abbrev fresh : ActorTimer
fresh = new_timer 1

abbrev one_timer : ActorTimer
one_timer = start_timer fresh 7 true

one_timer_added : add_once true fresh (pos 5000000) (some 7) ≡ added 1 one_timer
unfolding add_once new_timer start_timer
one_timer_added = refl

abbrev called_timer : ActorTimer
called_timer = end_timer (begin_timer (fire one_timer 1 true)) 1 true

one_timer_called : calls 1 called_timer.called ≡ 1
unfolding end_timer begin_timer fire start_timer new_timer lookup ℕ_discrete insert
one_timer_called = refl

-- A second timer, which the callback of the first one adds.
abbrev in_callback : ActorTimer
in_callback = begin_timer (fire one_timer 1 true)

abbrev two_timers : ActorTimer
two_timers = start_timer in_callback 8 true

two_timers_added :
    add_once true in_callback (pos 5000000) (some 8) ≡ added in_callback.next_id two_timers
unfolding add_once start_timer
two_timers_added = refl

in_callback-Steps : Steps fresh in_callback
unfolding fire start_timer new_timer lookup ℕ_discrete insert
in_callback-Steps =
    next
      (next (next start (added_once true (pos 5000000) (some 7) 1 one_timer one_timer_added))
        (fired 1 true refl))
      (began refl)

abbrev both_called : ActorTimer
both_called = end_timer (begin_timer (fire (end_timer two_timers 1 true) 2 true)) 2 true

both_Steps : Steps two_timers both_called
unfolding end_timer begin_timer fire start_timer new_timer lookup ℕ_discrete insert delete
both_Steps =
    next (next (next (next start (ended 1 true refl)) (fired 2 true refl)) (began refl))
      (ended 2 true refl)

add_once-calls_example : calls in_callback.next_id both_called.called ≤ 1
add_once-calls_example =
    add_once-calls 1 in_callback two_timers both_called (pos 5000000) 8 in_callback-Steps
      (ground arith) two_timers_added both_Steps

-- The timer fires, and is removed before its callback's turn comes.
abbrev late : ActorTimer
late = fire one_timer 1 true

remove_timer-calls_example :
    calls 1 (begin_timer (remove_timer late 1)).called ≡ calls 1 late.called
unfolding fire start_timer new_timer remove_timer lookup ℕ_discrete insert
remove_timer-calls_example =
    remove_timer-calls late (begin_timer (remove_timer late 1)) 1 (ground arith)
      (next start (began refl))
