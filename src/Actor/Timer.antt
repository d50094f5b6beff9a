-- ===== src/Actor/Timer.antt =====
-- The timers of an actor, net/actor/actor_timer.go. The time wheel is a library: of it the model has
-- the timers that it runs, whether it takes a schedule, and the ids that it hands out. A callback is
-- a number, and `called` the timers whose callback has run, latest first. While a callback runs,
-- which `busy` says, the actor does nothing else but what the callback does.
pub mod Steps
pub mod Once
pub mod Removed
use actorgo.Common.{
  ℕ, suc, ◌+◌, ◌||◌, Bool, true, false, Option, none, some, List, [], ◌∷◌, ◌++◌, if◌then◌else◌,
  ◌==◌, ℕ_discrete,
}
use actorgo.Common.Int.{ℤ, pos, ltb_ℤ}
use actorgo.Common.Dict.{lookup, insert, delete}
use actorgo.Parser.Connection.State.{to_milliseconds}

pub record TimerInfo : Type 0 where
  pub fn : ℕ
  pub once : Bool

-- `running` are the timers of this actor that the wheel runs, and whether each fires once.
pub record ActorTimer : Type 0 where
  pub infos : List (ℕ × TimerInfo)
  pub queue : List ℕ
  pub running : List (ℕ × Bool)
  pub next_id : ℕ
  pub busy : Option (ℕ × Bool)
  pub called : List ℕ

unfoldable pub new_timer : ℕ → ActorTimer
new_timer next = record {
  infos = [];
  queue = [];
  running = [];
  next_id = next;
  busy = none;
  called = [];
}

-- What a call of Add gives: the id, which is 0 where the timer is refused.
pub data Added : Type 0 where
  added : ℕ → ActorTimer → Added
  crashed : Added

unfoldable pub add_timer_info : ActorTimer → ℕ → ℕ → Bool → ActorTimer
add_timer_info t id fn once = record t {
  infos = insert ℕ_discrete id (record { fn = fn; once = once }) t.infos;
}

-- The wheel's timer and its entry, under the next id; ids grow whether or not the wheel takes it.
unfoldable pub start_timer : ActorTimer → ℕ → Bool → ActorTimer
unfolding add_timer_info
start_timer t fn once =
    add_timer_info (record t { next_id = suc t.next_id; running = (t.next_id, once) ∷ t.running })
      t.next_id fn once

abbrev pub take_id : ActorTimer → ActorTimer
take_id t = record t { next_id = suc t.next_id }

add_checked : Bool → Bool → ActorTimer → ℤ → Option ℕ → Added
unfolding start_timer
add_checked once taken t delay none = added 0 t
add_checked once taken t delay (some fn) =
    if ltb_ℤ (to_milliseconds delay) (pos 1)
    then added 0 t
    else (if taken then added t.next_id (start_timer t fn once) else added 0 (take_id t))

-- Add and AddOnce; `taken` says whether the wheel gives a timer.
unfoldable pub add : Bool → ActorTimer → ℤ → Option ℕ → Added
unfolding add_checked
add taken t delay fn = add_checked false taken t delay fn

unfoldable pub add_once : Bool → ActorTimer → ℤ → Option ℕ → Added
unfolding add_checked
add_once taken t delay fn = add_checked true taken t delay fn

-- AddSchedule, of a schedule that is not nil. The wheel gives no timer where the schedule has no
-- first time; addTimerInfo then reads the id of a nil timer.
unfoldable pub add_schedule : Bool → ActorTimer → Option ℕ → Added
unfolding start_timer
add_schedule taken t none = added 0 t
add_schedule taken t (some fn) = if taken then added t.next_id (start_timer t fn false) else crashed

unfoldable pub remove_timer : ActorTimer → ℕ → ActorTimer
remove_timer t id = elim (lookup ℕ_discrete id t.infos) [
  | none ↦ t
  | some info ↦ record t {
    running = delete ℕ_discrete id t.running;
    infos = delete ℕ_discrete id t.infos;
  }
]

-- RemoveAll stops the timers that have an entry, and keeps the entries.
unfoldable pub stop_all : List (ℕ × TimerInfo) → List (ℕ × Bool) → List (ℕ × Bool)
stop_all [] running = running
stop_all ((id, info) ∷ infos) running = stop_all infos (delete ℕ_discrete id running)

unfoldable pub remove_all : ActorTimer → ActorTimer
unfolding stop_all
remove_all t = record t { running = stop_all t.infos t.running }

-- The wheel fires a timer: its id is pushed, and a timer that fires once is over.
unfoldable pub fire : ActorTimer → ℕ → Bool → ActorTimer
fire t id once = record t {
  queue = t.queue ++ (id ∷ []);
  running = if once then delete ℕ_discrete id t.running else t.running;
}

-- processTimer and invokeFunc up to the callback, and what is left to do after it.
unfoldable pub begin_timer : ActorTimer → ActorTimer
begin_timer t = elim t.queue [
  | [] ↦ t
  | id ∷ rest ↦ elim (lookup ℕ_discrete id t.infos) [
    | none ↦ record t { queue = rest }
    | some info ↦ record t { queue = rest; busy = some (id, info.once); called = id ∷ t.called }
  ]
]

unfoldable pub end_timer : ActorTimer → ℕ → Bool → ActorTimer
end_timer t id once = record t {
  busy = none;
  infos = if once then delete ℕ_discrete id t.infos else t.infos;
}
