-- ===== src/Actor/Events.antt =====
-- Events between actors: the index of net/actor/system.go (addActorEvent, removeActorEvent,
-- PostEvent) and an actor's own handlers of net/actor/actor_event.go. The index maps an event name
-- to the paths that listen, each with the unique id that it asks for, if it asks for one. A handler
-- is a number. The actors that a path finds are a parameter, and what PostEvent pushes to whom is
-- its result.
pub mod Delivery
use actorgo.Common.{
  ℕ, ◌&&◌, Bool, true, false, Option, none, some, List, [], ◌∷◌, ◌++◌, Text, Text_discrete,
  if◌then◌else◌, length, ◌==◌,
}
use actorgo.Common.Int.{ℤ, eq_ℤ}
use actorgo.Common.Dict.{lookup, insert, delete}
use actorgo.Actor.Mailbox.{ActorState, init_state, worker_state, stop_state}

abbrev pub Listeners : Type 0
Listeners = List (Text × Option ℤ)

abbrev pub EventMap : Type 0
EventMap = List (Text × Listeners)

pub record EventData : Type 0 where
  pub name : Text
  pub unique_id : ℤ

abbrev pub or_nobody : Option Listeners → Listeners
or_nobody none = []
or_nobody (some l) = l

abbrev pub first_id : List ℤ → Option ℤ
first_id [] = none
first_id (u ∷ us) = some u

unfoldable pub add_actor_event : EventMap → Text → Text → List ℤ → EventMap
add_actor_event m path name ids =
    insert Text_discrete name
      (insert Text_discrete path (first_id ids) (or_nobody (lookup Text_discrete name m))) m

unfoldable pub remove_one : EventMap → Text → Text → EventMap
remove_one m path name = elim (lookup Text_discrete name m) [
  | none ↦ m
  | some listeners ↦ insert Text_discrete name (delete Text_discrete path listeners) m
]

unfoldable pub remove_actor_event : EventMap → Text → List Text → EventMap
unfolding remove_one
remove_actor_event m path [] = m
remove_actor_event m path (name ∷ names) = remove_actor_event (remove_one m path name) path names

abbrev pub is_worker : Option ActorState → Bool
is_worker (some worker_state) = true
is_worker (some init_state) = false
is_worker (some stop_state) = false
is_worker none = false

abbrev pub wants : Option ℤ → ℤ → Bool
wants none id = true
wants (some u) id = eq_ℤ u id

module _ (state_of : Text → Option ActorState) where
  -- The range over the listeners: the paths of the actors whose event queue gets the event.
  unfoldable pub pushed_to : Listeners → EventData → List Text
  pushed_to [] e = []
  pushed_to ((path, id) ∷ rest) e =
      if is_worker (state_of path) && wants id e.unique_id
      then path ∷ pushed_to rest e
      else pushed_to rest e

  -- PostEvent, of an event that is not nil.
  unfoldable pub post_event : EventMap → EventData → List Text
  unfolding pushed_to
  post_event m e =
      if length e.name == 0 then [] else pushed_to (or_nobody (lookup Text_discrete e.name m)) e

-- An actor's handlers by event name, with its entries in the index.
pub record ActorEvent : Type 0 where
  pub path : Text
  pub func_map : List (Text × List ℕ)

abbrev pub or_no_handlers : Option (List ℕ) → List ℕ
or_no_handlers none = []
or_no_handlers (some fs) = fs

unfoldable pub register_event : EventMap → ActorEvent → Text → ℕ → List ℤ → EventMap × ActorEvent
unfolding add_actor_event
register_event m a name fn ids = (
  add_actor_event m a.path name ids,
  record a {
    func_map =
        insert Text_discrete name
          (or_no_handlers (lookup Text_discrete name a.func_map) ++ (fn ∷ [])) a.func_map;
  },
)

unfoldable pub register_events :
    EventMap → ActorEvent → List Text → ℕ → List ℤ → EventMap × ActorEvent
unfolding register_event
register_events m a [] fn ids = (m, a)
register_events m a (name ∷ names) fn ids =
    let (m', a') = register_event m a name fn ids in register_events m' a' names fn ids

unfoldable pub unregister_event : EventMap → ActorEvent → Text → EventMap × ActorEvent
unfolding remove_actor_event
unregister_event m a name = (
  remove_actor_event m a.path (name ∷ []),
  record a { func_map = delete Text_discrete name a.func_map },
)

-- invokeFunc: the handlers that are called, in order.
unfoldable pub invoked : ActorEvent → EventData → List ℕ
invoked a e = or_no_handlers (lookup Text_discrete e.name a.func_map)

abbrev pub event_names : List (Text × List ℕ) → List Text
event_names [] = []
event_names ((name, fs) ∷ m) = name ∷ event_names m

-- onStop: the actor leaves the index and forgets its handlers.
unfoldable pub stop_events : EventMap → ActorEvent → EventMap × ActorEvent
unfolding remove_actor_event
stop_events m a = (remove_actor_event m a.path (event_names a.func_map), record a { func_map = [] })
