-- ===== src/Actor/Tests/Eventing.antt =====
-- An actor that listens to one event under a unique id.
use actorgo.Common.{◌⊎◌, none, ◌≡◌, refl, ◌↔◌, Text, Option, some, [], ◌∷◌, arith, codes}
use actorgo.Common.Int.{pos}
use actorgo.Common.Dict.{lookup}
use actorgo.Actor.Mailbox.{ActorState, worker_state}
use actorgo.Actor.Events.{EventMap, EventData, ActorEvent, add_actor_event, post_event}
use actorgo.Actor.Events.Delivery.{
  listening, IsIndex, HasPath, IsSubscribed, add_actor_event-IsIndex, post_event_iff,
}

abbrev login : EventData
login = record { name = codes "login"; unique_id = pos 7 }

abbrev map_path : Text
map_path = codes "game.map"

abbrev all_working : Text → Option ActorState
all_working path = some worker_state

abbrev one_listener : EventMap
one_listener = add_actor_event [] map_path (codes "login") (pos 7 ∷ [])

empty-IsIndex : IsIndex []
unfolding lookup
empty-IsIndex = λ name. tt

post_event_iff_example : HasPath map_path (post_event all_working one_listener login) ↔ (
    (all_working map_path ≡ some worker_state)
    × ((listening one_listener (codes "login") map_path ≡ some none)
        ⊎ (listening one_listener (codes "login") map_path ≡ some (some (pos 7)))))
post_event_iff_example =
    post_event_iff all_working one_listener login map_path
      (add_actor_event-IsIndex [] map_path (codes "login") (pos 7 ∷ []) empty-IsIndex) (omega arith)

abbrev idle : ActorEvent
idle = record { path = map_path; func_map = [] }

idle-IsSubscribed : IsSubscribed [] idle
unfolding lookup
idle-IsSubscribed = λ n h. absurd (h refl)
