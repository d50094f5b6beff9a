-- ===== src/Actor/Tests/Stopping.antt =====
-- System.Stop with one actor and one child.
use actorgo.Common.{◌≡◌, refl, false, [], length, Text_discrete, codes}
use actorgo.Common.Dict.{insert}
use actorgo.Actor.Family.{Branch, Forest, ask_all, no_actors, store_actor, store_child, stop_system}

abbrev map_with_child : Forest
map_with_child = store_child (store_actor no_actors (codes "map")) (codes "map") (codes "c")

abbrev stopping : Forest
stopping = stop_system map_with_child

abbrev map_branch : Branch
map_branch = record { asked = false; children = [] }

-- Two creations of one id that race: the wait group counts both actors, and one is in no map, where
-- Stop would ask it to exit.
abbrev raced : Forest
raced = stop_system (store_actor (store_actor no_actors (codes "map")) (codes "map"))

raced_waits : (length raced.actors ≡ 1) × (raced.working ≡ 2)
unfolding stop_system store_actor ask_all insert Text_discrete
raced_waits = (refl, refl)
