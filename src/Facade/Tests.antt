-- ===== src/Facade/Tests.antt =====
-- Node ids and actor paths on concrete values.
use actorgo.Common.{
  ◌<◌, ◌^◌, ◌%◌, ◌≡◌, refl, inr, Text, Text_discrete, ℕ_discrete, some, [], arith, codes,
}
use actorgo.Facade.NodeId.{
  gen_node_id, get_big_world_id, get_world_id, get_node_type, get_node_inst, get-gen_node_id,
}
use actorgo.Facade.Path.{ActorPath, new_actor_path, path_string, to_actor_path, join}
use actorgo.Facade.Path.RoundTrip.{IsNodeId, to_actor_path-path_string}

-- A world id of 2 ^ 18 + 3 is cut to 3.
get-gen_node_id_example :
    (get_big_world_id (gen_node_id 1 262147 5 1) ≡ 1 % 2 ^ 10)
    × (get_world_id (gen_node_id 1 262147 5 1) ≡ 262147 % 2 ^ 18)
    × (get_node_type (gen_node_id 1 262147 5 1) ≡ 5 % 2 ^ 18)
    × (get_node_inst (gen_node_id 1 262147 5 1) ≡ 1 % 2 ^ 18)
    × (gen_node_id 1 262147 5 1 < 2 ^ 64)
get-gen_node_id_example = get-gen_node_id 1 262147 5 1

abbrev generated_id : Text
generated_id = codes "1.10001.5.1"

abbrev child_path : ActorPath
child_path = new_actor_path generated_id (codes "player") (codes "42")

generated_id-IsNodeId : IsNodeId generated_id
unfolding join
generated_id-IsNodeId = inr (
  codes "1",
  codes "10001",
  codes "5",
  codes "1",
  ground arith,
  ground arith,
  ground arith,
  ground arith,
  refl,
)

to_actor_path-path_string_example : to_actor_path (path_string child_path) ≡ some child_path
to_actor_path-path_string_example =
    to_actor_path-path_string child_path generated_id-IsNodeId (ground arith) (ground arith)

abbrev short_path : ActorPath
short_path = new_actor_path (codes "game") (codes "map") []

trailing_dot : to_actor_path (codes "game.map.") ≡ some short_path
unfolding to_actor_path Text_discrete ℕ_discrete
trailing_dot = refl
