-- ===== src/Actor/Tests/Calling.antt =====
-- Calls on a node with one actor and one method.
use actorgo.Common.{
  ℕ, ◌≡◌, ◌≢◌, refl, ◌<◌, inl, true, Text, Text_discrete, ℕ_discrete, none, some, [], ◌∷◌, arith,
  codes,
}
use actorgo.Common.Int.{pos}
use actorgo.Common.Dict.{lookup}
use actorgo.Facade.Path.{new_actor_path, path_string, to_actor_path, is_child}
use actorgo.Facade.Path.RoundTrip.{IsNodeId}
use actorgo.Facade.Result.{value}
use actorgo.Method.Table.{Table, target_of, msg_type_request}
use actorgo.Actor.Mailbox.{worker_state}
use actorgo.Actor.Routing.{
  System, RequestContext, invoking, queued, call_target, actor_invoke, ensure_request_context,
  new_context,
}
use actorgo.Actor.Routing.Local.{IsQueued, OwnTargets, call_target-IsQueued, actor_invoke-ne-queued}

abbrev game_map : Text
game_map = path_string (new_actor_path (codes "game") (codes "map") [])

abbrev table : Table
table = (40, record { msg_type = msg_type_request; target = game_map }) ∷ []

abbrev node : System ℕ
node = record {
  node_id = codes "game";
  actor_state = λ a. some worker_state;
  finds_child = λ parent child. true;
  methods = some table;
  has_cluster = true;
  default_codec = pos 1;
  encode_body = λ codec n. none;
  call_timeout = 100;
  now = 5;
}

abbrev timed : RequestContext
timed = record { codec = pos 1; failure = none; deadline = some 105 }

map_queued :
    call_target node invoking none (codes "game.map") 40 (value 3) none
    ≡ queued (codes "map") (codes "game.map") timed
unfolding call_target to_actor_path is_child ensure_request_context new_context Text_discrete
    ℕ_discrete
map_queued = refl

call_target-IsQueued_example :
    (0 < 40)
    × (codes "game.map" ≡ codes "game.map")
    × IsQueued node (codes "game.map") (codes "map") timed
call_target-IsQueued_example =
    call_target-IsQueued node invoking none (codes "game.map") 40 (value 3) none (codes "map")
      (codes "game.map") timed map_queued

game-IsNodeId : IsNodeId (codes "game")
game-IsNodeId = inl (ground arith)

node-OwnTargets : OwnTargets node table
unfolding target_of lookup
node-OwnTargets = λ method target h. (codes "map", ground arith, ground arith)

actor_invoke-ne-queued_example :
    actor_invoke node (new_actor_path (codes "game") (codes "map") []) none 40 (value 3) none
    ≢ queued (codes "map") game_map timed
actor_invoke-ne-queued_example =
    actor_invoke-ne-queued node table (codes "map") none 40 (value 3) none game_map timed
      game-IsNodeId refl node-OwnTargets
