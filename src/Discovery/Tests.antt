-- ===== src/Discovery/Tests.antt =====
-- Discovery with one member and a listener.
use actorgo.Common.{◌≡◌, refl, Text_discrete, none, some, [], codes}
use actorgo.Common.Dict.{lookup, insert}
use actorgo.Discovery.Nats.{Network, server_init, join_network, crash, on_register}
use actorgo.Discovery.Nats.Knowing.{known}
use actorgo.Discovery.Nats.Agreement.{
  no_step, then_step, joined, crashed, AllAgree, NetworkSteps-AllAgree,
}
use actorgo.Discovery.Default.{Member, Discovery, pre_init, on_add_member, add_member}

abbrev game : Member
game = record { node_id = codes "g1"; node_type = codes "game"; address = []; settings = [] }

abbrev listening : Discovery
listening = on_add_member pre_init (some 7)

abbrev one_member : Discovery
one_member = add_member pre_init game

not_there : lookup Text_discrete game.node_id listening.members ≡ none
unfolding on_add_member pre_init lookup
not_there = refl

abbrev master_node : Member
master_node = record {
  node_id = codes "m";
  node_type = codes "center";
  address = [];
  settings = [];
}

abbrev alone : Network
alone = record { master_id = codes "m"; master = server_init master_node; clients = [] }

-- One client joins, and a second one crashes after it has joined.
abbrev gate_node : Member
gate_node = record { node_id = codes "g2"; node_type = codes "gate"; address = []; settings = [] }

abbrev two_joined : Network
two_joined = crash (join_network (join_network alone game) gate_node) (codes "g2")

game_new : known alone.master game.node_id ≡ none
unfolding server_init add_member pre_init lookup insert Text_discrete
game_new = refl

gate_new : known (join_network alone game).master gate_node.node_id ≡ none
unfolding join_network on_register server_init add_member pre_init lookup insert Text_discrete
gate_new = refl

NetworkSteps-AllAgree_example : AllAgree two_joined.master two_joined.clients
NetworkSteps-AllAgree_example = NetworkSteps-AllAgree master_node two_joined (
    then_step
      (then_step (then_step no_step (joined game (λ e. cc) game_new))
        (joined gate_node (λ e. cc) gate_new))
      (crashed (codes "g2")))
