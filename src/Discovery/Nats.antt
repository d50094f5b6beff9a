-- ===== src/Discovery/Nats.antt =====
-- DiscoveryNats of net/discovery/discovery_nats.go: a master that nodes register with, and what it
-- tells the others. A message is the members that it holds; the broker, and protobuf, which carries
-- them, are left out. The steps of a network deliver each message at once, to every node that
-- subscribes to it.
pub mod Knowing
pub mod Agreement
use actorgo.Common.{
  ℕ, not, Bool, true, false, Option, none, some, List, [], ◌∷◌, Text, Text_discrete, if◌then◌else◌,
  is_some, holds,
}
use actorgo.Common.Dict.{lookup}
use actorgo.Discovery.Default.{
  Member, Discovery, pre_init, same, get_member, add_member, remove_member,
}

-- The members of the range that are not the new one.
unfoldable pub members_for : Text → List (Text × Member) → List Member
members_for node [] = []
members_for node ((key, m) ∷ rest) =
    let others = members_for node rest in if same m.node_id node then others else m ∷ others

-- The master's handler of a registration: the new member, and the members that it responds with.
unfoldable pub on_register : Discovery → Member → Discovery × List Member
unfolding members_for
on_register d m = let d' = add_member d m in (d', members_for m.node_id d'.members)

-- The end of registerToMaster: the members of the response.
unfoldable pub receive_members : Discovery → List Member → Discovery
receive_members d [] = d
receive_members d (m ∷ ms) = receive_members (add_member d m) ms

-- A client's handler of a new member.
unfoldable pub on_added : Discovery → Member → Discovery
on_added d m = if is_some (get_member d m.node_id) then d else add_member d m

-- The handler of a node that leaves, at the node with this id.
unfoldable pub on_unregister : Text → Discovery → Member → Discovery
on_unregister self d m = if same m.node_id self then d else remove_member d m.node_id

-- serverInit, where the master enters itself.
unfoldable pub server_init : Member → Discovery
server_init master = add_member pre_init master

-- checkMaster registers again while the master is not known.
unfoldable pub must_register : Discovery → Text → Bool
must_register d master = not (is_some (get_member d master))

-- The master, and the clients that run, by id.
pub record Network : Type 0 where
  pub master_id : Text
  pub master : Discovery
  pub clients : List (Text × Discovery)

unfoldable pub all_added : Member → List (Text × Discovery) → List (Text × Discovery)
unfolding on_added
all_added m [] = []
all_added m ((node, d) ∷ cs) = (node, on_added d m) ∷ all_added m cs

unfoldable pub all_unregistered : Member → List (Text × Discovery) → List (Text × Discovery)
unfolding on_unregister
all_unregistered m [] = []
all_unregistered m ((node, d) ∷ cs) = (node, on_unregister node d m) ∷ all_unregistered m cs

unfoldable pub without_node : Text → List (Text × Discovery) → List (Text × Discovery)
without_node node [] = []
without_node node ((other, d) ∷ cs) =
    let rest = without_node node cs in if same other node then rest else (other, d) ∷ rest

-- A client starts: it registers, reads the response, and the master publishes it to all clients.
unfoldable pub join_network : Network → Member → Network
unfolding on_register receive_members all_added
join_network n m =
    let (master, others) = on_register n.master m in
    record n {
      master = master;
      clients = all_added m ((m.node_id, receive_members pre_init others) ∷ n.clients);
    }

-- A client stops: it publishes that it leaves, and is gone.
unfoldable pub leave_network : Network → Member → Network
unfolding all_unregistered without_node
leave_network n m = record n {
  master = on_unregister n.master_id n.master m;
  clients = without_node m.node_id (all_unregistered m n.clients);
}

-- A client is gone without a word.
unfoldable pub crash : Network → Text → Network
unfolding without_node
crash n node = record n { clients = without_node node n.clients }
