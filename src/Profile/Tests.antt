-- ===== src/Profile/Tests.antt =====
-- A profile with two types of node.
use actorgo.Common.{
  ◌≡◌, ◌↔◌, refl, Bool, true, Option, some, List, [], ◌∷◌, Text, Text_discrete, codes,
}
use actorgo.Common.Dict.{lookup}
use actorgo.Profile.{NodeItem, Node, Profile, get_node_with_config, node_of}
use actorgo.Profile.Selection.{IsFirst, get_node_with_config_iff}

abbrev any_map : NodeItem
any_map = record {
  node_id = record { as_text = codes "^1.*$"; listed = [] };
  address = codes "a";
  rpc_address = [];
  settings = [];
  enabled = true;
}

abbrev gate : NodeItem
gate = record any_map { node_id = record { as_text = []; listed = codes "20" ∷ [] } }

abbrev two_types : Profile
two_types = (codes "gate", gate ∷ []) ∷ (codes "map", any_map ∷ []) ∷ []

-- A compiler that takes every expression for one that matches everything.
abbrev all_match : Text → Option (Text → Bool)
all_match regex = some (λ node. true)

abbrev map_node : Node
map_node = node_of all_match (codes "17") (codes "map") any_map

get_node_with_config_iff_example :
    (get_node_with_config all_match (some two_types) (codes "17") (codes "map") ≡ some map_node) ↔ (
      (items : List NodeItem) × (item : NodeItem) × (lookup Text_discrete (codes "map") two_types
        ≡ some items)
      × IsFirst all_match (codes "17") item items
      × (map_node ≡ node_of all_match (codes "17") (codes "map") item))
get_node_with_config_iff_example =
    get_node_with_config_iff all_match two_types (codes "17") (codes "map") map_node
      (unfold lookup Text_discrete in (refl, (refl, tt)))
