-- ===== src/Profile.antt =====
-- GetNodeWithConfig of profile/node.go: the choice of a node in the profile. The JSON of the profile
-- is the node types with their items, in the order of its keys; an item's node_id is its text and the
-- texts of its list. The regular expressions are a parameter: none where one does not compile.
pub mod Selection
mod Tests
use actorgo.Common.{
  ℕ, suc, ◌==◌, Bool, true, false, not, ◌||◌, ◌&&◌, Option, none, some, List, [], ◌∷◌, ◌++◌, Text,
  Text_discrete, if◌then◌else◌, holds, codes, length, drop, leb, is_some,
}
use actorgo.Common.Dict.{lookup}

-- The JSON of node_id: ToString, and GetString of each member.
pub record NodeIdValue : Type 0 where
  pub as_text : Text
  pub listed : List Text

pub record NodeItem : Type 0 where
  pub node_id : NodeIdValue
  pub address : Text
  pub rpc_address : Text
  pub settings : Text
  pub enabled : Bool

-- Node
pub record Node : Type 0 where
  pub node_id : Text
  pub node_type : Text
  pub address : Text
  pub rpc_address : Text
  pub settings : Text
  pub enabled : Bool

abbrev pub Profile : Type 0
Profile = List (Text × List NodeItem)

unfoldable pub has_prefix : Text → ℕ → Bool
has_prefix [] c = false
has_prefix (x ∷ t) c = x == c

unfoldable pub has_suffix : Text → ℕ → Bool
has_suffix [] c = false
has_suffix (x ∷ []) c = x == c
has_suffix (x ∷ y ∷ t) c = has_suffix (y ∷ t) c

module _ (matches : Text → Option (Text → Bool)) where
  compiled : Option (Text → Bool) → Text → Bool
  compiled none node = false
  compiled (some regex) node = regex node

  -- A node id between ^ and $.
  unfoldable pub is_regex_node_id : Text → Text → Bool
  unfolding compiled has_prefix has_suffix
  is_regex_node_id node regex =
      if not (has_prefix regex 94) || not (has_suffix regex 36)
      then false
      else compiled (matches regex) node

  abbrev pub is_listed : Text → List Text → Bool
  is_listed node [] = false
  is_listed node (id ∷ ids) =
      let rest = is_listed node ids in if holds (Text_discrete id node) then true else rest

  unfoldable pub find_node_id : Text → NodeIdValue → Bool
  unfolding is_regex_node_id Text_discrete
  find_node_id node v =
      if holds (Text_discrete v.as_text node)
      then true
      else (if is_regex_node_id node v.as_text then true else is_listed node v.listed)

  abbrev pub node_of : Text → Text → NodeItem → Node
  node_of node type item = record {
    node_id = node;
    node_type = type;
    address = item.address;
    rpc_address = item.rpc_address;
    settings = item.settings;
    enabled = item.enabled;
  }

  -- The inner loop, over the items of one type.
  unfoldable pub node_in : Text → Text → Text → List NodeItem → Option Node
  unfolding find_node_id Text_discrete
  node_in node wanted type [] = none
  node_in node wanted type (item ∷ items) =
      let rest = node_in node wanted type items in
      if not (holds (Text_discrete type wanted)) || not (find_node_id node item.node_id)
      then rest
      else some (node_of node type item)

  -- The outer loop, over the types.
  unfoldable pub node_among : Text → Text → Profile → Option Node
  unfolding node_in
  node_among node wanted [] = none
  node_among node wanted ((type, items) ∷ types) =
      let rest = node_among node wanted types in
      elim (node_in node wanted type items) [ none ↦ rest | some n ↦ some n ]

  -- GetNodeWithConfig, of a profile that may have no nodes.
  unfoldable pub get_node_with_config : Option Profile → Text → Text → Option Node
  unfolding node_among
  get_node_with_config none node wanted = none
  get_node_with_config (some p) node wanted = node_among node wanted p
