-- ===== src/Discovery/Default.antt =====
-- DiscoveryDefault of net/discovery/discovery_default.go. The sync.Map is an association list, whose
-- order is the order in which Range visits it. A listener is a number, and `told` what has been
-- called, in order. The profile file is what it says for each node type: a list of items. Where
-- Random draws, the index drawn is a parameter.
pub mod Members
use actorgo.Common.{
  ℕ, ◌-◌, ◌&&◌, not, Bool, true, false, Option, none, some, List, [], ◌∷◌, ◌++◌, map, Text,
  Text_discrete, holds, if◌then◌else◌, is_some, length, ◌==◌,
}
use actorgo.Common.Dict.{lookup, insert, delete}

-- The fields of a member that this discovery reads or sets; LastAt and HeartbeatTimeout are not.
pub record Member : Type 0 where
  pub node_id : Text
  pub node_type : Text
  pub address : Text
  pub settings : List (Text × Text)

pub data Event : Type 0 where
  added removed : ℕ → Member → Event

pub record Discovery : Type 0 where
  pub members : List (Text × Member)
  pub on_add : List ℕ
  pub on_remove : List ℕ
  pub told : List Event

unfoldable pub pre_init : Discovery
pre_init = record { members = []; on_add = []; on_remove = []; told = [] }

abbrev pub same : Text → Text → Bool
same a b = holds (Text_discrete a b)

-- cslice.StringIn
abbrev pub string_in : Text → List Text → Bool
string_in t [] = false
string_in t (x ∷ xs) = if same t x then true else string_in t xs

unfoldable pub get_member : Discovery → Text → Option Member
get_member d node = if same node [] then none else lookup Text_discrete node d.members

unfoldable pub get_type : Discovery → Text → Option Text
unfolding get_member
get_type d node = elim (get_member d node) [ none ↦ none | some m ↦ some m.node_type ]

-- Map: a new map of the members under their own ids, filled in the order of the range.
unfoldable pub member_map : List (Text × Member) → List (Text × Member) → List (Text × Member)
member_map filled [] = filled
member_map filled ((key, m) ∷ rest) = member_map (insert Text_discrete m.node_id m filled) rest

unfoldable pub list_members : Text → List Text → List (Text × Member) → List Member
list_members node_type filter [] = []
list_members node_type filter ((key, m) ∷ rest) =
    if same m.node_type node_type && not (string_in m.node_id filter)
    then m ∷ list_members node_type filter rest
    else list_members node_type filter rest

unfoldable pub list_by_type : Discovery → Text → List Text → List Member
unfolding list_members
list_by_type d node_type filter = list_members node_type filter d.members

abbrev pub nth : ℕ → List Member → Option Member
nth n [] = none
nth n (m ∷ ms) = if n == 0 then some m else nth (n - 1) ms

unfoldable pub pick : (ℕ → ℕ) → List Member → Option Member
pick intn [] = none
pick intn (m ∷ []) = some m
pick intn (m ∷ m' ∷ ms) = nth (intn (length (m ∷ m' ∷ ms))) (m ∷ m' ∷ ms)

-- Random; `intn` is what rand.Intn draws below its argument.
unfoldable pub random : Discovery → (ℕ → ℕ) → Text → Option Member
unfolding pick list_by_type
random d intn node_type = pick intn (list_by_type d node_type [])

-- LoadOrStore, and the listeners where it stored.
unfoldable pub add_member : Discovery → Member → Discovery
add_member d m = if is_some (lookup Text_discrete m.node_id d.members) then d else record d {
  members = insert Text_discrete m.node_id m d.members;
  told = d.told ++ map (λ l. added l m) d.on_add;
}

-- LoadAndDelete, and the listeners where it deleted.
unfoldable pub remove_member : Discovery → Text → Discovery
remove_member d node = elim (lookup Text_discrete node d.members) [
  | none ↦ d
  | some m ↦ record d {
    members = delete Text_discrete node d.members;
    told = d.told ++ map (λ l. removed l m) d.on_remove;
  }
]

unfoldable pub on_add_member : Discovery → Option ℕ → Discovery
on_add_member d none = d
on_add_member d (some l) = record d { on_add = d.on_add ++ (l ∷ []) }

unfoldable pub on_remove_member : Discovery → Option ℕ → Discovery
on_remove_member d none = d
on_remove_member d (some l) = record d { on_remove = d.on_remove ++ (l ∷ []) }

-- Load: the items of a node type up to the first one without an id or with an id that is taken.
unfoldable pub load_items : Discovery → Text → List Member → Discovery
unfolding get_member
load_items d node_type [] = d
load_items d node_type (item ∷ items) =
    let m = record item { node_type = node_type } in
    let rest =
      load_items (record d { members = insert Text_discrete item.node_id m d.members }) node_type
        items in
    if same item.node_id [] then d else (if is_some (get_member d item.node_id) then d else rest)

unfoldable pub load_types : Discovery → List (Text × List Member) → Discovery
unfolding load_items
load_types d [] = d
load_types d ((node_type, items) ∷ rest) = load_types (load_items d node_type items) rest

-- `none` where the profile file has no `node`.
unfoldable pub load : Discovery → Option (List (Text × List Member)) → Discovery
unfolding load_types
load d none = d
load d (some config) = load_types d config
