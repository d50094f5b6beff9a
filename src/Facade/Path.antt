-- ===== src/Facade/Path.antt =====
-- ActorPath of facade/message.go: the text form of an actor's address, and its parser. Ids are
-- texts; what cstring.ToString makes of ids of other types is not modelled.
pub mod RoundTrip
use actorgo.Common.{
  ℕ, Text, Text_discrete, Option, none, some, List, [], ◌∷◌, ◌++◌, Bool, not, holds, ◌==◌,
  if◌then◌else◌,
}

pub record ActorPath : Type 0 where
  pub node_id : Text
  pub actor_id : Text
  pub child_id : Text

-- cconst.DOT
abbrev pub dot : ℕ
dot = 46

abbrev pub is_empty_text : Text → Bool
is_empty_text t = holds (Text_discrete t [])

unfoldable pub is_child : ActorPath → Bool
is_child p = not (is_empty_text p.child_id)

unfoldable pub is_parent : ActorPath → Bool
is_parent p = is_empty_text p.child_id

unfoldable pub new_path : Text → Text → Text
new_path node actor = node ++ dot ∷ actor

unfoldable pub new_child_path : Text → Text → Text → Text
unfolding new_path
new_child_path node actor child =
    if is_empty_text child then new_path node actor else node ++ dot ∷ (actor ++ dot ∷ child)

-- ActorPath.String
unfoldable pub path_string : ActorPath → Text
unfolding new_child_path
path_string p = new_child_path p.node_id p.actor_id p.child_id

-- strings.Split at the dots: a list that is never empty.
abbrev pub prepend : ℕ → List Text → List Text
prepend c [] = (c ∷ []) ∷ []
prepend c (t ∷ ts) = (c ∷ t) ∷ ts

unfoldable pub split : Text → List Text
split [] = [] ∷ []
split (c ∷ t) = if c == dot then [] ∷ split t else prepend c (split t)

-- strings.Join with dots.
unfoldable pub join : List Text → Text
join [] = []
join (t ∷ []) = t
join (t ∷ u ∷ ts) = t ++ dot ∷ join (u ∷ ts)

abbrev pub new_actor_path : Text → Text → Text → ActorPath
new_actor_path node actor child = record { node_id = node; actor_id = actor; child_id = child }

unfoldable pub path_of_parts : List Text → Option ActorPath
unfolding join
path_of_parts (a ∷ b ∷ []) = some (new_actor_path a b [])
path_of_parts (a ∷ b ∷ c ∷ []) = some (new_actor_path a b c)
path_of_parts (a ∷ b ∷ c ∷ d ∷ e ∷ []) = some (new_actor_path (join (a ∷ b ∷ c ∷ d ∷ [])) e [])
path_of_parts (a ∷ b ∷ c ∷ d ∷ e ∷ f ∷ []) = some (new_actor_path (join (a ∷ b ∷ c ∷ d ∷ [])) e f)
path_of_parts _ = none

unfoldable pub to_actor_path : Text → Option ActorPath
unfolding split path_of_parts
to_actor_path path = if is_empty_text path then none else path_of_parts (split path)
