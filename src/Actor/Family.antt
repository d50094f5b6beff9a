-- ===== src/Actor/Family.antt =====
-- The goroutines of a system, from their creation to their end: CreateActor, removeActor, GetActor
-- and Stop of net/actor/system.go, net/actor/actor_child.go, and Exit and onStop of
-- net/actor/actor.go. An actor is whether its close channel has been written, and its children; here
-- every OnInit succeeds. A child whose parent has ended stands in `orphans`, under the id of that
-- parent, until it ends itself. `working` is the wait group.
pub mod Counting
pub mod Ending
pub mod Creating
pub mod Stopping
use actorgo.Common.{
  ℕ, zero, suc, ◌+◌, ◌-◌, ◌||◌, not, Bool, true, false, Option, none, some, List, [], ◌∷◌, ◌++◌,
  Text, Text_discrete, if◌then◌else◌, is_some, length,
}
use actorgo.Common.Dict.{lookup, insert, delete}
use actorgo.Actor.Life.{is_blank}

pub record Branch : Type 0 where
  pub asked : Bool
  pub children : List (Text × Bool)

pub record Forest : Type 0 where
  pub actors : List (Text × Branch)
  pub orphans : List (Text × Text)
  pub working : ℕ

abbrev pub no_actors : Forest
no_actors = record { actors = []; orphans = []; working = 0 }

abbrev pub put_branch : Forest → Text → Branch → Forest
put_branch f id b = record f { actors = insert Text_discrete id b f.actors }

-- CreateActor goes on to create where this is true. Nothing is locked: other goroutines may come
-- between this test and the store.
unfoldable pub may_create : Forest → Text → Bool
unfolding is_blank
may_create f id = not (is_blank id || is_some (lookup Text_discrete id f.actors))

-- The store of CreateActor, and the goroutine that it starts. An actor that was stored under the id
-- since the test is overwritten: it runs on, in no map.
unfoldable pub store_actor : Forest → Text → Forest
store_actor f id = record f {
  actors = insert Text_discrete id (record { asked = false; children = [] }) f.actors;
  working = suc f.working;
}

-- actorChild.Create likewise, at a top-level actor that runs.
unfoldable pub may_create_child : Branch → Text → Bool
unfolding is_blank
may_create_child b child = not (is_blank child || is_some (lookup Text_discrete child b.children))

unfoldable pub store_child : Forest → Text → Text → Forest
store_child f id child = elim (lookup Text_discrete id f.actors) [
  | none ↦ f
  | some b ↦ record f {
    actors =
        insert Text_discrete id
          (record b { children = insert Text_discrete child false b.children }) f.actors;
    working = suc f.working;
  }
]

-- Exit of a top-level actor, and of a child.
unfoldable pub exit_actor : Forest → Text → Forest
exit_actor f id = elim (lookup Text_discrete id f.actors) [
  | none ↦ f
  | some b ↦ put_branch f id (record b { asked = true })
]

exit_child_of : Forest → Text → Text → Branch → Forest
exit_child_of f id child b =
    if is_some (lookup Text_discrete child b.children)
    then put_branch f id (record b { children = insert Text_discrete child true b.children })
    else f

unfoldable pub exit_child : Forest → Text → Text → Forest
unfolding exit_child_of
exit_child f id child = elim (lookup Text_discrete id f.actors) [
  | none ↦ f
  | some b ↦ exit_child_of f id child b
]

-- System.Stop, before its wait.
unfoldable pub ask_all : List (Text × Branch) → List (Text × Branch)
ask_all [] = []
ask_all ((id, b) ∷ m) = (id, record b { asked = true }) ∷ ask_all m

unfoldable pub stop_system : Forest → Forest
unfolding ask_all
stop_system f = record f { actors = ask_all f.actors }

-- The children that child.onStop asks to exit, under the id of their parent.
unfoldable pub orphans_of : Text → List (Text × Bool) → List (Text × Text)
orphans_of id [] = []
orphans_of id ((child, asked) ∷ cs) = (id, child) ∷ orphans_of id cs

-- onStop of a top-level actor.
unfoldable pub end_actor : Forest → Text → Branch → Forest
unfolding orphans_of
end_actor f id b = record f {
  actors = delete Text_discrete id f.actors;
  orphans = orphans_of id b.children ++ f.orphans;
  working = f.working - 1;
}

-- child.Remove of the actor that GetActor finds under this id.
unfoldable pub remove_child : List (Text × Branch) → Text → Text → List (Text × Branch)
remove_child m id child = elim (lookup Text_discrete id m) [
  | none ↦ m
  | some b ↦
      insert Text_discrete id (record b { children = delete Text_discrete child b.children }) m
]

-- onStop of a child, whose parent runs or has ended.
unfoldable pub end_child : Forest → Text → Text → Forest
unfolding remove_child
end_child f id child = record f { actors = remove_child f.actors id child; working = f.working - 1 }

abbrev pub orphan_at : ℕ → List (Text × Text) → Option (Text × Text)
orphan_at n [] = none
orphan_at zero (o ∷ os) = some o
orphan_at (suc n) (o ∷ os) = orphan_at n os

abbrev pub without_orphan : ℕ → List (Text × Text) → List (Text × Text)
without_orphan n [] = []
without_orphan zero (o ∷ os) = os
without_orphan (suc n) (o ∷ os) = o ∷ without_orphan n os

unfoldable pub end_orphan : Forest → ℕ → Text → Text → Forest
unfolding end_child
end_orphan f n id child = end_child (record f { orphans = without_orphan n f.orphans }) id child
