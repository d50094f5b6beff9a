-- ===== src/Actor/Family/Stopping.antt =====
-- System.Stop over every history of a system.
use actorgo.Common.{◌≡◌, true, some, Text, Text_discrete}
use actorgo.Common.Dict.{lookup}
use actorgo.Actor.Family.{
  Branch, Forest, may_create, may_create_child, store_actor, store_child, exit_actor, exit_child,
}
use actorgo.Actor.Family.Ending.{Ends}
use actorgo.Actor.Family.Creating.{NoOrphan}

-- What happens to a system while it runs. When a creation stores an actor, its id is still free, as
-- it was when CreateActor tested it, and is that of no orphan's parent; when one stores a child, its
-- parent still runs and has none of that id.
pub data FamilyStep (f : Forest) : Forest → Type 0 where
  actor_stored :
      (id : Text) → may_create f id ≡ true → NoOrphan id f.orphans → FamilyStep f (store_actor f id)
  child_stored :
      (id child : Text) (b : Branch)
      → lookup Text_discrete id f.actors ≡ some b
      → may_create_child b child ≡ true
      → FamilyStep f (store_child f id child)
  actor_exited : (id : Text) → FamilyStep f (exit_actor f id)
  child_exited : (id child : Text) → FamilyStep f (exit_child f id child)
  one_ended : {g : Forest} → Ends f g → FamilyStep f g

pub data FamilySteps (f : Forest) : Forest → Type 0 where
  no_family_step : FamilySteps f f
  then_family : {g h : Forest} → FamilySteps f g → FamilyStep g h → FamilySteps f h

-- The ends that come after Stop.
pub data EndsMany (f : Forest) : Forest → Type 0 where
  none_ended : EndsMany f f
  then_ended : {g h : Forest} → EndsMany f g → Ends g h → EndsMany f h
