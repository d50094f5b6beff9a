-- ===== src/Actor/Tests/Living.antt =====
-- Creations on a node with an empty catalog.
use actorgo.Common.{ℕ, ◌≡◌, refl, false, Text_discrete, ℕ_discrete, none, some, [], ◌∷◌, codes}
use actorgo.Common.Dict.{lookup, insert}
use actorgo.Facade.Path.{new_actor_path, is_parent, path_string, is_child, to_actor_path}
use actorgo.Method.Table.{Table, new_table, find, register}
use actorgo.Method.Table.Catalog.{new-IsCatalog}
use actorgo.Method.Invoker.{adapted}
use actorgo.Actor.Mailbox.{missing_argument, new_mailbox, register_method, worker_state, install}
use actorgo.Actor.Mailbox.Registering.{IsPublished}
use actorgo.Actor.Tests.Registering.{unary_handler}
use actorgo.Actor.Life.{
  Init, LiveActor, Runtime, created, init_failed, create_actor, get_actor, register_methods,
  is_blank,
}
use actorgo.Actor.Life.Starting.{HasMethods}
use actorgo.Actor.Life.Creating.{create_actor_failed, create_actor_created}

abbrev node : Runtime ℕ
node = record { node_id = codes "game"; actors = []; table = some new_table; working = 0 }

-- The second registration panics.
abbrev bad_init : Init ℕ
bad_init = record {
  methods = (40, some (9, adapted unary_handler)) ∷ (0, none) ∷ [];
  panics = false;
}

abbrev good_init : Init ℕ
good_init = record { methods = (40, some (9, adapted unary_handler)) ∷ []; panics = false }

abbrev after_bad : Runtime ℕ
after_bad = (create_actor node (codes "mail") (codes "map") bad_init).0

bad_fails :
    create_actor node (codes "mail") (codes "map") bad_init
    ≡ (after_bad, init_failed (some missing_argument))
unfolding create_actor get_actor is_blank register_methods register_method register lookup insert
    find new_table to_actor_path is_child is_parent path_string Text_discrete ℕ_discrete new_mailbox
bad_fails = refl

create_actor_failed_example :
    (after_bad.actors ≡ [])
    × (after_bad.working ≡ 0)
    × (t' : Table) × (after_bad.table ≡ some t')
    × ((m : ℕ) → find t' m ≡ find new_table m)
create_actor_failed_example =
    create_actor_failed node after_bad (codes "mail") (codes "map") bad_init (some missing_argument)
      new_table bad_fails refl new-IsCatalog (λ m e h. absurd (unfold find new_table lookup in cc))

abbrev after_good : Runtime ℕ
after_good = (create_actor node (codes "mail") (codes "map") good_init).0

abbrev map_actor : LiveActor ℕ
map_actor = record {
  path = new_actor_path (codes "game") (codes "map") [];
  state = worker_state;
  mailbox = install (new_mailbox (codes "mail")) 40 9 unary_handler;
}

good_created :
    create_actor node (codes "mail") (codes "map") good_init ≡ (after_good, created map_actor)
unfolding create_actor get_actor is_blank register_methods register_method register lookup insert
    find new_table to_actor_path is_child is_parent path_string Text_discrete ℕ_discrete new_mailbox
    install
good_created = refl

create_actor_created_example :
    (get_actor after_good (codes "map") ≡ some map_actor)
    × (worker_state ≡ worker_state)
    × (after_good.working ≡ 1)
    × HasMethods
        (record { mailbox = map_actor.mailbox; table = after_good.table })
        good_init.methods
    × IsPublished
        (record { mailbox = map_actor.mailbox; table = after_good.table })
        (path_string (new_actor_path (codes "game") (codes "map") []))
create_actor_created_example =
    create_actor_created node after_good (codes "mail") (codes "map") good_init map_actor new_table
      good_created refl
