-- ===== src/Application/Tests.antt =====
-- An application with one component beside the actor system.
use actorgo.Common.{◌≡◌, refl, ◌⊎◌, false, [], ◌∷◌, codes}
use actorgo.Application.{Component, Application, startup, with_system}
use actorgo.Application.Numbers.{numbers, as_init, as_before_stop, as_stop, reversed}
use actorgo.Application.Mirror.{IsFine, startup_mirrors}

abbrev system : Component
system = record {
  id = 1;
  name = codes "actor_system";
  set_panics = false;
  init_panics = false;
  after_init_panics = false;
}

abbrev gate : Component
gate = record {
  id = 2;
  name = codes "gate";
  set_panics = false;
  init_panics = false;
  after_init_panics = false;
}

abbrev fresh : Application
fresh = record { running = false; components = []; on_shutdown = 9 ∷ [] }

abbrev with_gate : Application
with_gate = record fresh { components = gate ∷ [] }

startup_mirrors_example :
    ((¬ IsFine (with_system system with_gate).components)
      × (numbers as_before_stop (startup system with_gate).1 ≡ [])
      × (numbers as_stop (startup system with_gate).1 ≡ []))
    ⊎ (IsFine (with_system system with_gate).components
        × (numbers as_before_stop (startup system with_gate).1
            ≡ reversed (numbers as_init (startup system with_gate).1))
        × (numbers as_stop (startup system with_gate).1
            ≡ reversed (numbers as_init (startup system with_gate).1)))
startup_mirrors_example = startup_mirrors system with_gate refl
