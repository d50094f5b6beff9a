-- ===== src/Actor/Life.antt =====
-- How top-level actors come and go: CreateActor, GetActor and removeActor of net/actor/system.go,
-- with newActor, run up to its loop, initialize and onStop of net/actor/actor.go. An actor is its
-- path, state and mailbox; a creation, which waits for OnInit, is one step. What OnInit does
-- is the methods that it registers, in order, and whether it panics of itself; `working` counts the
-- goroutines that the system's wait group waits for.
pub mod Starting
pub mod Creating
use actorgo.Common.{
  ℕ, suc, ◌-◌, ◌&&◌, ◌||◌, ◌==◌, leb, Bool, true, false, Option, none, some, List, [], ◌∷◌, Text,
  Text_discrete, if◌then◌else◌, is_some,
}
use actorgo.Common.Dict.{lookup, insert, delete}
use actorgo.Facade.Path.{ActorPath, is_parent, is_child, new_actor_path, path_string, to_actor_path}
use actorgo.Method.Table.{Table, unregister_target}
use actorgo.Method.Invoker.{AdaptResult}
use actorgo.Actor.Mailbox.{
  ActorState, init_state, worker_state, Mailbox, Owner, Panic, Registry, new_mailbox,
  register_method,
}

pub record Init (H : Type 0) : Type 0 where
  pub methods : List (ℕ × Option (H × AdaptResult))
  pub panics : Bool

pub record LiveActor (H : Type 0) : Type 0 where
  pub path : ActorPath
  pub state : ActorState
  pub mailbox : Mailbox H

pub record Runtime (H : Type 0) : Type 0 where
  pub node_id : Text
  pub actors : List (Text × LiveActor H)
  pub table : Option Table
  pub working : ℕ

pub data Created (H : Type 0) : Type 0 where
  existing created : LiveActor H → Created H
  id_is_nil : Created H
  init_failed : Option Panic → Created H

-- unicode.IsSpace of a rune of one, two and three bytes.
abbrev pub space_1 : ℕ → Bool
space_1 a = (leb 9 a && leb a 13) || (a == 32)

abbrev pub space_2 : ℕ → ℕ → Bool
space_2 a b = (a == 194) && ((b == 133) || (b == 160))

abbrev pub space_3 : ℕ → ℕ → ℕ → Bool
space_3 a b c =
    ((a == 225) && ((b == 154) && (c == 128)))
    || (((a == 226)
          && (((b == 128)
                && ((leb 128 c && leb c 138) || ((c == 168) || ((c == 169) || (c == 175)))))
              || ((b == 129) && (c == 159))))
        || ((a == 227) && ((b == 128) && (c == 128))))

-- strings.TrimSpace(id) == ""
unfoldable pub is_blank : Text → Bool
is_blank [] = true
is_blank (a ∷ []) = space_1 a
is_blank (a ∷ b ∷ []) = let one = is_blank (b ∷ []) in (space_1 a && one) || space_2 a b
is_blank (a ∷ b ∷ c ∷ t) =
    let one = is_blank (b ∷ c ∷ t) in
    let two = is_blank (c ∷ t) in
    let three = is_blank t in
    (space_1 a && one) || ((space_2 a b && two) || (space_3 a b c && three))

abbrev pub owner_at : ActorPath → Owner
owner_at path = record { path = path; state = init_state }

-- unregister the methods of a path, where the application has a table.
abbrev pub unregister : Option Table → Text → Option Table
unregister none target = none
unregister (some t) target = some (unregister_target t target)

module _ {H : Type 0} where
  -- The registrations of OnInit, up to the first that panics, and the panic.
  unfoldable pub register_methods :
      Registry H → Owner → List (ℕ × Option (H × AdaptResult)) → Registry H × Option Panic
  register_methods r owner [] = (r, none)
  register_methods r owner ((method, handler) ∷ ms) =
      let (r', panic) = register_method r (some owner) method handler in
      let rest = register_methods r' owner ms in elim panic [ some e ↦ (r', some e) | none ↦ rest ]

  unfoldable pub get_actor : Runtime H → Text → Option (LiveActor H)
  get_actor s id = lookup Text_discrete id s.actors

  -- onStop of a top-level actor, as far as the system sees it. Its children are asked to exit.
  unfoldable pub stop_actor : Runtime H → LiveActor H → Runtime H
  stop_actor s a = record s {
    table = unregister s.table (path_string a.path);
    actors = delete Text_discrete a.path.actor_id s.actors;
    working = s.working - 1;
  }

  -- The system while the actor starts.
  abbrev pub with_actor : Runtime H → Text → LiveActor H → Option Table → Runtime H
  with_actor s id a table = record s {
    actors = insert Text_discrete id a s.actors;
    working = suc s.working;
    table = table;
  }

  pub new_actor : Runtime H → Text → Mailbox H → ActorState → LiveActor H
  new_actor s id box state = record {
    path = new_actor_path s.node_id id [];
    state = state;
    mailbox = box;
  }

  -- run up to initDone, and what CreateActor answers then.
  pub finish_init : Runtime H → Text → Registry H → Option Panic → Bool → Runtime H × Created H
  unfolding stop_actor new_actor
  finish_init s id r (some e) panics =
      let a = new_actor s id r.mailbox init_state in
      (stop_actor (with_actor s id a r.table) a, init_failed (some e))
  finish_init s id r none true =
      let a = new_actor s id r.mailbox init_state in
      (stop_actor (with_actor s id a r.table) a, init_failed none)
  finish_init s id r none false =
      let a = new_actor s id r.mailbox worker_state in (with_actor s id a r.table, created a)

  pub start_actor : Runtime H → Text → Text → Init H → Runtime H × Created H
  unfolding finish_init register_methods new_mailbox
  start_actor s name id init =
      let (r, panic) =
        register_methods (record { mailbox = new_mailbox name; table = s.table })
          (owner_at (new_actor_path s.node_id id [])) init.methods in
      finish_init s id r panic init.panics

  -- CreateActor, with the name that mailboxes have.
  unfoldable pub create_actor : Runtime H → Text → Text → Init H → Runtime H × Created H
  unfolding start_actor is_blank get_actor
  create_actor s name id init =
      if is_blank id
      then (s, id_is_nil)
      else elim (get_actor s id) [ some a ↦ (s, existing a) | none ↦ start_actor s name id init ]
