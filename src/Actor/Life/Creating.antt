-- ===== src/Actor/Life/Creating.antt =====
-- What is left of a creation that fails, and what a creation that succeeds has published.
use actorgo.Common.{
  ℕ, suc, ◌≡◌, ◌≢◌, refl, ◌⊎◌, inl, inr, Option, none, some, [], Text, Text_discrete, subst, arith,
  Option-cases, Bool-cases, append-cons-ne-nil,
}
use actorgo.Common.Dict.{lookup, lookup-insert, delete-insert_new}
use actorgo.Facade.Path.{is_parent, new_actor_path, path_string, dot}
use actorgo.Method.Table.{Table, RegisteredMethod, find, unregister_target}
use actorgo.Method.Table.Catalog.{IsCatalog, find-unregister_target}
use actorgo.Actor.Mailbox.{Panic, Registry, new_mailbox, get_method, init_state, worker_state}
use actorgo.Actor.Mailbox.Registering.{IsPublished}
use actorgo.Actor.Mailbox.Extending.{Extends}
use actorgo.Actor.Life.{
  Init, LiveActor, Runtime, existing, created, id_is_nil, init_failed, is_blank, register_methods,
  owner_at, get_actor, stop_actor, with_actor, unregister, new_actor, start_actor, create_actor,
}
use actorgo.Actor.Life.Starting.{
  register_methods-IsExtended, register_methods-IsPublished, HasMethods,
  register_methods-HasMethods,
}

path_nonempty : (node id : Text) → path_string (new_actor_path node id []) ≢ []
unfolding path_string Text_discrete
path_nonempty node id e = append-cons-ne-nil node id dot (ground arith)

-- The table after the methods of a target go again, where it had none before.
restored :
    (target : Text) (t t' : Table) (m : ℕ)
    → IsCatalog t'
    → target ≢ []
    → Extends target t t'
    → ((e : RegisteredMethod) → find t m ≡ some e → e.target ≢ target)
    → find (unregister_target t' target) m ≡ find t m
restored target t t' m v ne x none_before = elim (x m) [
  | inr (free, e, there, own) ↦
      ground (arith, find-unregister_target t' target m v ne, free, there, own)
  | inl same ↦ elim (Option-cases (find t m)) [
    | inl gone ↦ ground (arith, find-unregister_target t' target m v ne)
    | inr (e, was) ↦ ground (arith, find-unregister_target t' target m v ne, none_before e was)
  ]
]

module _ {H : Type 0} where
  -- How a creation comes out that starts an actor.
  start_actor-cases :
      (s : Runtime H) (name id : Text) (init : Init H)
      → let r =
          (register_methods
            (record { mailbox = new_mailbox name; table = s.table })
            (owner_at (new_actor_path s.node_id id []))
            init.methods) in
        ((why : Option Panic) × (start_actor s name id init ≡ (
          stop_actor
              (with_actor s id (new_actor s id r.0.mailbox init_state) r.0.table)
              (new_actor s id r.0.mailbox init_state),
          init_failed why,
        )))
        ⊎ ((r.1 ≡ none)
            × (start_actor s name id init ≡ (
              with_actor s id (new_actor s id r.0.mailbox worker_state) r.0.table,
              created (new_actor s id r.0.mailbox worker_state),
            )))
  unfolding start_actor
  start_actor-cases s name id init =
      let r =
        register_methods (record { mailbox = new_mailbox name; table = s.table })
          (owner_at (new_actor_path s.node_id id [])) init.methods in
      elim (Option-cases r.1) [
        | inr (e, failed) ↦ inl (some e, ground arith)
        | inl fine ↦ elim (Bool-cases init.panics) [
          | inl bad ↦ inl (none, ground arith)
          | inr good ↦ inr (fine, ground arith)
        ]
      ]

  create_actor-cases :
      (s : Runtime H) (name id : Text) (init : Init H)
      → (create_actor s name id init ≡ (s, id_is_nil))
        ⊎ (((a : LiveActor H) × (create_actor s name id init ≡ (s, existing a)))
            ⊎ ((get_actor s id ≡ none)
                × (create_actor s name id init ≡ start_actor s name id init)))
  unfolding create_actor
  create_actor-cases s name id init = elim (Bool-cases (is_blank id)) [
    | inl blank ↦ inl (ground arith)
    | inr named ↦ elim (Option-cases (get_actor s id)) [
      | inl free ↦ inr (inr (free, ground arith))
      | inr (a, there) ↦ inr (inl (a, ground arith))
    ]
  ]

  -- The system after a start that failed.
  failed_start :
      (s : Runtime H) (id : Text) (a : LiveActor H) (table : Option Table)
      → a.path ≡ new_actor_path s.node_id id []
      → get_actor s id ≡ none
      → stop_actor (with_actor s id a table) a
        ≡ record s { table = unregister table (path_string (new_actor_path s.node_id id [])) }
  unfolding stop_actor get_actor
  failed_start s id a table own free =
      ground (arith, delete-insert_new Text_discrete id a s.actors free)

  -- A creation whose OnInit panics leaves no trace: the actors and the count of goroutines are the
  -- old ones, and every method is served as before, on an application with a catalog that had no
  -- method of this actor.
  pub create_actor_failed :
      (s s' : Runtime H) (name id : Text) (init : Init H) (why : Option Panic) (t : Table)
      → create_actor s name id init ≡ (s', init_failed why)
      → s.table ≡ some t
      → IsCatalog t
      → ((m : ℕ) (e : RegisteredMethod)
          → find t m ≡ some e
          → e.target ≢ path_string (new_actor_path s.node_id id []))
      → (s'.actors ≡ s.actors)
        × (s'.working ≡ s.working)
        × (t' : Table) × (s'.table ≡ some t')
        × ((m : ℕ) → find t' m ≡ find t m)
  create_actor_failed s s' name id init why t h has v none_before =
      elim (create_actor-cases s name id init) [
        | inl blank ↦ absurd (ground arith)
        | inr (inl (a, there)) ↦ absurd (ground arith)
        | inr (inr (free, started)) ↦
            let target = path_string (new_actor_path s.node_id id []) in
            let box : Registry H = record { mailbox = new_mailbox name; table = s.table } in
            let owner = owner_at (new_actor_path s.node_id id []) in
            let r = register_methods box owner init.methods in
            let (t', there, w, x) =
              register_methods-IsExtended init.methods box owner t
                (unfold is_parent Text_discrete in refl) has v in
            elim (start_actor-cases s name id init) [
              | inr (fine, made) ↦ absurd (ground arith)
              | inl (why', failed) ↦
                  let after : s' ≡ record s { table = unregister r.0.table target } = ground (
                    arith,
                    failed_start s id (new_actor s id r.0.mailbox init_state) r.0.table
                        (unfold new_actor in refl) free,
                  ) in
                  (
                    ground (arith, after),
                    ground (arith, after),
                    unregister_target t' target,
                    ground (arith, after, there),
                    λ m. restored target t t' m w (path_nonempty s.node_id id) x (none_before m),
                  )
            ]
      ]

  -- A creation that succeeds has put the actor at work where the system finds it under its id, one
  -- more goroutine is counted, its mailbox has every method that OnInit registers, and each method
  -- of its mailbox is in the table of the application with the actor's path as its target.
  pub create_actor_created :
      (s s' : Runtime H) (name id : Text) (init : Init H) (a : LiveActor H) (t : Table)
      → create_actor s name id init ≡ (s', created a)
      → s.table ≡ some t
      → (get_actor s' id ≡ some a)
        × (a.state ≡ worker_state)
        × (s'.working ≡ suc s.working)
        × HasMethods (record { mailbox = a.mailbox; table = s'.table }) init.methods
        × IsPublished
            (record { mailbox = a.mailbox; table = s'.table })
            (path_string (new_actor_path s.node_id id []))
  unfolding get_actor new_actor
  create_actor_created s s' name id init a t h has = elim (create_actor-cases s name id init) [
    | inl blank ↦ absurd (ground arith)
    | inr (inl (b, there)) ↦ absurd (ground arith)
    | inr (inr (free, started)) ↦
        let box : Registry H = record { mailbox = new_mailbox name; table = s.table } in
        let owner = owner_at (new_actor_path s.node_id id []) in
        let r = register_methods box owner init.methods in
        elim (start_actor-cases s name id init) [
          | inl (why, failed) ↦ absurd (ground arith)
          | inr (fine, made) ↦
              let same : a ≡ new_actor s id r.0.mailbox worker_state = ground arith in
              let after : s' ≡ with_actor s id (new_actor s id r.0.mailbox worker_state) r.0.table =
                ground arith in
              let kept : r.0 ≡ record { mailbox = a.mailbox; table = s'.table } =
                ground (arith, same, after) in
              (
                ground (
                  arith,
                  same,
                  after,
                  lookup-insert Text_discrete id id (new_actor s id r.0.mailbox worker_state)
                      s.actors,
                ),
                ground (arith, same),
                ground (arith, after),
                subst (λ z. HasMethods z init.methods) kept
                    (register_methods-HasMethods init.methods box owner fine),
                subst (λ z. IsPublished z (path_string (new_actor_path s.node_id id []))) kept
                    (register_methods-IsPublished init.methods box owner
                      (unfold is_parent Text_discrete in refl)
                      (
                        t,
                        has,
                        λ m e g. absurd (unfold get_method new_mailbox lookup in ground arith),
                      )),
              )
        ]
  ]
