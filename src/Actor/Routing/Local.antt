-- ===== src/Actor/Routing/Local.antt =====
-- What a call that is queued or sent has passed, and that no actor waits for itself.
use actorgo.Common.{
  refl, ℕ, ◌≡◌, ◌≢◌, ◌∙◌, ap, ◌⊎◌, inl, inr, ◌<◌, true, false, Option, none, some, [], Text,
  Text_discrete, Bytes, arith, Option-cases, Bool-cases,
}
use actorgo.Facade.Path.{ActorPath, is_child, to_actor_path, path_string, new_actor_path}
use actorgo.Facade.Path.RoundTrip.{IsNodeId, IsPlain, to_actor_path-path_string}
use actorgo.Facade.Result.{Payload}
use actorgo.Method.Table.{Table, target_of}
use actorgo.Actor.Mailbox.{ActorState, init_state, worker_state, stop_state}
use actorgo.Actor.Routing.{
  Mode, invoking, notifying, RequestContext, System, queued, accepts, new_context, remote,
  call_child, local_child, local_actor, call_target, ensure_request_context, method_target,
  target_in, actor_invoke, send_body, cluster_body,
}

-- A message that is queued for a top-level actor of this node.
pub record IsQueued {V : Type 0} (s : System V) (target actor : Text) (ctx : RequestContext)
    : Type 0 where
  pub path : ActorPath
  pub parses : to_actor_path target ≡ some path
  pub top_level : is_child path ≡ false
  pub here : (path.node_id ≡ []) ⊎ (path.node_id ≡ s.node_id)
  pub names_actor : path.actor_id ≡ actor
  pub at_work : (s.actor_state actor ≡ some init_state) ⊎ (s.actor_state actor ≡ some worker_state)
  pub live : ctx.failure ≡ none
  pub limited : ctx.deadline ≢ none

accepts-cases :
    (st : Option ActorState) → accepts st ≡ true → (st ≡ some init_state) ⊎ (st ≡ some worker_state)
accepts-cases none h = absurd (cc)
accepts-cases (some init_state) h = inl refl
accepts-cases (some worker_state) h = inr refl
accepts-cases (some stop_state) h = absurd (cc)

module _ {V : Type 0} (s : System V) where
  new_context_limited :
      (ctx : RequestContext)
      → ctx.failure ≡ none
      → ((new_context s ctx).failure ≡ none) × ((new_context s ctx).deadline ≢ none)
  unfolding new_context
  new_context_limited ctx live = elim (Option-cases ctx.deadline) [
    | inl unset ↦ (ground arith, ground arith)
    | inr (t, set) ↦ (ground arith, ground arith)
  ]

  call_child-ne-queued :
      (mode : Mode) (parent child : Text) (method : ℕ) (c : RequestContext) (actor t : Text)
      (ctx : RequestContext)
      → call_child s mode parent child method c ≢ queued actor t ctx
  unfolding call_child
  call_child-ne-queued mode parent child method c actor t ctx = ground arith

  send_body-ne-queued :
      (mode : Mode) (target node : Text) (c : RequestContext) (b : Option Bytes) (actor t : Text)
      (ctx : RequestContext)
      → send_body s mode target node c b ≢ queued actor t ctx
  unfolding send_body
  send_body-ne-queued invoking target node c none actor t ctx = λ e. cc
  send_body-ne-queued notifying target node c none actor t ctx = λ e. cc
  send_body-ne-queued notifying target node c (some b) actor t ctx = λ e. cc
  send_body-ne-queued invoking target node c (some b) actor t ctx = ground arith

  remote-ne-queued :
      (mode : Mode) (target node : Text) (c : RequestContext) (payload : Payload V)
      (of_nil : Option Bytes) (actor t : Text) (ctx : RequestContext)
      → remote s mode target node c payload of_nil ≢ queued actor t ctx
  unfolding remote
  remote-ne-queued mode target node c payload of_nil actor t ctx = ground (
    arith,
    send_body-ne-queued mode target node (new_context s c) (cluster_body s c.codec payload of_nil)
        actor t ctx,
  )

  local_actor-queued :
      (mode : Mode) (target : Text) (path : ActorPath) (c : RequestContext) (actor t : Text)
      (ctx : RequestContext)
      → local_actor s mode target path c ≡ queued actor t ctx
      → (t ≡ target)
        × (path.actor_id ≡ actor)
        × (accepts (s.actor_state actor) ≡ true)
        × (ctx.failure ≡ none)
        × (ctx.deadline ≢ none)
  unfolding local_actor
  local_actor-queued mode target path c actor t ctx h = elim (Option-cases c.failure) [
    | inr (e, failed) ↦ absurd (ground arith)
    | inl live ↦
        let lim = new_context_limited c live in
        (ground arith, ground arith, ground arith, ground (arith, lim.0), ground (arith, lim.1))
  ]

  -- A message that reaches the mailbox of a top-level actor goes where its target says: the target
  -- is the path of that actor on this node, the actor is starting or at work, and the context is
  -- live and has a deadline.
  pub call_target-IsQueued :
      (mode : Mode) (c : Option RequestContext) (target : Text) (method : ℕ) (payload : Payload V)
      (of_nil : Option Bytes) (actor t : Text) (ctx : RequestContext)
      → call_target s mode c target method payload of_nil ≡ queued actor t ctx
      → (0 < method) × (t ≡ target) × IsQueued s target actor ctx
  unfolding call_target
  call_target-IsQueued mode c target method payload of_nil actor t ctx h =
      elim (Option-cases (to_actor_path target)) [
        | inl bad ↦ absurd (ground arith)
        | inr (path, good) ↦
            let away =
              remote-ne-queued mode target path.node_id (ensure_request_context s c) payload of_nil
                actor t ctx in
            let child =
              call_child-ne-queued mode path.actor_id path.child_id method
                (ensure_request_context s c) actor t ctx in
            elim (Bool-cases (is_child path)) [
              | inl below ↦ absurd (unfold local_child in ground (arith, away, child))
              | inr top ↦
                  let q =
                    local_actor-queued mode target path (ensure_request_context s c) actor t ctx
                      (ground (arith, away)) in
                  (
                    ground arith,
                    q.0,
                    record {
                      path = path;
                      parses = good;
                      top_level = top;
                      here = ground (arith, away);
                      names_actor = q.1;
                      at_work = accepts-cases (s.actor_state actor) q.2;
                      live = q.3;
                      limited = q.4;
                    },
                  )
            ]
      ]

-- Every method of the table is that of a top-level actor of this node, under its own path, as
-- Actor.Methods().Register enters it.
abbrev pub OwnTargets : {V : Type 0} → System V → Table → Type 0
OwnTargets s t =
    (method : ℕ) (target : Text)
    → target_of t method ≡ some target
    → (actor : Text) × IsPlain actor × (target ≡ path_string (new_actor_path s.node_id actor []))

-- On a node whose id is well formed and whose table has only its own actors' methods, the Invoke of
-- an actor never queues a request for that actor itself, for which it would wait for ever.
pub actor_invoke-ne-queued :
    {V : Type 0} (s : System V) (table : Table) (self : Text) (c : Option RequestContext)
    (method : ℕ) (payload : Payload V) (of_nil : Option Bytes) (t : Text) (ctx : RequestContext)
    → IsNodeId s.node_id
    → s.methods ≡ some table
    → OwnTargets s table
    → actor_invoke s (new_actor_path s.node_id self []) c method payload of_nil ≢ queued self t ctx
unfolding actor_invoke method_target target_in
actor_invoke-ne-queued s table self c method payload of_nil t ctx node has own h =
    elim (Option-cases (target_of table method)) [
      | inl gone ↦ ground arith
      | inr (target, found) ↦
          let o = own method target found in
          let reached = call_target-IsQueued s invoking c target method payload of_nil self t ctx in
          elim (Text_discrete target (path_string (new_actor_path s.node_id self []))) [
            | yes same ↦ ground arith
            | no other ↦
                let q = (reached (ground arith)).2 in
                let parsed =
                  to_actor_path-path_string (new_actor_path s.node_id o.0 []) node o.1 tt in
                let path_is : q.path ≡ new_actor_path s.node_id o.0 [] =
                  ground (arith, q.parses, parsed, o.2) in
                other (
                  o.2
                  ∙ ap (λ a. path_string (new_actor_path s.node_id a []))
                      (ground (arith, path_is, q.names_actor)))
          ]
    ]
