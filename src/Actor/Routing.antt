-- ===== src/Actor/Routing.antt =====
-- How a call finds its actor: Invoke, InvokeNode, InvokeTarget and the Notify forms of
-- net/actor/system.go, and InvokeChild, NotifyChild and Invoke of net/actor/actor.go. The two forms
-- of a call take the same way, so `Mode` tells them apart. A call ends with an answer at once, in
-- the mailbox of an actor of this node, or with the cluster; what comes back from there is not
-- modelled. Times are in nanoseconds.
pub mod Local
use actorgo.Common.{
  ℕ, ◌+◌, ◌&&◌, ◌||◌, not, Bool, true, false, Option, none, some, List, [], ◌∷◌, Text,
  Text_discrete, Bytes, if◌then◌else◌, codes, holds, ◌==◌, leb,
}
use actorgo.Common.Int.{ℤ, pos, eq_ℤ, leb_ℤ}
use actorgo.Facade.Path.{ActorPath, is_child, to_actor_path, new_child_path, path_string}
use actorgo.Facade.Result.{
  InvokeResult, Payload, nil, raw, value, ok_result, error_result, status_invalid_argument,
  status_unavailable, status_not_found, status_failed_precondition, status_internal,
  status_deadline_exceeded, status_cancelled,
}
use actorgo.Method.Table.{Table, target_of, ContextError, deadline_exceeded, cancelled}
use actorgo.Actor.Mailbox.{ActorState, init_state, worker_state, stop_state}

pub data Mode : Type 0 where
  invoking notifying : Mode

-- What the routing reads of a request context: its codec, the error of its Go context and its
-- deadline.
pub record RequestContext : Type 0 where
  pub codec : ℤ
  pub failure : Option ContextError
  pub deadline : Option ℕ

-- The system as a call sees it: this node's id, the actors and children that are found, the method
-- table, whether there is a cluster, the codecs and the clock.
pub record System (V : Type 0) : Type 0 where
  pub node_id : Text
  pub actor_state : Text → Option ActorState
  pub finds_child : Text → Text → Bool
  pub methods : Option Table
  pub has_cluster : Bool
  pub default_codec : ℤ
  pub encode_body : ℤ → V → Option Bytes
  pub call_timeout : ℕ
  pub now : ℕ

pub data Delivery (V : Type 0) : Type 0 where
  answered : InvokeResult V → Delivery V
  queued : Text → Text → RequestContext → Delivery V
  queued_child : Text → Text → Text → RequestContext → Delivery V
  sent : Text → Text → Bytes → RequestContext → Delivery V
  crashed : Delivery V

abbrev pub same_text : Text → Text → Bool
same_text a b = holds (Text_discrete a b)

-- contextFailure; the message is the operation's, with what happened to it.
unfoldable pub context_failure : {V : Type 0} → ContextError → Mode → InvokeResult V
context_failure deadline_exceeded invoking =
    error_result status_deadline_exceeded (codes "actor invoke deadline exceeded")
context_failure deadline_exceeded notifying =
    error_result status_deadline_exceeded (codes "actor notify deadline exceeded")
context_failure cancelled invoking = error_result status_cancelled (codes "actor invoke cancelled")
context_failure cancelled notifying = error_result status_cancelled (codes "actor notify cancelled")

-- post takes a message for an actor that is starting or at work.
abbrev pub accepts : Option ActorState → Bool
accepts (some init_state) = true
accepts (some worker_state) = true
accepts (some stop_state) = false
accepts none = false

abbrev pub empty_context : RequestContext
empty_context = record { codec = pos 0; failure = none; deadline = none }

module _ {V : Type 0} (s : System V) where
  -- ensureRequestContext
  unfoldable pub ensure_request_context : Option RequestContext → RequestContext
  ensure_request_context none = record empty_context { codec = s.default_codec }
  ensure_request_context (some ctx) =
      if eq_ℤ ctx.codec (pos 0) then record ctx { codec = s.default_codec } else ctx

  -- newInvokeContext and newNotifyContext, of a context that is not cancelled: each keeps the
  -- deadline, or sets one.
  unfoldable pub new_context : RequestContext → RequestContext
  new_context ctx = elim ctx.deadline [
    | some t ↦ ctx
    | none ↦ record ctx { deadline = some (s.now + s.call_timeout) }
  ]

  -- encodeClusterPayload; a payload of nil is left to the codecs.
  cluster_body : ℤ → Payload V → Option Bytes → Option Bytes
  cluster_body codec (raw b) of_nil = some b
  cluster_body codec (value v) of_nil = s.encode_body codec v
  cluster_body codec nil of_nil = of_nil

  send_body : Mode → Text → Text → RequestContext → Option Bytes → Delivery V
  send_body invoking target node ctx none =
      answered (error_result status_internal (codes "cluster request body encode failed"))
  send_body notifying target node ctx none =
      answered (error_result status_internal (codes "cluster notify body encode failed"))
  send_body notifying target node ctx (some b) = sent node target b ctx
  send_body invoking target node ctx (some b) = elim ctx.deadline [
    | none ↦ sent node target b ctx
    | some t ↦
        if leb t s.now
        then answered
            (error_result status_deadline_exceeded (codes "cluster request deadline exceeded"))
        else sent node target b ctx
  ]

  -- invokeRemote and notifyRemote.
  unfoldable pub remote :
      Mode → Text → Text → RequestContext → Payload V → Option Bytes → Delivery V
  unfolding send_body cluster_body new_context context_failure
  remote mode target node ctx payload of_nil =
      if not s.has_cluster
      then answered (error_result status_unavailable (codes "cluster is not configured"))
      else elim ctx.failure [
        | some e ↦ answered (context_failure e mode)
        | none ↦
            send_body mode target node (new_context ctx) (cluster_body ctx.codec payload of_nil)
      ]

  -- InvokeChild and NotifyChild of the parent with this id. A child id with a dot can make a path
  -- that does not parse; findChildActor then reads the child id of a nil path.
  unfoldable pub call_child : Mode → Text → Text → ℕ → RequestContext → Delivery V
  unfolding new_context context_failure
  call_child mode parent child method ctx =
      if method == 0
      then answered (error_result status_invalid_argument (codes "method id is required"))
      else (if same_text child []
          then answered (error_result status_invalid_argument (codes "child id is required"))
          else elim ctx.failure [
            | some e ↦ answered (context_failure e mode)
            | none ↦ elim (to_actor_path (new_child_path s.node_id parent child)) [
              | none ↦ crashed
              | some path ↦
                  if s.finds_child parent path.child_id
                  then queued_child parent path.child_id (new_child_path s.node_id parent child)
                      (new_context ctx)
                  else answered (error_result status_not_found (codes "child actor not found"))
            ]
          ])

  not_found : Delivery V
  not_found = answered (error_result status_not_found (codes "actor not found"))

  local_child : Mode → ActorPath → ℕ → RequestContext → Delivery V
  unfolding not_found
  local_child mode path method ctx = elim (s.actor_state path.actor_id) [
    | none ↦ not_found
    | some st ↦ call_child mode path.actor_id path.child_id method ctx
  ]

  local_actor : Mode → Text → ActorPath → RequestContext → Delivery V
  unfolding new_context context_failure not_found
  local_actor mode target path ctx = elim ctx.failure [
    | some e ↦ answered (context_failure e mode)
    | none ↦
        if accepts (s.actor_state path.actor_id)
        then queued path.actor_id target (new_context ctx)
        else not_found
  ]

  call_path : Mode → Text → ActorPath → ℕ → RequestContext → Payload V → Option Bytes → Delivery V
  unfolding local_child local_actor
  call_path mode target path method ctx payload of_nil =
      if not (same_text path.node_id []) && not (same_text path.node_id s.node_id)
      then remote mode target path.node_id ctx payload of_nil
      else (if is_child path
          then local_child mode path method ctx
          else local_actor mode target path ctx)

  -- InvokeTarget and NotifyTarget. `of_nil` is what the codecs make of a nil payload.
  unfoldable pub call_target :
      Mode → Option RequestContext → Text → ℕ → Payload V → Option Bytes → Delivery V
  unfolding call_path
  call_target mode ctx target method payload of_nil =
      if method == 0
      then answered (error_result status_invalid_argument (codes "method id is required"))
      else elim (to_actor_path target) [
        | none ↦ answered (error_result status_invalid_argument (codes "invalid actor target"))
        | some path ↦ call_path mode target path method (ensure_request_context ctx) payload of_nil
      ]

  pub data Target : Type 0 where
    target_at : Text → Target
    no_target : InvokeResult V → Target

  target_in : ℕ → Table → Target
  target_in method t = elim (target_of t method) [
    | none ↦ no_target (error_result status_not_found (codes "top-level actor method not found"))
    | some target ↦ target_at target
  ]

  unfoldable pub method_target : ℕ → Target
  unfolding target_in
  method_target method =
      if method == 0
      then no_target (error_result status_invalid_argument (codes "method id is required"))
      else elim s.methods [
        | none ↦
            no_target (error_result status_unavailable (codes "method table is not initialized"))
        | some t ↦ target_in method t
      ]

  -- Invoke and Notify.
  unfoldable pub call_method :
      Mode → Option RequestContext → ℕ → Payload V → Option Bytes → Delivery V
  unfolding method_target
  call_method mode ctx method payload of_nil = elim (method_target method) [
    | no_target r ↦ answered r
    | target_at target ↦ call_target mode ctx target method payload of_nil
  ]

  -- InvokeNode and NotifyNode.
  unfoldable pub call_node :
      Mode → Option RequestContext → Text → ℕ → Payload V → Option Bytes → Delivery V
  call_node mode ctx node method payload of_nil =
      if method == 0
      then answered (error_result status_invalid_argument (codes "method id is required"))
      else (if same_text node [] || same_text node s.node_id
          then call_method mode ctx method payload of_nil
          else remote mode [] node (ensure_request_context ctx) payload of_nil)

  -- Actor.Invoke, of the actor with this path.
  unfoldable pub actor_invoke :
      ActorPath → Option RequestContext → ℕ → Payload V → Option Bytes → Delivery V
  actor_invoke self ctx method payload of_nil = elim (method_target method) [
    | no_target r ↦ answered r
    | target_at target ↦
        if same_text target (path_string self)
        then answered (
            error_result status_failed_precondition
              (codes "actor cannot synchronously invoke itself"))
        else call_target invoking ctx target method payload of_nil
  ]
