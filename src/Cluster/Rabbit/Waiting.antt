-- ===== src/Cluster/Rabbit/Waiting.antt =====
-- The requests of a node that wait for their replies, in any order of goroutines and deliveries.
use actorgo.Common.{
  suc, ◌≡◌, refl, ◌⊎◌, inl, inr, ◌<◌, ◌^◌, none, some, List, [], ◌∷◌, Text, Text_discrete, Bytes,
  codes, arith, Option-cases,
}
use actorgo.Common.Dict.{lookup}
use actorgo.Facade.Result.{error_result}
use actorgo.Http.Route.{status_resource_exhausted}
use actorgo.Discovery.Default.{Discovery}
use actorgo.Cluster.Message.{ClusterMessage, IsSameMessage, validate_message, message_context}
use actorgo.Cluster.Serving.{ClusterServices, response_of, dispatch_message, or_internal}
use actorgo.Cluster.Rabbit.{
  AmqpDelivery, Publishing, process_delivery, reject_delivery, reply_delivery, ready, prepare,
  Awaiting, failed, not_published, timed_out, Rabbit, begin_request, send_awaiting, end_request,
  deliver_reply, outcome_of_response,
}

abbrev pub Among : {A : Type 0} → A → List A → Type 0
Among a [] = ⊥
Among a (x ∷ xs) = (x ≡ a) ⊎ Among a xs

abbrev pub delivery_of : Publishing → AmqpDelivery
delivery_of p = record { reply_to = p.reply_to; correlation_id = p.correlation_id; body = p.body }

-- The two responses that a node may give to a request: of its dispatch, or of a full queue.
abbrev pub Responds : {V : Type 0} → ClusterServices V → ClusterMessage → ClusterMessage → Type 0
Responds node m x =
    (x
      ≡ response_of node m (some (message_context m))
          (or_internal node (dispatch_message node m (message_context m))))
    ⊎ (x
        ≡ response_of node m none
            (error_result status_resource_exhausted (codes "cluster work queue is full")))

-- What arrives of such a response to a request, each read back up to the order of its maps.
abbrev pub IsResponse : {V : Type 0} → ClusterServices V → ClusterMessage → ClusterMessage → Type 0
IsResponse node m x =
    (n : ClusterMessage) × IsSameMessage m n
    × (y : ClusterMessage) × Responds node n y
    × IsSameMessage y x

pub process_delivery_content :
    {V : Type 0} (node : ClusterServices V) (d : AmqpDelivery) (q : Publishing) (m : ClusterMessage)
    → node.unmarshal d.body ≡ some m
    → process_delivery node d ≡ some q
    → (q.correlation_id ≡ d.correlation_id)
      × (x : ClusterMessage) × Responds node m x
      × (node.marshal x ≡ some q.body)
unfolding process_delivery reply_delivery
process_delivery_content node d q m read h =
    let x =
      response_of node m (some (message_context m))
        (or_internal node (dispatch_message node m (message_context m))) in
    elim (Option-cases (validate_message (some m))) [
      | inr (e, bad) ↦ absurd (ground (arith, read, h, bad))
      | inl valid ↦ elim (Option-cases (node.marshal x)) [
        | inl unwritten ↦ absurd (ground (arith, read, h, valid, unwritten))
        | inr (bytes, written) ↦ (
          ground (arith, read, h, valid, written),
          x,
          inl refl,
          ground (arith, read, h, valid, written),
        )
      ]
    ]

pub reject_delivery_content :
    {V : Type 0} (node : ClusterServices V) (d : AmqpDelivery) (q : Publishing) (m : ClusterMessage)
    → node.unmarshal d.body ≡ some m
    → reject_delivery node d ≡ some q
    → (q.correlation_id ≡ d.correlation_id)
      × (x : ClusterMessage) × Responds node m x
      × (node.marshal x ≡ some q.body)
unfolding reject_delivery reply_delivery
reject_delivery_content node d q m read h =
    let x =
      response_of node m none
        (error_result status_resource_exhausted (codes "cluster work queue is full")) in
    elim (Option-cases (node.marshal x)) [
      | inl unwritten ↦ absurd (ground (arith, read, h, unwritten))
      | inr (bytes, written) ↦
          (ground (arith, read, h, written), x, inr refl, ground (arith, read, h, written))
    ]

-- A reply has the correlation id of the request.
pub process_delivery_named :
    {V : Type 0} (node : ClusterServices V) (d : AmqpDelivery) (q : Publishing)
    → (process_delivery node d ≡ some q) ⊎ (reject_delivery node d ≡ some q)
    → q.correlation_id ≡ d.correlation_id
unfolding process_delivery reject_delivery
process_delivery_named node d q h = elim (Option-cases (node.unmarshal d.body)) [
  | inl unread ↦
      absurd (elim h [ inl p ↦ ground (arith, p, unread) | inr p ↦ ground (arith, p, unread) ])
  | inr (m, read) ↦ elim h [
    | inl p ↦ (process_delivery_content node d q m read p).0
    | inr p ↦ (reject_delivery_content node d q m read p).0
  ]
]

module _ {V : Type 0} (sv : ClusterServices V) (servers : Text → ClusterServices V)
    (reply_key : Text) where
  -- What the broker delivers at the reply queue: a reply of the node that a request was sent to.
  pub record IsReply (sent : List Publishing) (d : AmqpDelivery) : Type 0 where
    pub request : Publishing
    pub was_sent : Among request sent
    pub reply : Publishing
    pub served :
        (process_delivery (servers request.routing_key) (delivery_of request) ≡ some reply)
        ⊎ (reject_delivery (servers request.routing_key) (delivery_of request) ≡ some reply)
    pub same : d ≡ delivery_of reply

  pub data RabbitStep (r : Rabbit) : Rabbit → Type 0 where
    begun :
        (d : Discovery) (prefix node : Text) (m : ClusterMessage) (key : Text) (bytes : Bytes)
        → prepare sv d prefix node m ≡ ready key bytes
        → suc r.seq < 2 ^ 64
        → RabbitStep r (begin_request r m key bytes)
    published :
        (id : Text) (a : Awaiting)
        → lookup Text_discrete id r.awaiting ≡ some a
        → RabbitStep r (send_awaiting reply_key r id a)
    unpublished :
        (id : Text) (a : Awaiting)
        → lookup Text_discrete id r.awaiting ≡ some a
        → RabbitStep r (end_request r id a (failed not_published))
    reply_arrived : (d : AmqpDelivery) → IsReply r.sent d → RabbitStep r (deliver_reply r d)
    reply_read :
        (id : Text) (a : Awaiting) (d : AmqpDelivery)
        → lookup Text_discrete id r.awaiting ≡ some a
        → a.content ≡ some d
        → RabbitStep r (end_request r id a (outcome_of_response a.message (sv.unmarshal d.body)))
    timer_fired :
        (id : Text) (a : Awaiting)
        → lookup Text_discrete id r.awaiting ≡ some a
        → RabbitStep r (end_request r id a (failed timed_out))

  pub data RabbitSteps (r : Rabbit) : Rabbit → Type 0 where
    no_rabbit_step : RabbitSteps r r
    then_rabbit : {s t : Rabbit} → RabbitSteps r s → RabbitStep s t → RabbitSteps r t

  -- Protobuf of this node and of every other: what one writes the other reads back, up to
  -- the order of maps.
  pub record IsSharedWire : Type 0 where
    pub there :
        (key : Text) (m : ClusterMessage) (b : Bytes)
        → sv.marshal m ≡ some b
        → (n : ClusterMessage) × ((servers key).unmarshal b ≡ some n) × IsSameMessage m n
    pub back :
        (key : Text) (m : ClusterMessage) (b : Bytes)
        → (servers key).marshal m ≡ some b
        → (n : ClusterMessage) × (sv.unmarshal b ≡ some n) × IsSameMessage m n
