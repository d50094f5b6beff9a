-- ===== src/Cluster/Rabbit.antt =====
-- net/cluster/rabbitmq_cluster/cluster.go: process and reply at the serving node, Publish, and the
-- requests of the asking node, each of which waits at a channel of its own for the delivery with its
-- correlation id. What a message is, its validation and its response are those of the NATS cluster.
-- The AMQP channel is a parameter: whether there is one, and whether it takes a message.
pub mod Waiting
pub mod Matching
pub mod Answering
use actorgo.Common.{
  ℕ, suc, ◌%◌, ◌^◌, ◌==◌, ◌&&◌, ◌||◌, not, ◌++◌, Bool, true, false, Option, none, some, List, [],
  ◌∷◌, Text, Text_discrete, Bytes, if◌then◌else◌, holds, codes, is_some,
}
use actorgo.Common.Int.{ℤ, eq_ℤ}
use actorgo.Common.Decimal.{format_uint}
use actorgo.Common.Dict.{lookup, insert, delete}
use actorgo.Facade.Result.{InvokeResult, error_result}
use actorgo.Http.Route.{status_resource_exhausted}
use actorgo.Discovery.Default.{Discovery, get_type}
use actorgo.Method.Table.{msg_type_request, msg_type_notify}
use actorgo.Cluster.Message.{
  ClusterMessage, msg_type_response, MessageError, validate_message, ClusterContext,
  message_context,
}
use actorgo.Cluster.Serving.{ClusterServices, response_of, dispatch_message, or_internal}

-- amqp.AmqpDelivery
pub record AmqpDelivery : Type 0 where
  pub reply_to : Text
  pub correlation_id : Text
  pub body : Bytes

-- amqp.Publishing, with its routing key.
pub record Publishing : Type 0 where
  pub routing_key : Text
  pub body : Bytes
  pub reply_to : Text
  pub correlation_id : Text

module _ {V : Type 0} (sv : ClusterServices V) where
  answer_with : AmqpDelivery → Option Bytes → Option Publishing
  answer_with d none = none
  answer_with d (some bytes) = some (record {
    routing_key = d.reply_to;
    body = bytes;
    reply_to = [];
    correlation_id = d.correlation_id;
  })

  -- reply
  unfoldable pub reply_delivery :
      AmqpDelivery → ClusterMessage → Option ClusterContext → InvokeResult V → Option Publishing
  unfolding answer_with response_of Text_discrete
  reply_delivery d request ctx result =
      if eq_ℤ request.msg_type msg_type_notify || holds (Text_discrete d.reply_to [])
      then none
      else answer_with d (sv.marshal (response_of sv request ctx result))

  serve_valid_delivery : AmqpDelivery → ClusterMessage → Option Publishing
  unfolding reply_delivery dispatch_message message_context
  serve_valid_delivery d request =
      if eq_ℤ request.msg_type msg_type_response
      then none
      else (let ctx = message_context request in
          reply_delivery d request (some ctx) (or_internal sv (dispatch_message sv request ctx)))

  serve_delivery : AmqpDelivery → Option ClusterMessage → Option Publishing
  unfolding serve_valid_delivery validate_message
  serve_delivery d none = none
  serve_delivery d (some request) = elim (validate_message (some request)) [
    | some e ↦ none
    | none ↦ serve_valid_delivery d request
  ]

  -- process
  unfoldable pub process_delivery : AmqpDelivery → Option Publishing
  unfolding serve_delivery
  process_delivery d = serve_delivery d (sv.unmarshal d.body)

  reject_delivered : AmqpDelivery → Option ClusterMessage → Option Publishing
  unfolding reply_delivery
  reject_delivered d none = none
  reject_delivered d (some request) =
      if eq_ℤ request.msg_type msg_type_request
      then reply_delivery d request none
          (error_result status_resource_exhausted (codes "cluster work queue is full"))
      else none

  -- rejectOverload
  unfoldable pub reject_delivery : AmqpDelivery → Option Publishing
  unfolding reject_delivered Text_discrete
  reject_delivery d =
      if holds (Text_discrete d.reply_to []) then none else reject_delivered d (sv.unmarshal d.body)

-- GetRemoteRoutingKey
unfoldable pub remote_routing_key : Text → Text → Text → Text
remote_routing_key prefix node_type node_id =
    codes "actorgo-" ++ prefix ++ codes ".remote." ++ node_type ++ codes "." ++ node_id

-- Why Publish or Request fails.
pub data RabbitError : Type 0 where
  node_required unknown_node not_marshalled not_published : RabbitError
  not_unmarshalled correlation_mismatch timed_out : RabbitError
  invalid : MessageError → RabbitError

-- The routing key and the bytes of a message that is to be sent.
pub data Prepared : Type 0 where
  ready : Text → Bytes → Prepared
  refused : RabbitError → Prepared

-- nodeRoutingKey
unfoldable pub node_routing_key : Discovery → Text → Text → Option Text
unfolding remote_routing_key
node_routing_key d prefix node = elim (get_type d node) [
  | none ↦ none
  | some t ↦ some (remote_routing_key prefix t node)
]

module _ {V : Type 0} (sv : ClusterServices V) where
  marshalled : Text → Option Bytes → Prepared
  marshalled key none = refused not_marshalled
  marshalled key (some bytes) = ready key bytes

  validated : Text → ClusterMessage → Option MessageError → Prepared
  unfolding marshalled
  validated key m (some e) = refused (invalid e)
  validated key m none = marshalled key (sv.marshal m)

  -- Publish and Request, up to the message that is to be sent.
  unfoldable pub prepare : Discovery → Text → Text → ClusterMessage → Prepared
  unfolding node_routing_key validated Text_discrete
  prepare d prefix node m =
      if holds (Text_discrete node [])
      then refused node_required
      else elim (node_routing_key d prefix node) [
        | none ↦ refused unknown_node
        | some key ↦ validated key m (validate_message (some m))
      ]

  -- Publish, where `takes` is whether the channel takes a message.
  unfoldable pub publish_rabbit :
      (Publishing → Bool) → Discovery → Text → Text → ClusterMessage → Option RabbitError
  unfolding prepare
  publish_rabbit takes d prefix node m = elim (prepare d prefix node m) [
    | refused e ↦ some e
    | ready key bytes ↦
        if takes (record { routing_key = key; body = bytes; reply_to = []; correlation_id = [] })
        then none
        else some not_published
  ]

-- A request under way: its message, where it goes and as what, and what its channel holds.
pub record Awaiting : Type 0 where
  pub message : ClusterMessage
  pub routing_key : Text
  pub bytes : Bytes
  pub content : Option AmqpDelivery

pub data RabbitOutcome : Type 0 where
  responded : ClusterMessage → RabbitOutcome
  failed : RabbitError → RabbitOutcome

-- A request that has returned.
pub record RabbitReturned : Type 0 where
  pub message : ClusterMessage
  pub routing_key : Text
  pub outcome : RabbitOutcome

-- seq; the waiters, whose keys stand for the channels of requests under way; those requests, by
-- correlation id. Beside these stand what has returned and what has been sent, latest first.
pub record Rabbit : Type 0 where
  pub seq : ℕ
  pub waiters : List (Text × Bool)
  pub awaiting : List (Text × Awaiting)
  pub returned : List RabbitReturned
  pub sent : List Publishing

unfoldable pub no_requests : Rabbit
no_requests = record { seq = 0; waiters = []; awaiting = []; returned = []; sent = [] }

-- Request, from the number that it takes up to its publish.
unfoldable pub begin_request : Rabbit → ClusterMessage → Text → Bytes → Rabbit
unfolding format_uint
begin_request r m key bytes =
    let seq = suc r.seq % 2 ^ 64 in
    let id = format_uint seq in
    record r {
      seq = seq;
      waiters = insert Text_discrete id true r.waiters;
      awaiting =
          insert Text_discrete id
            (record { message = m; routing_key = key; bytes = bytes; content = none }) r.awaiting;
    }

-- The publish of the request with this correlation id, at a node with this reply key.
unfoldable pub send_awaiting : Text → Rabbit → Text → Awaiting → Rabbit
send_awaiting reply_key r id a = record r {
  sent =
      record {
        routing_key = a.routing_key;
        body = a.bytes;
        reply_to = reply_key;
        correlation_id = id;
      }
      ∷ r.sent;
}

-- Request returns; the deferred delete of its waiter comes first.
unfoldable pub end_request : Rabbit → Text → Awaiting → RabbitOutcome → Rabbit
end_request r id a outcome = record r {
  waiters = delete Text_discrete id r.waiters;
  awaiting = delete Text_discrete id r.awaiting;
  returned =
      record { message = a.message; routing_key = a.routing_key; outcome = outcome } ∷ r.returned;
}

abbrev pub with_content : AmqpDelivery → Awaiting → Awaiting
with_content d a = if is_some a.content then a else record a { content = some d }

abbrev put_content : Rabbit → AmqpDelivery → List (Text × Awaiting)
put_content r d = elim (lookup Text_discrete d.correlation_id r.awaiting) [
  | none ↦ r.awaiting
  | some a ↦ insert Text_discrete d.correlation_id (with_content d a) r.awaiting
]

-- pumpReply, of one delivery.
unfoldable pub deliver_reply : Rabbit → AmqpDelivery → Rabbit
unfolding Text_discrete
deliver_reply r d =
    if holds (Text_discrete d.correlation_id [])
      || not (is_some (lookup Text_discrete d.correlation_id r.waiters))
    then r
    else record r {
      waiters = delete Text_discrete d.correlation_id r.waiters;
      awaiting = put_content r d;
    }

-- What Request makes of the response in its channel.
unfoldable pub outcome_of_response : ClusterMessage → Option ClusterMessage → RabbitOutcome
outcome_of_response m none = failed not_unmarshalled
outcome_of_response m (some response) =
    if not (eq_ℤ response.msg_type msg_type_response) || not (response.message_id == m.message_id)
    then failed correlation_mismatch
    else responded response
