-- ===== src/Cluster/Tests/Waiting.antt =====
-- A request over RabbitMQ that is answered.
use mathlib.Core.List.{Permᴰ}
use actorgo.Common.{
  ℕ, zero, suc, ◌≡◌, refl, sym, subst, inl, inr, Option, none, some, [], ◌∷◌, Text, Text_discrete,
  Bytes, ℕ_discrete, codes, arith,
}
use actorgo.Common.Int.{ℤ_discrete, pos, pos_part}
use actorgo.Common.Decimal.{format_uint, write_digits}
use actorgo.Common.Dict.{lookup, insert, delete}
use actorgo.Proto.Packet.{Metadata}
use actorgo.Discovery.Default.{get_type, get_member}
use actorgo.Cluster.Message.{
  ClusterMessage, IsSameMessage, SameSessions, ClusterContext, validate_message, message_context,
}
use actorgo.Cluster.Serving.{ClusterServices, response_of, dispatch_message}
use actorgo.Method.Table.{msg_type_request}
use actorgo.Cluster.Client.{build_cluster_message, message_context-build_cluster_message, Arrives}
use actorgo.Cluster.Rabbit.{
  Publishing, prepare, node_routing_key, remote_routing_key, ready, Awaiting, RabbitReturned,
  responded, Rabbit, no_requests, begin_request, send_awaiting, deliver_reply, end_request,
  outcome_of_response, process_delivery, reply_delivery,
}
use actorgo.Cluster.Rabbit.Waiting.{
  Among, IsResponse, RabbitSteps, no_rabbit_step, then_rabbit, begun, published, reply_arrived,
  reply_read, IsSharedWire, delivery_of,
}
use actorgo.Cluster.Rabbit.Answering.{RabbitSteps-IsResponse}
use actorgo.Cluster.Tests.{message, response, services, members}

ClusterMessage_discrete : Discrete ClusterMessage
unfolding ℕ_discrete ℤ_discrete Text_discrete
ClusterMessage_discrete = hlevel (ℕ_discrete, ℤ_discrete, Text_discrete)

abbrev zone_first : Metadata
zone_first = (codes "zone", 8 ∷ []) ∷ (codes "trace", 7 ∷ []) ∷ []

abbrev trace_first : Metadata
trace_first = (codes "trace", 7 ∷ []) ∷ (codes "zone", 8 ∷ []) ∷ []

abbrev asked : ℕ → ℕ → ℕ → ℕ → Metadata → Bytes → ClusterMessage
asked id method request deadline metadata body = record message {
  message_id = id;
  method_id = method;
  request_id = request;
  deadline_unix_ms = pos deadline;
  metadata = metadata;
  payload = body;
}

abbrev like : ClusterMessage → Metadata → ClusterMessage
like m metadata =
    asked m.message_id m.method_id m.request_id (pos_part m.deadline_unix_ms) metadata m.payload

abbrev replied : ℕ → ℕ → ℕ → Bytes → ClusterMessage
replied id method request body = record response {
  message_id = id;
  method_id = method;
  request_id = request;
  payload = body;
}

-- Protobuf over requests without metadata or with these two entries, and over responses. It reads
-- the entries back in another order.
abbrev of_kind : ℕ → ℕ → ℕ → ℕ → ℕ → Bytes → ClusterMessage
of_kind zero id method request deadline body = asked id method request deadline [] body
of_kind (suc zero) id method request deadline body =
    asked id method request deadline trace_first body
of_kind (suc (suc n)) id method request deadline body = replied id method request body

abbrev read_wire : Bytes → Option ClusterMessage
read_wire (kind ∷ id ∷ method ∷ request ∷ deadline ∷ body) =
    some (of_kind kind id method request deadline body)
read_wire _ = none

written_as : ℕ → ClusterMessage → Bytes
written_as kind m =
    kind ∷ m.message_id ∷ m.method_id ∷ m.request_id ∷ pos_part m.deadline_unix_ms ∷ m.payload

wire : ClusterServices ℕ
unfolding written_as
wire = record services {
  unmarshal = read_wire;
  marshal = λ m. elim (ClusterMessage_discrete m (like m [])) [
    | yes plain ↦ some (written_as 0 m)
    | no other ↦ elim (ClusterMessage_discrete m (like m zone_first)) [
      | yes tagged ↦ some (written_as 1 m)
      | no neither ↦
          elim (ClusterMessage_discrete m
            (replied m.message_id m.method_id m.request_id m.payload)) [
              | yes reply ↦ some (written_as 2 m)
              | no unknown ↦ none
            ]
    ]
  ];
}

same_but_metadata :
    (m : ClusterMessage) (metadata : Metadata)
    → m.session ≡ none
    → Permᴰ m.metadata metadata
    → IsSameMessage m (record m { metadata = metadata })
same_but_metadata m metadata unset order = record {
  message_id = refl;
  msg_type = refl;
  request_id = refl;
  method_id = refl;
  target_path = refl;
  metadata = order;
  codec = refl;
  deadline_unix_ms = refl;
  session = rw unset refl;
  payload = refl;
  code = refl;
  message = refl;
}

wire_reads :
    (m : ClusterMessage) (b : Bytes)
    → wire.marshal m ≡ some b
    → (n : ClusterMessage) × (wire.unmarshal b ≡ some n) × IsSameMessage m n
unfolding wire written_as
wire_reads m b h = elim (ClusterMessage_discrete m (like m [])) [
  | yes plain ↦ (
    like m [],
    ground (arith, h, plain),
    subst (λ x. IsSameMessage x (like m [])) (sym plain)
        (same_but_metadata (like m []) [] refl Permᴰ.nil),
  )
  | no other ↦ elim (ClusterMessage_discrete m (like m zone_first)) [
    | yes tagged ↦ (
      like m trace_first,
      ground (arith, h, other, tagged),
      subst (λ x. IsSameMessage x (like m trace_first)) (sym tagged)
          (same_but_metadata (like m zone_first) trace_first refl (Permᴰ.swap refl refl)),
    )
    | no neither ↦
        let r = replied m.message_id m.method_id m.request_id m.payload in
        elim (ClusterMessage_discrete m r) [
          | yes reply ↦ (
            r,
            ground (arith, h, other, neither, reply),
            subst (λ x. IsSameMessage x r) (sym reply) (same_but_metadata r [] refl Permᴰ.nil),
          )
          | no unknown ↦ absurd (ground (arith, h, other, neither, unknown))
        ]
  ]
]

abbrev reply_key : Text
reply_key = codes "replies"

wire_shared : IsSharedWire wire (λ key. wire) reply_key
wire_shared = record { there = λ key m b h. wire_reads m b h; back = λ key m b h. wire_reads m b h }

abbrev tagged : ClusterMessage
tagged = asked 8 40 3 0 zone_first (7 ∷ [])

abbrev tagged_bytes : Bytes
tagged_bytes = 1 ∷ 8 ∷ 40 ∷ 3 ∷ 0 ∷ 7 ∷ []

abbrev reply_bytes : Bytes
reply_bytes = 2 ∷ 8 ∷ 40 ∷ 3 ∷ 0 ∷ 9 ∷ []

abbrev game_key : Text
game_key = remote_routing_key (codes "node") (codes "game") (codes "7")

prepared : prepare wire members (codes "node") (codes "7") tagged ≡ ready game_key tagged_bytes
unfolding prepare node_routing_key wire written_as ClusterMessage_discrete validate_message get_type
    get_member lookup Text_discrete ℕ_discrete ℤ_discrete
prepared = refl

abbrev waiting : Awaiting
waiting = record { message = tagged; routing_key = game_key; bytes = tagged_bytes; content = none }

abbrev reply : Publishing
reply = record {
  routing_key = reply_key;
  body = reply_bytes;
  reply_to = [];
  correlation_id = codes "1";
}

abbrev request : Publishing
request = record {
  routing_key = game_key;
  body = tagged_bytes;
  reply_to = reply_key;
  correlation_id = codes "1";
}

abbrev sent_one : Rabbit
sent_one =
    send_awaiting reply_key (begin_request no_requests tagged game_key tagged_bytes) (codes "1")
      waiting

served : process_delivery wire (delivery_of request) ≡ some reply
unfolding process_delivery reply_delivery validate_message response_of dispatch_message
    message_context wire written_as ClusterMessage_discrete Text_discrete ℕ_discrete ℤ_discrete
served = refl

abbrev got : Rabbit
got = deliver_reply sent_one (delivery_of reply)

abbrev with_reply : Awaiting
with_reply = record waiting { content = some (delivery_of reply) }

abbrev ended : Rabbit
ended =
    end_request got (codes "1") with_reply (outcome_of_response tagged (wire.unmarshal reply_bytes))

waits :
    lookup Text_discrete
      (codes "1")
      (begin_request no_requests tagged game_key tagged_bytes).awaiting
    ≡ some waiting
unfolding begin_request no_requests format_uint write_digits insert lookup Text_discrete ℕ_discrete
waits = refl

holds_reply : lookup Text_discrete (codes "1") got.awaiting ≡ some with_reply
unfolding deliver_reply send_awaiting begin_request no_requests format_uint write_digits insert
    delete lookup Text_discrete ℕ_discrete
holds_reply = refl

ended_Steps : RabbitSteps wire (λ key. wire) reply_key no_requests ended
ended_Steps =
    then_rabbit
      (then_rabbit
        (then_rabbit
          (then_rabbit no_rabbit_step (
            begun members (codes "node") (codes "7") tagged game_key tagged_bytes prepared
              (unfold no_requests in ground arith)))
          (published (codes "1") waiting waits))
        (reply_arrived (delivery_of reply) (record {
          request = request;
          was_sent = unfold send_awaiting in inl refl;
          reply = reply;
          served = inl served;
          same = refl;
        })))
      (reply_read (codes "1") with_reply (delivery_of reply) holds_reply refl)

RabbitSteps-IsResponse_example :
    ((t : RabbitReturned) (x : ClusterMessage)
      → Among t ended.returned
      → t.outcome ≡ responded x
      → IsResponse wire t.message x)
    × (ended.awaiting ≡ [] → ended.waiters ≡ [])
RabbitSteps-IsResponse_example =
    RabbitSteps-IsResponse wire (λ key. wire) reply_key ended wire_shared ended_Steps

-- The request has returned the response.
ended_returned :
    ended.returned
    ≡ record {
      message = tagged;
      routing_key = game_key;
      outcome = responded (replied 8 40 3 (9 ∷ []));
    }
      ∷ []
unfolding end_request outcome_of_response deliver_reply send_awaiting begin_request no_requests
    format_uint write_digits insert delete lookup Text_discrete ℕ_discrete ℤ_discrete wire
ended_returned = refl

-- A deadline of 500.7 milliseconds.
abbrev context : ClusterContext
context = record {
  request_id = 3;
  codec = pos 1;
  metadata = zone_first;
  session = none;
  deadline = some (pos 500700000);
}

abbrev context_bytes : Bytes
context_bytes = 1 ∷ 8 ∷ 40 ∷ 3 ∷ 500 ∷ 7 ∷ []

context_written :
    wire.marshal (build_cluster_message 7 context [] 40 msg_type_request (7 ∷ []))
    ≡ some context_bytes
unfolding build_cluster_message wire written_as ClusterMessage_discrete Text_discrete ℕ_discrete
    ℤ_discrete
context_written = refl

message_context-build_cluster_message_example :
    (m : ClusterMessage) × (wire.unmarshal context_bytes ≡ some m)
    × ((message_context m).request_id ≡ 3)
    × ((message_context m).codec ≡ pos 1)
    × Permᴰ zone_first (message_context m).metadata
    × SameSessions none (message_context m).session
    × Arrives (some (pos 500700000)) (message_context m).deadline
message_context-build_cluster_message_example =
    message_context-build_cluster_message wire.marshal wire.unmarshal 7 context [] 40
      msg_type_request (7 ∷ []) context_bytes wire_reads context_written
      (inr (500700000, refl, ground arith))
