-- ===== src/Cluster/Tests.antt =====
-- Two nodes, and a cluster with one worker.
mod Waiting
use actorgo.Common.{
  ℕ, zero, suc, ◌≡◌, refl, inr, ◌↔◌, ◌<◌, Option, none, some, [], ◌∷◌, Text, Text_discrete, Bytes,
  codes, arith, true, if◌then◌else◌,
}
use actorgo.Common.Int.{pos, eq_ℤ}
use actorgo.Common.Dict.{lookup}
use actorgo.Facade.Result.{InvokeResult, ok_result, value}
use actorgo.Method.Table.{msg_type_request}
use actorgo.Discovery.Default.{Discovery, get_type, get_member}
use actorgo.Cluster.Message.{
  ClusterMessage, validate_message, validate_message_iff, message_context, msg_type_response,
}
use actorgo.Cluster.Serving.{
  NatsMsg, Published, ClusterServices, process_message, response_of, or_internal, dispatch_message,
  reply_to,
}
use actorgo.Cluster.Serving.Answers.{IsAnswer, process_message_iff}
use actorgo.Cluster.Client.{
  request_node, request_node-answers, answer, node_subject, subject_at, remote_subject,
}
use actorgo.Cluster.Workers.{
  Cluster, init_cluster, enqueue_message, finish_message, take_message, leave, begin_stop,
  signal_stop,
}
use actorgo.Cluster.Workers.Draining.{
  ClusterSteps, no_step, then_step, received, took, finished, left, stop_began, stop_signalled,
  count, stop_drains, ClusterStep, left_to_do, stop_progress,
}

abbrev pub message : ClusterMessage
message = record {
  message_id = 8;
  msg_type = msg_type_request;
  request_id = 3;
  method_id = 40;
  target_path = [];
  metadata = [];
  codec = pos 1;
  deadline_unix_ms = pos 0;
  session = none;
  payload = 7 ∷ [];
  code = pos 0;
  message = [];
}

-- The answer of the node, whose result has the body 9.
abbrev pub response : ClusterMessage
response = record {
  message_id = 8;
  msg_type = msg_type_response;
  request_id = 3;
  method_id = 40;
  target_path = [];
  metadata = [];
  codec = pos 1;
  deadline_unix_ms = pos 0;
  session = none;
  payload = 9 ∷ [];
  code = pos 0;
  message = [];
}

-- Protobuf over these two messages.
abbrev pub unmarshal : Bytes → Option ClusterMessage
unmarshal [] = none
unmarshal (zero ∷ bs) = some message
unmarshal (suc n ∷ bs) = some response

abbrev pub services : ClusterServices ℕ
services = record {
  marshal = λ m. if eq_ℤ m.msg_type msg_type_response then some (1 ∷ []) else some (0 ∷ []);
  unmarshal = unmarshal;
  has_codecs = true;
  marshal_body = λ codec p. some (9 ∷ []);
  notify_target = λ ctx target id body. none;
  invoke_target = λ ctx target id body. none;
  dispatch = some (λ ctx id body msg_type. some (ok_result (value 5)));
}

abbrev request_msg : NatsMsg
request_msg = record { id = 1; reply = codes "inbox"; content = 0 ∷ [] }

abbrev reply_msg : Published
reply_msg = record { subject = codes "inbox"; content = 1 ∷ [] }

process_message_iff_example :
    (process_message services request_msg ≡ some reply_msg)
    ↔ IsAnswer services request_msg reply_msg
process_message_iff_example = process_message_iff services request_msg reply_msg

abbrev started : Cluster
started = init_cluster 1 1

abbrev queued_one : Cluster
queued_one = signal_stop (begin_stop (enqueue_message services started request_msg))

queued_one_Steps : ClusterSteps services started queued_one
unfolding begin_stop enqueue_message init_cluster
queued_one_Steps =
    then_step (then_step (then_step no_step (received request_msg)) stop_began)
      (stop_signalled refl)

stop_progress_example :
    (d : Cluster) × ClusterStep services queued_one d × (left_to_do d < left_to_do queued_one)
unfolding signal_stop begin_stop enqueue_message init_cluster
stop_progress_example = stop_progress services 1 1 queued_one queued_one_Steps refl (ground arith)

abbrev drained : Cluster
drained = leave (finish_message services 0 (take_message queued_one))

drained_Steps : ClusterSteps services started drained
unfolding take_message finish_message signal_stop begin_stop enqueue_message init_cluster
drained_Steps =
    then_step (then_step (then_step queued_one_Steps (took (ground arith))) (finished 0))
      (left (ground arith) refl)

drained_returned : drained.returned ≡ 1
unfolding leave take_message finish_message signal_stop begin_stop enqueue_message init_cluster
drained_returned = refl

stop_drains_example :
    (drained.work ≡ [])
    × (drained.running ≡ [])
    × ((id : ℕ) → count id drained.processed ≡ count id drained.accepted)
stop_drains_example = stop_drains services 1 1 drained (ground arith) drained_Steps drained_returned

abbrev pub members : Discovery
members = record {
  members =
      (
        codes "7",
        record { node_id = codes "7"; node_type = codes "game"; address = []; settings = [] },
      )
      ∷ [];
  on_add = [];
  on_remove = [];
  told = [];
}

abbrev game_subject : Text
game_subject = remote_subject (codes "node") (codes "game") (codes "7")

game_known : node_subject members (codes "node") (codes "7") ≡ subject_at game_subject
unfolding node_subject get_type get_member lookup Text_discrete
game_known = refl

abbrev result : InvokeResult ℕ
result = or_internal services (dispatch_message services message (message_context message))

response_is : response_of services message (some (message_context message)) result ≡ response
unfolding response_of dispatch_message message_context Text_discrete
response_is = refl

served :
    process_message services (record { id = 0; reply = codes "inbox"; content = 0 ∷ [] })
    ≡ some reply_msg
unfolding process_message validate_message response_of dispatch_message message_context
    Text_discrete reply_to
served = refl

request_node-answers_example :
    request_node services
      (λ subject bytes. some (1 ∷ []))
      members
      (codes "node")
      (codes "7")
      message
    ≡ answer (response_of services message (some (message_context message)) result)
request_node-answers_example =
    request_node-answers services (λ subject bytes. some (1 ∷ [])) members (codes "node")
      (codes "7") (codes "inbox") game_subject message (0 ∷ []) (1 ∷ [])
      (λ p h. ground (arith, served, h)) (λ e. cc) game_known
      ((validate_message_iff message).0 (unfold validate_message Text_discrete in refl)) refl
      (refl, refl) (rw response_is (refl, refl))
