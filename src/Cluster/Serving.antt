-- ===== src/Cluster/Serving.antt =====
-- process and reply of net/cluster/nats_cluster/cluster.go: how a node serves a message of another
-- node. Protobuf, the body codecs, the actor system and the method table are parameters. What is
-- published is a value: nothing or one reply.
pub mod Answers
use actorgo.Common.{
  ℕ, ◌≡◌, ◌≢◌, inl, inr, ◌↔◌, ◌&&◌, ◌||◌, not, Bool, true, false, Option, none, some, [], Text,
  Text_discrete, Bytes, if◌then◌else◌, holds, codes, arith, Option-cases,
}
use actorgo.Common.Int.{ℤ, pos, eq_ℤ}
use actorgo.Facade.Result.{
  InvokeResult, Payload, nil, raw, value, error_result, is_ok, status_internal, status_unavailable,
}
use actorgo.Http.Route.{status_resource_exhausted}
use actorgo.Method.Table.{msg_type_request, msg_type_notify}
use actorgo.Cluster.Message.{
  ClusterMessage, msg_type_response, validate_message, ClusterContext, message_context, IsSendable,
  validate_message_iff,
}

-- nats.Msg, with a number to tell messages apart. `content` is its Data, and `reply` the subject for the answer.
pub record NatsMsg : Type 0 where
  pub id : ℕ
  pub reply : Text
  pub content : Bytes

pub record Published : Type 0 where
  pub subject : Text
  pub content : Bytes

-- `dispatch` is none where the application has no method table.
pub record ClusterServices (V : Type 0) : Type 0 where
  pub marshal : ClusterMessage → Option Bytes
  pub unmarshal : Bytes → Option ClusterMessage
  pub has_codecs : Bool
  pub marshal_body : ℤ → Payload V → Option Bytes
  pub notify_target : ClusterContext → Text → ℕ → Bytes → Option (InvokeResult V)
  pub invoke_target : ClusterContext → Text → ℕ → Bytes → Option (InvokeResult V)
  pub dispatch : Option (ClusterContext → ℕ → Bytes → ℤ → Option (InvokeResult V))

abbrev pub has_payload : {V : Type 0} → Payload V → Bool
has_payload nil = false
has_payload (raw b) = true
has_payload (value v) = true

module _ {V : Type 0} where
  -- The response to a request: its body where it has one, and the result.
  response_to : ClusterMessage → Bytes → InvokeResult V → ClusterMessage
  response_to request payload result = record {
    message_id = request.message_id;
    msg_type = msg_type_response;
    request_id = request.request_id;
    method_id = request.method_id;
    target_path = [];
    metadata = [];
    codec = request.codec;
    deadline_unix_ms = pos 0;
    session = none;
    payload = payload;
    code = result.code;
    message = result.message;
  }

  encoded_response : ClusterMessage → InvokeResult V → Option Bytes → ClusterMessage
  unfolding response_to
  encoded_response request result none =
      response_to request [] (error_result status_internal (codes "response body encode failed"))
  encoded_response request result (some payload) = response_to request payload result

module _ {V : Type 0} (sv : ClusterServices V) where
  -- The response that reply sends, where the context may be nil.
  unfoldable pub response_of :
      ClusterMessage → Option ClusterContext → InvokeResult V → ClusterMessage
  unfolding encoded_response response_to
  response_of request none result = response_to request [] result
  response_of request (some ctx) result =
      if is_ok (some result) && (has_payload result.payload && sv.has_codecs)
      then encoded_response request result (sv.marshal_body ctx.codec result.payload)
      else response_to request [] result

  publish_reply : Text → Option Bytes → Option Published
  publish_reply subject none = none
  publish_reply subject (some bytes) = some (record { subject = subject; content = bytes })

  unfoldable pub reply_to :
      NatsMsg → ClusterMessage → Option ClusterContext → InvokeResult V → Option Published
  unfolding publish_reply response_of
  reply_to m request ctx result =
      if eq_ℤ request.msg_type msg_type_notify || holds (Text_discrete m.reply [])
      then none
      else publish_reply m.reply (sv.marshal (response_of request ctx result))

  -- The result of a message, nil where the dispatcher gives none.
  unfoldable pub dispatch_message : ClusterMessage → ClusterContext → Option (InvokeResult V)
  dispatch_message m ctx =
      if not (holds (Text_discrete m.target_path []))
      then (if eq_ℤ m.msg_type msg_type_notify
          then sv.notify_target ctx m.target_path m.method_id m.payload
          else sv.invoke_target ctx m.target_path m.method_id m.payload)
      else elim sv.dispatch [
        | none ↦ some (error_result status_unavailable (codes "method table is not configured"))
        | some dispatch ↦ dispatch ctx m.method_id m.payload m.msg_type
      ]

  abbrev pub or_internal : Option (InvokeResult V) → InvokeResult V
  or_internal none = error_result status_internal (codes "dispatcher returned nil result")
  or_internal (some result) = result

  serve_valid : NatsMsg → ClusterMessage → Option Published
  unfolding reply_to dispatch_message message_context
  serve_valid m request =
      if eq_ℤ request.msg_type msg_type_response
      then none
      else (let ctx = message_context request in
          reply_to m request (some ctx) (or_internal (dispatch_message request ctx)))

  serve_decoded : NatsMsg → Option ClusterMessage → Option Published
  unfolding serve_valid validate_message
  serve_decoded m none = none
  serve_decoded m (some request) = elim (validate_message (some request)) [
    | some e ↦ none
    | none ↦ serve_valid m request
  ]

  -- process
  unfoldable pub process_message : NatsMsg → Option Published
  unfolding serve_decoded
  process_message m = serve_decoded m (sv.unmarshal m.content)

  reject_decoded : NatsMsg → Option ClusterMessage → Option Published
  unfolding reply_to
  reject_decoded m none = none
  reject_decoded m (some request) =
      if eq_ℤ request.msg_type msg_type_request
      then reply_to m request none
          (error_result status_resource_exhausted (codes "cluster work queue is full"))
      else none

  -- rejectOverload
  unfoldable pub reject_overload : NatsMsg → Option Published
  unfolding reject_decoded
  reject_overload m =
      if holds (Text_discrete m.reply []) then none else reject_decoded m (sv.unmarshal m.content)

  -- The reply to a request that has been served, by what the code computes.
  abbrev pub IsServed : NatsMsg → Published → Type 0
  IsServed m p =
      (request : ClusterMessage) × (sv.unmarshal m.content ≡ some request)
      × IsSendable request
      × (request.msg_type ≡ msg_type_request)
      × (m.reply ≢ [])
      × (p.subject ≡ m.reply)
      × (sv.marshal (
            response_of request (some (message_context request))
              (or_internal (dispatch_message request (message_context request))))
          ≡ some p.content)

  process_message-IsServed :
      (m : NatsMsg) (p : Published) → process_message m ≡ some p → IsServed m p
  unfolding process_message reply_to
  process_message-IsServed m p h = elim (Option-cases (sv.unmarshal m.content)) [
    | inl bad ↦ absurd (ground arith)
    | inr (request, read) ↦ elim (Option-cases (validate_message (some request))) [
      | inr (e, refused) ↦ absurd (ground arith)
      | inl valid ↦
          let s = (validate_message_iff request).0 valid in
          let response =
            response_of request (some (message_context request))
              (or_internal (dispatch_message request (message_context request))) in
          elim (Option-cases (sv.marshal response)) [
            | inl unwritten ↦ absurd (ground arith)
            | inr (bytes, written) ↦ (
              request,
              read,
              s,
              ground (arith, s.outbound),
              ground arith,
              ground arith,
              ground (arith, written),
            )
          ]
    ]
  ]

  IsServed-process_message :
      (m : NatsMsg) (p : Published) → IsServed m p → process_message m ≡ some p
  unfolding process_message reply_to
  IsServed-process_message m p (request, read, s, kind, replied, subject, written) =
      let valid = (validate_message_iff request).1 s in
      ground (arith, valid, read, kind, replied, subject, written)

  pub process_message-IsServed_iff :
      (m : NatsMsg) (p : Published) → (process_message m ≡ some p) ↔ IsServed m p
  process_message-IsServed_iff m p = (process_message-IsServed m p, IsServed-process_message m p)
