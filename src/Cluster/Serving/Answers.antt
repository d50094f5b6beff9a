-- ===== src/Cluster/Serving/Answers.antt =====
-- What a node answers to a message, described without the code that makes the answer.
use actorgo.Common.{
  ℕ, zero, suc, ◌*◌, ◌^◌, ◌≡◌, ◌≢◌, refl, ◌⊎◌, inl, inr, ◌↔◌, true, false, Option, none, some, [],
  Text, Text_discrete, Bytes, arith, Option-cases, Bool-cases, codes,
}
use actorgo.Common.Int.{ℤ, pos, negsuc, eq_ℤ, eq_ℤ_eq}
use actorgo.Facade.Result.{
  InvokeResult, Payload, nil, raw, value, error_result, status_internal, status_unavailable,
  status_ok,
}
use actorgo.Method.Table.{msg_type_request}
use actorgo.Cluster.Message.{
  ClusterMessage, msg_type_response, ClusterContext, message_context, IsSendable,
}
use actorgo.Cluster.Serving.{
  NatsMsg, Published, ClusterServices, has_payload, response_of, dispatch_message, or_internal,
  process_message, process_message-IsServed_iff,
}

-- The context of a request: its fields, and its deadline in nanoseconds if that is after 1970.
pub record IsContext (request : ClusterMessage) (ctx : ClusterContext) : Type 0 where
  pub request_id : ctx.request_id ≡ request.request_id
  pub codec : ctx.codec ≡ request.codec
  pub metadata : ctx.metadata ≡ request.metadata
  pub session : ctx.session ≡ request.session
  pub deadline :
      ((ms : ℕ) × (request.deadline_unix_ms ≡ pos (suc ms))
        × (ctx.deadline ≡ some (pos (suc ms * 10 ^ 6))))
      ⊎ (((request.deadline_unix_ms ≡ pos 0) ⊎ ((n : ℕ) × (request.deadline_unix_ms ≡ negsuc n)))
          × (ctx.deadline ≡ none))

-- A response to a request, of this body, code and text.
abbrev pub response_with : ClusterMessage → Bytes → ℤ → Text → ClusterMessage
response_with request body code text = record {
  message_id = request.message_id;
  msg_type = msg_type_response;
  request_id = request.request_id;
  method_id = request.method_id;
  target_path = [];
  metadata = [];
  codec = request.codec;
  deadline_unix_ms = pos 0;
  session = none;
  payload = body;
  code = code;
  message = text;
}

message_context-IsContext : (request : ClusterMessage) → IsContext request (message_context request)
message_context-IsContext request =
    unfold message_context in
    record {
      request_id = refl;
      codec = refl;
      metadata = refl;
      session = refl;
      deadline = from request.deadline_unix_ms refl;
    }
  where
    from :
        (d : ℤ)
        → request.deadline_unix_ms ≡ d
        → ((ms : ℕ) × (request.deadline_unix_ms ≡ pos (suc ms))
            × ((message_context request).deadline ≡ some (pos (suc ms * 10 ^ 6))))
          ⊎ (((request.deadline_unix_ms ≡ pos 0)
                ⊎ ((n : ℕ) × (request.deadline_unix_ms ≡ negsuc n)))
              × ((message_context request).deadline ≡ none))
    from (pos zero) e = inr (inl e, unfold message_context in ground (arith, e))
    from (pos (suc ms)) e = inl (ms, e, unfold message_context in ground (arith, e))
    from (negsuc n) e = inr (inr (n, e), unfold message_context in ground (arith, e))

IsContext-eq :
    (request : ClusterMessage) (ctx : ClusterContext)
    → IsContext request ctx
    → message_context request ≡ ctx
unfolding message_context
IsContext-eq request ctx c =
    ground (arith, c.request_id, c.codec, c.metadata, c.session, c.deadline)

module _ {V : Type 0} (sv : ClusterServices V) where
  -- Who is called for a request: the actor at its target, or the method table where it has none.
  pub data IsCalled (request : ClusterMessage) (ctx : ClusterContext) (o : Option (InvokeResult V))
      : Type 0 where
    at_target :
        request.target_path ≢ []
        → o ≡ sv.invoke_target ctx request.target_path request.method_id request.payload
        → IsCalled request ctx o
    at_method :
        (dispatch : ClusterContext → ℕ → Bytes → ℤ → Option (InvokeResult V))
        → request.target_path ≡ []
        → sv.dispatch ≡ some dispatch
        → o ≡ dispatch ctx request.method_id request.payload msg_type_request
        → IsCalled request ctx o
    no_table :
        request.target_path ≡ []
        → sv.dispatch ≡ none
        → o ≡ some (error_result status_unavailable (codes "method table is not configured"))
        → IsCalled request ctx o

  -- A result with a body to send.
  pub record HasBody (r : InvokeResult V) : Type 0 where
    pub fine : r.code ≡ status_ok
    pub some_payload : r.payload ≢ nil
    pub codecs : sv.has_codecs ≡ true

  -- The response to what the call gave: nothing, a result without a body to send, one whose body is
  -- encoded with the request's codec, or one whose body cannot be encoded.
  pub data IsReported (request : ClusterMessage) (o : Option (InvokeResult V)) (x : ClusterMessage)
      : Type 0 where
    nil_result :
        o ≡ none
        → x ≡ response_with request [] status_internal (codes "dispatcher returned nil result")
        → IsReported request o x
    bodiless :
        (r : InvokeResult V)
        → o ≡ some r
        → (r.code ≢ status_ok) ⊎ ((r.payload ≡ nil) ⊎ (sv.has_codecs ≡ false))
        → x ≡ response_with request [] r.code r.message
        → IsReported request o x
    with_body :
        (r : InvokeResult V) (body : Bytes)
        → o ≡ some r
        → HasBody r
        → sv.marshal_body request.codec r.payload ≡ some body
        → x ≡ response_with request body r.code r.message
        → IsReported request o x
    unencoded :
        (r : InvokeResult V)
        → o ≡ some r
        → HasBody r
        → sv.marshal_body request.codec r.payload ≡ none
        → x ≡ response_with request [] status_internal (codes "response body encode failed")
        → IsReported request o x

  pub record IsAnswer (m : NatsMsg) (p : Published) : Type 0 where
    pub request : ClusterMessage
    pub ctx : ClusterContext
    pub result : Option (InvokeResult V)
    pub response : ClusterMessage
    pub decoded : sv.unmarshal m.content ≡ some request
    pub sendable : IsSendable request
    pub kind : request.msg_type ≡ msg_type_request
    pub asks_reply : m.reply ≢ []
    pub context : IsContext request ctx
    pub called : IsCalled request ctx result
    pub reported : IsReported request result response
    pub subject : p.subject ≡ m.reply
    pub written : sv.marshal response ≡ some p.content

  dispatch_message-IsCalled :
      (request : ClusterMessage) (ctx : ClusterContext)
      → request.msg_type ≡ msg_type_request
      → IsCalled request ctx (dispatch_message sv request ctx)
  unfolding dispatch_message
  dispatch_message-IsCalled request ctx kind = elim (Text_discrete request.target_path []) [
    | no named ↦ at_target named (ground (arith, kind, named))
    | yes unnamed ↦ elim (Option-cases sv.dispatch) [
      | inl missing ↦ no_table unnamed missing (ground (arith, kind, unnamed, missing))
      | inr (dispatch, table) ↦
          at_method dispatch unnamed table (ground (arith, kind, unnamed, table))
    ]
  ]

  IsCalled-eq :
      (request : ClusterMessage) (ctx : ClusterContext) (o : Option (InvokeResult V))
      → request.msg_type ≡ msg_type_request
      → IsCalled request ctx o
      → dispatch_message sv request ctx ≡ o
  unfolding dispatch_message
  IsCalled-eq request ctx o kind (at_target named e) = ground (arith, kind, named, e)
  IsCalled-eq request ctx o kind (at_method dispatch unnamed table e) =
      ground (arith, kind, unnamed, table, e)
  IsCalled-eq request ctx o kind (no_table unnamed missing e) =
      ground (arith, kind, unnamed, missing, e)

  response_of-IsReported :
      (request : ClusterMessage) (ctx : ClusterContext) (o : Option (InvokeResult V))
      → ctx.codec ≡ request.codec
      → IsReported request o (response_of sv request (some ctx) (or_internal sv o))
  unfolding response_of
  response_of-IsReported request ctx none codec = nil_result refl (ground arith)
  response_of-IsReported request ctx (some r) codec = elim (Bool-cases (eq_ℤ r.code status_ok)) [
    | inr bad ↦ bodiless r refl (inl (λ e. ground (arith, bad, e))) (ground (arith, bad))
    | inl good ↦ elim (Bool-cases (has_payload r.payload)) [
      | inr empty ↦
          bodiless r refl (inr (inl (payload_nil r.payload empty))) (ground (arith, empty))
      | inl full ↦ elim (Bool-cases sv.has_codecs) [
        | inr missing ↦ bodiless r refl (inr (inr missing)) (ground (arith, missing))
        | inl codecs ↦
            let body : HasBody r = record {
              fine = eq_ℤ_eq r.code status_ok good;
              some_payload = λ e. ground (arith, full, e);
              codecs = codecs;
            } in
            elim (Option-cases (sv.marshal_body request.codec r.payload)) [
              | inl failed ↦
                  unencoded r refl body failed (ground (arith, good, full, codecs, codec, failed))
              | inr (bytes, encoded) ↦
                  with_body r bytes refl body encoded
                    (ground (arith, good, full, codecs, codec, encoded))
            ]
      ]
    ]
  ]
    where
      payload_nil : (p : Payload V) → has_payload p ≡ false → p ≡ nil
      payload_nil nil h = refl
      payload_nil (raw b) h = absurd (cc)
      payload_nil (value v) h = absurd (cc)

  HasBody-tests :
      (r : InvokeResult V)
      → HasBody r
      → (eq_ℤ r.code status_ok ≡ true) × (has_payload r.payload ≡ true) × (sv.has_codecs ≡ true)
  HasBody-tests r b = (ground (arith, b.fine), full r.payload b.some_payload, b.codecs)
    where
      full : (p : Payload V) → p ≢ nil → has_payload p ≡ true
      full nil ne = absurd (ne refl)
      full (raw x) ne = refl
      full (value v) ne = refl

  IsReported-eq :
      (request : ClusterMessage) (ctx : ClusterContext) (o : Option (InvokeResult V))
      (x : ClusterMessage)
      → ctx.codec ≡ request.codec
      → IsReported request o x
      → response_of sv request (some ctx) (or_internal sv o) ≡ x
  unfolding response_of
  IsReported-eq request ctx o x codec (nil_result e same) = ground (arith, e, same)
  IsReported-eq request ctx o x codec (bodiless r e (inl bad) same) =
      let wrong : eq_ℤ r.code status_ok ≡ false = elim (Bool-cases (eq_ℤ r.code status_ok)) [
        | inl good ↦ absurd (bad (eq_ℤ_eq r.code status_ok good))
        | inr wrong ↦ wrong
      ] in
      ground (arith, e, same, wrong)
  IsReported-eq request ctx o x codec (bodiless r e (inr why) same) = ground (arith, e, same, why)
  IsReported-eq request ctx o x codec (with_body r body e has encoded same) =
      let t = HasBody-tests r has in ground (arith, e, same, t, codec, encoded)
  IsReported-eq request ctx o x codec (unencoded r e has failed same) =
      let t = HasBody-tests r has in ground (arith, e, same, t, codec, failed)

  -- A message is answered exactly if it decodes to a valid request, names a subject for the answer
  -- and the response can be written. The one answer goes to that subject. It carries the request's
  -- ids and codec, and what the actor at the request's target, or the method table where it has none,
  -- gave for its method and payload under its context: code and text, and the body of a result that
  -- is OK, has a payload and can be encoded with the request's codec; or an error of its own, where
  -- there is no table, no result, or the encoding fails.
  pub process_message_iff :
      (m : NatsMsg) (p : Published) → (process_message sv m ≡ some p) ↔ IsAnswer m p
  process_message_iff m p = (
    λ h.
        let (request, decoded, sendable, kind, asks, subject, written) =
          (process_message-IsServed_iff sv m p).0 h in
        record {
          request = request;
          ctx = message_context request;
          result = dispatch_message sv request (message_context request);
          response =
              response_of sv request (some (message_context request))
                (or_internal sv (dispatch_message sv request (message_context request)));
          decoded = decoded;
          sendable = sendable;
          kind = kind;
          asks_reply = asks;
          context = message_context-IsContext request;
          called = dispatch_message-IsCalled request (message_context request) kind;
          reported =
              response_of-IsReported request (message_context request)
                (dispatch_message sv request (message_context request))
                (message_context-IsContext request).codec;
          subject = subject;
          written = written;
        },
    λ a.
        let c = IsContext-eq a.request a.ctx a.context in
        let d = IsCalled-eq a.request a.ctx a.result a.kind a.called in
        let r = IsReported-eq a.request a.ctx a.result a.response a.context.codec a.reported in
        (process_message-IsServed_iff sv m p).1 (
          a.request,
          a.decoded,
          a.sendable,
          a.kind,
          a.asks_reply,
          a.subject,
          rw c (rw d (rw r a.written)),
        ),
  )
