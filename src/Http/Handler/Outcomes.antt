-- ===== src/Http/Handler/Outcomes.antt =====
-- The statuses that an HTTP request is answered with.
use actorgo.Common.{
  ℕ, ◌≡◌, refl, ◌⊎◌, inl, inr, ◌↔◌, ◌<◌, ◌≤◌, Option, none, some, [], Text, Text_discrete, Bytes,
  codes, arith, Option-cases, Bool-cases, subst, sym,
}
use actorgo.Common.Int.{ℤ, eq_ℤ, eq_ℤ_eq}
use actorgo.Facade.Result.{
  InvokeResult, Payload, nil, raw, value, status_ok, status_internal, error_result,
}
use actorgo.Method.Table.{msg_type_notify}
use actorgo.Http.Options.{HttpOptions, Authenticated, caller, rejected, http_timeout}
use actorgo.Http.Route.{
  method_id_from_path, codec_from_content_type, http_status, http_status_error,
}
use actorgo.Http.Handler.{
  HttpRequest, Services, Dispatched, Served, authenticate, read_body, answer_call, dispatch_body,
  serve_authenticated, serve_codec, serve_method, serve_route, header_metadata, serve_http, refuse,
  write_result, write_body, write_error, plain_error, response_body, with_allow,
}

-- A payload of nil and transport bytes need no codec.
abbrev pub Encodes : {V : Type 0} → Services V → ℤ → Payload V → Type 0
Encodes sv codec nil = Unit
Encodes sv codec (raw body) = Unit
Encodes sv codec (value v) = (body : Bytes) × (sv.marshal codec v ≡ some body)

module _ {V : Type 0} (sv : Services V) where
  refuse_status :
      (codec : ℤ) (status : ℕ) (id : Text) (code : ℤ) (message : Text)
      → ((refuse sv codec status id code message).response.status ≡ status)
        × ((refuse sv codec status id code message).call ≡ none)
  unfolding refuse write_error plain_error
  refuse_status codec status id code message = ground arith

  write_error_status :
      (codec : ℤ) (status : ℕ) (id : Text) (r : InvokeResult V)
      → (write_error sv codec status id r).status ≡ status
  unfolding write_error plain_error
  write_error_status codec status id r = ground arith

  write_body_status :
      (codec : ℤ) (id : Text) (payload : Payload V)
      → ((write_body sv codec id (response_body sv codec payload)).status < 400)
        ↔ Encodes sv codec payload
  unfolding write_body response_body
  write_body_status codec id nil = (λ h. tt, λ h. omega arith)
  write_body_status codec id (raw b) = (λ h. tt, λ h. omega arith)
  write_body_status codec id (value v) = elim (Option-cases (sv.marshal codec v)) [
    | inl bad ↦ (λ h. absurd (ground arith), λ h. absurd (ground arith))
    | inr (b, good) ↦ (λ h. (b, good), λ h. ground arith)
  ]

  write_result_status :
      (codec : ℤ) (id : Text) (result : Option (InvokeResult V))
      → ((write_result sv codec id result).status < 400) ↔ (
          (r : InvokeResult V) × (result ≡ some r)
          × (r.code ≡ status_ok)
          × Encodes sv codec r.payload)
  unfolding write_result
  write_result_status codec id none =
      let e = http_status_error status_internal refl in
      let w =
        write_error_status codec (http_status status_internal) id
          (error_result status_internal (codes "method table returned nil result")) in
      (λ h. absurd (ground (arith, e, w)), λ h. absurd (ground arith))
  write_result_status codec id (some r) = elim (Bool-cases (eq_ℤ r.code status_ok)) [
    | inr bad ↦
        (λ h. absurd (ground (arith, http_status_error r.code bad)), λ h. absurd (ground arith))
    | inl good ↦
        let w = write_body_status codec id r.payload in
        (λ h. (r, refl, eq_ℤ_eq r.code status_ok good, w.0 (ground arith)), λ h. ground arith)
  ]

  -- The call has been answered well.
  abbrev pub Succeeds : Dispatched → Type 0
  Succeeds c =
      (r : InvokeResult V) × (sv.dispatch c.context c.method_id c.body c.msg_type ≡ some r)
      × (r.code ≡ status_ok)
      × ((c.msg_type ≡ msg_type_notify) ⊎ Encodes sv c.context.codec r.payload)

  -- The answer to a call, as answer_call gives it.
  abbrev answer_of : Dispatched → Served
  answer_of c = answer_call sv c.context c (sv.dispatch c.context c.method_id c.body c.msg_type)

  answer_of_status : (c : Dispatched) → ((answer_of c).response.status < 400) ↔ Succeeds c
  unfolding answer_call
  answer_of_status c =
      let w =
        write_result_status c.context.codec (sv.format_id c.context.request_id)
          (sv.dispatch c.context c.method_id c.body c.msg_type) in
      elim (Option-cases (sv.dispatch c.context c.method_id c.body c.msg_type)) [
        | inl gone ↦ (λ h. absurd (ground (arith, w.0)), λ h. absurd (ground arith))
        | inr (r, there) ↦ elim (Bool-cases (eq_ℤ r.code status_ok)) [
          | inr bad ↦ (
            λ h. let x = w.0 (ground arith) in absurd (ground (arith, x)),
            λ h. absurd (ground arith),
          )
          | inl good ↦ elim (Bool-cases (eq_ℤ c.msg_type msg_type_notify)) [
            | inl one_way ↦ (
              λ h. (
                r,
                there,
                eq_ℤ_eq r.code status_ok good,
                inl (eq_ℤ_eq c.msg_type msg_type_notify one_way),
              ),
              λ h. ground arith,
            )
            | inr call ↦ (
              λ h. let x = w.0 (ground arith) in (x.0, x.1, x.2, inr x.3),
              λ h. elim h.3 [
                | inl one_way ↦ absurd (ground (arith, one_way))
                | inr encodes ↦ ground (arith, w.1 (h.0, h.1, h.2, encodes))
              ],
            )
          ]
        ]
      ]

  -- A request is either refused, or answered with what its call gives.
  abbrev IsServed : Served → Type 0
  IsServed s =
      ((s.call ≡ none) × (400 ≤ s.response.status))
      ⊎ ((c : Dispatched) × (s ≡ answer_of c) × (s.call ≡ some c))

  serve_authenticated-IsServed :
      (o : HttpOptions HttpRequest) (request : HttpRequest) (request_id id : ℕ) (msg_type codec : ℤ)
      (auth : Authenticated)
      → IsServed (serve_authenticated sv o request request_id id msg_type codec auth)
  unfolding serve_authenticated dispatch_body answer_call refuse write_error plain_error
  serve_authenticated-IsServed o request request_id id msg_type codec (rejected why) =
      inl (refl, ground arith)
  serve_authenticated-IsServed o request request_id id msg_type codec (caller session) =
      elim (Option-cases (read_body o.max_body_size request.body)) [
        | inl big ↦ inl (ground arith, ground arith)
        | inr (body, fits) ↦ inr (
          record {
            context = record {
              request_id = request_id;
              codec = codec;
              session = session;
              metadata = header_metadata request.header o.metadata_headers [];
              timeout = http_timeout o (request.header (codes "X-ActorGo-Timeout-Ms"));
            };
            method_id = id;
            body = body;
            msg_type = msg_type;
          },
          ground arith,
          ground arith,
        )
      ]

  serve_http-IsServed :
      (o : HttpOptions HttpRequest) (request_id : ℕ) (request : HttpRequest)
      → IsServed (serve_http sv o request_id request)
  unfolding serve_http serve_route serve_method serve_codec refuse with_allow write_error
      plain_error
  serve_http-IsServed o request_id request = elim (Text_discrete request.method (codes "POST")) [
    | no other ↦ inl (ground arith, ground arith)
    | yes post ↦ elim (Option-cases (method_id_from_path request.path)) [
      | inl off ↦ inl (ground arith, ground arith)
      | inr (id, route) ↦ elim (Option-cases (sv.msg_type id)) [
        | inl unknown ↦ inl (ground arith, ground arith)
        | inr (msg_type, known) ↦
            elim (Option-cases (
              codec_from_content_type sv.parse_media_type
                (request.header (codes "Content-Type")))) [
                  | inl media ↦ inl (ground arith, ground arith)
                  | inr (codec, good) ↦
                      let same : serve_http sv o request_id request
                          ≡ serve_authenticated sv o request request_id id msg_type codec
                              (authenticate o request) =
                        ground arith in
                      subst IsServed (sym same) (
                        serve_authenticated-IsServed o request request_id id msg_type codec
                          (authenticate o request))
                ]
      ]
    ]
  ]

  -- The status is below 400 exactly if the request called Dispatch, the result is OK, and it is a
  -- notification or its payload can be encoded; every request that is refused, or whose call fails,
  -- has a status of an error.
  pub serve_http-Succeeds_iff :
      (o : HttpOptions HttpRequest) (request_id : ℕ) (request : HttpRequest)
      → ((serve_http sv o request_id request).response.status < 400)
        ↔ ((c : Dispatched) × ((serve_http sv o request_id request).call ≡ some c) × Succeeds c)
  serve_http-Succeeds_iff o request_id request = elim (serve_http-IsServed o request_id request) [
    | inl (refused, bad) ↦
        (λ h. absurd (omega (arith, h, bad)), λ h. absurd (ground (arith, refused, h.1)))
    | inr (c, same, call) ↦ (
      λ h. (c, call, (answer_of_status c).0 (ground (arith, h, same))),
      λ h.
          let it : h.0 ≡ c = ground (arith, call, h.1) in
          ground (arith, same, (answer_of_status c).1 (subst Succeeds it h.2)),
    )
  ]
