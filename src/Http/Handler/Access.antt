-- ===== src/Http/Handler/Access.antt =====
-- Which HTTP requests reach an actor.
use actorgo.Common.{
  ℕ, ◌≡◌, refl, ◌⊎◌, inl, inr, ◌↔◌, Option, none, some, [], Text_discrete, Bytes, length, codes,
  arith, Option-cases,
}
use actorgo.Common.Int.{ℤ, pos, ◌≤ℤ◌}
use actorgo.Parser.Connection.State.{Session}
use actorgo.Http.Options.{HttpOptions, Authenticated, caller, rejected, http_timeout}
use actorgo.Http.Route.{method_id_from_path, codec_from_content_type}
use actorgo.Http.Handler.{
  HttpRequest, Services, Dispatched, header_metadata, authenticate, read_body, answer_call,
  dispatch_body, serve_authenticated, serve_codec, serve_method, serve_route, serve_http, refuse,
}

-- The call that a request makes, by what the handler reads from it.
abbrev pub call_of :
    HttpOptions HttpRequest → HttpRequest → ℕ → ℕ → ℤ → ℤ → Option Session → Bytes → Dispatched
call_of o request request_id id msg_type codec session body = record {
  context = record {
    request_id = request_id;
    codec = codec;
    session = session;
    metadata = header_metadata request.header o.metadata_headers [];
    timeout = http_timeout o (request.header (codes "X-ActorGo-Timeout-Ms"));
  };
  method_id = id;
  body = body;
  msg_type = msg_type;
}

-- The session is what the authenticator gives, and there is none without an authenticator.
abbrev pub IsCaller : HttpOptions HttpRequest → HttpRequest → Option Session → Type 0
IsCaller o request session =
    ((o.authenticator ≡ none) × (session ≡ none))
    ⊎ ((a : HttpRequest → Authenticated) × (o.authenticator ≡ some a)
        × (a request ≡ caller session))

-- A body that can be read whole within the limit.
abbrev pub IsBody : ℤ → Option Bytes → Bytes → Type 0
IsBody limit given body = (given ≡ some body) × (pos (length body) ≤ℤ limit)

read_body_iff :
    (limit : ℤ) (given : Option Bytes) (body : Bytes)
    → (read_body limit given ≡ some body) ↔ IsBody limit given body
unfolding read_body
read_body_iff limit none body = (λ h. absurd (cc), λ h. absurd (ground arith))
read_body_iff limit (some b) body = (λ h. ground arith, λ h. ground arith)

authenticate_iff :
    (o : HttpOptions HttpRequest) (request : HttpRequest) (session : Option Session)
    → (authenticate o request ≡ caller session) ↔ IsCaller o request session
unfolding authenticate
authenticate_iff o request session = (
  λ h. elim (Option-cases o.authenticator) [
    | inl anyone ↦ inl (anyone, ground arith)
    | inr (a, set) ↦ inr (a, set, ground arith)
  ],
  λ h. ground arith,
)

module _ {V : Type 0} (sv : Services V) where
  serve_authenticated_call :
      (o : HttpOptions HttpRequest) (request : HttpRequest) (request_id id : ℕ) (msg_type codec : ℤ)
      (auth : Authenticated) (c : Dispatched)
      → (serve_authenticated sv o request request_id id msg_type codec auth).call ≡ some c
      → (session : Option Session) × (body : Bytes) × (auth ≡ caller session)
        × (read_body o.max_body_size request.body ≡ some body)
        × (c ≡ call_of o request request_id id msg_type codec session body)
  unfolding serve_authenticated dispatch_body answer_call refuse
  serve_authenticated_call o request request_id id msg_type codec (rejected why) c h = absurd (cc)
  serve_authenticated_call o request request_id id msg_type codec (caller session) c h =
      elim (Option-cases (read_body o.max_body_size request.body)) [
        | inl big ↦ absurd (ground arith)
        | inr (body, fits) ↦ (session, body, refl, fits, ground arith)
      ]

  -- What a request that reaches an actor has passed.
  abbrev pub IsAdmitted : HttpOptions HttpRequest → ℕ → HttpRequest → Dispatched → Type 0
  IsAdmitted o request_id request c =
      (id : ℕ) × (msg_type : ℤ) × (codec : ℤ) × (session : Option Session) × (body : Bytes)
      × (request.method ≡ codes "POST")
      × (method_id_from_path request.path ≡ some id)
      × (sv.msg_type id ≡ some msg_type)
      × (codec_from_content_type sv.parse_media_type (request.header (codes "Content-Type"))
          ≡ some codec)
      × IsCaller o request session
      × IsBody o.max_body_size request.body body
      × (c ≡ call_of o request request_id id msg_type codec session body)

  serve_http-IsAdmitted :
      (o : HttpOptions HttpRequest) (request_id : ℕ) (request : HttpRequest) (c : Dispatched)
      → (serve_http sv o request_id request).call ≡ some c
      → IsAdmitted o request_id request c
  unfolding serve_http serve_route serve_method serve_codec refuse
  serve_http-IsAdmitted o request_id request c h =
      elim (Text_discrete request.method (codes "POST")) [
        | no other ↦ absurd (ground arith)
        | yes post ↦ elim (Option-cases (method_id_from_path request.path)) [
          | inl off ↦ absurd (ground arith)
          | inr (id, route) ↦ elim (Option-cases (sv.msg_type id)) [
            | inl unknown ↦ absurd (ground arith)
            | inr (msg_type, known) ↦
                elim (Option-cases (
                  codec_from_content_type sv.parse_media_type
                    (request.header (codes "Content-Type")))) [
                      | inl media ↦ absurd (ground arith)
                      | inr (codec, good) ↦
                          let (session, body, who, fits, same) =
                            serve_authenticated_call o request request_id id msg_type codec
                              (authenticate o request) c (ground arith) in
                          (
                            id,
                            msg_type,
                            codec,
                            session,
                            body,
                            post,
                            route,
                            known,
                            good,
                            (authenticate_iff o request session).0 who,
                            (read_body_iff o.max_body_size request.body body).0 fits,
                            same,
                          )
                    ]
          ]
        ]
      ]

  IsAdmitted-serve_http :
      (o : HttpOptions HttpRequest) (request_id : ℕ) (request : HttpRequest) (c : Dispatched)
      → IsAdmitted o request_id request c
      → (serve_http sv o request_id request).call ≡ some c
  unfolding serve_http serve_route serve_method serve_codec serve_authenticated dispatch_body
      answer_call refuse
  IsAdmitted-serve_http o request_id request c
        (id, msg_type, codec, session, body, post, route, known, good, who, fits, same) =
      let auth = (authenticate_iff o request session).1 who in
      let read = (read_body_iff o.max_body_size request.body body).1 fits in
      ground (arith, post, route, known, good, auth, read, same)

  -- A request calls Dispatch exactly if it is a POST, its path names a method that is registered, its
  -- content type is one of the two codecs, the authenticator, where there is one, accepts it, and its
  -- body is within the limit; it is then called once, with the session of the authenticator, the body
  -- and the codec of the content type.
  pub serve_http_calls_iff :
      (o : HttpOptions HttpRequest) (request_id : ℕ) (request : HttpRequest) (c : Dispatched)
      → ((serve_http sv o request_id request).call ≡ some c) ↔ IsAdmitted o request_id request c
  serve_http_calls_iff o request_id request c =
      (serve_http-IsAdmitted o request_id request c, IsAdmitted-serve_http o request_id request c)
