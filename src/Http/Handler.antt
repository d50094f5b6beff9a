-- ===== src/Http/Handler.antt =====
-- ServeHTTP, writeResult, writeError, authenticate and metadata of net/httpactor/handler.go. The
-- method table and the body codecs are interfaces, taken as parameters; so are the parser of
-- content types and the reading of the body. Headers are looked up by the name as the code writes
-- it. Of a response the model has the status, the headers that the code sets and the body, and
-- beside it the call of Dispatch that led to it.
pub mod Access
pub mod Outcomes
pub mod Table
use actorgo.Common.{
  ℕ, leb, Bool, true, false, Option, none, some, List, [], ◌∷◌, Text, Text_discrete, Bytes, length,
  if◌then◌else◌, codes, holds, not, ◌&&◌,
}
use actorgo.Common.Int.{ℤ, pos, eq_ℤ, ltb_ℤ}
use actorgo.Common.Dict.{insert}
use actorgo.Proto.Packet.{Metadata, codec_json, codec_protobuf}
use actorgo.Facade.Result.{
  InvokeResult, Payload, nil, raw, value, error_result, is_ok, status_internal, status_not_found,
  status_failed_precondition, status_invalid_argument,
}
use actorgo.Method.Table.{msg_type_notify}
use actorgo.Parser.Connection.State.{Session}
use actorgo.Http.Options.{HttpOptions, Authenticated, caller, rejected, http_timeout}
use actorgo.Http.Route.{
  method_id_from_path, codec_from_content_type, content_type, http_status, to_lower,
  status_unauthenticated, status_resource_exhausted,
}

-- `body` is what the body holds, or nothing where it cannot be read.
pub record HttpRequest : Type 0 where
  pub method : Text
  pub path : Text
  pub header : Text → Text
  pub body : Option Bytes

-- RequestContext as ServeHTTP fills it, with the timeout of its deadline.
pub record HttpContext : Type 0 where
  pub request_id : ℕ
  pub codec : ℤ
  pub session : Option Session
  pub metadata : Metadata
  pub timeout : ℤ

-- cproto.HTTPError
pub record HttpError : Type 0 where
  pub code : ℤ
  pub message : Text
  pub request_id : Text

-- IMethodTable and the body codecs, as the handler uses them.
pub record Services (V : Type 0) : Type 0 where
  pub msg_type : ℕ → Option ℤ
  pub dispatch : HttpContext → ℕ → Bytes → ℤ → Option (InvokeResult V)
  pub marshal : ℤ → V → Option Bytes
  pub marshal_error : ℤ → HttpError → Option Bytes
  pub parse_media_type : Text → Option Text
  pub format_id : ℕ → Text

pub record HttpResponse : Type 0 where
  pub status : ℕ
  pub allow : Text
  pub content_type : Text
  pub request_id : Text
  pub body : Bytes

pub record Dispatched : Type 0 where
  pub context : HttpContext
  pub method_id : ℕ
  pub body : Bytes
  pub msg_type : ℤ

pub record Served : Type 0 where
  pub response : HttpResponse
  pub call : Option Dispatched

-- Handler.metadata; a header that is named twice is written twice.
unfoldable pub header_metadata : (Text → Text) → List Text → Metadata → Metadata
header_metadata header [] m = m
header_metadata header (name ∷ names) m =
    if holds (Text_discrete (header name) [])
    then header_metadata header names m
    else header_metadata header names (insert Text_discrete (to_lower name) (header name) m)

unfoldable pub authenticate : HttpOptions HttpRequest → HttpRequest → Authenticated
authenticate o request = elim o.authenticator [ none ↦ caller none | some a ↦ a request ]

-- io.ReadAll behind http.MaxBytesReader.
unfoldable pub read_body : ℤ → Option Bytes → Option Bytes
read_body limit none = none
read_body limit (some body) = if ltb_ℤ limit (pos (length body)) then none else some body

module _ {V : Type 0} (sv : Services V) where
  plain_error : ℤ → Option Bytes → ℕ → Text → HttpResponse
  plain_error codec (some body) status request_id = record {
    status = status;
    allow = [];
    content_type = content_type codec;
    request_id = request_id;
    body = body;
  }
  plain_error codec none status request_id = record {
    status = status;
    allow = [];
    content_type = content_type codec_json;
    request_id = request_id;
    body = codes "{\"code\":11,\"message\":\"internal error\"}";
  }

  -- writeError, of a result that is not nil.
  unfoldable pub write_error : ℤ → ℕ → Text → InvokeResult V → HttpResponse
  unfolding plain_error
  write_error codec status request_id result =
      let c = if eq_ℤ codec codec_protobuf then codec else codec_json in
      plain_error c
        (sv.marshal_error c
          (record { code = result.code; message = result.message; request_id = request_id }))
        status request_id

  response_body : ℤ → Payload V → Option Bytes
  response_body codec nil = some []
  response_body codec (raw body) = some body
  response_body codec (value v) = sv.marshal codec v

  write_body : ℤ → Text → Option Bytes → HttpResponse
  unfolding write_error
  write_body codec request_id none =
      write_error codec 500 request_id
        (error_result status_internal (codes "response body encode failed"))
  write_body codec request_id (some body) = record {
    status = 200;
    allow = [];
    content_type = content_type codec;
    request_id = request_id;
    body = body;
  }

  -- writeResult; the codec of the context is the one that is passed.
  unfoldable pub write_result : ℤ → Text → Option (InvokeResult V) → HttpResponse
  unfolding write_error write_body response_body
  write_result codec request_id none =
      write_error codec (http_status status_internal) request_id
        (error_result status_internal (codes "method table returned nil result"))
  write_result codec request_id (some result) =
      if is_ok (some result)
      then write_body codec request_id (response_body codec result.payload)
      else write_error codec (http_status result.code) request_id result

  answer_call : HttpContext → Dispatched → Option (InvokeResult V) → Served
  unfolding write_result
  answer_call ctx call result = record {
    response =
        if eq_ℤ call.msg_type msg_type_notify && is_ok result
        then record { status = 202; allow = []; content_type = []; request_id = []; body = [] }
        else write_result ctx.codec (sv.format_id ctx.request_id) result;
    call = some call;
  }

  refuse : ℤ → ℕ → Text → ℤ → Text → Served
  unfolding write_error
  refuse codec status request_id code message = record {
    response = write_error codec status request_id (error_result code message);
    call = none;
  }

  dispatch_body :
      HttpOptions HttpRequest → HttpRequest → ℕ → ℕ → ℤ → ℤ → Option Session → Option Bytes → Served
  unfolding refuse answer_call header_metadata http_timeout
  dispatch_body o request request_id id msg_type codec session none =
      refuse codec 413 (sv.format_id request_id) status_resource_exhausted
        (codes "request body exceeds limit")
  dispatch_body o request request_id id msg_type codec session (some body) =
      let ctx : HttpContext = record {
        request_id = request_id;
        codec = codec;
        session = session;
        metadata = header_metadata request.header o.metadata_headers [];
        timeout = http_timeout o (request.header (codes "X-ActorGo-Timeout-Ms"));
      } in
      answer_call ctx (record { context = ctx; method_id = id; body = body; msg_type = msg_type })
        (sv.dispatch ctx id body msg_type)

  serve_authenticated :
      HttpOptions HttpRequest → HttpRequest → ℕ → ℕ → ℤ → ℤ → Authenticated → Served
  unfolding dispatch_body refuse read_body
  serve_authenticated o request request_id id msg_type codec (rejected why) =
      refuse codec 401 (sv.format_id request_id) status_unauthenticated why
  serve_authenticated o request request_id id msg_type codec (caller session) =
      dispatch_body o request request_id id msg_type codec session
        (read_body o.max_body_size request.body)

  serve_codec : HttpOptions HttpRequest → HttpRequest → ℕ → ℕ → ℤ → Option ℤ → Served
  unfolding serve_authenticated refuse authenticate
  serve_codec o request request_id id msg_type none =
      refuse codec_json 415 [] status_invalid_argument
        (codes "Content-Type must be application/json or application/x-protobuf")
  serve_codec o request request_id id msg_type (some codec) =
      serve_authenticated o request request_id id msg_type codec (authenticate o request)

  serve_method : HttpOptions HttpRequest → HttpRequest → ℕ → ℕ → Option ℤ → Served
  unfolding serve_codec refuse codec_from_content_type
  serve_method o request request_id id none =
      refuse codec_json 404 [] status_not_found (codes "actor method not found")
  serve_method o request request_id id (some msg_type) =
      serve_codec o request request_id id msg_type
        (codec_from_content_type sv.parse_media_type (request.header (codes "Content-Type")))

  serve_route : HttpOptions HttpRequest → HttpRequest → ℕ → Option ℕ → Served
  unfolding serve_method refuse
  serve_route o request request_id none =
      refuse codec_json 404 [] status_not_found (codes "actor method route not found")
  serve_route o request request_id (some id) = serve_method o request request_id id (sv.msg_type id)

  with_allow : Served → Served
  with_allow s = record s { response = record s.response { allow = codes "POST" } }

  -- ServeHTTP, with the id that nextRequestID gives if it is reached.
  unfoldable pub serve_http : HttpOptions HttpRequest → ℕ → HttpRequest → Served
  unfolding serve_route refuse with_allow method_id_from_path
  serve_http o request_id request =
      if holds (Text_discrete request.method (codes "POST"))
      then serve_route o request request_id (method_id_from_path request.path)
      else with_allow
          (refuse codec_json 405 [] status_failed_precondition (codes "only POST is supported"))
