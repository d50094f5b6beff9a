-- ===== src/Method/Invoker.antt =====
-- The adapter of handlers of net/method/invoker.go. What reflection tells of a type is its identity,
-- whether it is a pointer and whether it implements proto.Message; a handler is a function from a
-- request to what it returned. errors.As is a parameter.
pub mod Laws
use actorgo.Common.{
  ℕ, ◌&&◌, ◌||◌, not, Bool, true, false, Option, none, some, List, [], ◌∷◌, Text, codes, ◌==◌,
  if◌then◌else◌,
}
use actorgo.Common.Int.{ℤ}
use actorgo.Facade.Result.{InvokeResult, nil, value, ok_result, error_result, status_internal}
use actorgo.Method.Table.{msg_type_request, msg_type_notify}

pub record GoType : Type 0 where
  pub ident : ℕ
  pub is_pointer : Bool
  pub is_message : Bool

abbrev pub same_type : GoType → GoType → Bool
same_type a b = a.ident == b.ident

abbrev pub same_bool : Bool → Bool → Bool
same_bool true b = b
same_bool false b = not b

-- requestContextType and errorType.
pub record Known : Type 0 where
  pub request_context_type : GoType
  pub error_type : GoType

-- The value given as a handler: nil, something that is no function, or a function, which may be nil.
pub data HandlerValue : Type 0 where
  no_value no_function : HandlerValue
  function : Bool → List GoType → List GoType → HandlerValue

pub data AdaptError : Type 0 where
  handler_nil not_a_function bad_parameters mixed_messages bad_returns : AdaptError

pub record Adapted : Type 0 where
  pub msg_type : ℤ
  pub request_type : GoType
  pub protobuf : Bool
  pub unary : Bool

pub data AdaptResult : Type 0 where
  adapted : Adapted → AdaptResult
  refused : AdaptError → AdaptResult

module _ (known : Known) where
  unfoldable pub adapt_returns : GoType → List GoType → AdaptResult
  adapt_returns request (response ∷ error ∷ []) =
      if response.is_pointer && same_type error known.error_type
      then (if not (same_bool response.is_message request.is_message)
          then refused mixed_messages
          else adapted (record {
            msg_type = msg_type_request;
            request_type = request;
            protobuf = request.is_message;
            unary = true;
          }))
      else refused bad_returns
  adapt_returns request (error ∷ []) =
      if same_type error known.error_type
      then adapted (record {
        msg_type = msg_type_notify;
        request_type = request;
        protobuf = request.is_message;
        unary = false;
      })
      else refused bad_returns
  adapt_returns request _ = refused bad_returns

  unfoldable pub adapt_function : List GoType → List GoType → AdaptResult
  unfolding adapt_returns
  adapt_function (context ∷ request ∷ []) outs =
      if not (same_type context known.request_context_type) || not request.is_pointer
      then refused bad_parameters
      else adapt_returns request outs
  adapt_function _ outs = refused bad_parameters

  unfoldable pub adapt : HandlerValue → AdaptResult
  unfolding adapt_function
  adapt no_value = refused handler_nil
  adapt no_function = refused not_a_function
  adapt (function is_nil ins outs) =
      if is_nil then refused not_a_function else adapt_function ins outs

-- A value with its type, and what a handler returned.
pub record Value (V : Type 0) : Type 0 where
  pub type_of : GoType
  pub content : V

pub record Returned (V E : Type 0) : Type 0 where
  pub response : Option V
  pub error : Option E

module _ {V E : Type 0} (as_invoke_error : E → Option (ℤ × Text)) where
  unfoldable pub result_from_error : Option E → InvokeResult V
  result_from_error none = ok_result nil
  result_from_error (some e) = elim (as_invoke_error e) [
    | none ↦ error_result status_internal (codes "internal error")
    | some (code, message) ↦ error_result code message
  ]

  returned_response : Option V → InvokeResult V
  returned_response none =
      error_result status_internal (codes "actor method returned a nil response")
  returned_response (some v) = ok_result (value v)

  call_handler : Bool → Returned V E → InvokeResult V
  unfolding result_from_error returned_response
  call_handler true r = elim r.error [
    | some e ↦ result_from_error (some e)
    | none ↦ returned_response r.response
  ]
  call_handler false r = result_from_error r.error

  -- The function that buildInvoke returns, behind requestValue. The handler is taken at the context
  -- of the call, and the message of a mismatch, which names Go types, is cut short.
  unfoldable pub invoke : Adapted → (V → Returned V E) → Option (Value V) → InvokeResult V
  unfolding call_handler
  invoke a handler none = error_result status_internal (codes "actor method received a nil request")
  invoke a handler (some payload) =
      if same_type payload.type_of a.request_type
      then call_handler a.unary (handler payload.content)
      else error_result status_internal (codes "actor request type mismatch")
