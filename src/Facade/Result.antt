-- ===== src/Facade/Result.antt =====
-- InvokeResult of facade/invoke_result.go and the status codes of net/proto/agp.proto. A payload is
-- nil, transport bytes, or a typed value of the type `V`.
use actorgo.Common.{Text, Bytes, [], Bool, false, Option, none, some}
use actorgo.Common.Int.{ℤ, pos, eq_ℤ}

pub data Payload (V : Type 0) : Type 0 where
  nil : Payload V
  raw : Bytes → Payload V
  value : V → Payload V

pub record InvokeResult (V : Type 0) : Type 0 where
  pub payload : Payload V
  pub code : ℤ
  pub message : Text

-- The enum StatusCode: the codes that the models return.
abbrev pub status_ok : ℤ
status_ok = pos 0

abbrev pub status_cancelled : ℤ
status_cancelled = pos 1

abbrev pub status_invalid_argument : ℤ
status_invalid_argument = pos 2

abbrev pub status_deadline_exceeded : ℤ
status_deadline_exceeded = pos 3

abbrev pub status_not_found : ℤ
status_not_found = pos 4

abbrev pub status_failed_precondition : ℤ
status_failed_precondition = pos 9

abbrev pub status_internal : ℤ
status_internal = pos 11

abbrev pub status_unavailable : ℤ
status_unavailable = pos 12

abbrev pub status_unsupported_media : ℤ
status_unsupported_media = pos 13

module _ {V : Type 0} where
  abbrev pub ok_result : Payload V → InvokeResult V
  ok_result p = record { payload = p; code = status_ok; message = [] }

  abbrev pub error_result : ℤ → Text → InvokeResult V
  error_result code message = record { payload = nil; code = code; message = message }

  -- OK on a pointer that may be nil.
  abbrev pub is_ok : Option (InvokeResult V) → Bool
  is_ok none = false
  is_ok (some r) = eq_ℤ r.code status_ok
