-- ===== src/Method/Invoker/Laws.antt =====
-- Which handlers are accepted, and when a call reports success.
use actorgo.Common.{
  ◌≡◌, ◌≢◌, refl, ◌⊎◌, inl, inr, ◌↔◌, Bool, true, false, Option, none, some, List, [], ◌∷◌, Text,
  arith, Option-cases,
}
use actorgo.Common.Int.{ℤ, eq_ℤ}
use actorgo.Facade.Result.{is_ok, status_ok}
use actorgo.Method.Table.{msg_type_request, msg_type_notify}
use actorgo.Method.Invoker.{
  GoType, same_type, Known, HandlerValue, function, no_value, no_function, Adapted, adapted, adapt,
  adapt_function, adapt_returns, Value, Returned, invoke,
}

-- The parameters of a handler: a request context and a pointer to the request.
abbrev pub TakesRequest : Known → List GoType → GoType → Type 0
TakesRequest known ins request =
    (context : GoType) × (ins ≡ context ∷ request ∷ [])
    × (same_type context known.request_context_type ≡ true)
    × (request.is_pointer ≡ true)

-- The returns of a handler: a pointer to a response of the request's kind and an error, or an error.
abbrev pub Returns : Known → List GoType → Adapted → Type 0
Returns known outs a =
    ((response : GoType) × (error : GoType) × (outs ≡ response ∷ error ∷ [])
      × (response.is_pointer ≡ true)
      × (same_type error known.error_type ≡ true)
      × (response.is_message ≡ a.request_type.is_message)
      × (a.msg_type ≡ msg_type_request)
      × (a.unary ≡ true))
    ⊎ ((error : GoType) × (outs ≡ error ∷ [])
        × (same_type error known.error_type ≡ true)
        × (a.msg_type ≡ msg_type_notify)
        × (a.unary ≡ false))

module _ (known : Known) where
  adapt_returns_sound :
      (request : GoType) (outs : List GoType) (a : Adapted)
      → adapt_returns known request outs ≡ adapted a
      → (a.request_type ≡ request) × (a.protobuf ≡ request.is_message) × Returns known outs a
  unfolding adapt_returns
  adapt_returns_sound request [] a h = absurd (cc)
  adapt_returns_sound request (error ∷ []) a h = ground arith
  adapt_returns_sound request (response ∷ error ∷ []) a h = ground arith
  adapt_returns_sound request (x ∷ y ∷ z ∷ outs) a h = absurd (cc)

  adapt_returns_complete :
      (request : GoType) (outs : List GoType) (a : Adapted)
      → a.request_type ≡ request
      → a.protobuf ≡ request.is_message
      → Returns known outs a
      → adapt_returns known request outs ≡ adapted a
  unfolding adapt_returns
  adapt_returns_complete request outs a r p (inl (response, error, o, ptr, err, kind, m, u)) =
      ground arith
  adapt_returns_complete request outs a r p (inr (error, o, err, m, u)) = ground arith

  adapt_function_sound :
      (ins outs : List GoType) (a : Adapted)
      → adapt_function known ins outs ≡ adapted a
      → TakesRequest known ins a.request_type
        × (a.protobuf ≡ a.request_type.is_message)
        × Returns known outs a
  unfolding adapt_function
  adapt_function_sound [] outs a h = absurd (cc)
  adapt_function_sound (x ∷ []) outs a h = absurd (cc)
  adapt_function_sound (context ∷ request ∷ []) outs a h =
      let r : (a.request_type ≡ request)
          × (a.protobuf ≡ request.is_message)
          × Returns known outs a =
        adapt_returns_sound request outs a (ground arith) in
      ((context, ground arith, ground arith, ground arith), ground arith, r.2)
  adapt_function_sound (x ∷ y ∷ z ∷ ins) outs a h = absurd (cc)

  -- A handler is accepted, and described so, exactly if it is a function that is not nil, takes a
  -- request context and a pointer to the request, and returns an error or a pointer and an error,
  -- with protobuf messages on both sides or on none.
  pub adapt_iff :
      (handler : HandlerValue) (a : Adapted)
      → (adapt known handler ≡ adapted a) ↔ (
          (ins : List GoType) × (outs : List GoType) × (handler ≡ function false ins outs)
          × TakesRequest known ins a.request_type
          × (a.protobuf ≡ a.request_type.is_message)
          × Returns known outs a)
  unfolding adapt
  adapt_iff handler a = (sound handler, complete)
    where
      sound :
          (f : HandlerValue)
          → adapt known f ≡ adapted a
          → (ins : List GoType) × (outs : List GoType) × (f ≡ function false ins outs)
            × TakesRequest known ins a.request_type
            × (a.protobuf ≡ a.request_type.is_message)
            × Returns known outs a
      sound no_value h = absurd (cc)
      sound no_function h = absurd (cc)
      sound (function true ins outs) h = absurd (cc)
      sound (function false ins outs) h =
          let r = adapt_function_sound ins outs a h in (ins, outs, refl, r.0, r.1, r.2)

      complete :
          ((ins : List GoType) × (outs : List GoType) × (handler ≡ function false ins outs)
            × TakesRequest known ins a.request_type
            × (a.protobuf ≡ a.request_type.is_message)
            × Returns known outs a)
          → adapt known handler ≡ adapted a
      complete (ins, outs, f, (context, i, c, ptr), p, r) =
          unfold adapt_function in
          ground (arith, adapt_returns_complete a.request_type outs a refl p r)

-- What a handler must return for a success: no error and, of two returns, a response, or an
-- InvokeError that carries the code OK.
abbrev pub Succeeds : {V E : Type 0} → (E → Option (ℤ × Text)) → Bool → Returned V E → Type 0
Succeeds {V} {E} as_invoke_error unary r =
    ((r.error ≡ none) × ((unary ≡ false) ⊎ (r.response ≢ none)))
    ⊎ ((e : E) × (code : ℤ) × (message : Text) × (r.error ≡ some e)
        × (as_invoke_error e ≡ some (code, message))
        × (eq_ℤ code status_ok ≡ true))

-- A call with a payload of the handler's request type reports success exactly when its handler
-- returned no error (and, of two returns, a response), or an InvokeError that carries the code OK.
pub invoke-is_ok :
    {V E : Type 0} (as_invoke_error : E → Option (ℤ × Text)) (a : Adapted)
    (handler : V → Returned V E) (payload : Value V)
    → same_type payload.type_of a.request_type ≡ true
    → (is_ok (some (invoke as_invoke_error a handler (some payload))) ≡ true)
      ↔ Succeeds as_invoke_error a.unary (handler payload.content)
unfolding invoke
invoke-is_ok {E} as_invoke_error a handler payload h =
    elim (Option-cases (handler payload.content).error) [
      | inl fine ↦ elim (Option-cases (handler payload.content).response) [
        | inl missing ↦ (λ k. ground arith, λ k. ground arith)
        | inr (v, there) ↦ (λ k. ground arith, λ k. ground arith)
      ]
      | inr (e, failed) ↦ elim (Option-cases (as_invoke_error e)) [
        | inl plain ↦ (λ k. absurd (ground arith), λ k. absurd (ground arith))
        | inr ((code, message), special) ↦
            (λ k. inr (e, code, message, failed, special, ground arith), λ k. ground arith)
      ]
    ]
