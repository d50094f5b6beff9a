-- ===== src/Method/Table/Routing.antt =====
-- What Dispatch answers, by what has been registered and unregistered.
use actorgo.Common.{
  ℕ, ◌≡◌, ◌≢◌, ◌⊎◌, inl, inr, Option, none, some, [], Text, Bytes, arith, ℕ_discrete, codes,
  Text_discrete,
}
use actorgo.Common.Int.{ℤ, pos}
use actorgo.Common.Dict.{lookup-insert}
use actorgo.Facade.Result.{error_result, status_not_found}
use actorgo.Method.Table.{
  Table, RegisteredMethod, msg_type_request, register, unregister_target, find, Targets,
  CallContext, dispatch,
}
use actorgo.Method.Table.Catalog.{IsCatalog, register_result, find-unregister_target}

module _ {V : Type 0} (system : Targets V) where
  -- The actor that the method was registered for is the one that is called, with the body as it
  -- is, once the registration has succeeded, for a live context that names a codec.
  pub dispatch-register :
      (t : Table) (method : ℕ) (target : Text) (ctx : CallContext) (body : Bytes)
      → (register t method target msg_type_request).1 ≡ none
      → ctx.failure ≡ none
      → ctx.codec ≢ pos 0
      → dispatch system
          (register t method target msg_type_request).0
          (some ctx)
          method
          body
          msg_type_request
        ≡ system.invoke_target ctx target method body
  unfolding dispatch find
  dispatch-register t method target ctx body h live named =
      elim (register_result t method target msg_type_request) [
        | inr (failed, same) ↦ absurd (failed h)
        | inl (fine, added) ↦ ground (
          arith,
          lookup-insert ℕ_discrete method method
              (record { msg_type = msg_type_request; target = target }) t,
        )
      ]

  -- After a target that is not empty is unregistered from a catalog, its methods are not found, and
  -- every other method is dispatched as before.
  pub dispatch-unregister_target :
      (t : Table) (target : Text) (method : ℕ) (e : RegisteredMethod) (ctx : Option CallContext)
      (body : Bytes) (msg_type : ℤ)
      → IsCatalog t
      → target ≢ []
      → find t method ≡ some e
      → ((e.target ≡ target)
          × (dispatch system (unregister_target t target) ctx method body msg_type
              ≡ some (error_result status_not_found (codes "method not found"))))
        ⊎ ((e.target ≢ target)
            × (dispatch system (unregister_target t target) ctx method body msg_type
                ≡ dispatch system t ctx method body msg_type))
  unfolding dispatch
  dispatch-unregister_target t target method e ctx body msg_type v ne there =
      elim (Text_discrete e.target target) [
        | yes same ↦ inl (same, ground (arith, find-unregister_target t target method v ne))
        | no other ↦ inr (other, ground (arith, find-unregister_target t target method v ne))
      ]
