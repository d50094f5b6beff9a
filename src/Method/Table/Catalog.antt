-- ===== src/Method/Table/Catalog.antt =====
-- The catalog after any registrations: one entry for each method, of business methods and top-level
-- actors only.
use actorgo.Common.{
  ℕ, ◌≡◌, ◌≢◌, refl, ◌⊎◌, inl, inr, ◌<◌, ◌↔◌, false, Option, none, some, [], ◌∷◌, Text, arith,
  ℕ_discrete, Option-cases, subst, if◌then◌else◌,
}
use actorgo.Common.Int.{ℤ, eq_ℤ_eq}
use actorgo.Common.Dict.{lookup, insert, Distinct, insert-Distinct, lookup-insert}
use actorgo.Facade.Path.{ActorPath, is_child, to_actor_path}
use actorgo.Proto.Packet.{system_method_kick}
use actorgo.Method.Table.{
  Table, RegisteredMethod, msg_type_request, msg_type_notify, new_table, register, without_target,
  unregister_target, find, same_text,
}

-- A target that names a top-level actor.
abbrev pub IsTopLevel : Text → Type 0
IsTopLevel target = (p : ActorPath) × (to_actor_path target ≡ some p) × (is_child p ≡ false)

abbrev pub IsRoutable : ℕ → RegisteredMethod → Type 0
IsRoutable method e =
    (system_method_kick < method)
    × IsTopLevel e.target
    × ((e.msg_type ≡ msg_type_request) ⊎ (e.msg_type ≡ msg_type_notify))

pub record IsCatalog (t : Table) : Type 0 where
  pub distinct : Distinct ℕ_discrete t
  pub routable : (method : ℕ) (e : RegisteredMethod) → find t method ≡ some e → IsRoutable method e

register-IsRoutable :
    (t : Table) (method : ℕ) (target : Text) (msg_type : ℤ)
    → (register t method target msg_type).1 ≡ none
    → IsRoutable method (record { msg_type = msg_type; target = target }) × (find t method ≡ none)
unfolding register find
register-IsRoutable t method target msg_type h = elim (Option-cases (to_actor_path target)) [
  | inl bad ↦ absurd (ground arith)
  | inr (p, good) ↦ (
    (
      ground arith,
      (p, good, ground arith),
      ground (arith, eq_ℤ_eq msg_type msg_type_request, eq_ℤ_eq msg_type msg_type_notify),
    ),
    ground arith,
  )
]

register_succeeds :
    (t : Table) (method : ℕ) (target : Text) (msg_type : ℤ)
    → IsRoutable method (record { msg_type = msg_type; target = target })
    → find t method ≡ none
    → (register t method target msg_type).1 ≡ none
unfolding register find
register_succeeds t method target msg_type (big, (p, good, top), kind) free = ground arith

-- Registering reports no error exactly for a business method that is not in the catalog yet, a
-- top-level actor as its target and one of the two message types.
pub register_iff :
    (t : Table) (method : ℕ) (target : Text) (msg_type : ℤ)
    → ((register t method target msg_type).1 ≡ none) ↔ (
        IsRoutable method (record { msg_type = msg_type; target = target })
        × (find t method ≡ none))
register_iff t method target msg_type = (
  λ h. register-IsRoutable t method target msg_type h,
  λ h. register_succeeds t method target msg_type h.0 h.1,
)

-- A Register that reports no error adds the entry to what was there; one that reports an error
-- changes nothing.
pub register_result :
    (t : Table) (method : ℕ) (target : Text) (msg_type : ℤ)
    → ((register t method target msg_type).1 ≡ none
        × ((register t method target msg_type).0
            ≡ insert ℕ_discrete method (record { msg_type = msg_type; target = target }) t))
      ⊎ (((register t method target msg_type).1 ≢ none)
          × ((register t method target msg_type).0 ≡ t))
unfolding register
register_result t method target msg_type = elim (Option-cases (to_actor_path target)) [
  | inl bad ↦ ground arith
  | inr (p, good) ↦ ground arith
]

pub new-IsCatalog : IsCatalog new_table
unfolding new_table find lookup
new-IsCatalog = record { distinct = tt; routable = λ method e h. cc }

-- Registering, with or without success, keeps a catalog.
pub register-IsCatalog :
    (t : Table) (method : ℕ) (target : Text) (msg_type : ℤ)
    → IsCatalog t
    → IsCatalog (register t method target msg_type).0
register-IsCatalog t method target msg_type v = elim (register_result t method target msg_type) [
  | inr (failed, same) ↦ rw same v
  | inl (done, added) ↦ rw added (record {
    distinct =
        insert-Distinct ℕ_discrete method (record { msg_type = msg_type; target = target }) t
          v.distinct;
    routable = λ m e h.
        let new : IsRoutable method (record { msg_type = msg_type; target = target }) =
          (register-IsRoutable t method target msg_type done).0 in
        entry m e new h;
  })
]
  where
    entry :
        (m : ℕ) (e : RegisteredMethod)
        → IsRoutable method (record { msg_type = msg_type; target = target })
        → find (insert ℕ_discrete method (record { msg_type = msg_type; target = target }) t) m
          ≡ some e
        → IsRoutable m e
    entry m e new h = elim (ℕ_discrete method m) [
      | yes same ↦
          let eq : record { msg_type = msg_type; target = target } ≡ e =
            unfold find in
            ground (
              arith,
              lookup-insert ℕ_discrete m method (record { msg_type = msg_type; target = target }) t,
            ) in
          subst (λ n. IsRoutable n e) same (subst (IsRoutable method) eq new)
      | no ne ↦ v.routable m e (
          unfold find in
          ground (
            arith,
            lookup-insert ℕ_discrete m method (record { msg_type = msg_type; target = target }) t,
          ))
    ]

lookup-without_target_absent :
    (target : Text) (t : Table) (method : ℕ)
    → lookup ℕ_discrete method t ≡ none
    → lookup ℕ_discrete method (without_target target t) ≡ none
unfolding lookup without_target
lookup-without_target_absent target [] method h = refl
lookup-without_target_absent target ((m, e) ∷ t) method h =
    ground (arith, lookup-without_target_absent target t method)

-- What is left of one entry.
abbrev pub kept_entry : Text → Option RegisteredMethod → Option RegisteredMethod
kept_entry target none = none
kept_entry target (some e) = if same_text e.target target then none else some e

lookup-without_target :
    (target : Text) (t : Table) (method : ℕ)
    → Distinct ℕ_discrete t
    → lookup ℕ_discrete method (without_target target t)
      ≡ kept_entry target (lookup ℕ_discrete method t)
unfolding lookup without_target
lookup-without_target target [] method h = refl
lookup-without_target target ((m, e) ∷ t) method h =
    ground (
      arith,
      lookup-without_target target t method h.1,
      lookup-without_target_absent target t m h.0,
    )

without_target-Distinct :
    (target : Text) (t : Table)
    → Distinct ℕ_discrete t
    → Distinct ℕ_discrete (without_target target t)
unfolding without_target
without_target-Distinct target [] h = tt
without_target-Distinct target ((m, e) ∷ t) h =
    ground
      (arith, without_target-Distinct target t h.1, lookup-without_target_absent target t m h.0)

-- Of a catalog, unregistering a target that is not empty takes out exactly the methods of that
-- target.
pub find-unregister_target :
    (t : Table) (target : Text) (method : ℕ)
    → IsCatalog t
    → target ≢ []
    → find (unregister_target t target) method ≡ kept_entry target (find t method)
unfolding find unregister_target
find-unregister_target t target method v ne =
    ground (arith, lookup-without_target target t method v.distinct)

-- Unregistering a target keeps a catalog.
pub unregister_target-IsCatalog :
    (t : Table) (target : Text) → IsCatalog t → IsCatalog (unregister_target t target)
unregister_target-IsCatalog t target v = record {
  distinct =
      unfold unregister_target in ground (arith, without_target-Distinct target t v.distinct);
  routable = λ m e h. v.routable m e (before m e h);
}
  where
    before :
        (m : ℕ) (e : RegisteredMethod)
        → find (unregister_target t target) m ≡ some e
        → find t m ≡ some e
    before m e h =
        unfold unregister_target find in ground (arith, lookup-without_target target t m v.distinct)
