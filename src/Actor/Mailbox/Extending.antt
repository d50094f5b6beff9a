-- ===== src/Actor/Mailbox/Extending.antt =====
-- What a registration adds to the application's table and to the mailbox.
use actorgo.Common.{
  ℕ, ◌≡◌, refl, ◌⊎◌, inl, inr, true, ◌∙◌, Option, none, some, Text, arith, Option-cases, Bool-cases,
  ℕ_discrete,
}
use actorgo.Common.Dict.{insert, lookup-insert}
use actorgo.Facade.Path.{is_parent, path_string}
use actorgo.Method.Table.{Table, RegisteredMethod, register, find}
use actorgo.Method.Table.Catalog.{IsCatalog, register_result, register-IsCatalog, register_iff}
use actorgo.Method.Invoker.{Adapted, AdaptResult, adapted, refused}
use actorgo.Actor.Mailbox.{
  MethodEntry, Owner, Registry, publish, register_method, get_method, install,
}
use actorgo.Actor.Mailbox.Registering.{register_method_cases}

-- One table has what another has, and methods of this target besides.
abbrev pub Extends : Text → Table → Table → Type 0
Extends target t t' =
    (m : ℕ)
    → (find t' m ≡ find t m)
      ⊎ ((find t m ≡ none) × (e : RegisteredMethod) × (find t' m ≡ some e) × (e.target ≡ target))

pub Extends-trans :
    (target : Text) (t u v : Table) → Extends target t u → Extends target u v → Extends target t v
Extends-trans target t u v p q m = elim (q m) [
  | inl same ↦ elim (p m) [
    | inl old ↦ inl (same ∙ old)
    | inr (free, e, there, own) ↦ inr (free, e, same ∙ there, own)
  ]
  | inr (gone, e, there, own) ↦ elim (p m) [
    | inl old ↦ inr (ground (arith, old, gone), e, there, own)
    | inr (free, x, was, mine) ↦ absurd (ground (arith, gone, was))
  ]
]

-- The table of a registry, with what a registration does to it.
abbrev pub IsExtended : {H : Type 0} → Text → Table → Registry H → Type 0
IsExtended target t r = (t' : Table) × (r.table ≡ some t') × IsCatalog t' × Extends target t t'

module _ {H : Type 0} where
  publish-IsExtended :
      (r : Registry H) (owner : Owner) (method : ℕ) (h : H) (a : Adapted) (t : Table)
      → r.table ≡ some t
      → IsCatalog t
      → IsExtended (path_string owner.path) t (publish r owner method h a r.table).0
  unfolding publish
  publish-IsExtended r owner method h a t there v =
      elim (register_result t method (path_string owner.path) a.msg_type) [
        | inr (failed, same) ↦
            elim (Option-cases (register t method (path_string owner.path) a.msg_type).1) [
              | inl fine ↦ absurd (failed fine)
              | inr (why, k) ↦ (t, ground arith, v, λ m. inl refl)
            ]
        | inl (fine, added) ↦ (
          (register t method (path_string owner.path) a.msg_type).0,
          ground arith,
          register-IsCatalog t method (path_string owner.path) a.msg_type v,
          λ m.
              rw added
                (new m ((register_iff t method (path_string owner.path) a.msg_type).0 fine).1),
        )
      ]
    where
      new :
          (m : ℕ)
          → find t method ≡ none
          → (find
                (insert ℕ_discrete method
                  (record { msg_type = a.msg_type; target = path_string owner.path })
                  t)
                m
              ≡ find t m)
            ⊎ ((find t m ≡ none)
                × (e : RegisteredMethod) × (find
                      (insert ℕ_discrete method
                        (record { msg_type = a.msg_type; target = path_string owner.path })
                        t)
                      m
                    ≡ some e)
                × (e.target ≡ path_string owner.path))
      new m free = elim (ℕ_discrete method m) [
        | yes same ↦ inr (
          ground (arith, free),
          record { msg_type = a.msg_type; target = path_string owner.path },
          unfold find in
              ground (
                arith,
                lookup-insert ℕ_discrete m method
                    (record { msg_type = a.msg_type; target = path_string owner.path }) t,
              ),
          refl,
        )
        | no ne ↦ inl (
            unfold find in
            ground (
              arith,
              lookup-insert ℕ_discrete m method
                  (record { msg_type = a.msg_type; target = path_string owner.path }) t,
            ))
      ]

  -- A registration adds methods of the actor's own path only.
  pub register_method-IsExtended :
      (r : Registry H) (owner : Owner) (method : ℕ) (handler : Option (H × AdaptResult)) (t : Table)
      → is_parent owner.path ≡ true
      → r.table ≡ some t
      → IsCatalog t
      → IsExtended (path_string owner.path) t (register_method r (some owner) method handler).0
  unfolding register_method
  register_method-IsExtended r owner method none t top there v = (t, there, v, λ m. inl refl)
  register_method-IsExtended r owner method (some (f, refused x)) t top there v =
      (t, ground arith, v, λ m. inl refl)
  register_method-IsExtended r owner method (some (f, adapted a)) t top there v =
      elim (register_method_cases r owner method f a top) [
        | inl same ↦ rw same (t, there, v, λ m. inl refl)
        | inr new ↦ rw new (publish-IsExtended r owner method f a t there v)
      ]

  -- The mailbox has a method.
  abbrev pub HasMethod : Registry H → ℕ → Type 0
  HasMethod r method = (e : MethodEntry H) × (get_method r.mailbox method ≡ some e)

  install-HasMethod :
      (r : Registry H) (method m : ℕ) (h : H) (a : Adapted) (t : Option Table)
      → (method ≡ m) ⊎ HasMethod r m
      → HasMethod (record { mailbox = install r.mailbox method h a; table = t }) m
  unfolding install get_method
  install-HasMethod r method m h a t known = elim (ℕ_discrete method m) [
    | yes same ↦ (
      record { invoke = h; request_type = some a.request_type; supports_protobuf = a.protobuf },
      ground (
        arith,
        lookup-insert ℕ_discrete m method
            (record {
              invoke = h;
              request_type = some a.request_type;
              supports_protobuf = a.protobuf;
            })
            r.mailbox.method_map,
      ),
    )
    | no ne ↦ elim known [
      | inl same ↦ absurd (ne same)
      | inr (e, there) ↦ (
        e,
        ground (
          arith,
          there,
          lookup-insert ℕ_discrete m method
              (record {
                invoke = h;
                request_type = some a.request_type;
                supports_protobuf = a.protobuf;
              })
              r.mailbox.method_map,
        ),
      )
    ]
  ]

  publish_installs :
      (r : Registry H) (owner : Owner) (method : ℕ) (h : H) (a : Adapted) (t : Option Table)
      → (publish r owner method h a t).1 ≡ none
      → (t' : Option Table) × ((publish r owner method h a t).0
          ≡ record { mailbox = install r.mailbox method h a; table = t' })
  unfolding publish
  publish_installs r owner method h a none done = absurd (cc)
  publish_installs r owner method h a (some t) done =
      elim (Option-cases (register t method (path_string owner.path) a.msg_type).1) [
        | inl fine ↦ (some (register t method (path_string owner.path) a.msg_type).0, ground arith)
        | inr (e, failed) ↦ absurd (ground arith)
      ]

  register_method_installs :
      (r : Registry H) (owner : Owner) (method : ℕ) (handler : Option (H × AdaptResult))
      → (register_method r (some owner) method handler).1 ≡ none
      → (h : H) × (a : Adapted) × (t : Option Table) × ((register_method r
            (some owner)
            method
            handler).0
          ≡ record { mailbox = install r.mailbox method h a; table = t })
  unfolding register_method
  register_method_installs r owner method none done = absurd (cc)
  register_method_installs r owner method (some (f, refused x)) done = absurd (ground arith)
  register_method_installs r owner method (some (f, adapted a)) done =
      let p = publish_installs r owner method f a r.table in
      elim (Bool-cases (is_parent owner.path)) [
        | inl top ↦ let q = p (ground arith) in (f, a, q.0, ground (arith, q.1))
        | inr below ↦ (f, a, r.table, ground arith)
      ]

  -- A registration that does not panic puts its method into the mailbox, and keeps those there.
  pub register_method-HasMethod :
      (r : Registry H) (owner : Owner) (method m : ℕ) (handler : Option (H × AdaptResult))
      → (register_method r (some owner) method handler).1 ≡ none
      → (method ≡ m) ⊎ HasMethod r m
      → HasMethod (register_method r (some owner) method handler).0 m
  register_method-HasMethod r owner method m handler done known =
      let i = register_method_installs r owner method handler done in
      rw i.3 (install-HasMethod r method m i.0 i.1 i.2 known)
