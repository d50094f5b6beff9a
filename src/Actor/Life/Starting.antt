-- ===== src/Actor/Life/Starting.antt =====
-- The registrations of an OnInit.
use actorgo.Common.{
  ℕ, ◌≡◌, refl, sym, inl, inr, true, Option, none, some, List, [], ◌∷◌, ap, subst, arith,
  Option-cases,
}
use actorgo.Facade.Path.{is_parent, path_string}
use actorgo.Method.Table.{Table}
use actorgo.Method.Table.Catalog.{IsCatalog}
use actorgo.Method.Invoker.{AdaptResult}
use actorgo.Actor.Mailbox.{Owner, Panic, Registry, register_method}
use actorgo.Actor.Mailbox.Registering.{IsPublished, register_method-IsPublished}
use actorgo.Actor.Mailbox.Extending.{
  Extends-trans, IsExtended, register_method-IsExtended, HasMethod, register_method-HasMethod,
}
use actorgo.Actor.Life.{register_methods}

module _ {H : Type 0} where
  pub register_methods-IsExtended :
      (ms : List (ℕ × Option (H × AdaptResult))) (r : Registry H) (owner : Owner) (t : Table)
      → is_parent owner.path ≡ true
      → r.table ≡ some t
      → IsCatalog t
      → IsExtended (path_string owner.path) t (register_methods r owner ms).0
  unfolding register_methods
  register_methods-IsExtended [] r owner t top there v = (t, there, v, λ m. inl refl)
  register_methods-IsExtended ((method, handler) ∷ ms) r owner t top there v =
      let (u, has, w, x) = register_method-IsExtended r owner method handler t top there v in
      let (u', has', w', x') =
        register_methods-IsExtended ms (register_method r (some owner) method handler).0 owner u top
          has w in
      elim (Option-cases (register_method r (some owner) method handler).1) [
        | inr (e, failed) ↦ (u, ground (arith, has), w, x)
        | inl fine ↦
            (u', ground (arith, has'), w', Extends-trans (path_string owner.path) t u u' x x')
      ]

  register_methods_fine :
      (ms : List (ℕ × Option (H × AdaptResult))) (r : Registry H) (owner : Owner) (method : ℕ)
      (handler : Option (H × AdaptResult))
      → (register_method r (some owner) method handler).1 ≡ none
      → register_methods r owner ((method, handler) ∷ ms)
        ≡ register_methods (register_method r (some owner) method handler).0 owner ms
  unfolding register_methods
  register_methods_fine ms r owner method handler fine = ground arith

  register_methods_failed :
      (ms : List (ℕ × Option (H × AdaptResult))) (r : Registry H) (owner : Owner) (method : ℕ)
      (handler : Option (H × AdaptResult)) (e : Panic)
      → (register_method r (some owner) method handler).1 ≡ some e
      → register_methods r owner ((method, handler) ∷ ms)
        ≡ ((register_method r (some owner) method handler).0, some e)
  unfolding register_methods
  register_methods_failed ms r owner method handler e failed = ground arith

  pub register_methods-IsPublished :
      (ms : List (ℕ × Option (H × AdaptResult))) (r : Registry H) (owner : Owner)
      → is_parent owner.path ≡ true
      → IsPublished r (path_string owner.path)
      → IsPublished (register_methods r owner ms).0 (path_string owner.path)
  register_methods-IsPublished [] r owner top v = unfold register_methods in v
  register_methods-IsPublished ((method, handler) ∷ ms) r owner top v =
      let w = register_method-IsPublished r owner method handler top v in
      let rest =
        register_methods-IsPublished ms (register_method r (some owner) method handler).0 owner top
          w in
      elim (Option-cases (register_method r (some owner) method handler).1) [
        | inr (e, failed) ↦ rw (register_methods_failed ms r owner method handler e failed) w
        | inl fine ↦ rw (register_methods_fine ms r owner method handler fine) rest
      ]

  -- Every method of a list is in the mailbox.
  abbrev pub HasMethods : Registry H → List (ℕ × Option (H × AdaptResult)) → Type 0
  HasMethods r [] = Unit
  HasMethods r ((method, handler) ∷ ms) = HasMethod r method × HasMethods r ms

  register_methods_keeps :
      (ms : List (ℕ × Option (H × AdaptResult))) (r : Registry H) (owner : Owner) (m : ℕ)
      → (register_methods r owner ms).1 ≡ none
      → HasMethod r m
      → HasMethod (register_methods r owner ms).0 m
  register_methods_keeps [] r owner m done v = unfold register_methods in v
  register_methods_keeps ((method, handler) ∷ ms) r owner m done v =
      let rest =
        register_methods_keeps ms (register_method r (some owner) method handler).0 owner m in
      let one = register_method-HasMethod r owner method m handler in
      elim (Option-cases (register_method r (some owner) method handler).1) [
        | inr (e, failed) ↦
            absurd (ground (arith, register_methods_failed ms r owner method handler e failed))
        | inl fine ↦
            let same = register_methods_fine ms r owner method handler fine in
            rw same (rest (ground (arith, same)) (one fine (inr v)))
      ]

  pub register_methods-HasMethods :
      (ms : List (ℕ × Option (H × AdaptResult))) (r : Registry H) (owner : Owner)
      → (register_methods r owner ms).1 ≡ none
      → HasMethods (register_methods r owner ms).0 ms
  register_methods-HasMethods [] r owner done = tt
  register_methods-HasMethods ((method, handler) ∷ ms) r owner done =
      let r' = (register_method r (some owner) method handler).0 in
      let rest = register_methods-HasMethods ms r' owner in
      let keeps = register_methods_keeps ms r' owner method in
      let one = register_method-HasMethod r owner method method handler in
      elim (Option-cases (register_method r (some owner) method handler).1) [
        | inr (e, failed) ↦
            absurd (ground (arith, register_methods_failed ms r owner method handler e failed))
        | inl fine ↦
            let same = register_methods_fine ms r owner method handler fine in
            subst (λ z. HasMethods z ((method, handler) ∷ ms)) (sym (ap (λ q. q.0) same))
              (keeps (ground (arith, same)) (one fine (inl refl)), rest (ground (arith, same)))
      ]
