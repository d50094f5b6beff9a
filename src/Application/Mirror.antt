-- ===== src/Application/Mirror.antt =====
-- What the shutdown calls, against what the start has called.
use actorgo.Common.{
  ◌≡◌, refl, ◌∙◌, ap, ◌⊎◌, inl, inr, Bool, false, List, [], ◌∷◌, arith, Bool-cases, All,
}
use mathlib.Core.List.{append-nil}
use actorgo.Application.{
  Component, Application, Call, set_app, init, after_init, before_stop, stop, calls_until, starting,
  startup, with_system,
}
use actorgo.Application.Life.{started}
use actorgo.Application.Numbers.{
  numbers, as_init, as_before_stop, as_stop, ids, reversed, numbers-calls_reversed_other,
  numbers-calls_reversed, numbers-starting_late, numbers-starting_init, numbers-ending,
  run_and_stop_cases,
}

-- No call before the application runs panics.
abbrev pub IsFine : List Component → Type 0
IsFine cs =
    All (λ c. c.set_panics ≡ false) cs
    × All (λ c. c.init_panics ≡ false) cs
    × All (λ c. c.after_init_panics ≡ false) cs

calls_until_fine :
    (call : Component → Call) (panics : Component → Bool) (cs : List Component)
    → All (λ c. panics c ≡ false) cs
    → (calls_until call panics cs).1 ≡ false
unfolding calls_until
calls_until_fine call panics [] h = refl
calls_until_fine call panics (c ∷ cs) h = ground (arith, h.0, calls_until_fine call panics cs h.1)

fine_calls_until :
    (call : Component → Call) (panics : Component → Bool) (cs : List Component)
    → (calls_until call panics cs).1 ≡ false
    → All (λ c. panics c ≡ false) cs
unfolding calls_until
fine_calls_until call panics [] h = tt
fine_calls_until call panics (c ∷ cs) h =
    let rest = fine_calls_until call panics cs in
    elim (Bool-cases (panics c)) [
      | inl bad ↦ absurd (ground arith)
      | inr good ↦ (good, rest (ground arith))
    ]

starting-IsFine : (cs : List Component) → (starting cs).1 ≡ false → IsFine cs
unfolding starting
starting-IsFine cs h = (
  fine_calls_until (λ c. set_app c.id) (λ c. c.set_panics) cs (ground arith),
  fine_calls_until (λ c. init c.id) (λ c. c.init_panics) cs (ground arith),
  fine_calls_until (λ c. after_init c.id) (λ c. c.after_init_panics) cs (ground arith),
)

IsFine-starting : (cs : List Component) → IsFine cs → (starting cs).1 ≡ false
unfolding starting
IsFine-starting cs (sets, inits, afters) = ground (
  arith,
  calls_until_fine (λ c. set_app c.id) (λ c. c.set_panics) cs sets,
  calls_until_fine (λ c. init c.id) (λ c. c.init_panics) cs inits,
  calls_until_fine (λ c. after_init c.id) (λ c. c.after_init_panics) cs afters,
)

-- If some call of the start panics, no component is stopped; if none does, every component that was
-- initialised gets OnBeforeStop and OnStop, once, in the reverse of the order of initialisation.
pub startup_mirrors :
    (system : Component) (a : Application)
    → a.running ≡ false
    → ((¬ IsFine (with_system system a).components)
        × (numbers as_before_stop (startup system a).1 ≡ [])
        × (numbers as_stop (startup system a).1 ≡ []))
      ⊎ (IsFine (with_system system a).components
          × (numbers as_before_stop (startup system a).1
              ≡ reversed (numbers as_init (startup system a).1))
          × (numbers as_stop (startup system a).1
              ≡ reversed (numbers as_init (startup system a).1)))
startup_mirrors system a idle =
    let b = with_system system a in
    let r = starting b.components in
    let s = ap (λ x. x.1) (started system a idle) in
    let late_before =
      numbers-starting_late as_before_stop b.components ((λ n. refl), (λ n. refl), (λ n. refl)) in
    let late_stop =
      numbers-starting_late as_stop b.components ((λ n. refl), (λ n. refl), (λ n. refl)) in
    elim (run_and_stop_cases b r) [
      | inl (bad, same) ↦ inl (
        (λ f. ground (arith, bad, IsFine-starting b.components f)),
        ap (numbers as_before_stop) (s ∙ same) ∙ late_before,
        ap (numbers as_stop) (s ∙ same) ∙ late_stop,
      )
      | inr (fine, same) ↦
          let init_of = numbers-starting_init b.components fine in
          let e0 = numbers-ending as_init r.0 b.on_shutdown b.components (λ f. refl) in
          let e1 = numbers-ending as_before_stop r.0 b.on_shutdown b.components (λ f. refl) in
          let e2 = numbers-ending as_stop r.0 b.on_shutdown b.components (λ f. refl) in
          let i1 =
            numbers-calls_reversed_other as_init (λ c. before_stop c.id) b.components (λ c. refl) in
          let i2 = numbers-calls_reversed_other as_init (λ c. stop c.id) b.components (λ c. refl) in
          let b1 =
            numbers-calls_reversed as_before_stop (λ c. before_stop c.id) b.components
              (λ c. refl) in
          let b2 =
            numbers-calls_reversed_other as_before_stop (λ c. stop c.id) b.components (λ c. refl) in
          let s1 =
            numbers-calls_reversed_other as_stop (λ c. before_stop c.id) b.components (λ c. refl) in
          let s2 = numbers-calls_reversed as_stop (λ c. stop c.id) b.components (λ c. refl) in
          let n1 = append-nil (ids b.components) in
          let n2 = append-nil (reversed (ids b.components)) in
          inr (
            starting-IsFine b.components fine,
            ground (arith, s, same, init_of, e0, e1, i1, i2, b1, b2, late_before, n1, n2),
            ground (arith, s, same, init_of, e0, e2, i1, i2, s1, s2, late_stop, n1, n2),
          )
    ]
