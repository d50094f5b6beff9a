-- ===== src/Application/Numbers.antt =====
-- The components that the calls of the start and of the shutdown concern, in order.
use actorgo.Common.{
  ℕ, ◌≡◌, refl, ◌∙◌, ap, ◌⊎◌, inl, inr, Bool, true, false, Option, none, some, List, [], ◌∷◌, ◌++◌,
  arith, Bool-cases,
}
use mathlib.Core.List.{append-nil}
use actorgo.Application.{
  Component, Application, Call, set_app, init, after_init, before_stop, stop, shutdown_fn,
  calls_until, calls_reversed, shutdown_calls, starting, run_and_stop,
}

abbrev cons_some : Option ℕ → List ℕ → List ℕ
cons_some none ns = ns
cons_some (some n) ns = n ∷ ns

-- The numbers of the components that a kind of call was made on, in order.
abbrev pub numbers : (Call → Option ℕ) → List Call → List ℕ
numbers kind [] = []
numbers kind (c ∷ cs) = cons_some (kind c) (numbers kind cs)

abbrev pub as_init : Call → Option ℕ
as_init (init n) = some n
as_init (set_app n) = none
as_init (after_init n) = none
as_init (before_stop n) = none
as_init (stop n) = none
as_init (shutdown_fn n) = none

abbrev pub as_before_stop : Call → Option ℕ
as_before_stop (before_stop n) = some n
as_before_stop (set_app n) = none
as_before_stop (init n) = none
as_before_stop (after_init n) = none
as_before_stop (stop n) = none
as_before_stop (shutdown_fn n) = none

abbrev pub as_stop : Call → Option ℕ
as_stop (stop n) = some n
as_stop (set_app n) = none
as_stop (init n) = none
as_stop (after_init n) = none
as_stop (before_stop n) = none
as_stop (shutdown_fn n) = none

cons_some-append : (o : Option ℕ) (ns ms : List ℕ) → cons_some o (ns ++ ms) ≡ cons_some o ns ++ ms
cons_some-append none ns ms = refl
cons_some-append (some n) ns ms = refl

numbers-append :
    (kind : Call → Option ℕ) (xs ys : List Call)
    → numbers kind (xs ++ ys) ≡ numbers kind xs ++ numbers kind ys
numbers-append kind [] ys = refl
numbers-append kind (x ∷ xs) ys =
    ap (cons_some (kind x)) (numbers-append kind xs ys)
    ∙ cons_some-append (kind x) (numbers kind xs) (numbers kind ys)

abbrev pub ids : List Component → List ℕ
ids [] = []
ids (c ∷ cs) = c.id ∷ ids cs

abbrev pub reversed : List ℕ → List ℕ
reversed [] = []
reversed (n ∷ ns) = reversed ns ++ n ∷ []

numbers-calls_until_other :
    (kind : Call → Option ℕ) (call : Component → Call) (panics : Component → Bool)
    (cs : List Component)
    → ((c : Component) → kind (call c) ≡ none)
    → numbers kind (calls_until call panics cs).0 ≡ []
unfolding calls_until
numbers-calls_until_other kind call panics [] other = refl
numbers-calls_until_other kind call panics (c ∷ cs) other =
    let rest = numbers-calls_until_other kind call panics cs other in
    elim (Bool-cases (panics c)) [
      | inl bad ↦ rw (bad, other c) refl
      | inr fine ↦ rw (fine, other c) rest
    ]

numbers-calls_until :
    (kind : Call → Option ℕ) (call : Component → Call) (panics : Component → Bool)
    (cs : List Component)
    → ((c : Component) → kind (call c) ≡ some c.id)
    → (calls_until call panics cs).1 ≡ false
    → numbers kind (calls_until call panics cs).0 ≡ ids cs
unfolding calls_until
numbers-calls_until kind call panics [] mine fine = refl
numbers-calls_until kind call panics (c ∷ cs) mine fine =
    let rest = numbers-calls_until kind call panics cs mine in
    elim (Bool-cases (panics c)) [
      | inl bad ↦ absurd (ground arith)
      | inr good ↦ rw (good, mine c) (ap (λ r. c.id ∷ r) (rest (ground arith)))
    ]

pub numbers-calls_reversed_other :
    (kind : Call → Option ℕ) (call : Component → Call) (cs : List Component)
    → ((c : Component) → kind (call c) ≡ none)
    → numbers kind (calls_reversed call cs) ≡ []
unfolding calls_reversed
numbers-calls_reversed_other kind call [] other = refl
numbers-calls_reversed_other kind call (c ∷ cs) other =
    rw
      (
        numbers-append kind (calls_reversed call cs) (call c ∷ []),
        numbers-calls_reversed_other kind call cs other,
        other c,
      )
      refl

pub numbers-calls_reversed :
    (kind : Call → Option ℕ) (call : Component → Call) (cs : List Component)
    → ((c : Component) → kind (call c) ≡ some c.id)
    → numbers kind (calls_reversed call cs) ≡ reversed (ids cs)
unfolding calls_reversed
numbers-calls_reversed kind call [] mine = refl
numbers-calls_reversed kind call (c ∷ cs) mine =
    rw
      (
        numbers-append kind (calls_reversed call cs) (call c ∷ []),
        numbers-calls_reversed kind call cs mine,
        mine c,
      )
      refl

numbers-shutdown_calls :
    (kind : Call → Option ℕ) (fs : List ℕ)
    → ((f : ℕ) → kind (shutdown_fn f) ≡ none)
    → numbers kind (shutdown_calls fs) ≡ []
unfolding shutdown_calls
numbers-shutdown_calls kind [] other = refl
numbers-shutdown_calls kind (f ∷ fs) other = rw (other f) (numbers-shutdown_calls kind fs other)

-- The kinds of call that belong to the end of the life.
abbrev IsLate : (Call → Option ℕ) → Type 0
IsLate kind =
    ((n : ℕ) → kind (set_app n) ≡ none)
    × ((n : ℕ) → kind (init n) ≡ none)
    × ((n : ℕ) → kind (after_init n) ≡ none)

pub numbers-starting_late :
    (kind : Call → Option ℕ) (cs : List Component) → IsLate kind → numbers kind (starting cs).0 ≡ []
unfolding starting
numbers-starting_late kind cs late =
    let sets = calls_until (λ c. set_app c.id) (λ c. c.set_panics) cs in
    let inits = calls_until (λ c. init c.id) (λ c. c.init_panics) cs in
    let afters = calls_until (λ c. after_init c.id) (λ c. c.after_init_panics) cs in
    let s =
      numbers-calls_until_other kind (λ c. set_app c.id) (λ c. c.set_panics) cs
        (λ c. late.0 c.id) in
    let i =
      numbers-calls_until_other kind (λ c. init c.id) (λ c. c.init_panics) cs (λ c. late.1 c.id) in
    let a =
      numbers-calls_until_other kind (λ c. after_init c.id) (λ c. c.after_init_panics) cs
        (λ c. late.2 c.id) in
    let si = numbers-append kind sets.0 inits.0 in
    let ia = numbers-append kind inits.0 afters.0 in
    let sia = numbers-append kind sets.0 (inits.0 ++ afters.0) in
    ground (arith, s, i, a, si, ia, sia)

pub numbers-starting_init :
    (cs : List Component) → (starting cs).1 ≡ false → numbers as_init (starting cs).0 ≡ ids cs
unfolding starting
numbers-starting_init cs fine =
    let sets = calls_until (λ c. set_app c.id) (λ c. c.set_panics) cs in
    let inits = calls_until (λ c. init c.id) (λ c. c.init_panics) cs in
    let afters = calls_until (λ c. after_init c.id) (λ c. c.after_init_panics) cs in
    let s =
      numbers-calls_until_other as_init (λ c. set_app c.id) (λ c. c.set_panics) cs (λ c. refl) in
    let i =
      numbers-calls_until as_init (λ c. init c.id) (λ c. c.init_panics) cs (λ c. refl)
        (ground arith) in
    let a =
      numbers-calls_until_other as_init (λ c. after_init c.id) (λ c. c.after_init_panics) cs
        (λ c. refl) in
    let ia = numbers-append as_init inits.0 afters.0 in
    let sia = numbers-append as_init sets.0 (inits.0 ++ afters.0) in
    let n = append-nil (ids cs) in ground (arith, s, i, a, ia, sia, n)

pub numbers-ending :
    (kind : Call → Option ℕ) (head : List Call) (fs : List ℕ) (cs : List Component)
    → ((f : ℕ) → kind (shutdown_fn f) ≡ none)
    → numbers kind (
        head
        ++ (shutdown_calls fs
            ++ (calls_reversed (λ c. before_stop c.id) cs ++ calls_reversed (λ c. stop c.id) cs)))
      ≡ numbers kind head
        ++ (numbers kind (calls_reversed (λ c. before_stop c.id) cs)
            ++ numbers kind (calls_reversed (λ c. stop c.id) cs))
numbers-ending kind head fs cs other =
    let befores = calls_reversed (λ c. before_stop c.id) cs in
    let stops = calls_reversed (λ c. stop c.id) cs in
    numbers-append kind head (shutdown_calls fs ++ (befores ++ stops))
    ∙ ap (λ r. numbers kind head ++ r)
        (numbers-append kind (shutdown_calls fs) (befores ++ stops)
          ∙ (ap (λ r. r ++ numbers kind (befores ++ stops)) (numbers-shutdown_calls kind fs other)
              ∙ numbers-append kind befores stops))

pub run_and_stop_cases :
    (b : Application) (r : List Call × Bool)
    → (r.1 ≡ true × ((run_and_stop b r).1 ≡ r.0))
      ⊎ (r.1 ≡ false
          × ((run_and_stop b r).1
              ≡ r.0
                ++ (shutdown_calls b.on_shutdown
                    ++ (calls_reversed (λ c. before_stop c.id) b.components
                        ++ calls_reversed (λ c. stop c.id) b.components))))
unfolding run_and_stop
run_and_stop_cases b (calls, true) = inl (refl, refl)
run_and_stop_cases b (calls, false) = inr (refl, refl)
