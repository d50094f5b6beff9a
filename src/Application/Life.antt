-- ===== src/Application/Life.antt =====
-- The calls that Startup makes on the components.
use actorgo.Common.{
  ℕ, ◌≤◌, ◌≡◌, refl, sym, ap, inl, inr, Bool, true, false, List, [], ◌∷◌, ◌++◌, arith, Bool-cases,
  subst,
}
use mathlib.Core.List.{append_assoc, append-nil}
use actorgo.Application.{
  Component, Application, Call, set_app, init, after_init, before_stop, stop, shutdown_fn,
  calls_until, calls_reversed, shutdown_calls, starting, run_and_stop, startup, with_system,
}

-- The part of the life in which a call belongs.
abbrev pub phase : Call → ℕ
phase (set_app n) = 0
phase (init n) = 1
phase (after_init n) = 2
phase (shutdown_fn n) = 3
phase (before_stop n) = 4
phase (stop n) = 5

-- No call belongs in an earlier part than one before it, or than this part.
abbrev pub Phased : ℕ → List Call → Type 0
Phased n [] = Unit
Phased n (c ∷ cs) = (n ≤ phase c) × Phased (phase c) cs

abbrev IsBlock : ℕ → List Call → Type 0
IsBlock p [] = Unit
IsBlock p (c ∷ cs) = (phase c ≡ p) × IsBlock p cs

Phased-weaken : (n m : ℕ) (cs : List Call) → n ≤ m → Phased m cs → Phased n cs
Phased-weaken n m [] le h = tt
Phased-weaken n m (c ∷ cs) le h = (omega (arith, le, h.0), h.1)

block_Phased :
    (n p : ℕ) (block rest : List Call)
    → n ≤ p
    → IsBlock p block
    → Phased p rest
    → Phased n (block ++ rest)
block_Phased n p [] rest le b h = Phased-weaken n p rest le h
block_Phased n p (c ∷ cs) rest le b h =
    (omega (arith, b.0, le), block_Phased (phase c) p cs rest (omega (arith, b.0)) b.1 h)

block_end : (n p : ℕ) (block : List Call) → n ≤ p → IsBlock p block → Phased n block
block_end n p [] le b = tt
block_end n p (c ∷ cs) le b =
    (omega (arith, b.0, le), block_end (phase c) p cs (omega (arith, b.0)) b.1)

calls_until-IsBlock :
    (p : ℕ) (call : Component → Call) (panics : Component → Bool) (cs : List Component)
    → ((c : Component) → phase (call c) ≡ p)
    → IsBlock p (calls_until call panics cs).0
unfolding calls_until
calls_until-IsBlock p call panics [] same = tt
calls_until-IsBlock p call panics (c ∷ cs) same =
    let rest = calls_until-IsBlock p call panics cs same in
    elim (Bool-cases (panics c)) [
      | inl bad ↦ rw bad (same c, tt)
      | inr fine ↦ rw fine (same c, rest)
    ]

IsBlock-append : (p : ℕ) (xs ys : List Call) → IsBlock p xs → IsBlock p ys → IsBlock p (xs ++ ys)
IsBlock-append p [] ys hx hy = hy
IsBlock-append p (x ∷ xs) ys hx hy = (hx.0, IsBlock-append p xs ys hx.1 hy)

calls_reversed-IsBlock :
    (p : ℕ) (call : Component → Call) (cs : List Component)
    → ((c : Component) → phase (call c) ≡ p)
    → IsBlock p (calls_reversed call cs)
unfolding calls_reversed
calls_reversed-IsBlock p call [] same = tt
calls_reversed-IsBlock p call (c ∷ cs) same =
    IsBlock-append p (calls_reversed call cs) (call c ∷ []) (calls_reversed-IsBlock p call cs same)
      (same c, tt)

shutdown_calls-IsBlock : (fs : List ℕ) → IsBlock 3 (shutdown_calls fs)
unfolding shutdown_calls
shutdown_calls-IsBlock [] = tt
shutdown_calls-IsBlock (f ∷ fs) = (refl, shutdown_calls-IsBlock fs)

-- The calls that end an application, behind what has been called so far.
ending_Phased :
    (fs : List ℕ) (cs : List Component)
    → Phased 2 (
        shutdown_calls fs
        ++ (calls_reversed (λ c. before_stop c.id) cs ++ calls_reversed (λ c. stop c.id) cs))
ending_Phased fs cs =
    block_Phased 2 3 (shutdown_calls fs)
      (calls_reversed (λ c. before_stop c.id) cs ++ calls_reversed (λ c. stop c.id) cs)
      (omega arith) (shutdown_calls-IsBlock fs)
      (block_Phased 3 4 (calls_reversed (λ c. before_stop c.id) cs)
        (calls_reversed (λ c. stop c.id) cs) (omega arith)
        (calls_reversed-IsBlock 4 (λ c. before_stop c.id) cs (λ c. refl))
        (block_end 4 5 (calls_reversed (λ c. stop c.id) cs) (omega arith)
          (calls_reversed-IsBlock 5 (λ c. stop c.id) cs (λ c. refl))))

abbrev sets_of : List Component → List Call × Bool
sets_of cs = calls_until (λ c. set_app c.id) (λ c. c.set_panics) cs

abbrev inits_of : List Component → List Call × Bool
inits_of cs = calls_until (λ c. init c.id) (λ c. c.init_panics) cs

abbrev afters_of : List Component → List Call × Bool
afters_of cs = calls_until (λ c. after_init c.id) (λ c. c.after_init_panics) cs

starting-Phased :
    (cs : List Component) (rest : List Call) → Phased 2 rest → Phased 0 ((starting cs).0 ++ rest)
unfolding starting
starting-Phased cs rest h =
    let b0 = calls_until-IsBlock 0 (λ c. set_app c.id) (λ c. c.set_panics) cs (λ c. refl) in
    let b1 = calls_until-IsBlock 1 (λ c. init c.id) (λ c. c.init_panics) cs (λ c. refl) in
    let b2 =
      calls_until-IsBlock 2 (λ c. after_init c.id) (λ c. c.after_init_panics) cs (λ c. refl) in
    let h0 = Phased-weaken 0 2 rest (omega arith) h in
    let h1 = Phased-weaken 1 2 rest (omega arith) h in
    elim (Bool-cases (sets_of cs).1) [
      | inl bad ↦ rw bad (block_Phased 0 0 (sets_of cs).0 rest (omega arith) b0 h0)
      | inr fine ↦ elim (Bool-cases (inits_of cs).1) [
        | inl bad ↦
            rw (fine, bad, append_assoc (sets_of cs).0 (inits_of cs).0 rest)
              (block_Phased 0 0 (sets_of cs).0 ((inits_of cs).0 ++ rest) (omega arith) b0
                (block_Phased 0 1 (inits_of cs).0 rest (omega arith) b1 h1))
        | inr good ↦
            rw
              (
                fine,
                good,
                append_assoc (sets_of cs).0 ((inits_of cs).0 ++ (afters_of cs).0) rest,
                append_assoc (inits_of cs).0 (afters_of cs).0 rest,
              )
              (block_Phased 0 0 (sets_of cs).0 ((inits_of cs).0 ++ ((afters_of cs).0 ++ rest))
                (omega arith) b0
                (block_Phased 0 1 (inits_of cs).0 ((afters_of cs).0 ++ rest) (omega arith) b1
                  (block_Phased 1 2 (afters_of cs).0 rest (omega arith) b2 h)))
      ]
    ]

run_and_stop-Phased :
    (b : Application) (r : List Call × Bool)
    → ((rest : List Call) → Phased 2 rest → Phased 0 (r.0 ++ rest))
    → Phased 0 (run_and_stop b r).1
unfolding run_and_stop
run_and_stop-Phased b (calls, true) h = subst (Phased 0) (append-nil calls) (h [] tt)
run_and_stop-Phased b (calls, false) h =
    h
      (shutdown_calls b.on_shutdown
        ++ (calls_reversed (λ c. before_stop c.id) b.components
            ++ calls_reversed (λ c. stop c.id) b.components))
      (ending_Phased b.on_shutdown b.components)

pub started :
    (system : Component) (a : Application)
    → a.running ≡ false
    → startup system a
      ≡ run_and_stop (with_system system a) (starting (with_system system a).components)
unfolding startup
started system a idle = ground arith

-- Startup takes its parts in order: it sets the application on every component before it initialises
-- any, initialises every one before it calls OnAfterInit of any, and after the shutdown functions
-- calls OnBeforeStop of every one before it stops any; and it does so up to a panic.
pub startup_in_phases : (system : Component) (a : Application) → Phased 0 (startup system a).1
startup_in_phases system a = elim (Bool-cases a.running) [
  | inl busy ↦
      let same : (startup system a).1 ≡ [] = unfold startup in ground arith in
      subst (Phased 0) (sym same) tt
  | inr idle ↦ subst (Phased 0) (sym (ap (λ r. r.1) (started system a idle))) (
      run_and_stop-Phased (with_system system a) (starting (with_system system a).components)
        (starting-Phased (with_system system a).components))
]
