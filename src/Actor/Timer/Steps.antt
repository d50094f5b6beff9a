-- ===== src/Actor/Timer/Steps.antt =====
-- What an actor, its callbacks and the wheel do with its timers, step by step.
use mathlib.Core.Logic.{ite}
use actorgo.Common.{
  ap, ℕ, ◌+◌, ◌≡◌, refl, ◌⊎◌, inl, inr, Bool, true, false, Option, none, some, List, [], ◌∷◌,
  if◌then◌else◌, ◌==◌, ℕ_discrete, arith, Option-cases, Bool-cases,
}
use actorgo.Common.Int.{ℤ, pos, ltb_ℤ}
use actorgo.Parser.Connection.State.{to_milliseconds}
use actorgo.Common.Dict.{lookup, lookup-delete}
use actorgo.Actor.Timer.{
  TimerInfo, ActorTimer, added, add, add_once, add_schedule, start_timer, take_id, remove_timer,
  remove_all, fire, begin_timer, end_timer,
}

-- One step of the actor's code, of the wheel or of the loop. Other actors take ids as well.
pub data Step (t : ActorTimer) : ActorTimer → Type 0 where
  added_timer :
      (taken : Bool) (delay : ℤ) (fn : Option ℕ) (id : ℕ) (u : ActorTimer)
      → add taken t delay fn ≡ added id u
      → Step t u
  added_once :
      (taken : Bool) (delay : ℤ) (fn : Option ℕ) (id : ℕ) (u : ActorTimer)
      → add_once taken t delay fn ≡ added id u
      → Step t u
  added_schedule :
      (taken : Bool) (fn : Option ℕ) (id : ℕ) (u : ActorTimer)
      → add_schedule taken t fn ≡ added id u
      → Step t u
  id_taken : Step t (take_id t)
  removed : (id : ℕ) → Step t (remove_timer t id)
  removed_all : Step t (remove_all t)
  fired :
      (id : ℕ) (once : Bool) → lookup ℕ_discrete id t.running ≡ some once → Step t (fire t id once)
  began : t.busy ≡ none → Step t (begin_timer t)
  ended : (id : ℕ) (once : Bool) → t.busy ≡ some (id, once) → Step t (end_timer t id once)

pub data Steps (t : ActorTimer) : ActorTimer → Type 0 where
  start : Steps t t
  next : {u v : ActorTimer} → Steps t u → Step u v → Steps t v

-- How often the callback of a timer has run.
abbrev pub calls : ℕ → List ℕ → ℕ
calls id [] = 0
calls id (x ∷ xs) = (if x == id then 1 else 0) + calls id xs

abbrev pub info_of : ActorTimer → ℕ → Option TimerInfo
info_of t id = lookup ℕ_discrete id t.infos

-- What the three ways of adding a timer come to.
abbrev pub Grows : ActorTimer → ActorTimer → Type 0
Grows t u = (u ≡ t) ⊎ ((u ≡ take_id t) ⊎ ((fn : ℕ) × (once : Bool) × (u ≡ start_timer t fn once)))

pub add-Grows :
    (taken : Bool) (t : ActorTimer) (delay : ℤ) (fn : Option ℕ) (id : ℕ) (u : ActorTimer)
    → add taken t delay fn ≡ added id u
    → Grows t u
unfolding add
add-Grows taken t delay none id u h = inl (ground arith)
add-Grows false t delay (some f) id u h = ground arith
add-Grows true t delay (some f) id u h = elim (Bool-cases (ltb_ℤ (to_milliseconds delay) (pos 1))) [
  | inl short ↦ inl (ground arith)
  | inr long ↦ inr (inr (f, false, ground arith))
]

pub add_once-Grows :
    (taken : Bool) (t : ActorTimer) (delay : ℤ) (fn : Option ℕ) (id : ℕ) (u : ActorTimer)
    → add_once taken t delay fn ≡ added id u
    → Grows t u
unfolding add_once
add_once-Grows taken t delay none id u h = inl (ground arith)
add_once-Grows false t delay (some f) id u h = ground arith
add_once-Grows true t delay (some f) id u h =
    elim (Bool-cases (ltb_ℤ (to_milliseconds delay) (pos 1))) [
      | inl short ↦ inl (ground arith)
      | inr long ↦ inr (inr (f, true, ground arith))
    ]

pub add_schedule-Grows :
    (taken : Bool) (t : ActorTimer) (fn : Option ℕ) (id : ℕ) (u : ActorTimer)
    → add_schedule taken t fn ≡ added id u
    → Grows t u
unfolding add_schedule
add_schedule-Grows taken t none id u h = inl (ground arith)
add_schedule-Grows false t (some f) id u h = absurd (cc)
add_schedule-Grows true t (some f) id u h = inr (inr (f, false, ground arith))

-- What removing a timer changes.
pub remove_timer_lem :
    (t : ActorTimer) (other id : ℕ)
    → ((remove_timer t other).busy ≡ t.busy)
      × ((remove_timer t other).called ≡ t.called)
      × ((remove_timer t other).next_id ≡ t.next_id)
      × (info_of (remove_timer t other) id ≡ ite (ℕ_discrete other id) none (info_of t id))
unfolding remove_timer
remove_timer_lem t other id = elim (Option-cases (lookup ℕ_discrete other t.infos)) [
  | inl gone ↦ (ground arith, ground arith, ground arith, ground arith)
  | inr (x, there) ↦ (
    ground arith,
    ground arith,
    ground arith,
    ground (arith, lookup-delete ℕ_discrete id other t.infos),
  )
]

-- What the start of a callback changes: nothing, a queued id without an entry goes, or its callback
-- runs.
abbrev pub Begins : ActorTimer → ActorTimer → Type 0
Begins t u =
    (u ≡ t)
    ⊎ (((rest : List ℕ) × (u ≡ record t { queue = rest }))
        ⊎ ((other : ℕ) × (rest : List ℕ) × (info : TimerInfo) × (info_of t other ≡ some info)
            × (u ≡ record t {
              queue = rest;
              busy = some (other, info.once);
              called = other ∷ t.called;
            })))

pub begin_timer-Begins : (t : ActorTimer) → Begins t (begin_timer t)
begin_timer-Begins t = from t.queue refl
  where
    from : (q : List ℕ) → t.queue ≡ q → Begins t (begin_timer t)
    from [] e = inl (unfold begin_timer in ground arith)
    from (other ∷ rest) e = elim (Option-cases (lookup ℕ_discrete other t.infos)) [
      | inl gone ↦ inr (inl (rest, unfold begin_timer in ground arith))
      | inr (info, there) ↦ inr (inr (other, rest, info, there, unfold begin_timer in ground arith))
    ]

pub end_timer-next_id :
    (t : ActorTimer) (id : ℕ) (once : Bool) → (end_timer t id once).next_id ≡ t.next_id
unfolding end_timer
end_timer-next_id t id once = refl

pub Begins-next_id : (t u : ActorTimer) → Begins t u → u.next_id ≡ t.next_id
Begins-next_id t u (inl same) = ap (λ (x : ActorTimer). x.next_id) same
Begins-next_id t u (inr (inl (rest, e))) = ap (λ (x : ActorTimer). x.next_id) e
Begins-next_id t u (inr (inr (other, rest, info, there, e))) = ap (λ (x : ActorTimer). x.next_id) e
