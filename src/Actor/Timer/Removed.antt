-- ===== src/Actor/Timer/Removed.antt =====
-- A timer that has been removed.
use actorgo.Common.{ℕ, ◌<◌, ◌≡◌, refl, inl, inr, none, ℕ_discrete, arith}
use actorgo.Common.Dict.{lookup-insert, lookup-delete}
use actorgo.Actor.Timer.{
  ActorTimer, start_timer, take_id, remove_timer, remove_all, fire, begin_timer, end_timer,
}
use actorgo.Actor.Timer.Steps.{
  Step, Steps, added_timer, added_once, added_schedule, id_taken, removed, removed_all, fired,
  began, ended, start, next, calls, info_of, Grows, add-Grows, add_once-Grows, add_schedule-Grows,
  remove_timer_lem, Begins, begin_timer-Begins, end_timer-next_id,
}

-- The id has been handed out, has no entry, and its callback has run n times.
record IsSilent (t : ActorTimer) (id n : ℕ) : Type 0 where
  pub known : id < t.next_id
  pub silent : info_of t id ≡ none
  pub count : calls id t.called ≡ n

Grows-IsSilent : (t u : ActorTimer) (id n : ℕ) → Grows t u → IsSilent t id n → IsSilent u id n
unfolding start_timer
Grows-IsSilent t u id n (inl same) k = rw same k
Grows-IsSilent t u id n (inr (inl taken)) k =
    rw taken (record { known = omega (arith, k.known); silent = k.silent; count = k.count })
Grows-IsSilent t u id n (inr (inr (fn, once, new))) k = rw new (from k)
  where
    from : IsSilent t id n → IsSilent (start_timer t fn once) id n
    from k = record {
      known = omega (arith, k.known);
      silent = ground (
        arith,
        k.known,
        k.silent,
        lookup-insert ℕ_discrete id t.next_id (record { fn = fn; once = once }) t.infos,
      );
      count = k.count;
    }

Begins-IsSilent : (t u : ActorTimer) (id n : ℕ) → Begins t u → IsSilent t id n → IsSilent u id n
Begins-IsSilent t u id n (inl same) k = rw same k
Begins-IsSilent t u id n (inr (inl (rest, e))) k =
    rw e (record { known = k.known; silent = k.silent; count = k.count })
Begins-IsSilent t u id n (inr (inr (other, rest, info, there, e))) k = rw e (record {
  known = k.known;
  silent = k.silent;
  count = ground (arith, k.count, k.silent, there);
})

Step-IsSilent : {t u : ActorTimer} (id n : ℕ) → Step t u → IsSilent t id n → IsSilent u id n
Step-IsSilent {t} id n (added_timer taken delay fn i u h) k =
    Grows-IsSilent t u id n (add-Grows taken t delay fn i u h) k
Step-IsSilent {t} id n (added_once taken delay fn i u h) k =
    Grows-IsSilent t u id n (add_once-Grows taken t delay fn i u h) k
Step-IsSilent {t} id n (added_schedule taken fn i u h) k =
    Grows-IsSilent t u id n (add_schedule-Grows taken t fn i u h) k
Step-IsSilent {t} id n id_taken k = Grows-IsSilent t (take_id t) id n (inr (inl refl)) k
Step-IsSilent {t} id n (removed other) k =
    let r = remove_timer_lem t other id in
    record {
      known = rw r.2 k.known;
      silent = ground (arith, r.3, k.silent);
      count = rw r.1 k.count;
    }
Step-IsSilent {t} id n removed_all k = record {
  known = unfold remove_all in k.known;
  silent = unfold remove_all in k.silent;
  count = unfold remove_all in k.count;
}
Step-IsSilent {t} id n (fired other once r) k = record {
  known = unfold fire in k.known;
  silent = unfold fire in k.silent;
  count = unfold fire in k.count;
}
Step-IsSilent {t} id n (began idle) k =
    Begins-IsSilent t (begin_timer t) id n (begin_timer-Begins t) k
Step-IsSilent {t} id n (ended other once busy) k = record {
  known = rw (end_timer-next_id t other once) k.known;
  silent = unfold end_timer in ground (arith, k.silent, lookup-delete ℕ_discrete id other t.infos);
  count = unfold end_timer in k.count;
}

Steps-IsSilent : {t u : ActorTimer} (id n : ℕ) → Steps t u → IsSilent t id n → IsSilent u id n
Steps-IsSilent id n start k = k
Steps-IsSilent id n (next s st) k = Step-IsSilent id n st (Steps-IsSilent id n s k)

-- Once a timer has been removed its callback does not run again, be its id still queued or the timer
-- fire later: whatever the actor, its callbacks and the wheel do from then on, the calls counted for
-- an id that had been handed out stay as they were at the removal.
pub remove_timer-calls :
    (t v : ActorTimer) (id : ℕ)
    → id < t.next_id
    → Steps (remove_timer t id) v
    → calls id v.called ≡ calls id t.called
remove_timer-calls t v id known s =
    let r = remove_timer_lem t id id in
    (Steps-IsSilent id (calls id t.called) s
      (record { known = rw r.2 known; silent = ground (arith, r.3); count = rw r.1 refl })).count
