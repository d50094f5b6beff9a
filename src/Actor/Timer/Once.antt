-- ===== src/Actor/Timer/Once.antt =====
-- A timer that fires once.
use actorgo.Common.{
  ◌∙◌, sym, ℕ, ◌≤◌, ◌<◌, ◌≡◌, ◌≢◌, refl, inl, inr, Bool, true, none, some, ℕ_discrete, arith,
}
use actorgo.Common.Int.{ℤ, pos, ◌≤ℤ◌}
use actorgo.Parser.Connection.State.{to_milliseconds}
use actorgo.Common.Dict.{lookup, lookup-insert, lookup-delete}
use actorgo.Actor.Timer.{
  TimerInfo, ActorTimer, new_timer, added, add_once, start_timer, take_id, remove_timer, remove_all,
  fire, begin_timer, end_timer,
}
use actorgo.Actor.Timer.Steps.{
  Step, Steps, added_timer, added_once, added_schedule, id_taken, removed, removed_all, fired,
  began, ended, start, next, calls, info_of, Grows, add-Grows, add_once-Grows, add_schedule-Grows,
  remove_timer_lem, Begins, begin_timer-Begins, end_timer-next_id, Begins-next_id,
}

-- Where a timer that fires once stands, with how often its callback has run.
pub data IsOnce (t : ActorTimer) (id : ℕ) : Type 0 where
  waiting :
      (info : TimerInfo)
      → info_of t id ≡ some info
      → info.once ≡ true
      → ((once : Bool) → t.busy ≢ some (id, once))
      → calls id t.called ≡ 0
      → IsOnce t id
  running : t.busy ≡ some (id, true) → calls id t.called ≤ 1 → IsOnce t id
  over :
      info_of t id ≡ none
      → ((once : Bool) → t.busy ≢ some (id, once))
      → calls id t.called ≤ 1
      → IsOnce t id

-- The id has been handed out.
pub record IsKnown (t : ActorTimer) (id : ℕ) : Type 0 where
  pub known : id < t.next_id
  pub place : IsOnce t id

-- Another timer is entered, or an id taken.
start_timer-IsOnce :
    (t : ActorTimer) (id fn : ℕ) (once : Bool)
    → id < t.next_id
    → IsOnce t id
    → IsOnce (start_timer t fn once) id
unfolding start_timer
start_timer-IsOnce t id fn once k (waiting info i o b c) =
    waiting info
      (ground
        (arith, lookup-insert ℕ_discrete id t.next_id (record { fn = fn; once = once }) t.infos))
      o b c
start_timer-IsOnce t id fn once k (running b c) = running b c
start_timer-IsOnce t id fn once k (over i b c) =
    over
      (ground
        (arith, lookup-insert ℕ_discrete id t.next_id (record { fn = fn; once = once }) t.infos))
      b c

Grows-IsKnown : (t u : ActorTimer) (id : ℕ) → Grows t u → IsKnown t id → IsKnown u id
Grows-IsKnown t u id (inl same) k = rw same k
Grows-IsKnown t u id (inr (inl taken)) k =
    rw taken (record { known = omega (arith, k.known); place = take_id-IsOnce k.place })
  where
    take_id-IsOnce : IsOnce t id → IsOnce (take_id t) id
    take_id-IsOnce (waiting info i o b c) = waiting info i o b c
    take_id-IsOnce (running b c) = running b c
    take_id-IsOnce (over i b c) = over i b c
Grows-IsKnown t u id (inr (inr (fn, once, new))) k = rw new (record {
  known = unfold start_timer in omega (arith, k.known);
  place = start_timer-IsOnce t id fn once k.known k.place;
})

remove_timer-IsOnce :
    (t : ActorTimer) (id other : ℕ) → IsOnce t id → IsOnce (remove_timer t other) id
remove_timer-IsOnce t id other (running b c) =
    let r = remove_timer_lem t other id in running (r.0 ∙ b) (rw r.1 c)
remove_timer-IsOnce t id other (over i b c) =
    let r = remove_timer_lem t other id in over (ground (arith, r.3, i)) (rw r.0 b) (rw r.1 c)
remove_timer-IsOnce t id other (waiting info i o b c) =
    let r = remove_timer_lem t other id in
    elim (ℕ_discrete other id) [
      | yes same ↦ over (ground (arith, r.3)) (rw r.0 b) (ground (arith, r.1))
      | no ne ↦ waiting info (ground (arith, r.3, i)) o (rw r.0 b) (rw r.1 c)
    ]

Begins-IsOnce : (t u : ActorTimer) (id : ℕ) → Begins t u → t.busy ≡ none → IsOnce t id → IsOnce u id
Begins-IsOnce t u id (inl same) idle k = rw same k
Begins-IsOnce t u id (inr (inl (rest, e))) idle (waiting info i o b c) = rw e (waiting info i o b c)
Begins-IsOnce t u id (inr (inl (rest, e))) idle (running b c) = rw e (running b c)
Begins-IsOnce t u id (inr (inl (rest, e))) idle (over i b c) = rw e (over i b c)
Begins-IsOnce t u id (inr (inr (other, rest, info, there, e))) idle (running b c) = absurd (cc)
Begins-IsOnce t u id (inr (inr (other, rest, info, there, e))) idle (over i b c) =
    rw e (over i (λ x q. ground (arith, i, there)) (ground (arith, i, there)))
Begins-IsOnce t u id (inr (inr (other, rest, info, there, e))) idle (waiting info' i o b c) =
    elim (ℕ_discrete other id) [
      | yes same ↦ rw e (running (ground (arith, i, there)) (ground arith))
      | no ne ↦ rw e (waiting info' i o (λ x q. ground arith) (ground arith))
    ]

end_timer-IsOnce :
    (t : ActorTimer) (id other : ℕ) (once : Bool)
    → t.busy ≡ some (other, once)
    → IsOnce t id
    → IsOnce (end_timer t other once) id
unfolding end_timer
end_timer-IsOnce t id other once busy (waiting info i o b c) =
    waiting info (ground (arith, lookup-delete ℕ_discrete id other t.infos, b once)) o (λ x e. cc) c
end_timer-IsOnce t id other once busy (running b c) =
    over (ground (arith, lookup-delete ℕ_discrete id other t.infos)) (λ x e. cc) c
end_timer-IsOnce t id other once busy (over i b c) =
    over (ground (arith, lookup-delete ℕ_discrete id other t.infos)) (λ x e. cc) c

fire-IsOnce :
    (t : ActorTimer) (id other : ℕ) (once : Bool) → IsOnce t id → IsOnce (fire t other once) id
unfolding fire
fire-IsOnce t id other once (waiting info i o b c) = waiting info i o b c
fire-IsOnce t id other once (running b c) = running b c
fire-IsOnce t id other once (over i b c) = over i b c

remove_all-IsOnce : (t : ActorTimer) (id : ℕ) → IsOnce t id → IsOnce (remove_all t) id
unfolding remove_all
remove_all-IsOnce t id (waiting info i o b c) = waiting info i o b c
remove_all-IsOnce t id (running b c) = running b c
remove_all-IsOnce t id (over i b c) = over i b c

Step-IsKnown : {t u : ActorTimer} (id : ℕ) → Step t u → IsKnown t id → IsKnown u id
Step-IsKnown {t} id (added_timer taken delay fn i u h) k =
    Grows-IsKnown t u id (add-Grows taken t delay fn i u h) k
Step-IsKnown {t} id (added_once taken delay fn i u h) k =
    Grows-IsKnown t u id (add_once-Grows taken t delay fn i u h) k
Step-IsKnown {t} id (added_schedule taken fn i u h) k =
    Grows-IsKnown t u id (add_schedule-Grows taken t fn i u h) k
Step-IsKnown {t} id id_taken k = Grows-IsKnown t (take_id t) id (inr (inl refl)) k
Step-IsKnown {t} id (removed other) k = record {
  known = rw (remove_timer_lem t other id).2 k.known;
  place = remove_timer-IsOnce t id other k.place;
}
Step-IsKnown {t} id removed_all k = record {
  known = unfold remove_all in k.known;
  place = remove_all-IsOnce t id k.place;
}
Step-IsKnown {t} id (fired other once r) k = record {
  known = unfold fire in k.known;
  place = fire-IsOnce t id other once k.place;
}
Step-IsKnown {t} id (began idle) k =
    let b = begin_timer-Begins t in
    record {
      known = rw (Begins-next_id t (begin_timer t) b) k.known;
      place = Begins-IsOnce t (begin_timer t) id b idle k.place;
    }
Step-IsKnown {t} id (ended other once busy) k = record {
  known = rw (end_timer-next_id t other once) k.known;
  place = end_timer-IsOnce t id other once busy k.place;
}

Steps-IsKnown : {t u : ActorTimer} (id : ℕ) → Steps t u → IsKnown t id → IsKnown u id
Steps-IsKnown id start k = k
Steps-IsKnown id (next s st) k = Step-IsKnown id st (Steps-IsKnown id s k)

IsOnce-calls : {t : ActorTimer} {id : ℕ} → IsOnce t id → calls id t.called ≤ 1
IsOnce-calls (waiting info i o b c) = omega (arith, c)
IsOnce-calls (running b c) = c
IsOnce-calls (over i b c) = c

-- An id that has not been handed out: no timer, no callback, no call of it.
record IsUnused (t : ActorTimer) (id : ℕ) : Type 0 where
  absent : info_of t id ≡ none
  silent : (once : Bool) → t.busy ≢ some (id, once)
  uncalled : calls id t.called ≡ 0

abbrev LaterUnused : ActorTimer → Type 0
LaterUnused t = (id : ℕ) → t.next_id ≤ id → IsUnused t id

Grows-LaterUnused : (t u : ActorTimer) → Grows t u → LaterUnused t → LaterUnused u
Grows-LaterUnused t u (inl same) k = rw same k
Grows-LaterUnused t u (inr (inl taken)) k = rw taken (λ id le.
    let old = k id (omega (arith, le)) in
    record { absent = old.absent; silent = old.silent; uncalled = old.uncalled })
Grows-LaterUnused t u (inr (inr (fn, once, new))) k = rw new (
    unfold start_timer in
    λ id le.
      let old = k id (omega (arith, le)) in
      record {
        absent = ground (
          arith,
          le,
          old.absent,
          lookup-insert ℕ_discrete id t.next_id (record { fn = fn; once = once }) t.infos,
        );
        silent = old.silent;
        uncalled = old.uncalled;
      })

Begins-LaterUnused : (t u : ActorTimer) → Begins t u → LaterUnused t → LaterUnused u
Begins-LaterUnused t u (inl same) k = rw same k
Begins-LaterUnused t u (inr (inl (rest, e))) k = rw e (λ id le.
    let old = k id le in
    record { absent = old.absent; silent = old.silent; uncalled = old.uncalled })
Begins-LaterUnused t u (inr (inr (other, rest, info, there, e))) k = rw e (λ id le.
    let old = k id le in
    let ne : other ≢ id = λ same. ground (arith, there, old.absent, same) in
    record {
      absent = old.absent;
      silent = λ x q. ground (arith, q, ne);
      uncalled = ground (arith, ne, old.uncalled);
    })

Step-LaterUnused : {t u : ActorTimer} → Step t u → LaterUnused t → LaterUnused u
Step-LaterUnused {t} (added_timer taken delay fn i u h) k =
    Grows-LaterUnused t u (add-Grows taken t delay fn i u h) k
Step-LaterUnused {t} (added_once taken delay fn i u h) k =
    Grows-LaterUnused t u (add_once-Grows taken t delay fn i u h) k
Step-LaterUnused {t} (added_schedule taken fn i u h) k =
    Grows-LaterUnused t u (add_schedule-Grows taken t fn i u h) k
Step-LaterUnused {t} id_taken k = Grows-LaterUnused t (take_id t) (inr (inl refl)) k
Step-LaterUnused {t} (removed other) k = λ id le.
    let r = remove_timer_lem t other id in
    let old = k id (rw (sym r.2) le) in
    (record {
      absent = ground (arith, r.3, old.absent);
      silent = rw r.0 old.silent;
      uncalled = rw r.1 old.uncalled;
    })
Step-LaterUnused {t} removed_all k =
    unfold remove_all in
    (λ id le.
      let old = k id le in
      record { absent = old.absent; silent = old.silent; uncalled = old.uncalled })
Step-LaterUnused {t} (fired other once r) k =
    unfold fire in
    (λ id le.
      let old = k id le in
      record { absent = old.absent; silent = old.silent; uncalled = old.uncalled })
Step-LaterUnused {t} (began idle) k = Begins-LaterUnused t (begin_timer t) (begin_timer-Begins t) k
Step-LaterUnused {t} (ended other once busy) k =
    unfold end_timer in
    (λ id le.
      let old = k id le in
      record {
        absent = ground (arith, old.absent, lookup-delete ℕ_discrete id other t.infos);
        silent = λ x e. cc;
        uncalled = old.uncalled;
      })

Steps-LaterUnused : {t u : ActorTimer} → Steps t u → LaterUnused t → LaterUnused u
Steps-LaterUnused start k = k
Steps-LaterUnused (next s st) k = Step-LaterUnused st (Steps-LaterUnused s k)

new_timer-LaterUnused : (first : ℕ) → LaterUnused (new_timer first)
new_timer-LaterUnused first id le =
    unfold new_timer in
    record { absent = unfold lookup in refl; silent = λ x e. cc; uncalled = refl }

-- In every history of an actor's timers, the callback of a timer that AddOnce has taken, in a
-- callback or outside of one, runs at most once, whatever the actor, its callbacks and the wheel do
-- from then on. The delay is at least a millisecond, and the wheel takes the timer.
pub add_once-calls :
    (first : ℕ) (t u v : ActorTimer) (delay : ℤ) (fn : ℕ)
    → Steps (new_timer first) t
    → pos 1 ≤ℤ to_milliseconds delay
    → add_once true t delay (some fn) ≡ added t.next_id u
    → Steps u v
    → calls t.next_id v.called ≤ 1
unfolding add_once start_timer
add_once-calls first t u v delay fn before long h s =
    IsOnce-calls (Steps-IsKnown t.next_id s (rw new entered)).place
  where
    new : u ≡ start_timer t fn true
    new = ground (arith, h, long)

    unused : IsUnused t t.next_id
    unused = Steps-LaterUnused before (new_timer-LaterUnused first) t.next_id (omega arith)

    entered : IsKnown (start_timer t fn true) t.next_id
    entered = record {
      known = omega arith;
      place =
          waiting (record { fn = fn; once = true })
            (ground (
              arith,
              lookup-insert ℕ_discrete t.next_id t.next_id (record { fn = fn; once = true })
                  t.infos,
            ))
            refl unused.silent unused.uncalled;
    }
