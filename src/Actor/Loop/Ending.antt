-- ===== src/Actor/Loop/Ending.antt =====
-- The loop of an actor that has been asked to exit comes to its end.
use actorgo.Common.{
  ℕ, suc, ◌<◌, ◌^◌, not, ◌≤◌, ◌≡◌, refl, inl, inr, ◌&&◌, true, List, [], ◌∷◌, ◌++◌, length, arith,
  Bool-cases,
}
use actorgo.Actor.Mailbox.{stop_state}
use actorgo.Actor.Queue.{is_positive}
use actorgo.Actor.Loop.{
  Code, Actor, Message, Choice, take_mail, take_event, take_timer, take_close, take_unlinked,
  process_mail, process_event, process_timer, serve, loop, run_loop, is_stopped,
}

-- How often the choices take the mailbox, and the events.
abbrev pub mail_choices : List (Choice × ℕ) → ℕ
mail_choices [] = 0
mail_choices ((take_mail, now) ∷ cs) = suc (mail_choices cs)
mail_choices ((take_event, now) ∷ cs) = mail_choices cs
mail_choices ((take_timer, now) ∷ cs) = mail_choices cs
mail_choices ((take_close, now) ∷ cs) = mail_choices cs
mail_choices ((take_unlinked, now) ∷ cs) = mail_choices cs

abbrev pub event_choices : List (Choice × ℕ) → ℕ
event_choices [] = 0
event_choices ((take_mail, now) ∷ cs) = event_choices cs
event_choices ((take_event, now) ∷ cs) = suc (event_choices cs)
event_choices ((take_timer, now) ∷ cs) = event_choices cs
event_choices ((take_close, now) ∷ cs) = event_choices cs
event_choices ((take_unlinked, now) ∷ cs) = event_choices cs

module _ {V H : Type 0} (code : Code V H) where
  -- The choices are enough for what waits.
  record IsEnough (cs : List (Choice × ℕ)) (a : Actor V H) : Type 0 where
    pub stopped : a.state ≡ stop_state
    pub for_mail : length a.mail ≤ mail_choices cs
    pub for_event : length a.event ≤ event_choices cs
    pub mail_counted : (a.mail_count ≡ length a.mail) × (length a.mail < 2 ^ 31)
    pub event_counted : (a.event_count ≡ length a.event) × (length a.event < 2 ^ 31)

  serve-IsEnough :
      (c : Choice) (now : ℕ) (cs : List (Choice × ℕ)) (a : Actor V H)
      → IsEnough ((c, now) ∷ cs) a
      → IsEnough cs (serve code c now a)
  unfolding serve process_mail process_event process_timer
  serve-IsEnough take_mail now cs a k = from a.mail refl
    where
      from : (q : List (Message V)) → a.mail ≡ q → IsEnough cs (process_mail code now a)
      from [] e = record {
        stopped = ground (arith, k.stopped);
        for_mail = ground arith;
        for_event = ground (arith, k.for_event);
        mail_counted = ground (arith, k.mail_counted);
        event_counted = ground (arith, k.event_counted);
      }
      from (m ∷ rest) e = record {
        stopped = ground (arith, k.stopped);
        for_mail = ground (arith, k.for_mail);
        for_event = ground (arith, k.for_event);
        mail_counted = ground (arith, k.mail_counted);
        event_counted = ground (arith, k.event_counted);
      }
  serve-IsEnough take_event now cs a k = record {
    stopped = ground (arith, k.stopped);
    for_mail = ground (arith, k.for_mail);
    for_event = ground (arith, k.for_event);
    mail_counted = ground (arith, k.mail_counted);
    event_counted = ground (arith, k.event_counted);
  }
  serve-IsEnough take_timer now cs a k = record {
    stopped = k.stopped;
    for_mail = k.for_mail;
    for_event = k.for_event;
    mail_counted = k.mail_counted;
    event_counted = k.event_counted;
  }
  serve-IsEnough take_close now cs a k = record {
    stopped = refl;
    for_mail = k.for_mail;
    for_event = k.for_event;
    mail_counted = k.mail_counted;
    event_counted = k.event_counted;
  }
  serve-IsEnough take_unlinked now cs a k = record {
    stopped = k.stopped;
    for_mail = k.for_mail;
    for_event = k.for_event;
    mail_counted = k.mail_counted;
    event_counted = k.event_counted;
  }

  nothing_left :
      (c : Choice) (now : ℕ) (cs : List (Choice × ℕ)) (a : Actor V H)
      → is_stopped a.state && (not (is_positive a.mail_count) && not (is_positive a.event_count))
        ≡ true
      → (run_loop code ((c, now) ∷ cs) a).1 ≡ true
  unfolding run_loop loop
  nothing_left c now cs a h = ground arith

  next_turn :
      (c : Choice) (now : ℕ) (cs : List (Choice × ℕ)) (a : Actor V H)
      → (run_loop code cs (serve code c now a)).1 ≡ true
      → (run_loop code ((c, now) ∷ cs) a).1 ≡ true
  unfolding run_loop loop
  next_turn c now cs a h =
      elim (Bool-cases (
        is_stopped a.state
        && (not (is_positive a.mail_count) && not (is_positive a.event_count)))) [
          | inl drained ↦ ground arith
          | inr busy ↦ ground (arith, h)
        ]

  run_loop_ends :
      (cs : List (Choice × ℕ)) (c : Choice) (now : ℕ) (a : Actor V H)
      → IsEnough cs a
      → (run_loop code (cs ++ (c, now) ∷ []) a).1 ≡ true
  run_loop_ends [] c now a k =
      nothing_left c now [] a
        (ground (arith, k.stopped, k.for_mail, k.for_event, k.mail_counted, k.event_counted))
  run_loop_ends ((d, then') ∷ cs) c now a k =
      next_turn d then' (cs ++ (c, now) ∷ []) a
        (run_loop_ends cs c now (serve code d then' a) (serve-IsEnough d then' cs a k))

  -- An actor that has taken its close signal, to which nothing new comes, with no Push in flight, so
  -- that its counts are what waits, fewer than 2^31, ends its loop: as soon as the select has taken
  -- the mailbox as often as messages wait, and the events as often as events wait, in any order and
  -- with any timers between, the next turn of the loop is the last.
  pub run_loop_terminates :
      (cs : List (Choice × ℕ)) (c : Choice) (now : ℕ) (a : Actor V H)
      → a.state ≡ stop_state
      → (a.mail_count ≡ length a.mail) × (length a.mail < 2 ^ 31)
      → (a.event_count ≡ length a.event) × (length a.event < 2 ^ 31)
      → length a.mail ≤ mail_choices cs
      → length a.event ≤ event_choices cs
      → (run_loop code (cs ++ (c, now) ∷ []) a).1 ≡ true
  run_loop_terminates cs c now a stopped mail_counted event_counted for_mail for_event =
      run_loop_ends cs c now a (record {
        stopped = stopped;
        for_mail = for_mail;
        for_event = for_event;
        mail_counted = mail_counted;
        event_counted = event_counted;
      })
