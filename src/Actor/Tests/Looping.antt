-- ===== src/Actor/Tests/Looping.antt =====
-- The loop of an actor without methods.
use actorgo.Common.{Bool, length, ◌≤◌, ℕ, ◌≡◌, refl, true, false, none, [], ◌∷◌, ◌++◌, codes, arith}
use actorgo.Common.Int.{pos}
use actorgo.Facade.Path.{new_actor_path}
use actorgo.Facade.Result.{value}
use actorgo.Actor.Mailbox.{worker_state, stop_state, new_mailbox}
use actorgo.Actor.Timer.{new_timer}
use actorgo.Actor.Loop.{
  Message, Code, panicked, Actor, take_mail, take_close, loop, run_loop, exit, begin_post, end_post,
}
use actorgo.Actor.Loop.Order.{
  Run, start, looped, posted, post_counted, exited, IsNew, messages, loop_ends_drained,
}
use actorgo.Actor.Loop.Ending.{run_loop_terminates}

abbrev code : Code ℕ ℕ
code = record { codecs' = none; call = λ h m p. panicked; on_find_child = λ m. none }

abbrev idle : Actor ℕ ℕ
idle = record {
  path = new_actor_path (codes "game") (codes "map") [];
  state = worker_state;
  closing = false;
  last_at = 0;
  mailbox = new_mailbox (codes "mail");
  children = [];
  mail = [];
  mail_count = 0;
  mail_uncounted = 0;
  event = [];
  event_count = 0;
  event_uncounted = 0;
  timer = new_timer 1;
  handled = [];
  fired = [];
}

abbrev message : Message ℕ
message = record {
  id = 3;
  target_path = new_actor_path (codes "game") (codes "map") [];
  method_id = 40;
  codec = pos 1;
  failure = none;
  payload = value 5;
  wants_result = true;
}

-- The message is posted, the actor asked to exit; the select takes the close first.
abbrev closed_actor : Actor ℕ ℕ
closed_actor = (loop code take_close 8 1 (exit (end_post (begin_post idle message) 0))).0

closed_Run : Run code idle (message ∷ []) [] closed_actor
unfolding begin_post
closed_Run = looped take_close 8 1 (exited (post_counted 0 refl (posted message start)))

abbrev drained : Actor ℕ ℕ
drained = (loop code take_mail 9 1 closed_actor).0

drained_ends : (loop code take_mail 10 drained.mail_count drained).1 ≡ true
unfolding loop exit begin_post end_post
drained_ends = refl

drained_waits :
    (length drained.mail ≡ 0)
    × (drained.mail_uncounted ≡ 0)
    × (length drained.event ≡ 0)
    × (drained.event_uncounted ≡ 0)
unfolding loop exit begin_post end_post
drained_waits = (refl, refl, refl, refl)

idle_IsNew : IsNew code idle
idle_IsNew = record {
  no_mail = refl;
  no_event = refl;
  mail_zero = (refl, refl);
  event_zero = (refl, refl);
}

loop_ends_drained_example :
    (messages drained.handled ++ drained.mail ≡ message ∷ [])
    × (drained.fired ++ drained.event ≡ [])
    × (length drained.mail ≤ drained.mail_uncounted)
    × (length drained.event ≤ drained.event_uncounted)
loop_ends_drained_example =
    loop_ends_drained code idle drained drained (message ∷ []) [] [] [] take_mail 10 idle_IsNew
      (looped take_mail 9 1 closed_Run) start
      (omega (arith, drained_waits), omega (arith, drained_waits))
      (omega (arith, drained_waits), omega (arith, drained_waits)) drained_ends

-- Two messages are posted, and the first Push has not counted yet: the loop takes the first message,
-- and is over while the second waits.
abbrev counting : Actor ℕ ℕ
counting = end_post (begin_post (begin_post idle message) message) 1

abbrev one_taken : Actor ℕ ℕ
one_taken = (loop code take_mail 9 1 (loop code take_close 8 1 counting).0).0

abbrev left_over : Actor ℕ ℕ × Bool
left_over = loop code take_mail 10 one_taken.mail_count one_taken

left_over_waits : (left_over.1 ≡ true) × (length left_over.0.mail ≡ 1)
unfolding loop begin_post end_post
left_over_waits = (refl, refl)

abbrev stopping : Actor ℕ ℕ
stopping = record idle { state = stop_state; mail = message ∷ []; mail_count = 1 }

run_loop_terminates_example :
    (run_loop code (((take_mail, 9) ∷ []) ++ (take_close, 10) ∷ []) stopping).1 ≡ true
run_loop_terminates_example =
    run_loop_terminates code ((take_mail, 9) ∷ []) take_close 10 stopping refl (refl, ground arith)
      (refl, ground arith) (ground arith) (ground arith)
