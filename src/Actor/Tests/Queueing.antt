-- ===== src/Actor/Tests/Queueing.antt =====
-- One value through the queue: a producer's three steps, and the consumer's wake-up and Pop.
use actorgo.Common.{ℕ, ◌≡◌, refl, arith, true, false, List, [], ◌∷◌, ◌++◌}
use actorgo.Actor.Queue.{Queue, new_queue, push_swap, get_new, push_link, push_count, pop, is_empty}
use actorgo.Actor.Queue.Chain.{Item, values}
use actorgo.Actor.Queue.Shape.{IsShaped, pushed, hidden, took, Step, swap_new, link, count, take}
use actorgo.Actor.Queue.Fifo.{Steps, pushes, pops, Steps-fifo}
use actorgo.Actor.Queue.Wakeup.{Turns, produced, worked, received, popped, asleep_is_empty}

abbrev swapped : Queue ℕ
swapped = push_swap (get_new new_queue) 1 5

abbrev linked : Queue ℕ
linked = push_link swapped 0 1 []

abbrev counted : Queue ℕ
counted = push_count linked 0

abbrev woken : Queue ℕ
woken = record counted { token = false }

abbrev emptied : Queue ℕ
emptied = (pop woken).1

swap_step : Step new_queue (pushed 5) swapped
unfolding new_queue
swap_step = swap_new 5

link_step : Step swapped hidden linked
unfolding push_swap get_new new_queue
link_step = link [] 0 1 [] refl

count_step : Step linked hidden counted
unfolding push_link push_swap get_new new_queue
count_step = count 0 refl

history : Steps new_queue (took (pop counted).0 ∷ hidden ∷ hidden ∷ pushed 5 ∷ []) (pop counted).1
history =
    Steps.next (Steps.next (Steps.next (Steps.next Steps.start swap_step) link_step) count_step)
      take

Steps-fifo_example :
    (r : List (Item ℕ)) × IsShaped (pop counted).1 r
    × (pushes (took (pop counted).0 ∷ hidden ∷ hidden ∷ pushed 5 ∷ [])
        ≡ pops (took (pop counted).0 ∷ hidden ∷ hidden ∷ pushed 5 ∷ []) ++ values r)
Steps-fifo_example = Steps-fifo history

signalled : counted.token ≡ true
unfolding push_count push_link push_swap get_new new_queue
signalled = refl

turns : Turns emptied false
turns =
    Turns.next
      (Turns.next
        (Turns.next (Turns.next (Turns.next Turns.start (produced 5 swap_step)) (worked link_step))
          (worked count_step))
        (received signalled))
      popped

no_token : emptied.token ≡ false
unfolding push_count push_link push_swap get_new new_queue pop
no_token = refl

none_pending : emptied.pending ≡ []
unfolding push_count push_link push_swap get_new new_queue pop
none_pending = refl

none_uncounted : emptied.uncounted ≡ 0
unfolding push_count push_link push_swap get_new new_queue pop
none_uncounted = refl

emptied-IsShaped : IsShaped emptied []
unfolding push_count push_link push_swap get_new new_queue pop
emptied-IsShaped = ground arith

asleep_is_empty_example : is_empty emptied ≡ true
asleep_is_empty_example =
    asleep_is_empty [] turns emptied-IsShaped (ground arith) no_token none_pending none_uncounted
