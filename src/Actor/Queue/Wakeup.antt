-- ===== src/Actor/Queue/Wakeup.antt =====
-- The consumer sleeps on `C` and pops once for each token (Actor.loop of net/actor/actor.go): it is
-- never left asleep over a value.
use actorgo.Common.{
  ℕ, ◌+◌, ◌<◌, ◌^◌, ◌≡◌, ◌≢◌, refl, ap, Bool, true, false, Option, none, some, List, [], ◌∷◌,
  length, length-append, arith,
}
use actorgo.Actor.Queue.{
  Queue, new_queue, push_swap, push_link, push_count, take_next, pop, is_empty, is_positive,
}
use actorgo.Actor.Queue.Chain.{Item}
use actorgo.Actor.Queue.Shape.{
  IsShaped, new-IsShaped, Label, pushed, hidden, took, Step, swap_pooled, swap_new, link, count,
  take,
}
use actorgo.Actor.Queue.Fifo.{Step-Does}

module _ {V : Type 0} where
  -- The consumer is awake from the token that it receives to the end of its Pop.
  pub data Turn (q : Queue V) : Bool → Queue V → Bool → Type 0 where
    produced : {awake : Bool} {q' : Queue V} (v : V) → Step q (pushed v) q' → Turn q awake q' awake
    worked : {awake : Bool} {q' : Queue V} → Step q hidden q' → Turn q awake q' awake
    received : q.token ≡ true → Turn q false (record q { token = false }) true
    popped : Turn q true (pop q).1 false

  pub data Turns : Queue V → Bool → Type 0 where
    start : Turns new_queue false
    next : {q q' : Queue V} {a a' : Bool} → Turns q a → Turn q a q' a' → Turns q' a'

  -- Asleep, with no token and no Push in flight, there is nothing to count.
  abbrev IsAwakeFor : Queue V → Bool → Type 0
  IsAwakeFor q awake =
      q.token ≡ false
      → awake ≡ false
      → q.uncounted + length q.pending ≡ 0
      → is_positive q.count ≡ false

  abbrev IsShape : Queue V → Type 0
  IsShape q = (r : List (Item V)) × IsShaped q r

  Turn-IsShape : {q q' : Queue V} {a a' : Bool} → Turn q a q' a' → IsShape q → IsShape q'
  Turn-IsShape (produced v s) w = let d = Step-Does w.0 s w.1 in (d.0, d.1)
  Turn-IsShape (worked s) w = let d = Step-Does w.0 s w.1 in (d.0, d.1)
  Turn-IsShape (received t) w = (
    w.0,
    record {
      chain = w.1.chain;
      links = w.1.links;
      distinct = w.1.distinct;
      pool_distinct = w.1.pool_distinct;
      apart = w.1.apart;
      below = w.1.below;
      pool_below = w.1.pool_below;
      narrow = w.1.narrow;
      balance = w.1.balance;
    },
  )
  Turn-IsShape popped w = let d = Step-Does w.0 take w.1 in (d.0, d.1)

  push_swap_busy : (q : Queue V) (n : ℕ) (v : V) (a : Bool) → IsAwakeFor (push_swap q n v) a
  unfolding push_swap
  push_swap_busy q n v a t s z = absurd (omega (arith, length-append q.pending ((q.head, n) ∷ [])))

  pop-IsAwakeFor :
      (q : Queue V) (r : List (Item V)) (next : Option ℕ)
      → q.next q.tail ≡ next
      → IsShaped q r
      → IsAwakeFor (take_next q next).1 false
  unfolding take_next
  pop-IsAwakeFor q [] none e w t s z = ground (arith, w.balance)
  pop-IsAwakeFor q (i ∷ r) none e w t s z = ground (arith, w.chain, w.links, w.balance)
  pop-IsAwakeFor q r (some n) e w t s z = ground arith

  -- A producer's step; a Pop is left to `pop-IsAwakeFor`.
  produced-IsAwakeFor :
      {q q' : Queue V} {l : Label V} (a : Bool)
      → Step q l q'
      → ((o : Option V) → l ≢ took o)
      → IsAwakeFor q a
      → IsAwakeFor q' a
  unfolding push_link push_count
  produced-IsAwakeFor {q} a (swap_pooled before n after v e) ne k = push_swap_busy _ n v a
  produced-IsAwakeFor {q} a (swap_new v) ne k = push_swap_busy _ q.fresh v a
  produced-IsAwakeFor {q} a (link before p n later e) ne k = λ t s z. absurd (omega arith)
  produced-IsAwakeFor {q} a (count left e) ne k = λ t s z. ground arith
  produced-IsAwakeFor {q} a take ne k = absurd (ne _ refl)

  Turn-IsAwakeFor :
      {q q' : Queue V} {a a' : Bool}
      → Turn q a q' a'
      → IsShape q
      → IsAwakeFor q a
      → IsAwakeFor q' a'
  unfolding pop
  Turn-IsAwakeFor (produced {awake} v s) w k = produced-IsAwakeFor awake s (λ o e. cc) k
  Turn-IsAwakeFor (worked {awake} s) w k = produced-IsAwakeFor awake s (λ o e. cc) k
  Turn-IsAwakeFor (received t) w k = λ x y z. absurd (cc)
  Turn-IsAwakeFor {q} popped w k = pop-IsAwakeFor q w.0 (q.next q.tail) refl w.1

  Turns-hold : {q : Queue V} {a : Bool} → Turns q a → IsShape q × IsAwakeFor q a
  Turns-hold start = (([], new-IsShaped), λ t s z. unfold new_queue in refl)
  Turns-hold (next ts t) = let w = Turns-hold ts in (Turn-IsShape t w.0, Turn-IsAwakeFor t w.0 w.1)

  -- No wake-up is lost: when the consumer sleeps with no token waiting for it, no Push is in flight
  -- and the queue holds fewer than 2^31 values, which its int32 can count, the queue is empty.
  pub asleep_is_empty :
      {q : Queue V} (r : List (Item V))
      → Turns q false
      → IsShaped q r
      → length r < 2 ^ 31
      → q.token ≡ false
      → q.pending ≡ []
      → q.uncounted ≡ 0
      → is_empty q ≡ true
  unfolding is_empty
  asleep_is_empty {q} r ts shape small t p u =
      let w = Turns-hold ts in
      let idle : is_positive q.count ≡ false = w.1 t refl (omega (arith, ap length p)) in
      none_left r shape small idle
    where
      none_left :
          (r : List (Item V))
          → IsShaped q r
          → length r < 2 ^ 31
          → is_positive q.count ≡ false
          → (elim (q.next q.tail) as (λ _. Bool) [ none ↦ true | some n ↦ false ]) ≡ true
      none_left [] w l c = ground (arith, w.chain)
      none_left (i ∷ r) w l c = absurd (ground (arith, w.balance, w.narrow, p, u, l, c))
