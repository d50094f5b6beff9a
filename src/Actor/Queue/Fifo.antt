-- ===== src/Actor/Queue/Fifo.antt =====
-- However the steps of producers and consumer interleave, the queue is first in, first out in the
-- order of the producers' swaps, and recycling nodes never disturbs it.
use mathlib.Core.List.{append_assoc}
use actorgo.Common.{ℕ, suc, ◌<◌, ◌≡◌, refl, sym, none, some, List, [], ◌∷◌, ◌++◌, All, arith}
use actorgo.Actor.Queue.{Queue, new_queue, get_pooled, get_new, pop}
use actorgo.Actor.Queue.Nodes.{
  Out, Nodup, Apart, Nodup-middle, Apart-take, Out-bound, All-grow, All-middle,
}
use actorgo.Actor.Queue.Chain.{Item, nodes, values, mark, values-mark}
use actorgo.Actor.Queue.Shape.{
  IsShaped, new-IsShaped, Label, pushed, hidden, took, Step, swap_pooled, swap_new, link, count,
  take, item, values-snoc, swap-IsShaped, push_link-IsShaped, push_count-IsShaped, Pops,
  take-IsShaped,
}

module _ {V : Type 0} where
  -- What a step does to the contents of the queue.
  abbrev pub Does : List (ℕ × ℕ) → List V → Label V → List V → Type 0
  Does pending xs (pushed v) ys = ys ≡ xs ++ (v ∷ [])
  Does pending xs hidden ys = ys ≡ xs
  Does pending xs (took o) ys = Pops pending xs o ys

  -- Every step keeps the shape of the memory and does to the contents what a queue should: a swap
  -- appends its value, the other steps of a Push change nothing, and a Pop takes the oldest value.
  pub Step-Does :
      {q q' : Queue V} {l : Label V} (r : List (Item V))
      → Step q l q'
      → IsShaped q r
      → (r' : List (Item V)) × IsShaped q' r' × Does q.pending (values r) l (values r')
  unfolding get_pooled get_new pop
  Step-Does {q} r (swap_pooled before n after v e) w =
      let out : Out n (q.tail ∷ nodes r) × Apart (q.tail ∷ nodes r) (before ++ after) =
        Apart-take (q.tail ∷ nodes r) n before after (rw e at (w.apart)) in
      let rest : Out n (before ++ after) × Nodup (before ++ after) =
        Nodup-middle n before after (rw e at (w.pool_distinct)) in
      let bound : (n < q.fresh) × All (λ x. x < q.fresh) (before ++ after) =
        All-middle n before after q.fresh (rw e at (w.pool_below)) in
      (
        r ++ (item n v ∷ []),
        swap-IsShaped (record q { pool = before ++ after }) n v r out.0 rest.0 bound.0
            (record {
              chain = w.chain;
              links = w.links;
              distinct = w.distinct;
              pool_distinct = rest.1;
              apart = out.1;
              below = w.below;
              pool_below = bound.1;
              narrow = w.narrow;
              balance = w.balance;
            }),
        values-snoc r n v,
      )
  Step-Does {q} r (swap_new v) w = (
    r ++ (item q.fresh v ∷ []),
    swap-IsShaped (record q { fresh = suc q.fresh }) q.fresh v r
        (Out-bound (q.tail ∷ nodes r) q.fresh w.below) (Out-bound q.pool q.fresh w.pool_below)
        (omega arith)
        (record {
          chain = w.chain;
          links = w.links;
          distinct = w.distinct;
          pool_distinct = w.pool_distinct;
          apart = w.apart;
          below = All-grow (q.tail ∷ nodes r) q.fresh w.below;
          pool_below = All-grow q.pool q.fresh w.pool_below;
          narrow = w.narrow;
          balance = w.balance;
        }),
    values-snoc r q.fresh v,
  )
  Step-Does {q} r (link before p n later e) w =
      (mark n r, push_link-IsShaped q r before p n later e w, values-mark n r)
  Step-Does {q} r (count left e) w = (r, push_count-IsShaped q r left e w, refl)
  Step-Does {q} r take w = take-IsShaped q r w

  pub data Steps (q : Queue V) : List (Label V) → Queue V → Type 0 where
    start : Steps q [] q
    next :
        {ls : List (Label V)} {l : Label V} {p p' : Queue V}
        → Steps q ls p
        → Step p l p'
        → Steps q (l ∷ ls) p'

  -- The values pushed and those popped in a history, latest step first, each oldest first.
  abbrev pub pushes : List (Label V) → List V
  pushes [] = []
  pushes (pushed v ∷ ls) = pushes ls ++ (v ∷ [])
  pushes (hidden ∷ ls) = pushes ls
  pushes (took o ∷ ls) = pushes ls

  abbrev pub pops : List (Label V) → List V
  pops [] = []
  pops (took (some v) ∷ ls) = pops ls ++ (v ∷ [])
  pops (took none ∷ ls) = pops ls
  pops (pushed v ∷ ls) = pops ls
  pops (hidden ∷ ls) = pops ls

  history_step :
      (l : Label V) (ls : List (Label V)) (pending : List (ℕ × ℕ)) (xs ys : List V)
      → pushes ls ≡ pops ls ++ xs
      → Does pending xs l ys
      → pushes (l ∷ ls) ≡ pops (l ∷ ls) ++ ys
  history_step (pushed v) ls pending xs ys h d = rw (h, d) (append_assoc (pops ls) xs (v ∷ []))
  history_step hidden ls pending xs ys h d = rw (h, d)
  history_step (took none) ls pending xs ys h d = rw (h, d.0)
  history_step (took (some v)) ls pending xs ys h d =
      rw (h, d) (sym (append_assoc (pops ls) (v ∷ []) ys))

  -- In every history from the new queue, what has been popped and what is still in the queue is
  -- what was pushed, in the order of the swaps: no value is lost, doubled or overtaken.
  pub Steps-fifo :
      {q : Queue V} {ls : List (Label V)}
      → Steps new_queue ls q
      → (r : List (Item V)) × IsShaped q r × (pushes ls ≡ pops ls ++ values r)
  Steps-fifo start = ([], new-IsShaped, refl)
  Steps-fifo (next {ls} {l} {p} s st) =
      let before = Steps-fifo s in
      let now = Step-Does before.0 st before.1 in
      (now.0, now.1, history_step l ls p.pending (values before.0) (values now.0) before.2 now.2)
