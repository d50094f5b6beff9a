-- ===== src/Actor/Queue/Shape.antt =====
-- The shape of the queue's memory, which every step keeps: the nodes from the tail on form a chain,
-- the links that are missing from it are those of the Pushes in flight, and the pool is apart.
use actorgo.Common.{
  ℕ, suc, ◌+◌, ◌%◌, ◌^◌, ◌<◌, ◌≡◌, ◌≢◌, refl, sym, ap, ◌∙◌, ◌⊎◌, inl, inr, true, false, Option,
  none, some, List, [], ◌∷◌, ◌++◌, length, length-append, All, All-append, arith, Bool-cases,
}
use actorgo.Actor.Queue.{
  Queue, new_queue, push_swap, get_pooled, get_new, push_link, push_count, take_next, pop,
}
use actorgo.Actor.Queue.Nodes.{Out, Nodup, Apart, Nodup-snoc, Apart-snoc, Apart-push}
use actorgo.Actor.Queue.Chain.{
  Item, nodes, values, gaps, Chain, Chain-swap, gaps-swap, Chain-frame_next, Chain-frame_val, mark,
  nodes-mark, length-mark, gaps-mark, Chain-mark,
}

-- What a step shows: a value that is pushed, a step inside a Push, or what a Pop returns.
pub data Label (V : Type 0) : Type 0 where
  pushed : V → Label V
  hidden : Label V
  took : Option V → Label V

module _ {V : Type 0} where
  pub record IsShaped (q : Queue V) (r : List (Item V)) : Type 0 where
    pub chain : Chain q.next q.val q.head q.tail r
    pub links : q.pending ≡ gaps q.tail r
    pub distinct : Nodup (q.tail ∷ nodes r)
    pub pool_distinct : Nodup q.pool
    pub apart : Apart (q.tail ∷ nodes r) q.pool
    pub below : All (λ x. x < q.fresh) (q.tail ∷ nodes r)
    pub pool_below : All (λ x. x < q.fresh) q.pool
    pub narrow : q.count < 2 ^ 32
    pub balance : (q.count + q.uncounted + length q.pending) % 2 ^ 32 ≡ length r % 2 ^ 32

  pub new-IsShaped : IsShaped (new_queue {V = V}) []
  unfolding new_queue
  new-IsShaped = ground arith

  -- One step of some producer, or one Pop of the consumer.
  pub data Step (q : Queue V) : Label V → Queue V → Type 0 where
    swap_pooled :
        (before : List ℕ) (n : ℕ) (after : List ℕ) (v : V)
        → q.pool ≡ before ++ n ∷ after
        → Step q (pushed v) (push_swap (get_pooled q (before ++ after)) n v)
    swap_new : (v : V) → Step q (pushed v) (push_swap (get_new q) q.fresh v)
    link :
        (before : List (ℕ × ℕ)) (p n : ℕ) (later : List (ℕ × ℕ))
        → q.pending ≡ before ++ (p, n) ∷ later
        → Step q hidden (push_link q p n (before ++ later))
    count : (left : ℕ) → q.uncounted ≡ suc left → Step q hidden (push_count q left)
    take : Step q (took (pop q).0) (pop q).1

  abbrev pub item : ℕ → V → Item V
  item n v = record { node = n; value = v; linked = false }

  nodes-snoc :
      (r : List (Item V)) (n : ℕ) (v : V) → nodes (r ++ (item n v ∷ [])) ≡ nodes r ++ (n ∷ [])
  nodes-snoc [] n v = refl
  nodes-snoc (i ∷ r) n v = ap (λ x. i.node ∷ x) (nodes-snoc r n v)

  pub values-snoc :
      (r : List (Item V)) (n : ℕ) (v : V) → values (r ++ (item n v ∷ [])) ≡ values r ++ (v ∷ [])
  values-snoc [] n v = refl
  values-snoc (i ∷ r) n v = ap (λ x. i.value ∷ x) (values-snoc r n v)

  -- The swap, for a node that is nowhere in the queue.
  pub swap-IsShaped :
      (q : Queue V) (n : ℕ) (v : V) (r : List (Item V))
      → Out n (q.tail ∷ nodes r)
      → Out n q.pool
      → n < q.fresh
      → IsShaped q r
      → IsShaped (push_swap q n v) (r ++ (item n v ∷ []))
  unfolding push_swap
  swap-IsShaped q n v r o po b w = record {
    chain = Chain-swap q.next q.val q.head n v q.tail r o w.chain;
    links =
        ap (λ x. x ++ ((q.head, n) ∷ [])) w.links
        ∙ sym (gaps-swap q.next q.val q.head n v q.tail r w.chain);
    distinct = rw (nodes-snoc r n v) (Nodup-snoc n (q.tail ∷ nodes r) w.distinct o);
    pool_distinct = w.pool_distinct;
    apart = rw (nodes-snoc r n v) (Apart-snoc (q.tail ∷ nodes r) q.pool n w.apart po);
    below =
        rw (nodes-snoc r n v)
          (All-append (λ x. x < q.fresh) (q.tail ∷ nodes r) (n ∷ []) w.below (b, tt));
    pool_below = w.pool_below;
    narrow = ground (arith, w.narrow);
    balance = omega (
      arith,
      w.balance,
      length-append q.pending ((q.head, n) ∷ []),
      length-append r (item n v ∷ []),
    );
  }

  pub push_link-IsShaped :
      (q : Queue V) (r : List (Item V)) (before : List (ℕ × ℕ)) (p n : ℕ) (later : List (ℕ × ℕ))
      → q.pending ≡ before ++ (p, n) ∷ later
      → IsShaped q r
      → IsShaped (push_link q p n (before ++ later)) (mark n r)
  unfolding push_link
  push_link-IsShaped q r before p n later e w = record {
    chain =
        Chain-mark q.next q.val q.head q.tail r before later p n w.distinct (sym w.links ∙ e)
          w.chain;
    links = sym (gaps-mark q.tail r before later p n w.distinct (sym w.links ∙ e));
    distinct = rw (nodes-mark n r) w.distinct;
    pool_distinct = w.pool_distinct;
    apart = rw (nodes-mark n r) w.apart;
    below = rw (nodes-mark n r) w.below;
    pool_below = w.pool_below;
    narrow = ground (arith, w.narrow);
    balance = omega (
      arith,
      w.balance,
      ap length e,
      length-append before ((p, n) ∷ later),
      length-append before later,
      length-mark n r,
    );
  }

  pub push_count-IsShaped :
      (q : Queue V) (r : List (Item V)) (left : ℕ)
      → q.uncounted ≡ suc left
      → IsShaped q r
      → IsShaped (push_count q left) r
  unfolding push_count
  push_count-IsShaped q r left e w = record {
    chain = w.chain;
    links = w.links;
    distinct = w.distinct;
    pool_distinct = w.pool_distinct;
    apart = w.apart;
    below = w.below;
    pool_below = w.pool_below;
    narrow = ground (arith, w.narrow);
    balance = ground (arith, w.balance);
  }

  -- What Pop does to the contents: the oldest value comes out, or none does, and then the queue is
  -- empty or the oldest Push has not stored its link yet.
  abbrev pub Pops : List (ℕ × ℕ) → List V → Option V → List V → Type 0
  Pops pending xs (some v) ys = xs ≡ v ∷ ys
  Pops pending xs none ys = (ys ≡ xs) × ((xs ≡ []) ⊎ (pending ≢ []))

  pub take-IsShaped :
      (q : Queue V) (r : List (Item V))
      → IsShaped q r
      → (r' : List (Item V)) × IsShaped (take_next q (q.next q.tail)).1 r'
        × Pops q.pending (values r) (take_next q (q.next q.tail)).0 (values r')
  unfolding take_next
  take-IsShaped q [] w =
      let none_next : q.next q.tail ≡ none = w.chain.1 in
      ([], rw (none_next, take_next) w, ground arith)
  take-IsShaped q (i ∷ r) w = elim (Bool-cases i.linked) [
    | inr gap ↦
        let none_next : q.next q.tail ≡ none = ground (arith, w.chain) in
        (i ∷ r, rw (none_next, take_next) w, ground (arith, w.links))
    | inl l ↦
        let some_next : q.next q.tail ≡ some i.node = ground (arith, w.chain) in
        (r, rw (some_next, take_next) (after i r w l), ground (arith, w.chain))
  ]
    where
      after :
          (i : Item V) (r : List (Item V))
          → IsShaped q (i ∷ r)
          → i.linked ≡ true
          → IsShaped (take_next q (some i.node)).1 r
      after i r w l = record {
        chain =
            Chain-frame_val _ q.val q.head i.node none i.node r w.distinct.1.0
              (Chain-frame_next q.next q.val q.head q.tail none i.node r w.distinct.0 w.chain.2);
        links = ground (arith, w.links);
        distinct = w.distinct.1;
        pool_distinct = (w.apart.0, w.pool_distinct);
        apart = Apart-push (i.node ∷ nodes r) q.pool q.tail w.apart.1 w.distinct.0;
        below = w.below.1;
        pool_below = (w.below.0, w.pool_below);
        narrow = ground (arith, w.narrow);
        balance = ground (arith, w.balance);
      }
