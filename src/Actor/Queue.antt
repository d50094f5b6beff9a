-- ===== src/Actor/Queue.antt =====
-- The lock-free queue of net/actor/queue.go: many producers, one consumer. Nodes are addresses, and
-- the memory is two functions; `fresh` is the address of the next node that is allocated. A Push is
-- three steps that other producers and the consumer may come between: the swap of `head`, the store
-- of the link, and the count with its signal on `C`. What the producers in flight have still to do
-- stands in `pending`, the links that they have to store (from the first node to the second), and
-- in `uncounted`, how many of them have yet to count. `count` is the 32
-- bits of an int32, which wraps. The buffer of `C` holds one token.
pub mod Nodes
pub mod Chain
pub mod Shape
pub mod Fifo
pub mod Wakeup
use actorgo.Common.{
  ℕ, zero, suc, ◌+◌, ◌-◌, ◌%◌, ◌^◌, ◌&&◌, ltb, ◌==◌, Bool, true, false, Option, none, some, List,
  [], ◌∷◌, ◌++◌, if◌then◌else◌,
}

pub record Queue (V : Type 0) : Type 0 where
  pub next : ℕ → Option ℕ
  pub val : ℕ → Option V
  pub head : ℕ
  pub tail : ℕ
  pub count : ℕ
  pub token : Bool
  pub pool : List ℕ
  pub fresh : ℕ
  pub pending : List (ℕ × ℕ)
  pub uncounted : ℕ

abbrev pub update {ℓ} : {A : Type ℓ} → (ℕ → A) → ℕ → A → ℕ → A
update f k v = λ j. if k == j then v else f j

-- atomic.AddInt32 with 1 and with -1, on the 32 bits of the count.
abbrev pub inc : ℕ → ℕ
inc count = (count + 1) % 2 ^ 32

abbrev pub dec : ℕ → ℕ
dec count = (count + (2 ^ 32 - 1)) % 2 ^ 32

-- count > 0, of an int32: a count from 2^31 on is negative.
abbrev pub is_positive : ℕ → Bool
is_positive count = ltb 0 count && ltb count (2 ^ 31)

-- The send of _setCount, where the new count is positive; it never blocks.
abbrev pub signal : ℕ → Bool → Bool
signal count token = if is_positive count then true else token

module _ {V : Type 0} where
  unfoldable pub new_queue : Queue V
  new_queue = record {
    next = λ _. none;
    val = λ _. none;
    head = 0;
    tail = 0;
    count = 0;
    token = false;
    pool = [];
    fresh = 1;
    pending = [];
    uncounted = 0;
  }

  -- Push up to the swap of `head`, with the node that the pool gave.
  unfoldable pub push_swap : Queue V → ℕ → V → Queue V
  push_swap q n v = record q {
    next = update q.next n none;
    val = update q.val n (some v);
    head = n;
    pending = q.pending ++ ((q.head, n) ∷ []);
  }

  -- queueNodePool.Get: a node of the pool, which leaves the others, or a new one.
  unfoldable pub get_pooled : Queue V → List ℕ → Queue V
  get_pooled q others = record q { pool = others }

  unfoldable pub get_new : Queue V → Queue V
  get_new q = record q { fresh = suc q.fresh }

  -- Push, the store of prev.next; the other producers' links stay to be stored.
  unfoldable pub push_link : Queue V → ℕ → ℕ → List (ℕ × ℕ) → Queue V
  push_link q prev n others = record q {
    next = update q.next prev (some n);
    pending = others;
    uncounted = suc q.uncounted;
  }

  -- Push, _setCount(1), with the producers that have yet to count after it.
  unfoldable pub push_count : Queue V → ℕ → Queue V
  push_count q left = record q {
    count = inc q.count;
    token = signal (inc q.count) q.token;
    uncounted = left;
  }

  unfoldable pub take_next : Queue V → Option ℕ → Option V × Queue V
  take_next q none = (none, q)
  take_next q (some n) = (
    q.val n,
    record q {
      tail = n;
      val = update q.val n none;
      next = update q.next q.tail none;
      pool = q.tail ∷ q.pool;
      count = dec q.count;
      token = signal (dec q.count) q.token;
    },
  )

  unfoldable pub pop : Queue V → Option V × Queue V
  unfolding take_next
  pop q = take_next q (q.next q.tail)

  unfoldable pub is_empty : Queue V → Bool
  is_empty q = elim (q.next q.tail) [ none ↦ true | some n ↦ false ]
