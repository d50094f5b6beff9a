-- ===== src/Parser/Connection/Closing.antt =====
-- Closing a connection: once, for good, and with every request in flight cancelled.
use actorgo.Common.{
  ℕ, ◌+◌, ◌≤◌, length, ◌≡◌, refl, ◌++◌, true, false, List, [], ◌∷◌, map, arith, inl, inr, ◌⊎◌,
}
use actorgo.Proto.Packet.{Packet}
use actorgo.Parser.Connection.State.{
  Phase, handshaking, ready, draining, closed, Round, reading, decoded, tested, leaving, ended,
  Context, Connection, close,
}

abbrev pub Has : ℕ → List ℕ → Type 0
Has id [] = ⊥
Has id (x ∷ xs) = (x ≡ id) ⊎ Has id xs

abbrev pub AllIn : List (ℕ × Context) → List ℕ → Type 0
AllIn [] cs = Unit {0}
AllIn ((id, ctx) ∷ m) cs = Has id cs × AllIn m cs

AllIn-weaken : (m : List (ℕ × Context)) (cs : List ℕ) (x : ℕ) → AllIn m cs → AllIn m (x ∷ cs)
AllIn-weaken [] cs x h = tt
AllIn-weaken ((id, ctx) ∷ m) cs x h = (inr h.0, AllIn-weaken m cs x h.1)

AllIn-append : (m : List (ℕ × Context)) (cs : List ℕ) → AllIn m (map (λ e. e.0) m ++ cs)
AllIn-append [] cs = tt
AllIn-append ((id, ctx) ∷ m) cs = (inl refl, AllIn-weaken m _ id (AllIn-append m cs))

-- On a connection that is not closed, Close cancels every request in flight, gives back their slots and starts the cleanup;
-- another Close changes nothing.
pub close_lem :
    (c : Connection)
    → c.is_done ≡ false
    → AllIn c.inflight (close c).cancelled
      × ((close c).inflight ≡ [])
      × ((close c).state ≡ closed)
      × ((close c).disconnects ≡ c.disconnects + 1)
      × (close (close c) ≡ close c)
unfolding close
close_lem c d = (
  rw d (AllIn-append c.inflight c.cancelled),
  ground arith,
  ground arith,
  ground arith,
  ground arith,
)

-- Whether Run is about to take a packet for which it saw Ready.
abbrev pub may_serve : Round → ℕ
may_serve (tested p ready) = 1
may_serve (tested p handshaking) = 0
may_serve (tested p draining) = 0
may_serve (tested p closed) = 0
may_serve reading = 0
may_serve (decoded p) = 0
may_serve leaving = 0
may_serve ended = 0

-- Handlers under way and notifications handled, with the one that Run may be about to take.
abbrev pub served : Connection → ℕ
served c = length c.running + length c.notified + may_serve c.round

-- What no step changes once a connection is closed.
pub record StaysClosed (c d : Connection) : Type 0 where
  pub done : d.is_done ≡ true
  pub queue : d.write_queue ≡ c.write_queue
  pub disconnects : d.disconnects ≡ c.disconnects
  pub serves_no_more : served d ≤ served c

-- What process does to a closed connection when it saw this state.
record TakesLast (c d : Connection) (s : Phase) (p : Packet) : Type 0 where
  done : d.is_done ≡ true
  queue : d.write_queue ≡ c.write_queue
  disconnects : d.disconnects ≡ c.disconnects
  round : d.round ≡ c.round
  served_once :
      length d.running + length d.notified
      ≤ length c.running + length c.notified + may_serve (tested p s)
