-- ===== src/Parser/Connection/Rounds.antt =====
-- What holds of Run's round as it moves on, and when the connection drains or a slot is given back.
use actorgo.Common.{ℕ, ◌≡◌, ◌≢◌, refl, ◌∙◌, ap, subst, true, List, ℕ_discrete}
use actorgo.Common.Dict.{delete}
use actorgo.Proto.Packet.{Packet}
use actorgo.Parser.Connection.State.{
  Phase, handshaking, ready, draining, closed, Round, reading, decoded, tested, leaving, ended,
  Context, Connection,
}
use actorgo.Parser.Connection.Invariant.{IsSound, IsAfterHandshake, IsLast}
use actorgo.Parser.Connection.Packets.{MayTake}

pub IsLast-delete :
    (id : ℕ) (r : Round) (s : Phase) (i : List (ℕ × Context))
    → IsLast r s i
    → IsLast r s (delete ℕ_discrete id i)
unfolding delete
IsLast-delete id reading s i h = h
IsLast-delete id (decoded p) s i h = h
IsLast-delete id (tested p ready) s i h = (h.0, rw h.1 refl)
IsLast-delete id (tested p handshaking) s i h = h
IsLast-delete id (tested p draining) s i h = h
IsLast-delete id (tested p closed) s i h = h
IsLast-delete id leaving s i h = h
IsLast-delete id ended s i h = h

pub AfterHandshake-draining :
    (r : Round) (s : Phase) → IsAfterHandshake r s → IsAfterHandshake r draining
AfterHandshake-draining reading s h = tt
AfterHandshake-draining (decoded p) s h = tt
AfterHandshake-draining (tested p ready) s h = λ e. cc
AfterHandshake-draining (tested p handshaking) s h = tt
AfterHandshake-draining (tested p draining) s h = tt
AfterHandshake-draining (tested p closed) s h = tt
AfterHandshake-draining leaving s h = tt
AfterHandshake-draining ended s h = tt

pub IsLast-draining :
    (r : Round) (s : Phase) (i : List (ℕ × Context)) → IsLast r s i → IsLast r draining i
IsLast-draining reading s i h = λ e. cc
IsLast-draining (decoded p) s i h = λ e. cc
IsLast-draining (tested p ready) s i h = ((λ e. cc), h.1)
IsLast-draining (tested p handshaking) s i h = λ e. cc
IsLast-draining (tested p draining) s i h = λ e. cc
IsLast-draining (tested p closed) s i h = λ e. cc
IsLast-draining leaving s i h = tt
IsLast-draining ended s i h = tt

-- Run moves on, and what is sound stays so.
pub moved-IsSound :
    (c : Connection) (r : Round)
    → IsSound c
    → IsAfterHandshake r c.state
    → (c.is_done ≡ true → IsLast r c.state c.inflight)
    → IsSound (record c { round = r })
moved-IsSound c r v a l = record {
  usable = v.usable;
  tracked = v.tracked;
  distinct = v.distinct;
  bounded = v.bounded;
  queued = v.queued;
  quiet = v.quiet;
  business = v.business;
  business_notified = v.business_notified;
  after_handshake = a;
  closed_once = v.closed_once;
  last_round = l;
  open_still = v.open_still;
}

pub leaving-IsSound : (c : Connection) → IsSound c → IsSound (record c { round = leaving })
leaving-IsSound c v = moved-IsSound c leaving v tt (λ d. tt)

pub seen-IsAfterHandshake : (p : Packet) (s : Phase) → IsAfterHandshake (tested p s) s
seen-IsAfterHandshake p ready = λ e. cc
seen-IsAfterHandshake p handshaking = tt
seen-IsAfterHandshake p draining = tt
seen-IsAfterHandshake p closed = tt

pub seen-IsLast :
    (p : Packet) (s : Phase) (i : List (ℕ × Context)) → s ≢ ready → IsLast (tested p s) s i
seen-IsLast p ready i h = absurd (h refl)
seen-IsLast p handshaking i h = h
seen-IsLast p draining i h = h
seen-IsLast p closed i h = h

pub tested-IsShut :
    (p : Packet) (seen s : Phase) (i : List (ℕ × Context)) → IsLast (tested p seen) s i → s ≢ ready
tested-IsShut p ready s i h = h.0
tested-IsShut p handshaking s i h = h
tested-IsShut p draining s i h = h
tested-IsShut p closed s i h = h

pub tested-MayTake :
    (c : Connection) (p : Packet) (s : Phase) → c.round ≡ tested p s → IsSound c → MayTake c s
tested-MayTake c p s e v h = (
  subst (λ r. IsAfterHandshake r c.state) seen v.after_handshake,
  λ d. (subst (λ r. IsLast r c.state c.inflight) seen (v.last_round d)).1,
)
  where
    seen : c.round ≡ tested p ready
    seen = e ∙ ap (tested p) h
