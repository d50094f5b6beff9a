-- ===== src/Parser/Connection/Packets.antt =====
-- Every packet that a connection processes keeps it sound.
use actorgo.Common.{
  ℕ, ◌≡◌, ◌≢◌, refl, sym, subst, Bool, true, false, Option, none, some, List, [], ◌∷◌, Bytes,
  All-append, arith, inl, inr,
}
use actorgo.Common.Int.{ℤ}
use actorgo.Proto.Packet.{Packet, Kind, request, response, notify, Request, Notify}
use actorgo.Parser.Connection.State.{
  Phase, handshaking, ready, draining, closed, leaving, close, enqueue, Context, Connection, Env,
  send, close_unless, to_uint32, to_milliseconds,
}
use actorgo.Parser.Connection.Process.{
  request_context, set_idle_deadline, accept_handshake, handshake_versions, handle_handshake,
  heartbeat_reply, heartbeat_time, handle_heartbeat, handle_cancel, handle_notify, task,
  start_request, process_request, process_notify, process_kind, process_seen, reserve,
}
use actorgo.Parser.Connection.Serving.{touch}
use actorgo.Parser.Connection.Invariant.{
  IsSound, IsAfterHandshake, IsLast, IsBusiness, enqueue-IsSound, close-IsSound, reserve-cases,
  spawned-IsSound,
}

start_request-IsSound :
    {V : Type 0} (env : Env V) (c : Connection) (p : Packet) (r : Request)
    → c.state ≢ handshaking
    → c.round ≡ leaving
    → (c.is_done ≡ true → c.inflight ≡ [])
    → IsBusiness r.method_id
    → IsSound c
    → IsSound (start_request env c p r).0
unfolding start_request
start_request-IsSound env c p r s l e b v = elim (reserve-cases c r.request_id ctx) [
  | inl refused ↦ ground (arith, refused, v)
  | inr (free, room, taken) ↦
      ground (arith, taken, spawned-IsSound c (task p r ctx) s l e b free room v)
]
  where
    ctx : Context
    ctx = request_context c p r.request_id r.timeout_ms

set_idle_deadline-IsSound : (c : Connection) → IsSound c → IsSound (set_idle_deadline c)
unfolding set_idle_deadline
set_idle_deadline-IsSound c v = ground arith

pub touch-IsSound : (c : Connection) (s : Phase) → IsSound c → IsSound (touch c s)
unfolding touch set_idle_deadline
touch-IsSound c s v = ground arith

handle_cancel-IsSound :
    {V : Type 0} (env : Env V) (c : Connection) (b : Bytes)
    → IsSound c
    → IsSound (handle_cancel env c b).0
unfolding handle_cancel
handle_cancel-IsSound env c b v = ground arith

handle_notify-IsSound :
    {V : Type 0} (env : Env V) (c : Connection) (p : Packet) (n : Notify)
    → c.state ≢ handshaking
    → IsBusiness n.method_id
    → IsSound c
    → IsSound (handle_notify env c p n)
unfolding handle_notify
handle_notify-IsSound env c p n s b v = ground (
  arith,
  All-append (λ (m : Notify × Context). IsBusiness m.0.method_id) c.notified
      ((n, request_context c p 0 0) ∷ []) v.business_notified (b, tt),
)

ready-IsSound :
    (c : Connection) → c.round ≡ leaving → IsSound c → IsSound (record c { state = ready })
ready-IsSound c l v = record {
  usable = v.usable;
  tracked = v.tracked;
  distinct = v.distinct;
  bounded = v.bounded;
  queued = v.queued;
  quiet = λ h. absurd (cc);
  business = v.business;
  business_notified = v.business_notified;
  after_handshake = subst (λ r. IsAfterHandshake r ready) (sym l) tt;
  closed_once = λ d. ((λ h. cc), (v.closed_once d).1, (v.closed_once d).2);
  last_round = λ d. subst (λ r. IsLast r ready c.inflight) (sym l) tt;
  open_still = λ d. ((λ h. cc), (v.open_still d).1);
}

accept_handshake-IsSound :
    {V : Type 0} (env : Env V) (c : Connection) (r : Request) (b : Option Bytes)
    → c.round ≡ leaving
    → IsSound c
    → IsSound (accept_handshake env c r b).0
unfolding accept_handshake send
accept_handshake-IsSound env c r none d v = v
accept_handshake-IsSound env c r (some body) d v =
    enqueue-IsSound _ _
      (set_idle_deadline-IsSound (record c { state = ready }) (ready-IsSound c d v))

handshake_versions-IsSound :
    {V : Type 0} (env : Env V) (c : Connection) (r : Request) (vs : Option (List ℕ))
    → c.round ≡ leaving
    → IsSound c
    → IsSound (handshake_versions env c r vs).0
unfolding handshake_versions
handshake_versions-IsSound env c r none d v = v
handshake_versions-IsSound env c r (some vs) d v = ground (
  arith,
  accept_handshake-IsSound env c r
      (env.handshake_response (to_uint32 (to_milliseconds c.options.heartbeat_interval))
        (to_uint32 c.options.limits.max_packet_size) c.id)
      d v,
)

handle_handshake-IsSound :
    {V : Type 0} (env : Env V) (c : Connection) (r : Request)
    → c.round ≡ leaving
    → IsSound c
    → IsSound (handle_handshake env c r).0
unfolding handle_handshake
handle_handshake-IsSound env c r d v =
    ground (arith, handshake_versions-IsSound env c r (env.read_handshake r.body) d v)

pub close_unless-IsSound : (q : Connection × Bool) → IsSound q.0 → IsSound (close_unless q)
close_unless-IsSound (c, true) v = v
close_unless-IsSound (c, false) v = close-IsSound c v

handle_heartbeat-IsSound :
    {V : Type 0} (env : Env V) (c : Connection) (r : Request)
    → IsSound c
    → IsSound (handle_heartbeat env c r)
unfolding handle_heartbeat
handle_heartbeat-IsSound env c r v = timed (env.read_heartbeat r.body)
  where
    replied : (b : Option Bytes) → IsSound (heartbeat_reply env c r b)
    replied none = close-IsSound c v
    replied (some b) = close_unless-IsSound _ (enqueue-IsSound c _ v)

    timed : (t : Option ℤ) → IsSound (heartbeat_time env c r t)
    timed none = close-IsSound c v
    timed (some t) = replied (env.heartbeat_response t)

-- What a round that takes a packet in this state relies on.
abbrev pub MayTake : Connection → Phase → Type 0
MayTake c s = s ≡ ready → (c.state ≢ handshaking) × (c.is_done ≡ true → c.inflight ≡ [])

process_request-IsSound :
    {V : Type 0} (env : Env V) (c : Connection) (p : Packet) (r : Request) (s : Phase)
    → c.round ≡ leaving
    → MayTake c s
    → IsSound c
    → IsSound (process_request env c p r s).0
unfolding process_request
process_request-IsSound env c p r handshaking l m v =
    ground (arith, handle_handshake-IsSound env c r l v)
process_request-IsSound env c p r ready l m v = ground (
  arith,
  handle_heartbeat-IsSound env c r v,
  λ (b : IsBusiness r.method_id). start_request-IsSound env c p r (m refl).0 l (m refl).1 b v,
)
process_request-IsSound env c p r draining l m v = v
process_request-IsSound env c p r closed l m v = v

process_notify-IsSound :
    {V : Type 0} (env : Env V) (c : Connection) (p : Packet) (n : Notify) (s : Phase)
    → MayTake c s
    → IsSound c
    → IsSound (process_notify env c p n s).0
unfolding process_notify
process_notify-IsSound env c p n ready m v = ground (
  arith,
  handle_cancel-IsSound env c n.body v,
  λ (b : IsBusiness n.method_id). handle_notify-IsSound env c p n (m refl).0 b v,
)
process_notify-IsSound env c p n handshaking m v = v
process_notify-IsSound env c p n draining m v = v
process_notify-IsSound env c p n closed m v = v

process_kind-IsSound :
    {V : Type 0} (env : Env V) (c : Connection) (p : Packet) (k : Option Kind) (s : Phase)
    → c.round ≡ leaving
    → MayTake c s
    → IsSound c
    → IsSound (process_kind env c p k s).0
unfolding process_kind
process_kind-IsSound env c p (some (request (some r))) s l m v =
    process_request-IsSound env c p r s l m v
process_kind-IsSound env c p (some (request none)) s l m v = v
process_kind-IsSound env c p (some (notify (some n))) s l m v =
    process_notify-IsSound env c p n s m v
process_kind-IsSound env c p (some (notify none)) s l m v = v
process_kind-IsSound env c p (some (response r)) s l m v = v
process_kind-IsSound env c p none s l m v = v

pub process_seen-IsSound :
    {V : Type 0} (env : Env V) (c : Connection) (p : Packet) (s : Phase)
    → c.round ≡ leaving
    → MayTake c s
    → IsSound c
    → IsSound (process_seen env c p s).0
unfolding process_seen
process_seen-IsSound env c p s l m v = process_kind-IsSound env c p p.kind s l m v

-- A closed connection is not Ready, unless Run is about to leave.
abbrev pub IsShut : Connection → Type 0
IsShut c = c.is_done ≡ true → c.state ≢ ready

process_request-IsShut :
    {V : Type 0} (env : Env V) (c : Connection) (p : Packet) (r : Request) (s : Phase)
    → (process_request env c p r s).1 ≡ true
    → IsShut c
    → IsShut (process_request env c p r s).0
unfolding process_request enqueue set_idle_deadline close reserve
process_request-IsShut env c p r handshaking h v = ground arith
process_request-IsShut env c p r ready h v = ground arith
process_request-IsShut env c p r draining h v = v
process_request-IsShut env c p r closed h v = v

process_notify-IsShut :
    {V : Type 0} (env : Env V) (c : Connection) (p : Packet) (n : Notify) (s : Phase)
    → IsShut c
    → IsShut (process_notify env c p n s).0
unfolding process_notify
process_notify-IsShut env c p n ready v = ground arith
process_notify-IsShut env c p n handshaking v = v
process_notify-IsShut env c p n draining v = v
process_notify-IsShut env c p n closed v = v

pub process_kind-IsShut :
    {V : Type 0} (env : Env V) (c : Connection) (p : Packet) (k : Option Kind) (s : Phase)
    → (process_kind env c p k s).1 ≡ true
    → IsShut c
    → IsShut (process_kind env c p k s).0
unfolding process_kind
process_kind-IsShut env c p (some (request (some r))) s h v = process_request-IsShut env c p r s h v
process_kind-IsShut env c p (some (request none)) s h v = v
process_kind-IsShut env c p (some (notify (some n))) s h v = process_notify-IsShut env c p n s v
process_kind-IsShut env c p (some (notify none)) s h v = v
process_kind-IsShut env c p (some (response r)) s h v = v
process_kind-IsShut env c p none s h v = v
