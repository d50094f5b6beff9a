-- ===== src/Parser/Connection/Process.antt =====
-- What a Connection does with a packet: process and the handlers of net/parser/connection.go.
-- Protobuf bodies and the body codecs are parameters.
use actorgo.Common.{
  ℕ, ◌&&◌, ◌||◌, not, Bool, true, false, Option, none, some, List, [], ◌∷◌, ◌++◌, Bytes, leb, ◌==◌,
  if◌then◌else◌, length, codes, ℕ_discrete, is_some,
}
use actorgo.Common.Int.{ℤ, pos, ltb_ℤ, leb_ℤ, eq_ℤ}
use actorgo.Common.Dict.{lookup, insert, delete}
use actorgo.Proto.Packet.{
  Packet, Kind, request, response, notify, Request, Notify, codec_protobuf, system_method_handshake,
  system_method_heartbeat, system_method_cancel, system_method_kick,
}
use actorgo.Parser.Options.{Options}
use actorgo.Facade.Result.{InvokeResult, nil, ok_result, status_internal}
use actorgo.Parser.Connection.State.{
  Phase, handshaking, ready, draining, closed, Context, Task, Connection, Env, milliseconds,
  to_milliseconds, to_uint32, send, close, close_unless,
}

-- A nil result answers as an internal error.
unfoldable pub response_packet : {V : Type 0} → ℕ → ℤ → Option (InvokeResult V) → Bytes → Packet
response_packet id codec none body = record {
  kind = some (
      response (
        some (record {
          request_id = id;
          code = status_internal;
          message = codes "missing invoke result";
          body = body;
        })));
  metadata = [];
  codec = codec;
}
response_packet id codec (some r) body = record {
  kind = some (
      response
        (some (record { request_id = id; code = r.code; message = r.message; body = body })));
  metadata = [];
  codec = codec;
}

-- The timeout that the server grants: the client's, capped, and the cap if the client gives none.
unfoldable pub granted_timeout : Options → ℕ → ℤ
granted_timeout o timeout_ms =
    if leb_ℤ (milliseconds timeout_ms) (pos 0)
      || ltb_ℤ o.max_request_timeout (milliseconds timeout_ms)
    then o.max_request_timeout
    else milliseconds timeout_ms

unfoldable pub request_context : Connection → Packet → ℕ → ℕ → Context
unfolding granted_timeout
request_context c p id timeout_ms = record {
  request_id = id;
  codec = p.codec;
  timeout = granted_timeout c.options timeout_ms;
  session = c.session;
  metadata = p.metadata;
}

-- One slot for each request in flight: a repeated id or a full table refuses the request.
unfoldable pub reserve : Connection → ℕ → Context → Connection × Bool
reserve c id ctx =
    if is_some (lookup ℕ_discrete id c.inflight)
      || leb_ℤ c.options.max_inflight (pos (length c.inflight))
    then (c, false)
    else (record c { inflight = insert ℕ_discrete id ctx c.inflight }, true)

unfoldable pub release : Connection → ℕ → Connection
release c id = record c { inflight = delete ℕ_discrete id c.inflight }

abbrev pub contains : ℕ → List ℕ → Bool
contains n [] = false
contains n (x ∷ xs) = x == n || contains n xs

-- if options.IdleTimeout > 0 { SetReadDeadline(now + IdleTimeout) }
unfoldable pub set_idle_deadline : Connection → Connection
set_idle_deadline c =
    if ltb_ℤ (pos 0) c.options.idle_timeout
    then record c { read_timeout = some c.options.idle_timeout }
    else c

abbrev pub task : Packet → Request → Context → Task
task p r ctx = record { call = r; packet_codec = p.codec; context = ctx }

module _ {V : Type 0} (env : Env V) where
  unfoldable pub accept_handshake : Connection → Request → Option Bytes → Connection × Bool
  unfolding set_idle_deadline response_packet send
  accept_handshake c r none = (c, false)
  accept_handshake c r (some body) =
      send (set_idle_deadline (record c { state = ready }))
        (response_packet {V = V} r.request_id codec_protobuf (some (ok_result nil)) body)

  unfoldable pub handshake_versions : Connection → Request → Option (List ℕ) → Connection × Bool
  unfolding accept_handshake
  handshake_versions c r none = (c, false)
  handshake_versions c r (some versions) =
      if not (contains 1 versions)
      then (c, false)
      else accept_handshake c r (
          env.handshake_response (to_uint32 (to_milliseconds c.options.heartbeat_interval))
            (to_uint32 c.options.limits.max_packet_size) c.id)

  unfoldable pub handle_handshake : Connection → Request → Connection × Bool
  unfolding handshake_versions
  handle_handshake c r =
      if r.request_id == 0 then (c, false) else handshake_versions c r (env.read_handshake r.body)

  unfoldable pub heartbeat_reply : Connection → Request → Option Bytes → Connection
  unfolding send response_packet
  heartbeat_reply c r none = close c
  heartbeat_reply c r (some body) =
      close_unless
        (send c (response_packet {V = V} r.request_id codec_protobuf (some (ok_result nil)) body))

  unfoldable pub heartbeat_time : Connection → Request → Option ℤ → Connection
  unfolding heartbeat_reply
  heartbeat_time c r none = close c
  heartbeat_time c r (some time) = heartbeat_reply c r (env.heartbeat_response time)

  unfoldable pub handle_heartbeat : Connection → Request → Connection
  unfolding heartbeat_time
  handle_heartbeat c r = heartbeat_time c r (env.read_heartbeat r.body)

  -- The cancel function of the request in flight, if there is one.
  unfoldable pub cancel_inflight : Connection → ℕ → Connection
  cancel_inflight c id =
      if is_some (lookup ℕ_discrete id c.inflight)
      then record c { cancelled = id ∷ c.cancelled }
      else c

  unfoldable pub handle_cancel : Connection → Bytes → Connection × Bool
  unfolding cancel_inflight
  handle_cancel c body = elim (env.read_cancel body) [
    | none ↦ (c, false)
    | some id ↦ if id == 0 then (c, false) else (cancel_inflight c id, true)
  ]

  -- Dispatch runs in place, and its result is only logged: what remains is that it was called.
  unfoldable pub handle_notify : Connection → Packet → Notify → Connection
  handle_notify c p n = record c { notified = c.notified ++ ((n, request_context c p 0 0) ∷ []) }

  unfoldable pub spawn_request : Packet → Request → Context → Connection × Bool → Connection × Bool
  spawn_request p r ctx (c, false) = (c, false)
  spawn_request p r ctx (c, true) =
      let t = task p r ctx in (record c { running = c.running ++ (t ∷ []) }, true)

  -- go c.handleRequest(...), behind a slot in the table of requests in flight.
  unfoldable pub start_request : Connection → Packet → Request → Connection × Bool
  unfolding spawn_request
  start_request c p r =
      let ctx = request_context c p r.request_id r.timeout_ms in
      spawn_request p r ctx (reserve c r.request_id ctx)

  unfoldable pub process_request : Connection → Packet → Request → Phase → Connection × Bool
  unfolding handle_handshake handle_heartbeat start_request
  process_request c p r handshaking =
      if eq_ℤ p.codec codec_protobuf && r.method_id == system_method_handshake
      then handle_handshake c r
      else (c, false)
  process_request c p r ready =
      if r.method_id == system_method_heartbeat
      then (if eq_ℤ p.codec codec_protobuf then (handle_heartbeat c r, true) else (c, false))
      else (if leb r.method_id system_method_kick then (c, false) else start_request c p r)
  process_request c p r draining = (c, false)
  process_request c p r closed = (c, false)

  unfoldable pub process_notify : Connection → Packet → Notify → Phase → Connection × Bool
  unfolding handle_cancel handle_notify
  process_notify c p n ready =
      if n.method_id == system_method_cancel
      then (if eq_ℤ p.codec codec_protobuf then handle_cancel c n.body else (c, false))
      else (if leb n.method_id system_method_kick then (c, false) else (handle_notify c p n, true))
  process_notify c p n handshaking = (c, false)
  process_notify c p n draining = (c, false)
  process_notify c p n closed = (c, false)

  -- A nil member of the oneof does not reach `process`: Decode refuses it. Its clauses are there to
  -- make the function total.
  unfoldable pub process_kind : Connection → Packet → Option Kind → Phase → Connection × Bool
  unfolding process_request process_notify
  process_kind c p (some (request (some r))) s = process_request c p r s
  process_kind c p (some (request none)) s = (c, false)
  process_kind c p (some (notify (some n))) s = process_notify c p n s
  process_kind c p (some (notify none)) s = (c, false)
  process_kind c p (some (response r)) s = (c, false)
  process_kind c p none s = (c, false)

  -- process from its test of the state on: the state that it saw may have changed since.
  unfoldable pub process_seen : Connection → Packet → Phase → Connection × Bool
  unfolding process_kind
  process_seen c p s = process_kind c p p.kind s

  unfoldable pub process : Connection → Packet → Connection × Bool
  unfolding process_seen
  process c p = process_seen c p c.state
