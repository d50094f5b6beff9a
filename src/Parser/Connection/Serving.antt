-- ===== src/Parser/Connection/Serving.antt =====
-- The rest of a Connection's life in net/parser/connection.go: the end of a request's handler, the
-- write loop, pushes, Kick and GoAway, and the loop of Run.
use actorgo.Common.{
  ℕ, not, Bool, true, false, Option, none, some, List, [], ◌∷◌, ◌++◌, Text, Bytes, leb,
  if◌then◌else◌, codes,
}
use actorgo.Common.Int.{ℤ, pos, eq_ℤ}
use actorgo.Proto.Packet.{Packet, notify, codec_protobuf, system_method_go_away, system_method_kick}
use actorgo.Facade.Result.{InvokeResult, nil, raw, value, error_result, status_internal}
use actorgo.Parser.Connection.State.{
  Phase, handshaking, ready, draining, closed, reading, decoded, tested, leaving, ended, Task,
  Connection, Env, to_milliseconds, to_uint32, enqueue, send, close, close_unless,
}
use actorgo.Parser.Connection.Process.{response_packet, release, process_seen, set_idle_deadline}
use actorgo.Proto.Validate.{Checked, ok, err}

-- The body of a response: bytes as they are, and a typed value by the request's codec.
unfoldable pub encode_result :
    {V : Type 0} → Env V → ℤ → Option (InvokeResult V) → Option (InvokeResult V) × Bytes
encode_result env codec none =
    (some (error_result status_internal (codes "method table returned nil result")), [])
encode_result env codec (some r) =
    if eq_ℤ r.code (pos 0)
    then elim r.payload [
      | nil ↦ (some r, [])
      | raw b ↦ (some r, b)
      | value v ↦ elim (env.encode_body codec v) [
        | none ↦ (some (error_result status_internal (codes "response body encode failed")), [])
        | some b ↦ (some r, b)
      ]
    ]
    else (some r, [])

-- The end of handleRequest, when Dispatch has returned: the response is sent, the context cancelled
-- and the slot given back. The task leaves `running`.
unfoldable pub finish_request :
    {V : Type 0} → Env V → Connection → Task → List Task → Option (InvokeResult V) → Connection
unfolding encode_result send release response_packet
finish_request env c t others result =
    let (r, body) = encode_result env t.context.codec result in
    let c' = close_unless (send c (response_packet t.call.request_id t.packet_codec r body)) in
    release (record c' { running = others; cancelled = t.call.request_id ∷ c'.cancelled })
      t.call.request_id

pub data PushError : Type 0 where
  not_ready reserved encode_failed queue_full : PushError

unfoldable pub push_body : Connection → ℤ → ℕ → Option Bytes → Connection × Option PushError
unfolding send
push_body c codec method none = (c, some encode_failed)
push_body c codec method (some body) =
    let (c', sent) = send c (record {
      kind = some (notify (some (record { method_id = method; body = body })));
      metadata = [];
      codec = codec;
    }) in
    (c', if sent then none else some queue_full)

abbrev pub is_ready : Phase → Bool
is_ready ready = true
is_ready handshaking = false
is_ready draining = false
is_ready closed = false

-- Notify: a push to the client.
unfoldable pub push_notify :
    {V : Type 0} → Env V → Connection → ℕ → V → Connection × Option PushError
unfolding push_body
push_notify env c method v =
    if not (is_ready c.state)
    then (c, some not_ready)
    else (if leb method system_method_kick
        then (c, some reserved)
        else push_body c env.default_codec method (env.encode_body env.default_codec v))

-- Kick and GoAway up to their test of the state, with the packet that they are to send.
unfoldable pub ask_drain : Connection → ℕ → Option Bytes → Connection
ask_drain c method body = elim c.state [
  | closed ↦ c
  | _ ↦ record c { drains = c.drains ++ (method, body) ∷ [] }
]

unfoldable pub start_kick : {V : Type 0} → Env V → Connection → ℤ → Text → Bool → Connection
unfolding ask_drain
start_kick env c reason text reconnectable =
    ask_drain c system_method_kick (env.kick_notify reason text reconnectable)

unfoldable pub start_go_away : {V : Type 0} → Env V → Connection → ℤ → ℤ → Connection
unfolding ask_drain
start_go_away env c reason retry_after =
    ask_drain c system_method_go_away
      (env.go_away_notify reason (to_uint32 (to_milliseconds retry_after)))

-- Kick and GoAway from their store on: whatever the state is by now it becomes Draining, and the
-- terminal packet is queued if its body could be encoded. Both go on to Close whatever the write
-- brings. The other calls stay.
unfoldable pub start_drain : Connection → ℕ → Option Bytes → List (ℕ × Option Bytes) → Connection
unfolding enqueue
start_drain c method none others = record c { state = draining; drains = others }
start_drain c method (some body) others =
    (enqueue (record c { state = draining; drains = others })
      (record {
        packet = record {
          kind = some (notify (some (record { method_id = method; body = body })));
          metadata = [];
          codec = codec_protobuf;
        };
        wants_result = true;
      })).0

-- One round of writeLoop: the head of the queue, and whether it could be encoded and written. A
-- closed connection writes nothing more.
unfoldable pub write_step : Connection → (Packet → Bool) → Connection × Option Packet
unfolding close
write_step c written = if c.is_done then (c, none) else elim c.write_queue [
  | [] ↦ (c, none)
  | o ∷ rest ↦
      let c' = record c { write_queue = rest } in
      if written o.packet then (c', some o.packet) else (close c', none)
]

-- Packets after the handshake move the idle deadline.
unfoldable pub touch : Connection → Phase → Connection
unfolding set_idle_deadline
touch c handshaking = c
touch c ready = set_idle_deadline c
touch c draining = set_idle_deadline c
touch c closed = set_idle_deadline c

-- Run up to its call of process, on what the transport and the codec made of the next bytes.
unfoldable pub receive : Connection → Option (Checked Packet) → Connection
unfolding touch
receive c none = record c { round = leaving }
receive c (some (err e)) = record c { round = leaving }
receive c (some (ok p)) = record (touch c c.state) { round = decoded p }

-- process tests the state.
unfoldable pub test_state : Connection → Packet → Connection
test_state c p = record c { round = tested p c.state }

-- process after its test, and the branch of Run on what it returns.
unfoldable pub act_on : {V : Type 0} → Env V → Connection → Packet → Phase → Connection
act_on env c p s =
    let (next, goes_on) = process_seen env (record c { round = leaving }) p s in
    if goes_on then record next { round = reading } else next

-- Run closes the connection and returns.
unfoldable pub leave_run : Connection → Connection
unfolding close
leave_run c = record (close c) { round = ended }
