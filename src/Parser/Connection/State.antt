-- ===== src/Parser/Connection/State.antt =====
-- The state of a Connection of net/parser/connection.go, its write queue and Close.
-- Goroutines are explicit: a request handler that has started is a task in `running` until it
-- finishes, and the write loop takes one packet of `write_queue` at a time. What a cancel function
-- does to a context is the request's id in `cancelled`. The cleanup that OnDisconnect runs is
-- counted, not modelled.
use actorgo.Common.{
  ℕ, ◌+◌, ◌-◌, ◌*◌, ◌/◌, ◌%◌, ◌^◌, Bool, true, false, Option, none, List, [], ◌∷◌, ◌++◌, map, Text,
  Bytes, ◌==◌, if◌then◌else◌, length, suc,
}
use actorgo.Common.Int.{ℤ, pos, negsuc, ltb_ℤ}
use actorgo.Proto.Packet.{Packet, Request, Notify, Metadata}
use actorgo.Parser.Options.{Options}
use actorgo.Parser.Manager.{Data}

pub data Phase : Type 0 where
  handshaking ready draining closed : Phase

pub record Session : Type 0 where
  pub sid : Text
  pub uid : ℤ
  pub ip : Text
  pub session_data : Data

-- RequestContext as requestContext fills it: TransportAGP, a snapshot of the session and a copy of
-- the metadata, with the timeout of its deadline.
pub record Context : Type 0 where
  pub request_id : ℕ
  pub codec : ℤ
  pub timeout : ℤ
  pub session : Session
  pub metadata : Metadata

pub record Task : Type 0 where
  pub call : Request
  pub packet_codec : ℤ
  pub context : Context

-- `wants_result` says whether a sendSync waits on the packet's result channel.
pub record Outbound : Type 0 where
  pub packet : Packet
  pub wants_result : Bool

-- Where Run is: it reads, has a packet, has seen the state in which it takes the packet, is about to
-- close, or has returned.
pub data Round : Type 0 where
  reading : Round
  decoded : Packet → Round
  tested : Packet → Phase → Round
  leaving : Round
  ended : Round

-- `drains` are the calls of Kick and GoAway that have found the connection not closed and have yet to
-- store Draining, each with the method and the body of its packet.
pub record Connection : Type 0 where
  pub id : Text
  pub options : Options
  pub session : Session
  pub state : Phase
  pub write_queue : List Outbound
  pub is_done : Bool
  pub inflight : List (ℕ × Context)
  pub running : List Task
  pub notified : List (Notify × Context)
  pub cancelled : List ℕ
  pub disconnects : ℕ
  pub read_timeout : Option ℤ
  pub round : Round
  pub drains : List (ℕ × Option Bytes)

-- What protobuf, the body codecs and the clock give: each decoder and encoder fails with `none`.
pub record Env (V : Type 0) : Type 0 where
  pub read_handshake : Bytes → Option (List ℕ)
  pub handshake_response : ℕ → ℕ → Text → Option Bytes
  pub read_heartbeat : Bytes → Option ℤ
  pub heartbeat_response : ℤ → Option Bytes
  pub read_cancel : Bytes → Option ℕ
  pub kick_notify : ℤ → Text → Bool → Option Bytes
  pub go_away_notify : ℤ → ℕ → Option Bytes
  pub default_codec : ℤ
  pub encode_body : ℤ → V → Option Bytes

abbrev pub milliseconds : ℕ → ℤ
milliseconds n = pos (n * 10 ^ 6)

-- d / time.Millisecond, which rounds towards zero, and a conversion to uint32.
abbrev pub to_milliseconds : ℤ → ℤ
to_milliseconds (pos n) = pos (n / 10 ^ 6)
to_milliseconds (negsuc n) = if suc n / 10 ^ 6 == 0 then pos 0 else negsuc (suc n / 10 ^ 6 - 1)

abbrev pub to_uint32 : ℤ → ℕ
to_uint32 (pos n) = n % 2 ^ 32
to_uint32 (negsuc n) = 2 ^ 32 - 1 - n % 2 ^ 32

unfoldable pub new_connection : Text → Text → Options → Connection
new_connection id ip options = record {
  id = id;
  options = options;
  session = record { sid = id; uid = pos 0; ip = ip; session_data = [] };
  state = handshaking;
  write_queue = [];
  is_done = false;
  inflight = [];
  running = [];
  notified = [];
  cancelled = [];
  disconnects = 0;
  read_timeout = none;
  round = reading;
  drains = [];
}

-- enqueue and send: a full queue and a closed connection refuse the packet at once.
unfoldable pub enqueue : Connection → Outbound → Connection × Bool
enqueue c o =
    if c.is_done
    then (c, false)
    else (if ltb_ℤ (pos (length c.write_queue)) c.options.write_queue_size
        then (record c { write_queue = c.write_queue ++ (o ∷ []) }, true)
        else (c, false))

unfoldable pub send : Connection → Packet → Connection × Bool
unfolding enqueue
send c p = enqueue c (record { packet = p; wants_result = false })

-- The first Close; closeOnce makes every later one do nothing.
unfoldable pub close : Connection → Connection
close c = if c.is_done then c else record c {
  state = closed;
  cancelled = map (λ e. e.0) c.inflight ++ c.cancelled;
  inflight = [];
  is_done = true;
  disconnects = c.disconnects + 1;
}

-- if !ok { c.Close() }
abbrev pub close_unless : Connection × Bool → Connection
close_unless (c, true) = c
close_unless (c, false) = close c
