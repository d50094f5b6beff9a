-- ===== src/Parser/Transport.antt =====
-- net/parser/packet_transport.go: one packet per read and write, over TCP frames or WebSocket
-- messages. A WebSocket read gives the message's type and bytes, or an error; what the deadlines and
-- Close do is the connection's.
use actorgo.Common.{
  ℕ, ◌≡◌, ◌↔◌, ◌<◌, ◌^◌, ◌==◌, ◌||◌, Bool, Option, none, some, [], ◌++◌, Bytes, length, take,
  if◌then◌else◌, arith,
}
use actorgo.Common.Int.{ℤ, pos, negsuc, ltb_ℤ, ◌≤ℤ◌}
use actorgo.Proto.Limits.{normalize_limits}
use actorgo.Proto.Packet.{Packet}
use actorgo.Proto.Validate.{ok}
use actorgo.Proto.Codec.{Wire, IsWire, IsSame, new_packet_codec, encode, decode, decode-encode}
use actorgo.Parser.Options.{Options}
use actorgo.Parser.Connection.State.{to_uint32}
use actorgo.Parser.Framer.{Framer, Wrote, new_framer, packet, read_packet_bytes, write_packet_bytes}
use actorgo.Parser.Framer.Writing.{read-write_packet_bytes}

-- What the connection is, and the limit that it is given.
pub data Transport : Type 0 where
  tcp_transport : Framer → Transport
  websocket_transport : ℤ → Transport

unfoldable pub new_packet_transport : Bool → Options → Transport
unfolding normalize_limits new_framer
new_packet_transport is_websocket options =
    let limits = normalize_limits options.limits in
    if is_websocket
    then websocket_transport limits.max_packet_size
    else tcp_transport (new_framer (to_uint32 limits.max_packet_size))

-- websocket.BinaryMessage
abbrev pub binary_message : ℕ
binary_message = 2

-- The test that both directions share.
bad_length : ℤ → Bytes → Bool
bad_length max bytes = (length bytes == 0) || ltb_ℤ max (pos (length bytes))

-- ReadPacketBytes of a WebSocket: the packet, where there is one.
unfoldable pub ws_read_packet_bytes : ℤ → Option (ℕ × Bytes) → Option Bytes
unfolding bad_length
ws_read_packet_bytes max none = none
ws_read_packet_bytes max (some (typ, bytes)) =
    if typ == binary_message then (if bad_length max bytes then none else some bytes) else none

-- WritePacketBytes of a WebSocket: the message that is written, if its size is allowed.
unfoldable pub ws_write_packet_bytes : ℤ → Bytes → Option (ℕ × Bytes)
unfolding bad_length
ws_write_packet_bytes max bytes =
    if bad_length max bytes then none else some (binary_message, bytes)

-- A read gives a packet exactly for a binary message that is not empty and within the limit, and it
-- is the message.
pub ws_read_packet_bytes_iff :
    (max : ℤ) (read : Option (ℕ × Bytes)) (bytes : Bytes)
    → (ws_read_packet_bytes max read ≡ some bytes)
      ↔ ((read ≡ some (2, bytes)) × (0 < length bytes) × (pos (length bytes) ≤ℤ max))
unfolding ws_read_packet_bytes
ws_read_packet_bytes_iff max none bytes = (λ h. absurd (cc), λ h. absurd (ground arith))
ws_read_packet_bytes_iff max (some (typ, given)) bytes =
    (λ h. (ground arith, ground arith, ground arith), λ h. ground arith)

-- What a WebSocket writes is read back whole at the other end, if that end's limit is not smaller.
pub ws_read-write_packet_bytes :
    (max max' : ℤ) (bytes : Bytes) (message : ℕ × Bytes)
    → ws_write_packet_bytes max bytes ≡ some message
    → max ≤ℤ max'
    → ws_read_packet_bytes max' (some message) ≡ some bytes
unfolding ws_write_packet_bytes
ws_read-write_packet_bytes max max' bytes (typ, sent) h le =
    (ws_read_packet_bytes_iff max' (some (typ, sent)) bytes).1
      (ground (arith, h), ground (arith, h), ground (arith, h, le))

-- The framer of a TCP connection with these limits.
abbrev pub framer_of : Options → Framer
framer_of options = new_framer (to_uint32 (normalize_limits options.limits).max_packet_size)

-- The whole way of a packet over TCP: over an honest writer that has sent nothing yet, a packet that
-- the codec encodes and the transport writes is read back by the transport at the other end and
-- decodes there to the same packet, up to the order of its metadata, with what was sent after it
-- left; both ends have the same limits, and protobuf reads back what it writes.
pub decode-read-write-encode :
    {S : Type 0} (write : S → Bytes → Wrote S) (sent : S → Bytes)
    → ((s : S) (bytes : Bytes)
        → sent (write s bytes).after ≡ sent s ++ take (write s bytes).count bytes)
    → (w : Wire) (options : Options) (s s' : S) (p : Packet) (b rest : Bytes) → IsWire w
    → sent s ≡ []
    → encode w (new_packet_codec options.limits) p ≡ ok b
    → write_packet_bytes write (framer_of options) s b ≡ some (none, s')
    → (read_packet_bytes (framer_of options) (sent s' ++ rest) ≡ packet b rest)
      × (q : Packet) × (decode w (new_packet_codec options.limits) b ≡ ok q)
      × IsSame p q
decode-read-write-encode write sent honest w options s s' p b rest laws fresh encoded written =
    let d = decode-encode w (new_packet_codec options.limits) laws p b encoded in
    (
      read-write_packet_bytes write sent honest (framer_of options) s s' b rest
          (framer_small (normalize_limits options.limits).max_packet_size) fresh written,
      d.0,
      d.1,
      d.2,
    )
  where
    framer_small : (n : ℤ) → (new_framer (to_uint32 n)).max_packet_size < 2 ^ 32
    framer_small (pos n) = unfold new_framer in ground arith
    framer_small (negsuc n) = unfold new_framer in ground arith
