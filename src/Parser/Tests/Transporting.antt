-- ===== src/Parser/Tests/Transporting.antt =====
-- Packets over both transports.
use actorgo.Common.{ℕ, ◌≡◌, refl, ◌++◌, Option, none, some, [], ◌∷◌, Bytes}
use actorgo.Proto.Limits.{normalize_limits}
use actorgo.Proto.Packet.{Packet}
use actorgo.Proto.Validate.{ok, validate_packet}
use actorgo.Proto.Codec.{IsSame, new_packet_codec, encode, decode}
use actorgo.Proto.Tests.{notify_wire, notify_wire-IsWire, hello, hello_wire}
use actorgo.Parser.Options.{default_options}
use actorgo.Parser.Framer.{new_framer, packet, read_packet_bytes, write_packet_bytes, write_full}
use actorgo.Parser.Tests.Framing.{write_one, all_sent, write_one_honest}
use actorgo.Parser.Transport.{framer_of, decode-read-write-encode}

abbrev seven_bytes : Bytes
seven_bytes = 7 ∷ []

abbrev seven : Option (ℕ × Bytes)
seven = some (2, 7 ∷ [])

hello_encoded : encode notify_wire (new_packet_codec default_options.limits) hello ≡ ok hello_wire
unfolding encode validate_packet normalize_limits default_options new_packet_codec
hello_encoded = refl

abbrev hello_frame : Bytes
hello_frame = 0 ∷ 0 ∷ 0 ∷ 4 ∷ hello_wire

hello_written :
    write_packet_bytes write_one (framer_of default_options) [] hello_wire
    ≡ some (none, hello_frame)
unfolding write_packet_bytes write_full normalize_limits default_options new_framer
hello_written = refl

decode-read-write-encode_example :
    (read_packet_bytes (framer_of default_options) (hello_frame ++ (9 ∷ []))
      ≡ packet hello_wire (9 ∷ []))
    × (q : Packet) × (decode notify_wire (new_packet_codec default_options.limits) hello_wire
        ≡ ok q)
    × IsSame hello q
decode-read-write-encode_example =
    decode-read-write-encode write_one all_sent write_one_honest notify_wire default_options []
      hello_frame hello hello_wire (9 ∷ []) notify_wire-IsWire refl hello_encoded hello_written
