-- ===== src/Proto/Codec.antt =====
-- PacketCodec of net/proto/agp_codec.go. Protobuf itself is a parameter: `marshal` fails with
-- `none`, and a message that is read back may order its metadata map anew.
use mathlib.Core.List.{Permᴰ}
use actorgo.Common.{
  ◌≡◌, ◌≢◌, ◌||◌, Option, none, some, arith, ◌==◌, if◌then◌else◌, length, Bytes, ◌<◌,
}
use actorgo.Common.Int.{pos, ltb_ℤ}
use actorgo.Proto.Limits.{Limits, normalize_limits}
use actorgo.Proto.Packet.{Packet}
use actorgo.Proto.Validate.{
  AgpError, Checked, ok, err, validate_packet, marshal_failed, unmarshal_failed, encoded_too_large,
  bad_packet_size,
}
use actorgo.Proto.Validate.Spec.{validate_packet-iff-IsWellFormed, IsWellFormed-perm, Fits}

pub record Wire : Type 0 where
  pub marshal : Packet → Option Bytes
  pub unmarshal : Bytes → Option Packet

-- The same packet up to the order of its metadata.
pub record IsSame (p q : Packet) : Type 0 where
  pub kind : q.kind ≡ p.kind
  pub codec : q.codec ≡ p.codec
  pub metadata : Permᴰ p.metadata q.metadata

-- What protobuf documents of a message that it encodes: reading it back gives the message, and a
-- message with a member of the oneof set takes at least one byte.
pub record IsWire (w : Wire) : Type 0 where
  pub reads_back :
      (p : Packet) (b : Bytes)
      → w.marshal p ≡ some b
      → (q : Packet) × (w.unmarshal b ≡ some q) × IsSame p q
  pub nonempty : (p : Packet) (b : Bytes) → w.marshal p ≡ some b → p.kind ≢ none → 0 < length b

-- NewPacketCodec: the limits that the codec keeps.
unfoldable pub new_packet_codec : Limits → Limits
new_packet_codec = normalize_limits

module _ (w : Wire) (limits : Limits) where
  marshal_bounded : Option Bytes → Checked Bytes
  marshal_bounded none = err marshal_failed
  marshal_bounded (some data') =
      if ltb_ℤ limits.max_packet_size (pos (length data')) then err encoded_too_large else ok data'

  encode_checked : Packet → Option AgpError → Checked Bytes
  encode_checked p (some e) = err e
  encode_checked p none = marshal_bounded (w.marshal p)

  unfoldable pub encode : Packet → Checked Bytes
  unfolding marshal_bounded encode_checked
  encode p = encode_checked p (validate_packet (some p) limits)

  decode_checked : Packet → Option AgpError → Checked Packet
  decode_checked p (some e) = err e
  decode_checked p none = ok p

  decode_message : Option Packet → Checked Packet
  decode_message none = err unmarshal_failed
  decode_message (some p) = decode_checked p (validate_packet (some p) limits)

  unfoldable pub decode : Bytes → Checked Packet
  unfolding decode_checked decode_message
  decode data' =
      if length data' == 0 || ltb_ℤ limits.max_packet_size (pos (length data'))
      then err bad_packet_size
      else decode_message (w.unmarshal data')

  pub encode_sound :
      (p : Packet) (b : Bytes)
      → encode p ≡ ok b
      → (validate_packet (some p) limits ≡ none)
        × (w.marshal p ≡ some b)
        × Fits (length b) limits.max_packet_size
  unfolding encode encode_checked marshal_bounded
  encode_sound p b h = ground arith

  -- A packet that the codec decodes passes validation, is what protobuf read from the bytes, and the
  -- bytes were neither none nor more than the packet limit.
  pub decode_sound :
      (b : Bytes) (p : Packet)
      → decode b ≡ ok p
      → (validate_packet (some p) limits ≡ none)
        × (w.unmarshal b ≡ some p)
        × (0 < length b)
        × Fits (length b) limits.max_packet_size
  unfolding decode decode_checked decode_message
  decode_sound b p h = ground arith

  decode_complete :
      (b : Bytes) (p : Packet)
      → validate_packet (some p) limits ≡ none
      → w.unmarshal b ≡ some p
      → 0 < length b
      → Fits (length b) limits.max_packet_size
      → decode b ≡ ok p
  unfolding decode decode_checked decode_message
  decode_complete b p v u n f = ground arith

  -- If protobuf reads back what it writes, what the codec encodes it decodes to the same packet, up to the order of its metadata.
  pub decode-encode :
      IsWire w
      → (p : Packet) (b : Bytes) → encode p ≡ ok b
      → (q : Packet) × (decode b ≡ ok q) × IsSame p q
  decode-encode laws p b h =
      let good : (validate_packet (some p) limits ≡ none)
          × (w.marshal p ≡ some b)
          × Fits (length b) limits.max_packet_size =
        encode_sound p b h in
      let back : (q : Packet) × (w.unmarshal b ≡ some q) × IsSame p q =
        laws.reads_back p b good.1 in
      (
        back.0,
        decode_complete b back.0 (valid good.0 back.0 back.2) back.1
            (filled good.0 (laws.nonempty p b good.1)) good.2,
        back.2,
      )
    where
      valid :
          validate_packet (some p) limits ≡ none
          → (q : Packet) → IsSame p q
          → validate_packet (some q) limits ≡ none
      valid v q s = (validate_packet-iff-IsWellFormed q limits).1 (
          IsWellFormed-perm _ p q s.kind s.codec s.metadata
            ((validate_packet-iff-IsWellFormed p limits).0 v))

      filled :
          validate_packet (some p) limits ≡ none → (p.kind ≢ none → 0 < length b) → 0 < length b
      filled v n =
          let w = (validate_packet-iff-IsWellFormed p limits).0 v in n (λ e. cc (w.has_kind))
