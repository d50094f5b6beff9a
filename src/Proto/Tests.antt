-- ===== src/Proto/Tests.antt =====
-- The packet layer on concrete packets, with a small wire format in the place of protobuf.
mod Storing
use mathlib.Core.List.{Permᴰ}
use actorgo.Common.{◌<◌, ◌≡◌, refl, ◌↔◌, Option, none, some, [], ◌∷◌, arith, length, Bytes, codes}
use actorgo.Common.Int.{ℤ, pos, negsuc}
use actorgo.Proto.Limits.{Limits, normalize_limits, IsNormal}
use actorgo.Proto.Packet.{Packet, Kind, request, response, notify, Metadata, codec_json}
use actorgo.Proto.Validate.{validate_packet, ok}
use actorgo.Proto.Validate.Spec.{IsWellFormed, validate_packet-iff-IsWellFormed}
use actorgo.Proto.Codec.{Wire, IsWire, IsSame, encode, decode}

abbrev one_key : Metadata
one_key = (codes "trace", 7 ∷ []) ∷ []

abbrev two_keys : Metadata
two_keys = (codes "zone", 8 ∷ []) ∷ one_key

abbrev two_keys_swapped : Metadata
two_keys_swapped = (codes "trace", 7 ∷ []) ∷ (codes "zone", 8 ∷ []) ∷ []

abbrev pub hello : Packet
hello = record {
  kind = some (notify (some (record { method_id = 9; body = 1 ∷ 2 ∷ [] })));
  metadata = [];
  codec = codec_json;
}

abbrev tagged : Packet
tagged = record hello { metadata = two_keys }

abbrev unset_limits : Limits
unset_limits = record {
  max_packet_size = pos 100;
  max_body_size = pos 500;
  max_metadata_keys = pos 0;
  max_metadata_key = negsuc 4;
  max_metadata_value = pos 0;
  max_metadata_size = pos 0;
}

abbrev pub small_limits : Limits
small_limits = record {
  max_packet_size = pos 100;
  max_body_size = pos 50;
  max_metadata_keys = pos 3;
  max_metadata_key = pos 16;
  max_metadata_value = pos 16;
  max_metadata_size = pos 64;
}

small_limits-IsNormal : IsNormal small_limits
small_limits-IsNormal = ground arith

tagged_passes : validate_packet (some tagged) small_limits ≡ none
unfolding validate_packet normalize_limits
tagged_passes = refl

hello_passes : validate_packet (some hello) small_limits ≡ none
unfolding validate_packet normalize_limits
hello_passes = refl

validate_packet-iff_example :
    (validate_packet (some tagged) small_limits ≡ none)
    ↔ IsWellFormed (normalize_limits small_limits) tagged
validate_packet-iff_example = validate_packet-iff-IsWellFormed tagged small_limits

swapped : Permᴰ two_keys two_keys_swapped
swapped = Permᴰ.swap refl refl

-- A wire format for notifications without metadata: the codec, the method and the body.
abbrev pub write_notify : Option Kind → Metadata → ℤ → Option Bytes
write_notify (some (notify (some n))) [] (pos codec) = some (codec ∷ n.method_id ∷ n.body)
write_notify _ _ _ = none

abbrev pub read_notify : Bytes → Option Packet
read_notify (codec ∷ method ∷ body) = some (record {
  kind = some (notify (some (record { method_id = method; body = body })));
  metadata = [];
  codec = pos codec;
})
read_notify _ = none

abbrev pub notify_wire : Wire
notify_wire = record {
  marshal = λ p. write_notify p.kind p.metadata p.codec;
  unmarshal = read_notify;
}

reads_notify :
    (k : Option Kind) (m : Metadata) (c : ℤ) (b : Bytes)
    → write_notify k m c ≡ some b
    → (q : Packet) × (read_notify b ≡ some q)
      × IsSame (record { kind = k; metadata = m; codec = c }) q
reads_notify (some (notify (some n))) [] (pos c) b h = (
  record { kind = some (notify (some n)); metadata = []; codec = pos c },
  cc,
  record { kind = refl; codec = refl; metadata = Permᴰ.nil },
)
reads_notify (some (notify (some n))) [] (negsuc c) b h = absurd (cc)
reads_notify (some (notify (some n))) (x ∷ m) c b h = absurd (cc)
reads_notify (some (notify none)) m c b h = absurd (cc)
reads_notify (some (request r)) m c b h = absurd (cc)
reads_notify (some (response r)) m c b h = absurd (cc)
reads_notify none m c b h = absurd (cc)

notify_nonempty :
    (k : Option Kind) (m : Metadata) (c : ℤ) (b : Bytes)
    → write_notify k m c ≡ some b
    → 0 < length b
notify_nonempty k m c b h = ground arith

pub notify_wire-IsWire : IsWire notify_wire
notify_wire-IsWire = record {
  reads_back = λ p b h. reads_notify p.kind p.metadata p.codec b h;
  nonempty = λ p b h k. notify_nonempty p.kind p.metadata p.codec b h;
}

abbrev pub hello_wire : Bytes
hello_wire = 2 ∷ 9 ∷ 1 ∷ 2 ∷ []

pub hello_bytes : encode notify_wire small_limits hello ≡ ok hello_wire
unfolding encode validate_packet normalize_limits
hello_bytes = refl

bytes_hello : decode notify_wire small_limits hello_wire ≡ ok hello
unfolding decode validate_packet normalize_limits
bytes_hello = refl
