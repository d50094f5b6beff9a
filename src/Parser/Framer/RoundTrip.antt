-- ===== src/Parser/Framer/RoundTrip.antt =====
-- Reading frames: what a framer accepts, and that it reads back what it writes.
use actorgo.Common.{
  ℕ, ◌^◌, ◌≤◌, ◌<◌, ◌≡◌, some, ◌++◌, length, Bytes, arith, take-append, drop-append, length-append,
}
use actorgo.Parser.Framer.{Framer, packet, put_uint32, get_uint32, read_full, read_packet_bytes}

-- The wire form of one packet.
abbrev pub frame : Bytes → Bytes
frame p = put_uint32 (length p) ++ p

pub get_uint32-put_uint32 : (v : ℕ) → v < 2 ^ 32 → get_uint32 (put_uint32 v) ≡ v
unfolding get_uint32 put_uint32
get_uint32-put_uint32 v h = omega arith

read_full-append : (xs ys : Bytes) → read_full (length xs) (xs ++ ys) ≡ some (xs, ys)
unfolding read_full
read_full-append xs ys = ground (arith, length-append xs ys, take-append xs ys, drop-append xs ys)

read_full_prefix :
    (v : ℕ) (rest : Bytes) → read_full 4 (put_uint32 v ++ rest) ≡ some (put_uint32 v, rest)
unfolding put_uint32
read_full_prefix v rest = read_full-append (put_uint32 v) rest

-- Under a limit below 2^32, a framed packet that is not empty and within the limit is read back
-- whole, whatever follows it, and nothing of what follows is consumed.
pub read_packet_bytes-frame :
    (f : Framer) (p rest : Bytes)
    → 0 < length p
    → length p ≤ f.max_packet_size
    → f.max_packet_size < 2 ^ 32
    → read_packet_bytes f (put_uint32 (length p) ++ (p ++ rest)) ≡ packet p rest
unfolding read_packet_bytes
read_packet_bytes-frame f p rest pos fits small = ground (
  arith,
  read_full_prefix (length p) (p ++ rest),
  get_uint32-put_uint32 (length p),
  read_full-append p rest,
)
