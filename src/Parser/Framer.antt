-- ===== src/Parser/Framer.antt =====
-- TCPPacketFramer of net/parser/tcp_packet_framer.go. A reader is the bytes that it has left; a
-- writer takes some bytes of each write, as io.Writer allows.
pub mod RoundTrip
pub mod Writing
use actorgo.Common.{
  ℕ, zero, suc, ◌+◌, ◌*◌, ◌/◌, ◌%◌, ◌^◌, ◌||◌, Option, none, some, List, [], ◌∷◌, ◌++◌, Bool, ltb,
  ◌==◌, if◌then◌else◌, length, take, drop, Bytes,
}
use actorgo.Proto.Limits.{default_max_packet_size}

pub data FrameError : Type 0 where
  read_length read_payload bad_length write_length write_payload : FrameError

pub record Framer : Type 0 where
  pub max_packet_size : ℕ

unfoldable pub new_framer : ℕ → Framer
new_framer size = record { max_packet_size = if size == 0 then default_max_packet_size else size }

-- binary.BigEndian.PutUint32 and Uint32 on the four bytes of a prefix.
unfoldable pub put_uint32 : ℕ → Bytes
put_uint32 v = v / 2 ^ 24 % 256 ∷ v / 2 ^ 16 % 256 ∷ v / 2 ^ 8 % 256 ∷ v % 256 ∷ []

unfoldable pub get_uint32 : Bytes → ℕ
get_uint32 (a ∷ b ∷ c ∷ d ∷ []) = a * 2 ^ 24 + b * 2 ^ 16 + c * 2 ^ 8 + d
get_uint32 _ = 0

-- io.ReadFull: `none` at the end of the input. The bytes left stand beside what was read.
unfoldable pub read_full : ℕ → Bytes → Option (Bytes × Bytes)
read_full n r = if ltb (length r) n then none else some (take n r, drop n r)

pub data Read : Type 0 where
  packet : Bytes → Bytes → Read
  failed : FrameError → Read

read_payload_of : Option (Bytes × Bytes) → Read
read_payload_of none = failed read_payload
read_payload_of (some (p, rest)) = packet p rest

read_sized : Framer → ℕ → Bytes → Read
unfolding read_payload_of read_full
read_sized f n rest =
    if n == 0 || ltb f.max_packet_size n
    then failed bad_length
    else read_payload_of (read_full n rest)

read_prefix : Framer → Option (Bytes × Bytes) → Read
unfolding read_sized get_uint32
read_prefix f none = failed read_length
read_prefix f (some (prefix, rest)) = read_sized f (get_uint32 prefix) rest

unfoldable pub read_packet_bytes : Framer → Bytes → Read
unfolding read_prefix read_full
read_packet_bytes f reader = read_prefix f (read_full 4 reader)

-- One call of io.Writer.Write: how many bytes it took, whether it failed, and the writer after it.
pub record Wrote (S : Type 0) : Type 0 where
  pub count : ℕ
  pub is_error : Bool
  pub after : S

pub data Outcome : Type 0 where
  done short_write write_error : Outcome

module _ {S : Type 0} (write : S → Bytes → Wrote S) where
  -- writeFull. The loop runs while bytes are left; each round that goes on takes at least one, so
  -- fuel of one more than their number is enough.
  unfoldable pub write_loop : ℕ → S → Bytes → Option (Outcome × S)
  write_loop zero s data' = none
  write_loop (suc fuel) s [] = some (done, s)
  write_loop (suc fuel) s (b ∷ bs) =
      let r = write s (b ∷ bs) in
      let rest = write_loop fuel r.after (drop r.count (b ∷ bs)) in
      if r.is_error
      then some (write_error, r.after)
      else (if r.count == 0 then some (short_write, r.after) else rest)

  unfoldable pub write_full : S → Bytes → Option (Outcome × S)
  unfolding write_loop
  write_full s data' = write_loop (suc (length data')) s data'

  write_payload_of : Option (Outcome × S) → Option (Option FrameError × S)
  write_payload_of none = none
  write_payload_of (some (done, s)) = some (none, s)
  write_payload_of (some (short_write, s)) = some (some write_payload, s)
  write_payload_of (some (write_error, s)) = some (some write_payload, s)

  write_prefix_of : Bytes → Option (Outcome × S) → Option (Option FrameError × S)
  unfolding write_payload_of
  write_prefix_of p none = none
  write_prefix_of p (some (done, s)) = write_payload_of (write_full s p)
  write_prefix_of p (some (short_write, s)) = some (some write_length, s)
  write_prefix_of p (some (write_error, s)) = some (some write_length, s)

  -- WritePacketBytes; the outer option is `none` only if the loop's fuel ran out.
  unfoldable pub write_packet_bytes : Framer → S → Bytes → Option (Option FrameError × S)
  unfolding write_prefix_of put_uint32
  write_packet_bytes f s p =
      if length p == 0 || ltb f.max_packet_size (length p)
      then some (some bad_length, s)
      else write_prefix_of p (write_full s (put_uint32 (length p % 2 ^ 32)))
