-- ===== src/Parser/Tests/Framing.antt =====
-- Frames of concrete packets, through a writer that takes one byte of each write, and options.
use actorgo.Common.{◌≡◌, refl, false, none, some, [], ◌∷◌, ◌++◌, take, Bytes}
use actorgo.Parser.Framer.{Framer, Wrote, write_packet_bytes, write_full}

-- The writer's state is what it has sent.
abbrev pub write_one : Bytes → Bytes → Wrote Bytes
write_one sent bytes = record { count = 1; is_error = false; after = sent ++ take 1 bytes }

abbrev pub all_sent : Bytes → Bytes
all_sent sent = sent

pub write_one_honest :
    (s bytes : Bytes)
    → all_sent (write_one s bytes).after ≡ all_sent s ++ take (write_one s bytes).count bytes
write_one_honest s bytes = refl

abbrev small_framer : Framer
small_framer = record { max_packet_size = 64 }

abbrev hi : Bytes
hi = 104 ∷ 105 ∷ []

abbrev hi_frame : Bytes
hi_frame = 0 ∷ 0 ∷ 0 ∷ 2 ∷ hi

hi_written : write_packet_bytes write_one small_framer [] hi ≡ some (none, hi_frame)
unfolding write_packet_bytes write_full
hi_written = refl
