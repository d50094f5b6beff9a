-- ===== src/Parser/Framer/Writing.antt =====
-- Writing frames through a writer that may take fewer bytes than it is given.
use actorgo.Common.{
  ℕ, zero, suc, ◌%◌, ◌^◌, ◌≤◌, ◌<◌, ◌≡◌, ◌≢◌, refl, ap, ◌∙◌, Option, none, some, [], ◌∷◌, ◌++◌,
  length, take, drop, Bytes, arith, take-append-drop, length-drop,
}
use actorgo.Parser.Framer.{
  Framer, Wrote, Outcome, done, short_write, write_error, write_loop, write_full, write_prefix_of,
  write_payload_of, write_packet_bytes, put_uint32,
}
use actorgo.Parser.Framer.{packet, read_packet_bytes}
use actorgo.Parser.Framer.RoundTrip.{read_packet_bytes-frame}
use mathlib.Core.List.{append-nil, append_assoc}

module _ {S : Type 0} (write : S → Bytes → Wrote S) where
  -- Each round that goes on takes a byte, so the loop ends before its fuel does.
  write_loop-ne-none :
      (fuel : ℕ) (s : S) (bytes : Bytes)
      → length bytes < fuel
      → write_loop write fuel s bytes ≢ none
  unfolding write_loop
  write_loop-ne-none zero s bytes h = absurd (omega arith)
  write_loop-ne-none (suc fuel) s [] h = ground arith
  write_loop-ne-none (suc fuel) s (b ∷ bs) h =
      let r = write s (b ∷ bs) in
      ground (
        arith,
        write_loop-ne-none fuel r.after (drop r.count (b ∷ bs)),
        length-drop r.count (b ∷ bs),
      )

  write_full-ne-none : (s : S) (bytes : Bytes) → write_full write s bytes ≢ none
  unfolding write_full
  write_full-ne-none s bytes = write_loop-ne-none (suc (length bytes)) s bytes (omega arith)

  write_payload_of-ne-none : (o : Option (Outcome × S)) → o ≢ none → write_payload_of write o ≢ none
  unfolding write_payload_of
  write_payload_of-ne-none none h = absurd (h refl)
  write_payload_of-ne-none (some (done, s)) h = ground arith
  write_payload_of-ne-none (some (short_write, s)) h = ground arith
  write_payload_of-ne-none (some (write_error, s)) h = ground arith

  write_prefix_of-ne-none :
      (p : Bytes) (o : Option (Outcome × S)) → o ≢ none → write_prefix_of write p o ≢ none
  unfolding write_prefix_of
  write_prefix_of-ne-none p none h = absurd (h refl)
  write_prefix_of-ne-none p (some (done, s)) h =
      write_payload_of-ne-none (write_full write s p) (write_full-ne-none s p)
  write_prefix_of-ne-none p (some (short_write, s)) h = ground arith
  write_prefix_of-ne-none p (some (write_error, s)) h = ground arith

  -- Writing a packet always ends, whatever the writer does: no packet and no writer can keep the
  -- loop of writeFull going.
  pub write_packet_bytes-ne-none :
      (f : Framer) (s : S) (p : Bytes) → write_packet_bytes write f s p ≢ none
  unfolding write_packet_bytes put_uint32
  write_packet_bytes-ne-none f s p = ground (
    arith,
    write_prefix_of-ne-none p (write_full write s (put_uint32 (length p % 2 ^ 32)))
        (write_full-ne-none s (put_uint32 (length p % 2 ^ 32))),
  )

  write_payload_of-done :
      (o : Option (Outcome × S)) (s' : S)
      → write_payload_of write o ≡ some (none, s')
      → o ≡ some (done, s')
  unfolding write_payload_of
  write_payload_of-done none s' h = ground arith
  write_payload_of-done (some (done, s)) s' h = ground arith
  write_payload_of-done (some (short_write, s)) s' h = ground arith
  write_payload_of-done (some (write_error, s)) s' h = ground arith

  write_prefix_of-done :
      (p : Bytes) (o : Option (Outcome × S)) (s' : S)
      → write_prefix_of write p o ≡ some (none, s')
      → (t : S) × (o ≡ some (done, t)) × (write_full write t p ≡ some (done, s'))
  unfolding write_prefix_of
  write_prefix_of-done p none s' h = absurd (ground arith)
  write_prefix_of-done p (some (done, s)) s' h =
      (s, refl, write_payload_of-done (write_full write s p) s' h)
  write_prefix_of-done p (some (short_write, s)) s' h = absurd (ground arith)
  write_prefix_of-done p (some (write_error, s)) s' h = absurd (ground arith)

-- What io.Writer documents: a write takes the first `count` of the bytes it is given.
module _ {S : Type 0} (write : S → Bytes → Wrote S) (sent : S → Bytes)
    (honest : (s : S) (bytes : Bytes)
      → sent (write s bytes).after ≡ sent s ++ take (write s bytes).count bytes) where
  write_loop_sent :
      (fuel : ℕ) (s s' : S) (bytes : Bytes)
      → write_loop write fuel s bytes ≡ some (done, s')
      → sent s' ≡ sent s ++ bytes
  unfolding write_loop
  write_loop_sent zero s s' bytes h = cc
  write_loop_sent (suc fuel) s s' [] h = ground (arith, append-nil (sent s))
  write_loop_sent (suc fuel) s s' (b ∷ bs) h =
      let r = write s (b ∷ bs) in
      ground (
        arith,
        write_loop_sent fuel r.after s' (drop r.count (b ∷ bs)),
        honest s (b ∷ bs),
        take-append-drop r.count (b ∷ bs),
        append_assoc (sent s) (take r.count (b ∷ bs)) (drop r.count (b ∷ bs)),
      )

  write_full_sent :
      (s s' : S) (bytes : Bytes)
      → write_full write s bytes ≡ some (done, s')
      → sent s' ≡ sent s ++ bytes
  unfolding write_full
  write_full_sent s s' bytes h = write_loop_sent (suc (length bytes)) s s' bytes h

  write_prefix_of_sent :
      (s s' : S) (q p : Bytes)
      → write_prefix_of write p (write_full write s q) ≡ some (none, s')
      → sent s' ≡ sent s ++ (q ++ p)
  write_prefix_of_sent s s' q p h =
      let both = write_prefix_of-done write p (write_full write s q) s' h in
      write_full_sent both.0 s' p both.2
      ∙ ap (λ b. b ++ p) (write_full_sent s both.0 q both.1)
      ∙ append_assoc (sent s) q p

  -- Over an honest writer and under a limit below 2^32, a write that reports success has sent
  -- exactly one frame, the length of the packet in four bytes, big end first, and the packet; and
  -- the packet was neither empty nor above the limit.
  pub write_packet_bytes_sent :
      (f : Framer) (s s' : S) (p : Bytes)
      → f.max_packet_size < 2 ^ 32
      → write_packet_bytes write f s p ≡ some (none, s')
      → (sent s' ≡ sent s ++ (put_uint32 (length p) ++ p))
        × (0 < length p)
        × (length p ≤ f.max_packet_size)
  unfolding write_packet_bytes
  write_packet_bytes_sent f s s' p small h =
      let fits : (0 < length p) × (length p ≤ f.max_packet_size) = ground arith in
      let size : length p % 2 ^ 32 ≡ length p = omega arith in
      (
        rw (← size) (write_prefix_of_sent s s' (put_uint32 (length p % 2 ^ 32)) p (ground arith)),
        fits.0,
        fits.1,
      )

  -- Over an honest writer that has sent nothing yet and under a limit below 2^32, the reader at the
  -- other end gets back a packet whose write reports success, and what is sent after it is left.
  pub read-write_packet_bytes :
      (f : Framer) (s s' : S) (p rest : Bytes)
      → f.max_packet_size < 2 ^ 32
      → sent s ≡ []
      → write_packet_bytes write f s p ≡ some (none, s')
      → read_packet_bytes f (sent s' ++ rest) ≡ packet p rest
  read-write_packet_bytes f s s' p rest small fresh h =
      let w = write_packet_bytes_sent f s s' p small h in
      rw (w.0, fresh, append_assoc (put_uint32 (length p)) p rest)
        (read_packet_bytes-frame f p rest w.1 w.2 small)
