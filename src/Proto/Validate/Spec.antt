-- ===== src/Proto/Validate/Spec.antt =====
-- ValidatePacket against a description of the packets that it accepts, and its independence of the
-- order in which the metadata map is ranged over.
use mathlib.Core.List.{Permᴰ}
use actorgo.Common.{
  ℕ, ◌+◌, ◌<◌, ◌≡◌, refl, ◌∙◌, ◌↔◌, ◌⊎◌, Option, none, some, [], ◌∷◌, arith, length, Bytes,
}
use actorgo.Common.Int.{ℤ, pos, ◌≤ℤ◌}
use actorgo.Proto.Limits.{Limits, normalize_limits}
use actorgo.Proto.Packet.{
  Packet, Kind, request, response, notify, Metadata, codec_protobuf, codec_json,
}
use actorgo.Proto.Validate.{
  Checked, ok, err, kind_body, check_metadata, check_sizes, check_kind, check_packet,
  validate_packet,
}

-- What a packet must be, said without the order of the checks.
abbrev pub total_size : Metadata → ℕ
total_size [] = 0
total_size ((key, value) ∷ m) = length key + length value + total_size m

abbrev pub Fits : ℕ → ℤ → Type 0
Fits n limit = pos n ≤ℤ limit

abbrev pub EntriesFit : Limits → Metadata → Type 0
EntriesFit l [] = Unit {0}
EntriesFit l ((key, value) ∷ m) =
    (0 < length key)
    × Fits (length key) l.max_metadata_key
    × Fits (length value) l.max_metadata_value
    × EntriesFit l m

abbrev pub HasBody : Kind → Bytes → Type 0
HasBody (request none) b = ⊥
HasBody (request (some r)) b = (0 < r.request_id) × (0 < r.method_id) × (b ≡ r.body)
HasBody (response none) b = ⊥
HasBody (response (some r)) b = (0 < r.request_id) × (b ≡ r.body)
HasBody (notify none) b = ⊥
HasBody (notify (some n)) b = (0 < n.method_id) × (b ≡ n.body)

pub record IsWellFormed (l : Limits) (p : Packet) : Type 0 where
  pub kind : Kind
  pub body : Bytes
  pub has_kind : p.kind ≡ some kind
  pub has_body : HasBody kind body
  pub has_codec : (p.codec ≡ codec_protobuf) ⊎ (p.codec ≡ codec_json)
  pub body_fits : Fits (length body) l.max_body_size
  pub count_fits : Fits (length p.metadata) l.max_metadata_keys
  pub entries_fit : EntriesFit l p.metadata
  pub total_fits : Fits (total_size p.metadata) l.max_metadata_size

check_metadata_sound :
    (l : Limits) (m : Metadata) (size : ℕ)
    → check_metadata l m size ≡ none
    → EntriesFit l m × Fits (size + total_size m) l.max_metadata_size
unfolding check_metadata
check_metadata_sound l [] size h = (tt, ground arith)
check_metadata_sound l ((key, value) ∷ m) size h =
    ground (arith, check_metadata_sound l m (size + (length key + length value)))

check_metadata_complete :
    (l : Limits) (m : Metadata) (size : ℕ)
    → EntriesFit l m
    → Fits (size + total_size m) l.max_metadata_size
    → check_metadata l m size ≡ none
unfolding check_metadata
check_metadata_complete l [] size e h = ground arith
check_metadata_complete l ((key, value) ∷ m) size e h =
    ground (arith, check_metadata_complete l m (size + (length key + length value)))

kind_body_sound : (k : Kind) (b : Bytes) → kind_body k ≡ ok b → HasBody k b
unfolding kind_body
kind_body_sound (request none) b h = cc
kind_body_sound (request (some r)) b h = ground arith
kind_body_sound (response none) b h = cc
kind_body_sound (response (some r)) b h = ground arith
kind_body_sound (notify none) b h = cc
kind_body_sound (notify (some n)) b h = ground arith

kind_body_complete : (k : Kind) (b : Bytes) → HasBody k b → kind_body k ≡ ok b
unfolding kind_body
kind_body_complete (request none) b h = absurd h
kind_body_complete (request (some r)) b h = ground arith
kind_body_complete (response none) b h = absurd h
kind_body_complete (response (some r)) b h = ground arith
kind_body_complete (notify none) b h = absurd h
kind_body_complete (notify (some n)) b h = ground arith

-- A packet passes exactly when it has a kind with non-zero ids, a known body codec, and body and
-- metadata within the normalized limits.
pub validate_packet-iff-IsWellFormed :
    (p : Packet) (limits : Limits)
    → (validate_packet (some p) limits ≡ none) ↔ IsWellFormed (normalize_limits limits) p
unfolding validate_packet check_packet check_sizes
validate_packet-iff-IsWellFormed p limits = (sound p.kind refl, complete)
  where
    l : Limits
    l = normalize_limits limits

    sound_body :
        (k : Kind) (c : Checked Bytes)
        → p.kind ≡ some k
        → kind_body k ≡ c
        → (p.codec ≡ codec_protobuf) ⊎ (p.codec ≡ codec_json)
        → check_kind l p.metadata c ≡ none
        → IsWellFormed l p
    sound_body k (err e) hk hb hc h = cc
    sound_body k (ok b) hk hb hc h =
        let sizes : EntriesFit l p.metadata × Fits (0 + total_size p.metadata) l.max_metadata_size =
          check_metadata_sound l p.metadata 0 (ground arith) in
        record {
          kind = k;
          body = b;
          has_kind = hk;
          has_body = kind_body_sound k b hb;
          has_codec = hc;
          body_fits = ground arith;
          count_fits = ground arith;
          entries_fit = sizes.0;
          total_fits = omega arith;
        }

    sound :
        (k : Option Kind)
        → p.kind ≡ k
        → check_packet l p.codec p.metadata k ≡ none
        → IsWellFormed l p
    sound none hk h = cc
    sound (some k) hk h = sound_body k (kind_body k) hk refl (ground arith) (ground arith)

    complete : IsWellFormed l p → check_packet l p.codec p.metadata p.kind ≡ none
    complete w = ground (
      arith,
      kind_body_complete w.kind w.body w.has_body,
      check_metadata_complete l p.metadata 0 w.entries_fit (omega arith),
    )

EntriesFit-perm : (l : Limits) {m n : Metadata} → Permᴰ m n → EntriesFit l m → EntriesFit l n
EntriesFit-perm l Permᴰ.nil e = tt
EntriesFit-perm l (Permᴰ.cons h r) e = rw (← h) (e.0, e.1, e.2, EntriesFit-perm l r e.3)
EntriesFit-perm l (Permᴰ.swap h k) e = rw (← h, ← k) (e.3.0, e.3.1, e.3.2, (e.0, e.1, e.2, e.3.3))
EntriesFit-perm l (Permᴰ.trans r s) e = EntriesFit-perm l s (EntriesFit-perm l r e)

total_size-perm : {m n : Metadata} → Permᴰ m n → total_size n ≡ total_size m
total_size-perm Permᴰ.nil = refl
total_size-perm (Permᴰ.cons h r) = rw (← h) (omega (arith, total_size-perm r))
total_size-perm (Permᴰ.swap h k) = rw (← h, ← k) (omega arith)
total_size-perm (Permᴰ.trans r s) = total_size-perm s ∙ total_size-perm r

length-perm : {m n : Metadata} → Permᴰ m n → length n ≡ length m
length-perm Permᴰ.nil = refl
length-perm (Permᴰ.cons h r) = omega (arith, length-perm r)
length-perm (Permᴰ.swap h k) = refl
length-perm (Permᴰ.trans r s) = length-perm s ∙ length-perm r

pub IsWellFormed-perm :
    (l : Limits) (p q : Packet)
    → q.kind ≡ p.kind
    → q.codec ≡ p.codec
    → Permᴰ p.metadata q.metadata
    → IsWellFormed l p
    → IsWellFormed l q
IsWellFormed-perm l p q k c r w = record {
  kind = w.kind;
  body = w.body;
  has_kind = k ∙ w.has_kind;
  has_body = w.has_body;
  has_codec = rw c w.has_codec;
  body_fits = w.body_fits;
  count_fits = rw (length-perm r) w.count_fits;
  entries_fit = EntriesFit-perm l r w.entries_fit;
  total_fits = rw (total_size-perm r) w.total_fits;
}

-- Go ranges over a map in any order: a packet that passes does so in every order of its metadata.
pub validate_packet-perm :
    (p : Packet) (m : Metadata) (limits : Limits)
    → Permᴰ p.metadata m
    → validate_packet (some p) limits ≡ none
    → validate_packet (some (record p { metadata = m })) limits ≡ none
validate_packet-perm p m limits r h =
    (validate_packet-iff-IsWellFormed _ limits).1
      (IsWellFormed-perm _ p _ refl refl r ((validate_packet-iff-IsWellFormed p limits).0 h))
