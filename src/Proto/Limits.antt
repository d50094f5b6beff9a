-- ===== src/Proto/Limits.antt =====
-- Limits, DefaultLimits and NormalizeLimits of net/proto/agp_validator.go, and the default packet
-- size of net/proto/agp_codec.go. Go's `int` fields are integers.
use actorgo.Common.{ℕ, ◌*◌, ◌-◌, ◌^◌, ◌≡◌, arith, if◌then◌else◌}
use actorgo.Common.Int.{ℤ, pos, ◌≤ℤ◌, leb_ℤ, ltb_ℤ}

pub record Limits : Type 0 where
  pub max_packet_size : ℤ
  pub max_body_size : ℤ
  pub max_metadata_keys : ℤ
  pub max_metadata_key : ℤ
  pub max_metadata_value : ℤ
  pub max_metadata_size : ℤ

-- 4 << 20
abbrev pub default_max_packet_size : ℕ
default_max_packet_size = 4 * 2 ^ 20

abbrev pub default_limits : Limits
default_limits = record {
  max_packet_size = pos default_max_packet_size;
  max_body_size = pos (default_max_packet_size - 1024);
  max_metadata_keys = pos 32;
  max_metadata_key = pos 64;
  max_metadata_value = pos 1024;
  max_metadata_size = pos (8 * 2 ^ 10);
}

-- if v <= 0 { v = def }
abbrev pub or_default : ℤ → ℤ → ℤ
or_default v def = if leb_ℤ v (pos 0) then def else v

-- if body > packet { body = packet }
abbrev pub clamp_body : ℤ → ℤ → ℤ
clamp_body body packet = if ltb_ℤ packet body then packet else body

unfoldable pub normalize_limits : Limits → Limits
normalize_limits l =
    let packet = or_default l.max_packet_size default_limits.max_packet_size in
    let body = or_default l.max_body_size default_limits.max_body_size in
    record {
      max_packet_size = packet;
      max_body_size = clamp_body body packet;
      max_metadata_keys = or_default l.max_metadata_keys default_limits.max_metadata_keys;
      max_metadata_key = or_default l.max_metadata_key default_limits.max_metadata_key;
      max_metadata_value = or_default l.max_metadata_value default_limits.max_metadata_value;
      max_metadata_size = or_default l.max_metadata_size default_limits.max_metadata_size;
    }

abbrev pub IsPositive : ℤ → Type 0
IsPositive v = pos 1 ≤ℤ v

-- Every limit is positive and a body limit lies within the packet limit.
pub record IsNormal (l : Limits) : Type 0 where
  pub packet : IsPositive l.max_packet_size
  pub body : IsPositive l.max_body_size
  pub within : l.max_body_size ≤ℤ l.max_packet_size
  pub keys : IsPositive l.max_metadata_keys
  pub key : IsPositive l.max_metadata_key
  pub value : IsPositive l.max_metadata_value
  pub total : IsPositive l.max_metadata_size

pub or_default-IsPositive : (v d : ℤ) → IsPositive d → IsPositive (or_default v d)
or_default-IsPositive v d h = ground arith

pub or_default_positive : (v d : ℤ) → IsPositive v → or_default v d ≡ v
or_default_positive v d h = ground arith

-- Whatever limits are configured, normalized limits are all positive and keep the body limit
-- within the packet limit.
pub normalize_limits-IsNormal : (l : Limits) → IsNormal (normalize_limits l)
unfolding normalize_limits
normalize_limits-IsNormal l = record {
  packet = ground arith;
  body = ground arith;
  within = ground arith;
  keys = ground arith;
  key = ground arith;
  value = ground arith;
  total = ground arith;
}

-- Limits that are already normal are kept as they are.
pub normalize_limits-eq_of_normal : (l : Limits) → IsNormal l → normalize_limits l ≡ l
unfolding normalize_limits
normalize_limits-eq_of_normal l n = ground arith
