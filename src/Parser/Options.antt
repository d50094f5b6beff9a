-- ===== src/Parser/Options.antt =====
-- Options of net/parser/options.go. Durations are nanoseconds, as Go's time.Duration holds them.
use actorgo.Common.{ℕ, ◌*◌, ◌^◌, List, [], ◌∷◌, Bool, false, if◌then◌else◌, arith}
use actorgo.Common.Int.{ℤ, pos, ltb_ℤ}
use actorgo.Proto.Limits.{Limits, default_limits, IsPositive}

-- `on_disconnect` says whether a callback is set.
pub record Options : Type 0 where
  pub limits : Limits
  pub write_queue_size : ℤ
  pub max_inflight : ℤ
  pub handshake_timeout : ℤ
  pub heartbeat_interval : ℤ
  pub idle_timeout : ℤ
  pub write_timeout : ℤ
  pub max_request_timeout : ℤ
  pub on_disconnect : Bool

abbrev pub seconds : ℕ → ℤ
seconds n = pos (n * 10 ^ 9)

unfoldable pub default_options : Options
default_options = record {
  limits = default_limits;
  write_queue_size = pos 256;
  max_inflight = pos 128;
  handshake_timeout = seconds 10;
  heartbeat_interval = seconds 30;
  idle_timeout = seconds 90;
  write_timeout = seconds 10;
  max_request_timeout = seconds 30;
  on_disconnect = false;
}

-- The functional options, one constructor for each With function.
pub data Setting : Type 0 where
  with_limits : Limits → Setting
  with_write_queue with_max_inflight with_handshake_timeout with_write_timeout : ℤ → Setting
  with_max_request_timeout : ℤ → Setting
  with_heartbeat : ℤ → ℤ → Setting
  with_on_disconnect : Bool → Setting

-- if v > 0 { field = v }
abbrev pub if_positive : ℤ → ℤ → ℤ
if_positive v old = if ltb_ℤ (pos 0) v then v else old

unfoldable pub set_option : Setting → Options → Options
set_option (with_limits l) o = record o { limits = l }
set_option (with_write_queue n) o = record o { write_queue_size = if_positive n o.write_queue_size }
set_option (with_max_inflight n) o = record o { max_inflight = if_positive n o.max_inflight }
set_option (with_handshake_timeout t) o = record o {
  handshake_timeout = if_positive t o.handshake_timeout;
}
set_option (with_write_timeout t) o = record o { write_timeout = if_positive t o.write_timeout }
set_option (with_max_request_timeout t) o = record o {
  max_request_timeout = if_positive t o.max_request_timeout;
}
set_option (with_heartbeat interval idle) o = record o {
  heartbeat_interval = if_positive interval o.heartbeat_interval;
  idle_timeout = if_positive idle o.idle_timeout;
}
set_option (with_on_disconnect f) o = record o { on_disconnect = f }

-- for _, opt := range opts { opt(&options) }
unfoldable pub set_options : List Setting → Options → Options
unfolding set_option
set_options [] o = o
set_options (s ∷ ss) o = set_options ss (set_option s o)

-- Every bound is positive, so no queue is unbuffered and no deadline is switched off.
pub record IsUsable (o : Options) : Type 0 where
  pub write_queue : IsPositive o.write_queue_size
  pub inflight : IsPositive o.max_inflight
  pub handshake : IsPositive o.handshake_timeout
  pub heartbeat : IsPositive o.heartbeat_interval
  pub idle : IsPositive o.idle_timeout
  pub write : IsPositive o.write_timeout
  pub request : IsPositive o.max_request_timeout

set_option-IsUsable : (s : Setting) (o : Options) → IsUsable o → IsUsable (set_option s o)
unfolding set_option
set_option-IsUsable (with_limits l) o u = ground arith
set_option-IsUsable _ o u = ground arith

set_options_keep : (ss : List Setting) (o : Options) → IsUsable o → IsUsable (set_options ss o)
unfolding set_options
set_options_keep [] o u = u
set_options_keep (s ∷ ss) o u = set_options_keep ss (set_option s o) (set_option-IsUsable s o u)

-- No sequence of functional options over the defaults can make a bound zero or negative.
pub set_options-IsUsable : (ss : List Setting) → IsUsable (set_options ss default_options)
unfolding default_options
set_options-IsUsable ss = set_options_keep ss _ (omega arith)
