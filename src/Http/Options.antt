-- ===== src/Http/Options.antt =====
-- Options of net/httpactor/options.go, and the deadline that handler.go gives a request by them.
-- Durations are nanoseconds. `R` is a request, which an authenticator takes.
use actorgo.Common.{
  inl, inr, ℕ, ◌*◌, ◌^◌, ◌==◌, Option, none, some, List, [], ◌∷◌, Text, Text_discrete,
  if◌then◌else◌, codes, holds, arith, Option-cases,
}
use actorgo.Common.Decimal.{parse_uint}
use actorgo.Common.Int.{ℤ, pos, ltb_ℤ, ◌≤ℤ◌}
use actorgo.Parser.Connection.State.{Session}
use actorgo.Parser.Options.{seconds, if_positive}

-- What an Authenticator returns: a session that may be nil, or an error.
pub data Authenticated : Type 0 where
  caller : Option Session → Authenticated
  rejected : Text → Authenticated

pub record HttpOptions (R : Type 0) : Type 0 where
  pub max_body_size : ℤ
  pub default_timeout : ℤ
  pub max_timeout : ℤ
  pub authenticator : Option (R → Authenticated)
  pub metadata_headers : List Text

pub data HttpSetting (R : Type 0) : Type 0 where
  with_max_body_size : ℤ → HttpSetting R
  with_timeout : ℤ → ℤ → HttpSetting R
  with_authenticator : Option (R → Authenticated) → HttpSetting R
  with_metadata_headers : List Text → HttpSetting R

module _ {R : Type 0} where
  unfoldable pub default_http_options : HttpOptions R
  default_http_options = record {
    max_body_size = pos (4 * 2 ^ 20);
    default_timeout = seconds 3;
    max_timeout = seconds 30;
    authenticator = none;
    metadata_headers = codes "traceparent" ∷ codes "tracestate" ∷ codes "x-request-id" ∷ [];
  }

  unfoldable pub set_http_option : HttpSetting R → HttpOptions R → HttpOptions R
  set_http_option (with_max_body_size size) o = record o {
    max_body_size = if_positive size o.max_body_size;
  }
  set_http_option (with_timeout default max) o = record o {
    default_timeout = if_positive default o.default_timeout;
    max_timeout = if_positive max o.max_timeout;
  }
  set_http_option (with_authenticator a) o = record o { authenticator = a }
  set_http_option (with_metadata_headers headers) o = record o { metadata_headers = headers }

  -- The loop of NewHandler; an option that is nil is `none`.
  unfoldable pub new_http_options : List (Option (HttpSetting R)) → HttpOptions R → HttpOptions R
  unfolding set_http_option
  new_http_options [] o = o
  new_http_options (none ∷ settings) o = new_http_options settings o
  new_http_options (some s ∷ settings) o = new_http_options settings (set_http_option s o)

requested_timeout : ℤ → Option ℕ → ℤ
requested_timeout default none = default
requested_timeout default (some ms) = if ms == 0 then default else pos (ms * 10 ^ 6)

-- Handler.timeout, by the value of the timeout header, which is empty where it is absent.
unfoldable pub http_timeout : {R : Type 0} → HttpOptions R → Text → ℤ
unfolding requested_timeout parse_uint Text_discrete
http_timeout o value =
    let timeout =
      if holds (Text_discrete value [])
      then o.default_timeout
      else requested_timeout o.default_timeout (parse_uint value) in
    if ltb_ℤ o.max_timeout timeout then o.max_timeout else timeout

-- The sizes and timeouts that make requests possible.
record IsPositive {R : Type 0} (o : HttpOptions R) : Type 0 where
  pub body : pos 1 ≤ℤ o.max_body_size
  pub default : pos 1 ≤ℤ o.default_timeout
  pub max : pos 1 ≤ℤ o.max_timeout

if_positive_positive : (v old : ℤ) → pos 1 ≤ℤ old → pos 1 ≤ℤ if_positive v old
if_positive_positive v old h = ground (arith, h)

set_http_option-IsPositive :
    {R : Type 0} (s : HttpSetting R) (o : HttpOptions R)
    → IsPositive o
    → IsPositive (set_http_option s o)
unfolding set_http_option
set_http_option-IsPositive (with_max_body_size size) o h = record {
  body = if_positive_positive size o.max_body_size h.body;
  default = h.default;
  max = h.max;
}
set_http_option-IsPositive (with_timeout default max) o h = record {
  body = h.body;
  default = if_positive_positive default o.default_timeout h.default;
  max = if_positive_positive max o.max_timeout h.max;
}
set_http_option-IsPositive (with_authenticator a) o h = record {
  body = h.body;
  default = h.default;
  max = h.max;
}
set_http_option-IsPositive (with_metadata_headers hs) o h = record {
  body = h.body;
  default = h.default;
  max = h.max;
}

new_http_options-IsPositive :
    {R : Type 0} (ss : List (Option (HttpSetting R))) (o : HttpOptions R)
    → IsPositive o
    → IsPositive (new_http_options ss o)
unfolding new_http_options
new_http_options-IsPositive [] o h = h
new_http_options-IsPositive (none ∷ ss) o h = new_http_options-IsPositive ss o h
new_http_options-IsPositive (some s ∷ ss) o h =
    new_http_options-IsPositive ss (set_http_option s o) (set_http_option-IsPositive s o h)

default-IsPositive : {R : Type 0} → IsPositive (default_http_options {R = R})
unfolding default_http_options
default-IsPositive = record { body = ground arith; default = ground arith; max = ground arith }

http_timeout-positive :
    {R : Type 0} (o : HttpOptions R) (value : Text) → IsPositive o → pos 1 ≤ℤ http_timeout o value
unfolding http_timeout
http_timeout-positive o value h = elim (Option-cases (parse_uint value)) [
  | inl bad ↦ ground (arith, h.default, h.max)
  | inr (ms, good) ↦ ground (arith, h.default, h.max)
]

-- Under any functional options over the defaults, and whatever the timeout header says, the deadline
-- of a request is positive and not beyond the maximum.
pub http_timeout_bounds :
    {R : Type 0} (ss : List (Option (HttpSetting R))) (value : Text)
    → let o = new_http_options ss default_http_options in
      (pos 1 ≤ℤ http_timeout o value) × (http_timeout o value ≤ℤ o.max_timeout)
unfolding http_timeout
http_timeout_bounds ss value =
    let o = new_http_options ss default_http_options in
    (
      http_timeout-positive o value
          (new_http_options-IsPositive ss default_http_options default-IsPositive),
      ground arith,
    )
