-- ===== src/Http/Route.antt =====
-- What handler.go of net/httpactor reads from the path and the content type of a request, its
-- request ids, and the status codes that it answers with.
use actorgo.Common.{
  ℕ, zero, suc, ◌+◌, ◌-◌, ◌*◌, ◌^◌, ◌%◌, ◌≤◌, ◌<◌, ◌≡◌, ◌≢◌, refl, ◌↔◌, ◌==◌, leb, ◌&&◌, ◌||◌, Bool,
  false, Option, none, some, List, [], ◌∷◌, ◌++◌, Text, Text_discrete, if◌then◌else◌, codes, holds,
  arith, Bool-cases, Option-cases, inl, inr, All, ap, ◌∙◌,
}
use actorgo.Common.Int.{ℤ, pos, eq_ℤ}
use actorgo.Proto.Packet.{system_method_kick, codec_json, codec_protobuf}
use actorgo.Facade.Result.{
  status_ok, status_cancelled, status_invalid_argument, status_deadline_exceeded, status_not_found,
  status_failed_precondition, status_unavailable, status_unsupported_media,
}
use actorgo.Common.Decimal.{parse_uint, read_digits, is_digit, within}

abbrev pub route_prefix : Text
route_prefix = codes "/actor/"

-- strings.HasPrefix with strings.TrimPrefix.
unfoldable pub trim_prefix : Text → Text → Option Text
trim_prefix [] t = some t
trim_prefix (p ∷ ps) [] = none
trim_prefix (p ∷ ps) (c ∷ t) = let rest = trim_prefix ps t in if p == c then rest else none

-- strings.Contains(value, "/")
unfoldable pub has_slash : Text → Bool
has_slash [] = false
has_slash (c ∷ t) = (c == 47) || has_slash t

business_id : Option ℕ → Option ℕ
business_id none = none
business_id (some id) = if leb id system_method_kick then none else some id

method_id_of : Option Text → Option ℕ
unfolding has_slash business_id parse_uint Text_discrete
method_id_of none = none
method_id_of (some value) =
    if holds (Text_discrete value []) || has_slash value
    then none
    else business_id (parse_uint value)

-- methodIDFromPath; the id is only read where the second result is true.
unfoldable pub method_id_from_path : Text → Option ℕ
unfolding method_id_of trim_prefix
method_id_from_path path = method_id_of (trim_prefix route_prefix path)

abbrev pub content_type_json : Text
content_type_json = codes "application/json"

abbrev pub content_type_protobuf : Text
content_type_protobuf = codes "application/x-protobuf"

-- strings.ToLower of an ASCII text.
abbrev pub to_lower : Text → Text
to_lower [] = []
to_lower (c ∷ t) = (if leb 65 c && leb c 90 then c + 32 else c) ∷ to_lower t

unfoldable pub codec_of_media_type : Text → Option ℤ
unfolding Text_discrete
codec_of_media_type media =
    if holds (Text_discrete (to_lower media) content_type_json)
    then some codec_json
    else (if holds (Text_discrete (to_lower media) content_type_protobuf)
        then some codec_protobuf
        else none)

-- codecFromContentType, by what mime.ParseMediaType makes of the header.
unfoldable pub codec_from_content_type : (Text → Option Text) → Text → Option ℤ
unfolding codec_of_media_type
codec_from_content_type parse_media_type value = elim (parse_media_type value) [
  | none ↦ none
  | some media ↦ codec_of_media_type media
]

unfoldable pub content_type : ℤ → Text
content_type codec = if eq_ℤ codec codec_protobuf then content_type_protobuf else content_type_json

-- The loop of nextRequestID over the counter, with this many rounds.
unfoldable pub next_request_id : ℕ → ℕ → Option ℕ
next_request_id zero counter = none
next_request_id (suc rounds) counter =
    let id = suc counter % 2 ^ 32 in
    let rest = next_request_id rounds id in if id == 0 then rest else some id

-- The other codes of the enum StatusCode that httpStatus reads.
abbrev pub status_already_exists : ℤ
status_already_exists = pos 5

abbrev pub status_permission_denied : ℤ
status_permission_denied = pos 6

abbrev pub status_unauthenticated : ℤ
status_unauthenticated = pos 7

abbrev pub status_resource_exhausted : ℤ
status_resource_exhausted = pos 8

abbrev pub status_aborted : ℤ
status_aborted = pos 10

-- The cases of the switch, and its default.
abbrev pub status_of : ℤ → List (ℤ × ℕ) → ℕ
status_of code [] = 500
status_of code ((c, status) ∷ cases) = if eq_ℤ code c then status else status_of code cases

abbrev pub status_cases : List (ℤ × ℕ)
status_cases =
    (status_ok, 200)
    ∷ (status_cancelled, 499)
    ∷ (status_invalid_argument, 400)
    ∷ (status_deadline_exceeded, 504)
    ∷ (status_not_found, 404)
    ∷ (status_already_exists, 409)
    ∷ (status_aborted, 409)
    ∷ (status_permission_denied, 403)
    ∷ (status_unauthenticated, 401)
    ∷ (status_resource_exhausted, 429)
    ∷ (status_failed_precondition, 412)
    ∷ (status_unsupported_media, 415)
    ∷ (status_unavailable, 503)
    ∷ []

unfoldable pub http_status : ℤ → ℕ
http_status code = status_of code status_cases

-- A code that is not OK has an error status.
pub http_status_error : (code : ℤ) → eq_ℤ code status_ok ≡ false → 400 ≤ http_status code
unfolding http_status
http_status_error code bad = ground (arith, bad)

-- nextRequestID takes at most two rounds: it always gives an id of 32 bits that is not 0.
pub next_request_id_nonzero :
    (counter : ℕ) → (id : ℕ) × (next_request_id 2 counter ≡ some id) × (0 < id) × (id < 2 ^ 32)
unfolding next_request_id
next_request_id_nonzero counter = elim (Bool-cases (suc counter % 2 ^ 32 == 0)) [
  | inl wraps ↦ (1, ground arith, ground arith, ground arith)
  | inr fine ↦ (suc counter % 2 ^ 32, ground arith, ground arith, ground arith)
]

-- The number that a text of digits writes.
abbrev pub number : ℕ → Text → ℕ
number n [] = n
number n (c ∷ t) = number (n * 10 + (c - 48)) t

abbrev pub IsDigit : ℕ → Type 0
IsDigit c = (48 ≤ c) × (c ≤ 57)

read_digits_sound :
    (n m : ℕ) (t : Text) → read_digits n t ≡ some m → All IsDigit t × (number n t ≡ m)
unfolding read_digits
read_digits_sound n m [] h = (tt, ground arith)
read_digits_sound n m (c ∷ t) h =
    let i = read_digits_sound (n * 10 + (c - 48)) m t in
    elim (Bool-cases (is_digit c)) [
      | inr bad ↦ absurd (ground arith)
      | inl good ↦ let j = i (ground arith) in ((ground arith, j.0), j.1)
    ]

read_digits_complete : (n : ℕ) (t : Text) → All IsDigit t → read_digits n t ≡ some (number n t)
unfolding read_digits
read_digits_complete n [] h = refl
read_digits_complete n (c ∷ t) h =
    ground (arith, h.0, read_digits_complete (n * 10 + (c - 48)) t h.1)

digits-has_slash : (t : Text) → All IsDigit t → has_slash t ≡ false
unfolding has_slash
digits-has_slash [] h = refl
digits-has_slash (c ∷ t) h = ground (arith, h.0, digits-has_slash t h.1)

trim_prefix_sound : (p t v : Text) → trim_prefix p t ≡ some v → t ≡ p ++ v
unfolding trim_prefix
trim_prefix_sound [] t v h = ground arith
trim_prefix_sound (p ∷ ps) [] v h = absurd (cc)
trim_prefix_sound (p ∷ ps) (c ∷ t) v h = ground (arith, trim_prefix_sound ps t v)

trim_prefix-append : (p v : Text) → trim_prefix p (p ++ v) ≡ some v
unfolding trim_prefix
trim_prefix-append [] v = refl
trim_prefix-append (p ∷ ps) v = ground (arith, trim_prefix-append ps v)

-- A path names a method exactly if it is the prefix with a decimal number of 32 bits after it, in
-- digits only, that is above the ids that connection control reserves; leading zeros are read.
pub method_id_from_path_iff :
    (path : Text) (id : ℕ)
    → (method_id_from_path path ≡ some id) ↔ (
        (value : Text) × (path ≡ route_prefix ++ value)
        × (value ≢ [])
        × All IsDigit value
        × (number 0 value ≡ id)
        × (system_method_kick < id)
        × (id < 2 ^ 32))
unfolding method_id_from_path parse_uint Text_discrete within
method_id_from_path_iff path id = (λ h. sound (trim_prefix route_prefix path) refl h, complete)
  where
    sound :
        (o : Option Text)
        → trim_prefix route_prefix path ≡ o
        → method_id_of o ≡ some id
        → (value : Text) × (path ≡ route_prefix ++ value)
          × (value ≢ [])
          × All IsDigit value
          × (number 0 value ≡ id)
          × (system_method_kick < id)
          × (id < 2 ^ 32)
    sound none e h = absurd (cc)
    sound (some []) e h = absurd (ground arith)
    sound (some (c ∷ t)) e h = elim (Option-cases (read_digits 0 (c ∷ t))) [
      | inl bad ↦ absurd (ground arith)
      | inr (n, good) ↦
          let i = read_digits_sound 0 n (c ∷ t) good in
          (
            c ∷ t,
            trim_prefix_sound route_prefix path (c ∷ t) e,
            (λ q. cc),
            i.0,
            ground (arith, i.1),
            ground arith,
            ground arith,
          )
    ]

    complete :
        (value : Text) × (path ≡ route_prefix ++ value)
          × (value ≢ [])
          × All IsDigit value
          × (number 0 value ≡ id)
          × (system_method_kick < id)
          × (id < 2 ^ 32)
        → method_id_from_path path ≡ some id
    complete ([], e, ne, ds, num, big, fits) = absurd (ne refl)
    complete (c ∷ t, e, ne, ds, num, big, fits) =
        let r : read_digits 0 (c ∷ t) ≡ some (number 0 (c ∷ t)) =
          read_digits_complete 0 (c ∷ t) ds in
        let s : has_slash (c ∷ t) ≡ false = digits-has_slash (c ∷ t) ds in
        rw e (ap method_id_of (trim_prefix-append route_prefix (c ∷ t)) ∙ ground (arith, r, s))
