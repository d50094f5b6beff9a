-- ===== src/Common/Decimal.antt =====
-- Numbers in decimal, as strconv of Go's library reads and writes them.
use actorgo.Common.{
  ℕ, zero, suc, ◌+◌, ◌-◌, ◌*◌, ◌/◌, ◌%◌, ◌^◌, ◌<◌, ◌≤◌, ◌==◌, ◌&&◌, ltb, leb, ◌≡◌, sym, Bool,
  Option, none, some, [], ◌∷◌, Text, if◌then◌else◌, arith, ℕ_discrete,
}
use actorgo.Common.Int.{ℤ, pos, negsuc}

abbrev pub is_digit : ℕ → Bool
is_digit c = leb 48 c && leb c 57

-- The digits of ParseUint in base 10, read from the left.
unfoldable pub read_digits : ℕ → Text → Option ℕ
read_digits n [] = some n
read_digits n (c ∷ t) =
    let rest = read_digits (n * 10 + (c - 48)) t in if is_digit c then rest else none

unfoldable pub within : ℕ → Option ℕ → Option ℕ
within bound none = none
within bound (some n) = if ltb n bound then some n else none

-- ParseUint(value, 10, 32): no value for a text that is empty, has another character or is out of
-- range.
unfoldable pub parse_uint : Text → Option ℕ
unfolding read_digits within
parse_uint [] = none
parse_uint (c ∷ t) = within (2 ^ 32) (read_digits 0 (c ∷ t))

-- The digits of n before those of `later`; the fuel is more than n.
unfoldable pub write_digits : ℕ → ℕ → Text → Text
write_digits zero n later = later
write_digits (suc fuel) n later =
    let digits = (48 + n % 10) ∷ later in
    let rest = write_digits fuel (n / 10) digits in if n / 10 == 0 then digits else rest

-- FormatUint(n, 10)
unfoldable pub format_uint : ℕ → Text
unfolding write_digits
format_uint n = write_digits (suc n) n []

-- FormatInt(n, 10)
unfoldable pub format_int : ℤ → Text
unfolding format_uint
format_int (pos n) = format_uint n
format_int (negsuc n) = 45 ∷ format_uint (suc n)

unfoldable pub negated : ℕ → ℤ
negated zero = pos 0
negated (suc n) = negsuc n

-- A sign and what ParseUint reads after it, if that is in the range of `bits` bits.
positive_within : ℕ → Option ℕ → Option ℤ
positive_within bits none = none
positive_within bits (some n) = if ltb n (2 ^ (bits - 1)) then some (pos n) else none

negative_within : ℕ → Option ℕ → Option ℤ
unfolding negated
negative_within bits none = none
negative_within bits (some n) = if leb n (2 ^ (bits - 1)) then some (negated n) else none

unsigned : Text → Option ℕ
unfolding read_digits
unsigned [] = none
unsigned (c ∷ t) = read_digits 0 (c ∷ t)

-- ParseInt(value, 10, bits)
unfoldable pub parse_int : ℕ → Text → Option ℤ
unfolding positive_within negative_within unsigned
parse_int bits [] = none
parse_int bits (c ∷ t) =
    if c == 43
    then positive_within bits (unsigned t)
    else (if c == 45
        then negative_within bits (unsigned t)
        else positive_within bits (unsigned (c ∷ t)))

read-write_digits :
    (fuel n : ℕ) (later : Text)
    → n < fuel
    → read_digits 0 (write_digits fuel n later) ≡ read_digits n later
unfolding read_digits write_digits
read-write_digits zero n later h = absurd (omega (arith, h))
read-write_digits (suc fuel) n later h = elim (ℕ_discrete (n / 10) 0) [
  | yes last ↦
      let same : 0 * 10 + (48 + n % 10 - 48) ≡ n = omega (arith, last) in ground (arith, last, same)
  | no more ↦
      let back : n / 10 * 10 + (48 + n % 10 - 48) ≡ n = omega arith in
      let i = read-write_digits fuel (n / 10) ((48 + n % 10) ∷ later) (omega (arith, more, h)) in
      ground (arith, more, i, back)
]

-- What is written begins with a digit.
write_digits_cons :
    (fuel n : ℕ) (later : Text)
    → n < fuel
    → (c : ℕ) × (t : Text) × (write_digits fuel n later ≡ c ∷ t) × (48 ≤ c) × (c ≤ 57)
unfolding write_digits
write_digits_cons zero n later h = absurd (omega (arith, h))
write_digits_cons (suc fuel) n later h = elim (ℕ_discrete (n / 10) 0) [
  | yes last ↦ (48 + n % 10, later, ground (arith, last), omega arith, omega arith)
  | no more ↦
      let (c, t, same, low, high) =
        write_digits_cons fuel (n / 10) ((48 + n % 10) ∷ later) (omega (arith, more, h)) in
      (c, t, ground (arith, more, same), low, high)
]

pub read_digits-format_uint : (n : ℕ) → read_digits 0 (format_uint n) ≡ some n
unfolding format_uint read_digits
read_digits-format_uint n = read-write_digits (suc n) n [] (omega arith)

pub format_uint_inj : (a b : ℕ) → format_uint a ≡ format_uint b → a ≡ b
format_uint_inj a b e =
    let read : read_digits 0 (format_uint a) ≡ some b = rw e (read_digits-format_uint b) in
    ground (arith, read, read_digits-format_uint a)

pub parse_uint-format_uint :
    (n : ℕ) → parse_uint (format_uint n) ≡ (if ltb n (2 ^ 32) then some n else none)
parse_uint-format_uint n =
    let (c, t, same, low, high) = write_digits_cons (suc n) n [] (omega arith) in
    let written : format_uint n ≡ c ∷ t = unfold format_uint in same in
    let read : read_digits 0 (c ∷ t) ≡ some n =
      ground (arith, sym written, read_digits-format_uint n) in
    rw written (unfold parse_uint within in ground (arith, read))

unsigned-format_uint : (n : ℕ) → unsigned (format_uint n) ≡ some n
unsigned-format_uint n =
    let (c, t, same, low, high) = write_digits_cons (suc n) n [] (omega arith) in
    let written : format_uint n ≡ c ∷ t = unfold format_uint in same in
    let read : read_digits 0 (c ∷ t) ≡ some n =
      ground (arith, sym written, read_digits-format_uint n) in
    rw written (unfold unsigned in read)

-- The numbers of a signed integer of this many bits.
abbrev pub fits : ℕ → ℤ → Bool
fits bits (pos n) = ltb n (2 ^ (bits - 1))
fits bits (negsuc n) = leb (suc n) (2 ^ (bits - 1))

pub parse_int-format_int :
    (bits : ℕ) (z : ℤ) → parse_int bits (format_int z) ≡ (if fits bits z then some z else none)
parse_int-format_int bits (pos n) =
    let (c, t, same, low, high) = write_digits_cons (suc n) n [] (omega arith) in
    let written : format_uint n ≡ c ∷ t = unfold format_uint in same in
    let read : unsigned (c ∷ t) ≡ some n = ground (arith, sym written, unsigned-format_uint n) in
    unfold format_int in rw written (unfold parse_int positive_within in ground (arith, read, low))
parse_int-format_int bits (negsuc n) =
    unfold format_int parse_int negative_within negated in
    ground (arith, unsigned-format_uint (suc n))
