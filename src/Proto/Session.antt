-- ===== src/Proto/Session.antt =====
-- The data of a session, net/proto/session.go, and the conversions of extend/string/string.go that
-- it uses. A nil map is `none`: reading and deleting are allowed there, and a write panics, which is
-- `none` of the result. The order of an association list is the order of a range.
pub mod Storing
use actorgo.Common.{
  ℕ, Bool, true, false, Option, none, some, List, [], ◌∷◌, Text, Text_discrete, ◌||◌, if◌then◌else◌,
  holds, is_some,
}
use actorgo.Common.Int.{ℤ, pos, ltb_ℤ}
use actorgo.Common.Decimal.{parse_uint, parse_int, format_uint, format_int}
use actorgo.Common.Dict.{lookup, insert, delete}

pub record SessionData : Type 0 where
  pub uid : ℤ
  pub entries : Option (List (Text × Text))

-- What SetAny may be given: `other` is the JSON text of a value of another type.
pub data AnyValue : Type 0 where
  nil_value : AnyValue
  text_value : Text → AnyValue
  int_value : ℤ → AnyValue
  uint_value : ℕ → AnyValue
  other : Text → AnyValue

-- ToString
unfoldable pub to_string : AnyValue → Text
to_string nil_value = []
to_string (text_value t) = t
to_string (int_value z) = format_int z
to_string (uint_value n) = format_uint n
to_string (other json) = json

unfoldable pub is_bind : SessionData → Bool
is_bind s = ltb_ℤ (pos 0) s.uid

-- x.Data[key]
unfoldable pub data_entry : SessionData → Text → Option Text
data_entry s key = elim s.entries [ none ↦ none | some m ↦ lookup Text_discrete key m ]

put_entry : SessionData → Text → Text → Option SessionData
put_entry s key value = elim s.entries [
  | none ↦ none
  | some m ↦ some (record s { entries = some (insert Text_discrete key value m) })
]

unfoldable pub set_any : SessionData → Text → AnyValue → Option SessionData
unfolding put_entry to_string
set_any s key value = put_entry s key (to_string value)

unfoldable pub remove_entry : SessionData → Text → SessionData
remove_entry s key = elim s.entries [
  | none ↦ s
  | some m ↦ record s { entries = some (delete Text_discrete key m) }
]

-- Set
unfoldable pub set_entry : SessionData → Text → Text → Option SessionData
unfolding put_entry Text_discrete
set_entry s key value =
    if holds (Text_discrete key []) || holds (Text_discrete value [])
    then some s
    else put_entry s key value

-- ImportAll
unfoldable pub import_all : SessionData → List (Text × Text) → Option SessionData
unfolding set_entry
import_all s [] = some s
import_all s ((key, value) ∷ rest) = elim (set_entry s key value) [
  | none ↦ none
  | some s' ↦ import_all s' rest
]

unfoldable pub contains_key : SessionData → Text → Bool
unfolding data_entry
contains_key s key = is_some (data_entry s key)

unfoldable pub equal : SessionData → Text → Text → Bool
unfolding data_entry Text_discrete
equal s key value = elim (data_entry s key) [
  | none ↦ false
  | some v ↦ holds (Text_discrete v value)
]

unfoldable pub clear : SessionData → SessionData
clear s = elim s.entries [ none ↦ s | some m ↦ record s { entries = some [] } ]

unfoldable pub restore : SessionData → List (Text × Text) → Option SessionData
unfolding import_all clear
restore s entries = import_all (clear s) entries

abbrev pub or_zero : Option ℤ → ℤ
or_zero none = pos 0
or_zero (some z) = z

abbrev pub parsed : {A : Type 0} → (Text → Option A) → Option Text → Option A
parsed parse none = none
parsed parse (some v) = parse v

unfoldable pub get_uint : SessionData → Text → ℕ
unfolding data_entry
get_uint s key = elim (parsed parse_uint (data_entry s key)) [ none ↦ 0 | some n ↦ n ]

-- GetInt, where an int has 64 bits, and GetInt64.
unfoldable pub get_int : SessionData → Text → ℤ
unfolding data_entry
get_int s key = or_zero (parsed (parse_int 64) (data_entry s key))

unfoldable pub get_int_32 : SessionData → Text → ℤ
unfolding data_entry
get_int_32 s key = or_zero (parsed (parse_int 32) (data_entry s key))

unfoldable pub get_string : SessionData → Text → Text
unfolding data_entry
get_string s key = elim (data_entry s key) [ none ↦ [] | some v ↦ v ]
