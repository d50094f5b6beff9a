-- ===== src/Proto/Tests/Storing.antt =====
-- A session's data on concrete values.
use actorgo.Common.{
  ◌≡◌, ◌≢◌, refl, some, [], ◌∷◌, List, Text, Text_discrete, ◌^◌, ltb, if◌then◌else◌, codes,
}
use actorgo.Common.Int.{pos, negsuc}
use actorgo.Common.Dict.{insert}
use actorgo.Common.Decimal.{fits, format_int, format_uint, write_digits}
use actorgo.Proto.Session.{
  SessionData, int_value, uint_value, to_string, data_entry, set_any, get_int, get_int_32, get_uint,
}
use actorgo.Proto.Session.Storing.{get_int-set_any}

abbrev scored : SessionData
scored = record { uid = pos 7; entries = some ((codes "level", codes "3") ∷ []) }

abbrev with_gold : List (Text × Text) → SessionData
with_gold gold = record { uid = pos 7; entries = some ((codes "level", codes "3") ∷ gold) }

stored_int :
    set_any scored (codes "gold") (int_value (negsuc 41))
    ≡ some (with_gold ((codes "gold", codes "-42") ∷ []))
unfolding set_any to_string format_int format_uint write_digits insert Text_discrete
stored_int = refl

stored_uint :
    set_any scored (codes "gold") (uint_value 42)
    ≡ some (with_gold ((codes "gold", codes "42") ∷ []))
unfolding set_any to_string format_uint write_digits insert Text_discrete
stored_uint = refl

get_int-set_any_example :
    let s₁ = with_gold ((codes "gold", codes "-42") ∷ []) in
    let s₂ = with_gold ((codes "gold", codes "42") ∷ []) in
    (get_int s₁ (codes "gold") ≡ (if fits 64 (negsuc 41) then negsuc 41 else pos 0))
    × (get_int_32 s₁ (codes "gold") ≡ (if fits 32 (negsuc 41) then negsuc 41 else pos 0))
    × (get_uint s₂ (codes "gold") ≡ (if ltb 42 (2 ^ 32) then 42 else 0))
    × ((other : Text)
        → codes "gold" ≢ other
        → (data_entry s₁ other ≡ data_entry scored other)
          × (data_entry s₂ other ≡ data_entry scored other))
get_int-set_any_example =
    get_int-set_any scored (with_gold ((codes "gold", codes "-42") ∷ []))
      (with_gold ((codes "gold", codes "42") ∷ [])) (codes "gold") (negsuc 41) 42 stored_int
      stored_uint
