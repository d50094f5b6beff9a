-- ===== src/Proto/Session/Storing.antt =====
-- What a session gives back of what it was given.
use mathlib.Core.Logic.{ite}
use actorgo.Common.{
  ℕ, ◌≡◌, ◌≢◌, refl, inl, inr, Option, none, some, List, [], ◌∷◌, Text, Text_discrete, ◌||◌, ◌^◌,
  ltb, if◌then◌else◌, holds, arith, Option-cases, Bool-cases,
}
use actorgo.Common.Int.{ℤ, pos}
use actorgo.Common.Decimal.{
  format_uint, format_int, fits, parse_int-format_int, parse_uint-format_uint,
}
use actorgo.Common.Dict.{lookup, insert, lookup-insert, Distinct}
use actorgo.Proto.Session.{
  SessionData, AnyValue, int_value, uint_value, to_string, data_entry, put_entry, set_any,
  set_entry, import_all, clear, restore, get_int, get_int_32, get_uint,
}

data_entry-set_any :
    (s s' : SessionData) (key other : Text) (v : AnyValue)
    → set_any s key v ≡ some s'
    → data_entry s' other ≡ ite (Text_discrete key other) (some (to_string v)) (data_entry s other)
unfolding set_any put_entry data_entry
data_entry-set_any s s' key other v h = elim (Option-cases s.entries) [
  | inl nil ↦ absurd (ground (arith, h, nil))
  | inr (m, there) ↦ ground (arith, h, there, lookup-insert Text_discrete other key (to_string v) m)
]

-- Whatever signed number SetAny has stored under a key, GetInt and GetInt64 give it back if it has 64
-- bits, and GetInt32 if it has 32, and 0 otherwise; an unsigned one GetUint gives back below 2^32, and
-- 0 otherwise. The other keys read as before.
pub get_int-set_any :
    (s s₁ s₂ : SessionData) (key : Text) (z : ℤ) (n : ℕ)
    → set_any s key (int_value z) ≡ some s₁
    → set_any s key (uint_value n) ≡ some s₂
    → (get_int s₁ key ≡ (if fits 64 z then z else pos 0))
      × (get_int_32 s₁ key ≡ (if fits 32 z then z else pos 0))
      × (get_uint s₂ key ≡ (if ltb n (2 ^ 32) then n else 0))
      × ((other : Text)
          → key ≢ other
          → (data_entry s₁ other ≡ data_entry s other) × (data_entry s₂ other ≡ data_entry s other))
get_int-set_any s s₁ s₂ key z n h₁ h₂ = (
  unfold get_int in ground (arith, e₁, parse_int-format_int 64 z),
  unfold get_int_32 in ground (arith, e₁, parse_int-format_int 32 z),
  unfold get_uint in ground (arith, e₂, parse_uint-format_uint n),
  λ other ne. (
    ground (arith, ne, data_entry-set_any s s₁ key other (int_value z) h₁),
    ground (arith, ne, data_entry-set_any s s₂ key other (uint_value n) h₂),
  ),
)
  where
    e₁ : data_entry s₁ key ≡ some (format_int z)
    e₁ = unfold to_string in ground (arith, data_entry-set_any s s₁ key key (int_value z) h₁)

    e₂ : data_entry s₂ key ≡ some (format_uint n)
    e₂ = unfold to_string in ground (arith, data_entry-set_any s s₂ key key (uint_value n) h₂)

-- What Set keeps of a value under a key.
abbrev pub kept : Text → Option Text → Option Text
kept key none = none
kept key (some value) =
    if holds (Text_discrete key []) || holds (Text_discrete value []) then none else some value

abbrev or_before : Option Text → Option Text → Option Text
or_before none o = o
or_before (some v) o = some v

import_all_lem :
    (s : SessionData) (m given : List (Text × Text))
    → s.entries ≡ some m
    → Distinct Text_discrete given
    → (s' : SessionData) × (m' : List (Text × Text)) × (import_all s given ≡ some s')
      × (s'.uid ≡ s.uid)
      × (s'.entries ≡ some m')
      × ((key : Text)
          → lookup Text_discrete key m'
            ≡ or_before (kept key (lookup Text_discrete key given)) (lookup Text_discrete key m))
unfolding import_all lookup
import_all_lem s m [] there d = (s, m, refl, refl, there, λ key. ground arith)
import_all_lem s m ((k, v) ∷ rest) there d =
    elim (Bool-cases (holds (Text_discrete k []) || holds (Text_discrete v []))) [
      | inl empty ↦
          let set : set_entry s k v ≡ some s = unfold set_entry in ground (arith, empty) in
          let (s', m', done, uid, there', reads) = import_all_lem s m rest there d.1 in
          (
            s',
            m',
            ground (arith, set, done),
            uid,
            there',
            λ key. elim (Text_discrete k key) [
              | yes same ↦ ground (arith, same, empty, reads key, d.0)
              | no ne ↦ ground (arith, ne, reads key)
            ],
          )
      | inr full ↦
          let s₁ : SessionData = record s { entries = some (insert Text_discrete k v m) } in
          let set : set_entry s k v ≡ some s₁ =
            unfold set_entry put_entry in ground (arith, full, there) in
          let (s', m', done, uid, there', reads) =
            import_all_lem s₁ (insert Text_discrete k v m) rest refl d.1 in
          (
            s',
            m',
            ground (arith, set, done),
            uid,
            there',
            λ key. elim (Text_discrete k key) [
              | yes same ↦
                  ground (arith, same, full, reads key, d.0, lookup-insert Text_discrete key k v m)
              | no ne ↦ ground (arith, ne, reads key, lookup-insert Text_discrete key k v m)
            ],
          )
    ]

-- Restore of a session whose map is not nil replaces what it held by the pairs of the given map that
-- have neither an empty key nor an empty value, and leaves the uid.
pub restore_lem :
    (s : SessionData) (m given : List (Text × Text))
    → s.entries ≡ some m
    → Distinct Text_discrete given
    → (s' : SessionData) × (restore s given ≡ some s')
      × (s'.uid ≡ s.uid)
      × ((key : Text) → data_entry s' key ≡ kept key (lookup Text_discrete key given))
restore_lem s m given there d =
    let cleared : clear s ≡ record s { entries = some [] } =
      unfold clear in ground (arith, there) in
    let (s', m', done, uid, there', reads) =
      import_all_lem (record s { entries = some [] }) [] given refl d in
    (
      s',
      unfold restore in rw cleared done,
      uid,
      λ key. unfold data_entry lookup in ground (arith, there', reads key),
    )
