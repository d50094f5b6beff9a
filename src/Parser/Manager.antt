-- ===== src/Parser/Manager.antt =====
-- ConnectionManager of net/parser/connection_manager.go. A connection is held by value, as its id
-- and the session that Bind replaces (Connection.bind and Connection.UID of connection.go); the
-- order of `connections` is the order in which Go ranges over the map. A key that is missing from a
-- Go map reads as the zero value: no connection, or the empty id.
pub mod OneToOne
pub mod Binding
pub mod Closing
use mathlib.Core.Logic.{ite}
use actorgo.Common.{
  ℕ, ◌&&◌, ◌||◌, not, Bool, true, false, Option, none, some, List, [], ◌∷◌, Text, Text_discrete,
  if◌then◌else◌, length, holds, is_some,
}
use actorgo.Common.Int.{ℤ, pos, ltb_ℤ, leb_ℤ, ℤ_discrete}
use actorgo.Common.Dict.{lookup, insert, delete}

abbrev pub Data : Type 0
Data = List (Text × Text)

pub record Conn : Type 0 where
  pub id : Text
  pub uid : ℤ
  pub session : Data

pub record Manager : Type 0 where
  pub connections : List (Text × Conn)
  pub by_uid : List (ℤ × Text)

pub data BindError : Type 0 where
  uid_not_positive not_found uid_taken : BindError

abbrev pub text_eq : Text → Text → Bool
text_eq a b = holds (Text_discrete a b)

abbrev pub or_empty : Option Text → Text
or_empty none = []
or_empty (some t) = t

unfoldable pub new_connection_manager : Manager
new_connection_manager = record { connections = []; by_uid = [] }

unfoldable pub get : Manager → Text → Option Conn
get m id = lookup Text_discrete id m.connections

-- m.byUID[uid]
unfoldable pub owner : Manager → ℤ → Text
owner m uid = or_empty (lookup ℤ_discrete uid m.by_uid)

unfoldable pub add : Manager → Option Conn → Manager
add m none = m
add m (some c) = record m { connections = insert Text_discrete c.id c m.connections }

-- delete(m.byUID, uid) if the connection's own uid maps to `id`.
unfoldable pub unbind : Manager → Text → ℤ → Manager
unfolding owner
unbind m id uid =
    if ltb_ℤ (pos 0) uid && text_eq (owner m uid) id
    then record m { by_uid = delete ℤ_discrete uid m.by_uid }
    else m

unfoldable pub remove : Manager → Text → Manager
unfolding get unbind
remove m id =
    let m' = record m { connections = delete Text_discrete id m.connections } in
    elim (get m id) [ none ↦ m' | some c ↦ unbind m' id c.uid ]

-- The lookup by uid: the connection of the id that the uid maps to, and whether both are there.
unfoldable pub get_uid : Manager → ℤ → Option Conn
unfolding get owner
get_uid m uid = elim (lookup ℤ_discrete uid m.by_uid) [ none ↦ none | some id ↦ get m id ]

-- connection.bind(uid, data); m.byUID[uid] = id. A nil map of data becomes an empty one.
unfoldable pub rebind : Manager → Text → Conn → ℤ → Data → Manager
rebind m id c uid data' = record {
  connections = insert Text_discrete id (record c { uid = uid; session = data' }) m.connections;
  by_uid = insert ℤ_discrete uid id m.by_uid;
}

bind_found : Manager → Text → Conn → ℤ → Data → Manager × Option BindError
unfolding owner unbind rebind
bind_found m id c uid data' =
    if not (text_eq (owner m uid) []) && not (text_eq (owner m uid) id)
    then (m, some uid_taken)
    else (rebind (unbind m id c.uid) id c uid data', none)

unfoldable pub bind : Manager → Text → ℤ → Data → Manager × Option BindError
unfolding bind_found get
bind m id uid data' =
    if leb_ℤ uid (pos 0)
    then (m, some uid_not_positive)
    else elim (get m id) [ none ↦ (m, some not_found) | some c ↦ bind_found m id c uid data' ]

unfoldable pub count : Manager → ℕ
count m = length m.connections

values : List (Text × Conn) → List Conn
values [] = []
values ((id, c) ∷ r) = c ∷ values r

unfoldable pub snapshot : Manager → List Conn
unfolding values
snapshot m = values m.connections

-- Range: the visitor may change the manager; it stops the walk by returning false. The snapshot is
-- taken before the first visit.
unfoldable pub visit : (Conn → Manager → Bool × Manager) → List Conn → Manager → Manager
visit fn [] m = m
visit fn (c ∷ cs) m = let r = fn c m in let rest = visit fn cs r.1 in if r.0 then rest else r.1

unfoldable pub range : Manager → (Conn → Manager → Bool × Manager) → Manager
unfolding visit snapshot
range m fn = visit fn (snapshot m) m

-- CloseAll, as far as the manager sees it: Connection.Close removes the connection.
unfoldable pub close_all : Manager → Manager
unfolding range
close_all m = range m (λ c m'. (true, remove m' c.id))
