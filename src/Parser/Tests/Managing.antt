-- ===== src/Parser/Tests/Managing.antt =====
-- The connection manager with two connections, one of them bound.
use actorgo.Common.{◌≡◌, refl, ◌↔◌, none, some, [], Text, codes, Text_discrete, ℕ_discrete}
use actorgo.Common.Int.{pos, ℤ_discrete}
use actorgo.Common.Dict.{lookup, insert}
use actorgo.Proto.Limits.{IsPositive}
use actorgo.Parser.Manager.{Conn, Manager, new_connection_manager, get, add, bind}
use actorgo.Parser.Manager.OneToOne.{IsOneToOne, Owns, new-IsOneToOne, add-IsOneToOne}
use actorgo.Parser.Manager.Binding.{bind-IsOneToOne, bind_succeeds_iff}

abbrev first_connection : Text
first_connection = codes "a"

abbrev second_id : Text
second_id = codes "b"

abbrev first_conn : Conn
first_conn = record { id = first_connection; uid = pos 0; session = [] }

abbrev second_conn : Conn
second_conn = record { id = second_id; uid = pos 0; session = [] }

abbrev one_conn : Manager
one_conn = add new_connection_manager (some first_conn)

abbrev two_conns : Manager
two_conns = add one_conn (some second_conn)

abbrev one_bound : Manager
one_bound = (bind two_conns first_connection (pos 7) []).0

one_conn-IsOneToOne : IsOneToOne one_conn
unfolding get new_connection_manager lookup
one_conn-IsOneToOne =
    add-IsOneToOne new_connection_manager first_conn (λ e. cc) refl refl new-IsOneToOne

two_conns-IsOneToOne : IsOneToOne two_conns
unfolding get new_connection_manager lookup add insert Text_discrete ℕ_discrete
two_conns-IsOneToOne = add-IsOneToOne one_conn second_conn (λ e. cc) refl refl one_conn-IsOneToOne

first_binds : bind two_conns first_connection (pos 7) [] ≡ (one_bound, none)
unfolding bind new_connection_manager add insert lookup Text_discrete ℕ_discrete ℤ_discrete
first_binds = refl

one_bound-IsOneToOne : IsOneToOne one_bound
one_bound-IsOneToOne =
    bind-IsOneToOne two_conns one_bound first_connection (pos 7) [] two_conns-IsOneToOne first_binds

bind_succeeds_iff_example : ((bind one_bound second_id (pos 8) []).1 ≡ none) ↔ (
    IsPositive (pos 8)
    × ((c : Conn) × (get one_bound second_id ≡ some c))
    × ((i : Text) → Owns one_bound (pos 8) i → i ≡ second_id))
bind_succeeds_iff_example = bind_succeeds_iff one_bound second_id (pos 8) [] one_bound-IsOneToOne
