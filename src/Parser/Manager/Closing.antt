-- ===== src/Parser/Manager/Closing.antt =====
-- CloseAll empties the manager, though it walks a snapshot while the connections remove themselves.
use actorgo.Common.{
  ◌≡◌, ◌≢◌, sym, ◌⊎◌, inl, inr, none, some, List, [], ◌∷◌, Text, Text_discrete, true, arith,
  Option-cases,
}
use actorgo.Common.Int.{ℤ, ℤ_discrete}
use actorgo.Common.Dict.{lookup}
use actorgo.Parser.Manager.{Conn, Manager, get, remove, values, snapshot, visit, range, close_all}
use actorgo.Parser.Manager.OneToOne.{Holds, IsOneToOne, remove-IsOneToOne, remove-Holds}

-- Some connection of the list has the id.
abbrev HasId : Text → List Conn → Type 0
HasId j [] = ⊥
HasId j (c ∷ cs) = (c.id ≡ j) ⊎ HasId j cs

abbrev remove_each : List Conn → Manager → Manager
remove_each cs m = visit (λ c m'. (true, remove m' c.id)) cs m

remove_each-IsOneToOne :
    (cs : List Conn) (m : Manager) → IsOneToOne m → IsOneToOne (remove_each cs m)
unfolding visit
remove_each-IsOneToOne [] m v = v
remove_each-IsOneToOne (c ∷ cs) m v =
    remove_each-IsOneToOne cs (remove m c.id) (remove-IsOneToOne m c.id v)

-- What is left was there, and is none of the listed.
remove_each-Holds :
    (cs : List Conn) (m : Manager) (j : Text) (d : Conn)
    → Holds (remove_each cs m) j d
    → Holds m j d × ¬ HasId j cs
unfolding visit
remove_each-Holds [] m j d h = (h, λ x. x)
remove_each-Holds (c ∷ cs) m j d h =
    let later : Holds (remove m c.id) j d × ¬ HasId j cs =
      remove_each-Holds cs (remove m c.id) j d h in
    let now : Holds m j d × (j ≢ c.id) = (remove-Holds m c.id j d).0 later.0 in
    (now.0, λ x. elim x [ inl e ↦ now.1 (sym e) | inr r ↦ later.1 r ])

HasId-values :
    (l : List (Text × Conn)) (j : Text) (d : Conn)
    → d.id ≡ j
    → lookup Text_discrete j l ≡ some d
    → HasId j (values l)
unfolding lookup values
HasId-values [] j d e h = cc
HasId-values ((i, c) ∷ l) j d e h = elim (Text_discrete i j) [
  | yes same ↦ inl (ground arith)
  | no ne ↦ inr (HasId-values l j d e (ground arith))
]

-- After CloseAll of a manager whose indexes are in step, no id finds a connection and no uid is
-- bound.
pub close_all_empties :
    (m : Manager) (id : Text) (uid : ℤ)
    → IsOneToOne m
    → (get (close_all m) id ≡ none) × (lookup ℤ_discrete uid (close_all m).by_uid ≡ none)
unfolding close_all get range snapshot
close_all_empties m id uid v = (no_conn id, no_uid)
  where
    no_held : (j : Text) (d : Conn) → ¬ Holds (close_all m) j d
    no_held j d h =
        let left = remove_each-Holds (values m.connections) m j d h in
        left.1 (HasId-values m.connections j d (v.named j d left.0).0 left.0)

    no_conn : (j : Text) → lookup Text_discrete j (close_all m).connections ≡ none
    no_conn j = elim (Option-cases (lookup Text_discrete j (close_all m).connections)) [
      | inl e ↦ e
      | inr (d, h) ↦ absurd (no_held j d h)
    ]

    no_uid : lookup ℤ_discrete uid (close_all m).by_uid ≡ none
    no_uid = elim (Option-cases (lookup ℤ_discrete uid (close_all m).by_uid)) [
      | inl e ↦ e
      | inr (i, h) ↦
          let b = (remove_each-IsOneToOne (values m.connections) m v).bound uid i h in
          absurd (no_held i b.1.0 b.1.1)
    ]
