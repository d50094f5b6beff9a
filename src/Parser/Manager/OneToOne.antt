-- ===== src/Parser/Manager/OneToOne.antt =====
-- The manager's two indexes describe one relation: a uid maps to a connection exactly when that
-- connection carries the uid.
use actorgo.Common.{◌≡◌, ◌≢◌, none, some, [], Text, Text_discrete, arith, Option-cases, inl, inr}
use actorgo.Common.Int.{ℤ, pos, ℤ_discrete}
use actorgo.Common.Dict.{lookup, lookup-insert, lookup-delete}
use actorgo.Proto.Limits.{IsPositive}
use actorgo.Parser.Manager.{Conn, Manager, new_connection_manager, get, add, unbind, remove}

abbrev pub Owns : Manager → ℤ → Text → Type 0
Owns m uid id = lookup ℤ_discrete uid m.by_uid ≡ some id

abbrev pub Holds : Manager → Text → Conn → Type 0
Holds m id c = lookup Text_discrete id m.connections ≡ some c

pub record IsOneToOne (m : Manager) : Type 0 where
  pub bound :
      (uid : ℤ) (id : Text)
      → Owns m uid id
      → IsPositive uid × ((c : Conn) × Holds m id c × (c.uid ≡ uid))
  pub indexed : (id : Text) (c : Conn) → Holds m id c → IsPositive c.uid → Owns m c.uid id
  pub named : (id : Text) (c : Conn) → Holds m id c → (c.id ≡ id) × (id ≢ [])

pub new-IsOneToOne : IsOneToOne new_connection_manager
unfolding new_connection_manager lookup
new-IsOneToOne = record { bound = λ uid id h. cc; indexed = λ id c h p. cc; named = λ id c h. cc }

-- Adding a connection that is not bound yet, under a new id that is not empty, keeps the two
-- indexes in step.
pub add-IsOneToOne :
    (m : Manager) (c : Conn)
    → c.id ≢ []
    → c.uid ≡ pos 0
    → get m c.id ≡ none
    → IsOneToOne m
    → IsOneToOne (add m (some c))
unfolding add get
add-IsOneToOne m c ne fresh new v = record {
  bound = λ uid id h.
      let old : IsPositive uid × ((d : Conn) × Holds m id d × (d.uid ≡ uid)) = v.bound uid id h in
      (
        old.0,
        (
          old.1.0,
          ground (arith, lookup-insert Text_discrete id c.id c m.connections, old.1.1),
          old.1.2,
        ),
      );
  indexed = λ id d h p.
      ground (arith, lookup-insert Text_discrete id c.id c m.connections, v.indexed id d);
  named =
      λ id d h. ground (arith, lookup-insert Text_discrete id c.id c m.connections, v.named id d);
}

-- What removing leaves of the two indexes, as relations.
pub remove-Holds :
    (m : Manager) (id i : Text) (c : Conn)
    → (Holds (remove m id) i c → Holds m i c × (i ≢ id))
      × (Holds m i c → i ≢ id → Holds (remove m id) i c)
unfolding remove unbind get
remove-Holds m id i c = (
  λ h. ground (arith, lookup-delete Text_discrete i id m.connections),
  λ h ne. ground (arith, lookup-delete Text_discrete i id m.connections),
)

remove-Owns_old :
    (m : Manager) (id i : Text) (u : ℤ) → IsOneToOne m → Owns (remove m id) u i → Owns m u i
unfolding remove unbind get
remove-Owns_old m id i u v h = elim (Option-cases (lookup Text_discrete id m.connections)) [
  | inl gone ↦ ground arith
  | inr (c, held) ↦ ground (arith, lookup-delete ℤ_discrete u c.uid m.by_uid)
]

remove-Owns_ne :
    (m : Manager) (id i : Text) (u : ℤ) → IsOneToOne m → Owns (remove m id) u i → i ≢ id
unfolding remove unbind get
remove-Owns_ne m id i u v h = elim (Option-cases (lookup Text_discrete id m.connections)) [
  | inl gone ↦ λ same. ground (arith, v.bound u i (remove-Owns_old m id i u v h))
  | inr (c, held) ↦ λ same.
      ground (
        arith,
        lookup-delete ℤ_discrete u c.uid m.by_uid,
        v.bound u i (remove-Owns_old m id i u v h),
      )
]

remove-Owns_new :
    (m : Manager) (id i : Text) (u : ℤ)
    → IsOneToOne m
    → Owns m u i
    → i ≢ id
    → Owns (remove m id) u i
unfolding remove unbind get
remove-Owns_new m id i u v h ne = elim (Option-cases (lookup Text_discrete id m.connections)) [
  | inl gone ↦ ground arith
  | inr (c, held) ↦ ground (arith, lookup-delete ℤ_discrete u c.uid m.by_uid)
]

-- Removing an id, known or not, keeps the two indexes in step: no uid is left without its
-- connection.
pub remove-IsOneToOne : (m : Manager) (id : Text) → IsOneToOne m → IsOneToOne (remove m id)
remove-IsOneToOne m id v = record {
  bound = λ u i h.
      let ne : i ≢ id = remove-Owns_ne m id i u v h in
      let old : IsPositive u × ((d : Conn) × Holds m i d × (d.uid ≡ u)) =
        v.bound u i (remove-Owns_old m id i u v h) in
      (old.0, (old.1.0, (remove-Holds m id i old.1.0).1 old.1.1 ne, old.1.2));
  indexed = λ i c h p.
      let old : Holds m i c × (i ≢ id) = (remove-Holds m id i c).0 h in
      remove-Owns_new m id i c.uid v (v.indexed i c old.0 p) old.1;
  named = λ i c h. v.named i c ((remove-Holds m id i c).0 h).0;
}
