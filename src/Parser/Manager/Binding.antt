-- ===== src/Parser/Manager/Binding.antt =====
-- Bind: when it succeeds, what it changes, and that it keeps the two indexes in step.
use actorgo.Common.{
  ◌≡◌, ◌≢◌, sym, ap, ◌∙◌, ◌↔◌, none, some, Text, Text_discrete, arith, Option-cases, inl, inr,
}
use actorgo.Common.Int.{ℤ, ℤ_discrete}
use actorgo.Common.Dict.{lookup, delete, lookup-insert, lookup-delete}
use actorgo.Proto.Limits.{IsPositive}
use actorgo.Parser.Manager.{
  Conn, Manager, Data, BindError, get, unbind, get_uid, rebind, bind_found, bind,
}
use actorgo.Parser.Manager.OneToOne.{Owns, Holds, IsOneToOne}

-- What Bind does, in terms of the relation: it fails, and changes nothing, or it gives the
-- connection the uid and drops the connection's earlier one.
pub record IsBound (m : Manager) (id : Text) (uid : ℤ) (d : Data) (m' : Manager) : Type 0 where
  pub positive : IsPositive uid
  pub conn : Conn
  pub found : Holds m id conn
  pub free : (i : Text) → Owns m uid i → i ≡ id
  pub owned : Owns m' uid id
  pub others : (u : ℤ) (i : Text) → u ≢ uid → Owns m' u i → Owns m u i × (i ≢ id)
  pub kept : (u : ℤ) (i : Text) → u ≢ uid → Owns m u i → i ≢ id → Owns m' u i
  pub bound_conn : Holds m' id (record conn { uid = uid; session = d })
  pub other_conns :
      (i : Text)
      → i ≢ id
      → lookup Text_discrete i m'.connections ≡ lookup Text_discrete i m.connections

module _ (m m' : Manager) (id : Text) (uid : ℤ) (d : Data) (v : IsOneToOne m) where
  bind-IsBound : bind m id uid d ≡ (m', none) → IsBound m id uid d m'
  unfolding bind bind_found unbind rebind get
  bind-IsBound h = elim (Option-cases (lookup Text_discrete id m.connections)) [
    | inl gone ↦ absurd (ground arith)
    | inr (c, held) ↦ record {
      positive = ground arith;
      conn = c;
      found = held;
      free = λ i o.
          let b : IsPositive uid × ((e : Conn) × Holds m i e × (e.uid ≡ uid)) = v.bound uid i o in
          ground (arith, (v.named i b.1.0 b.1.1).1);
      owned = ground (
        arith,
        lookup-insert ℤ_discrete uid uid id m.by_uid,
        lookup-insert ℤ_discrete uid uid id (delete ℤ_discrete c.uid m.by_uid),
      );
      others = λ u i ne o. (
        ground (
          arith,
          lookup-insert ℤ_discrete u uid id m.by_uid,
          lookup-insert ℤ_discrete u uid id (delete ℤ_discrete c.uid m.by_uid),
          lookup-delete ℤ_discrete u c.uid m.by_uid,
        ),
        λ same. ground (
          arith,
          lookup-insert ℤ_discrete u uid id m.by_uid,
          lookup-insert ℤ_discrete u uid id (delete ℤ_discrete c.uid m.by_uid),
          lookup-delete ℤ_discrete u c.uid m.by_uid,
          v.bound u i,
        ),
      );
      kept = λ u i ne o nid. ground (
        arith,
        lookup-insert ℤ_discrete u uid id m.by_uid,
        lookup-insert ℤ_discrete u uid id (delete ℤ_discrete c.uid m.by_uid),
        lookup-delete ℤ_discrete u c.uid m.by_uid,
      );
      bound_conn = ground (
        arith,
        lookup-insert Text_discrete id id (record c { uid = uid; session = d }) m.connections,
      );
      other_conns = λ i nid. ground (
        arith,
        lookup-insert Text_discrete i id (record c { uid = uid; session = d }) m.connections,
      );
    }
  ]

  -- A successful Bind of a manager whose indexes are in step keeps them in step.
  pub bind-IsOneToOne : bind m id uid d ≡ (m', none) → IsOneToOne m'
  bind-IsOneToOne h = record {
    bound =
        λ u i o. elim (ℤ_discrete u uid) [ yes same ↦ here u i o same | no ne ↦ there u i o ne ];
    indexed = λ i c o p. elim (Text_discrete i id) [
      | yes same ↦ ground (arith, w.owned, w.bound_conn)
      | no ne ↦ kept_index i c p ne (before i c ne o)
    ];
    named = λ i c o. elim (Text_discrete i id) [
      | yes same ↦ ground (arith, w.bound_conn, v.named id w.conn w.found)
      | no ne ↦ v.named i c (before i c ne o)
    ];
  }
    where
      w : IsBound m id uid d m'
      w = bind-IsBound h

      before : (i : Text) (c : Conn) → i ≢ id → Holds m' i c → Holds m i c
      before i c ne o = sym (w.other_conns i ne) ∙ o

      here :
          (u : ℤ) (i : Text)
          → Owns m' u i
          → u ≡ uid
          → IsPositive u × ((c : Conn) × Holds m' i c × (c.uid ≡ u))
      here u i o same =
          let i_id : i ≡ id = ground (arith, w.owned) in
          (
            rw same w.positive,
            (record w.conn { uid = uid; session = d }, rw i_id w.bound_conn, sym same),
          )

      there :
          (u : ℤ) (i : Text)
          → Owns m' u i
          → u ≢ uid
          → IsPositive u × ((c : Conn) × Holds m' i c × (c.uid ≡ u))
      there u i o ne =
          let old : Owns m u i × (i ≢ id) = w.others u i ne o in
          let b : IsPositive u × ((c : Conn) × Holds m i c × (c.uid ≡ u)) = v.bound u i old.0 in
          (b.0, (b.1.0, w.other_conns i old.1 ∙ b.1.1, b.1.2))

      kept_index : (i : Text) (c : Conn) → IsPositive c.uid → i ≢ id → Holds m i c → Owns m' c.uid i
      kept_index i c p ne o =
          let old : Owns m c.uid i = v.indexed i c o p in
          w.kept c.uid i (λ e. ne (w.free i (rw (← e) old))) old ne

  -- After a successful Bind, of a manager whose indexes are in step, the lookup by uid finds the
  -- connection that the id named, with the uid and the data as its session.
  pub get_uid-bind :
      bind m id uid d ≡ (m', none)
      → (c : Conn) × (get m id ≡ some c)
        × (get_uid m' uid ≡ some (record c { uid = uid; session = d }))
  unfolding get get_uid
  get_uid-bind h =
      let w : IsBound m id uid d m' = bind-IsBound h in
      (w.conn, w.found, ground (arith, w.owned, w.bound_conn))

module _ (m : Manager) (id : Text) (uid : ℤ) (d : Data) where
  bind_succeeds :
      (c : Conn)
      → IsPositive uid
      → get m id ≡ some c
      → ((i : Text) → Owns m uid i → i ≡ id)
      → (bind m id uid d).1 ≡ none
  unfolding bind bind_found get
  bind_succeeds c p held free = elim (Option-cases (lookup ℤ_discrete uid m.by_uid)) [
    | inl vacant ↦ ground arith
    | inr (i, taken) ↦ ground (arith, free i taken)
  ]

  -- Where the indexes are in step, Bind reports no error exactly when the uid is positive, the connection is indexed, and no other
  -- connection has the uid.
  pub bind_succeeds_iff :
      IsOneToOne m
      → ((bind m id uid d).1 ≡ none) ↔ (
          IsPositive uid
          × ((c : Conn) × (get m id ≡ some c))
          × ((i : Text) → Owns m uid i → i ≡ id))
  unfolding get
  bind_succeeds_iff v = (
    λ h.
        let w : IsBound m id uid d (bind m id uid d).0 =
          bind-IsBound m (bind m id uid d).0 id uid d v (ap (λ e. ((bind m id uid d).0, e)) h) in
        (w.positive, (w.conn, w.found), w.free),
    λ h. bind_succeeds h.1.0 h.0 h.1.1 h.2,
  )

  -- A Bind that reports an error changes nothing.
  pub bind_failed : (e : BindError) → (bind m id uid d).1 ≡ some e → (bind m id uid d).0 ≡ m
  unfolding bind bind_found get
  bind_failed e h = ground arith
