-- ===== src/Discovery/Default/Members.antt =====
-- The members that discovery holds: under their own ids, each once, and found by type.
use actorgo.Common.{
  ℕ, ◌≡◌, ◌≢◌, refl, ◌⊎◌, inl, inr, ◌↔◌, ◌<◌, false, Option, none, some, List, [], ◌∷◌, ◌++◌, map,
  Text, Text_discrete, arith, Option-cases, length, ℕ_discrete, ◌-◌,
}
use actorgo.Common.Dict.{
  lookup, insert, delete, Distinct, lookup-insert, lookup-delete, insert-Distinct, delete-Distinct,
  delete-insert_new,
}
use actorgo.Discovery.Default.{
  Member, Discovery, added, removed, pre_init, string_in, list_members, list_by_type, nth, pick,
  random, add_member, remove_member, load_items, load_types, load,
}

-- Each member stands once, under its own id.
pub record IsKeyed (l : List (Text × Member)) : Type 0 where
  pub distinct : Distinct Text_discrete l
  pub keyed : (node : Text) (m : Member) → lookup Text_discrete node l ≡ some m → m.node_id ≡ node

pub pre_init-IsKeyed : IsKeyed pre_init.members
unfolding pre_init lookup
pre_init-IsKeyed = record { distinct = tt; keyed = λ node m h. cc }

insert-IsKeyed :
    (l : List (Text × Member)) (m : Member)
    → IsKeyed l
    → IsKeyed (insert Text_discrete m.node_id m l)
insert-IsKeyed l m v = record {
  distinct = insert-Distinct Text_discrete m.node_id m l v.distinct;
  keyed =
      λ node x h. ground (arith, lookup-insert Text_discrete node m.node_id m l, v.keyed node x);
}

-- Adding a member, known or not, keeps the members under their own ids.
pub add_member-IsKeyed :
    (d : Discovery) (m : Member) → IsKeyed d.members → IsKeyed (add_member d m).members
unfolding add_member
add_member-IsKeyed d m v = ground (arith, insert-IsKeyed d.members m v)

-- Removing a member, known or not, keeps the others under their own ids.
pub remove_member-IsKeyed :
    (d : Discovery) (node : Text) → IsKeyed d.members → IsKeyed (remove_member d node).members
unfolding remove_member
remove_member-IsKeyed d node v = elim (Option-cases (lookup Text_discrete node d.members)) [
  | inl gone ↦ ground arith
  | inr (x, there) ↦ ground (arith, deleted)
]
  where
    deleted : IsKeyed (delete Text_discrete node d.members)
    deleted = record {
      distinct = delete-Distinct Text_discrete node d.members v.distinct;
      keyed = λ n m h. ground (arith, lookup-delete Text_discrete n node d.members, v.keyed n m);
    }

load_items-IsKeyed :
    (items : List Member) (d : Discovery) (node_type : Text)
    → IsKeyed d.members
    → IsKeyed (load_items d node_type items).members
unfolding load_items
load_items-IsKeyed [] d node_type v = v
load_items-IsKeyed (item ∷ items) d node_type v = ground (
  arith,
  load_items-IsKeyed items
      (record d {
        members =
            insert Text_discrete item.node_id (record item { node_type = node_type }) d.members;
      })
      node_type (insert-IsKeyed d.members (record item { node_type = node_type }) v),
)

load_types-IsKeyed :
    (config : List (Text × List Member)) (d : Discovery)
    → IsKeyed d.members
    → IsKeyed (load_types d config).members
unfolding load_types
load_types-IsKeyed [] d v = v
load_types-IsKeyed ((node_type, items) ∷ rest) d v =
    load_types-IsKeyed rest (load_items d node_type items) (load_items-IsKeyed items d node_type v)

-- Whatever the profile file says, Load keeps the members under their own ids, each once.
pub load-IsKeyed :
    (d : Discovery) (config : Option (List (Text × List Member)))
    → IsKeyed d.members
    → IsKeyed (load d config).members
unfolding load
load-IsKeyed d none v = v
load-IsKeyed d (some config) v = load_types-IsKeyed config d v

-- The member is in the list.
abbrev pub In : Member → List Member → Type 0
In m [] = ⊥
In m (x ∷ xs) = (x ≡ m) ⊎ In m xs

-- The member is in the map, under some key.
abbrev pub Entry : Member → List (Text × Member) → Type 0
Entry m [] = ⊥
Entry m ((key, x) ∷ l) = (x ≡ m) ⊎ Entry m l

list_members_iff :
    (node_type : Text) (filter : List Text) (m : Member) (l : List (Text × Member))
    → (In m (list_members node_type filter l)
        → Entry m l × (m.node_type ≡ node_type) × (string_in m.node_id filter ≡ false))
      × (Entry m l
          → m.node_type ≡ node_type
          → string_in m.node_id filter ≡ false
          → In m (list_members node_type filter l))
unfolding list_members
list_members_iff node_type filter m [] = (λ h. absurd h, λ h t f. absurd h)
list_members_iff node_type filter m ((key, x) ∷ l) =
    let rest = list_members_iff node_type filter m l in
    (λ h. ground (arith, rest.0), λ h t f. ground (arith, rest.1))

IsKeyed-tail :
    (key : Text) (x : Member) (l : List (Text × Member))
    → IsKeyed ((key, x) ∷ l)
    → IsKeyed l × (x.node_id ≡ key) × (lookup Text_discrete key l ≡ none)
unfolding lookup
IsKeyed-tail key x l v = (
  record {
    distinct = v.distinct.1;
    keyed = λ node m h. v.keyed node m (ground (arith, v.distinct.0));
  },
  v.keyed key x (ground arith),
  v.distinct.0,
)

Entry-lookup :
    (l : List (Text × Member)) (m : Member)
    → IsKeyed l
    → Entry m l
    → lookup Text_discrete m.node_id l ≡ some m
unfolding lookup
Entry-lookup [] m v h = absurd h
Entry-lookup ((key, x) ∷ l) m v (inl e) = ground (arith, IsKeyed-tail key x l v)
Entry-lookup ((key, x) ∷ l) m v (inr h) =
    let tail = IsKeyed-tail key x l v in ground (arith, Entry-lookup l m tail.0 h, tail.2)

lookup-Entry :
    (l : List (Text × Member)) (node : Text) (m : Member)
    → lookup Text_discrete node l ≡ some m
    → Entry m l
unfolding lookup
lookup-Entry [] node m h = absurd (cc)
lookup-Entry ((key, x) ∷ l) node m h = elim (Text_discrete key node) [
  | yes found ↦ inl (ground arith)
  | no other ↦ inr (lookup-Entry l node m (ground arith))
]

-- Where the members stand under their own ids, ListByType lists exactly those of the type that are
-- found under an id which the filter does not name.
pub list_by_type_iff :
    (d : Discovery) (node_type : Text) (filter : List Text) (m : Member)
    → IsKeyed d.members
    → In m (list_by_type d node_type filter) ↔ (
        (lookup Text_discrete m.node_id d.members ≡ some m)
        × (m.node_type ≡ node_type)
        × (string_in m.node_id filter ≡ false))
unfolding list_by_type
list_by_type_iff d node_type filter m v =
    let listed = list_members_iff node_type filter m d.members in
    (
      λ h. let r = listed.0 h in (Entry-lookup d.members m v r.0, r.1, r.2),
      λ h. listed.1 (lookup-Entry d.members m.node_id m h.0) h.1 h.2,
    )

nth-In : (n : ℕ) (l : List Member) → n < length l → (m : Member) × (nth n l ≡ some m) × In m l
nth-In n [] h = absurd (omega arith)
nth-In n (x ∷ l) h = elim (ℕ_discrete n 0) [
  | yes z ↦ (x, ground arith, inl refl)
  | no p ↦ let r = nth-In (n - 1) l (omega arith) in (r.0, ground (arith, r.1), inr r.2)
]

-- If the draw keeps below its bound, Random finds a member of the type, one that ListByType lists,
-- or there is none to list.
pub random_lists :
    (d : Discovery) (intn : ℕ → ℕ) (node_type : Text)
    → ((n : ℕ) → 0 < n → intn n < n)
    → ((m : Member) × (random d intn node_type ≡ some m) × In m (list_by_type d node_type []))
      ⊎ ((random d intn node_type ≡ none) × (list_by_type d node_type [] ≡ []))
unfolding random
random_lists d intn node_type fair = drawn (list_by_type d node_type [])
  where
    drawn :
        (l : List Member)
        → ((m : Member) × (pick intn l ≡ some m) × In m l) ⊎ ((pick intn l ≡ none) × (l ≡ []))
    drawn [] = inr (refl, refl)
    drawn (x ∷ []) = inl (x, refl, inl refl)
    drawn (x ∷ y ∷ l) = inl (nth-In (intn (length (x ∷ y ∷ l))) (x ∷ y ∷ l) (fair _ (omega arith)))

-- Adding a member tells every listener once, in order, and makes it the one that its id finds; a
-- member whose id is taken changes nothing and tells nobody.
pub add_member_tells :
    (d : Discovery) (m : Member)
    → ((lookup Text_discrete m.node_id d.members ≡ none)
        × (lookup Text_discrete m.node_id (add_member d m).members ≡ some m)
        × ((add_member d m).told ≡ d.told ++ map (λ l. added l m) d.on_add))
      ⊎ ((lookup Text_discrete m.node_id d.members ≢ none) × (add_member d m ≡ d))
unfolding add_member
add_member_tells d m = elim (Option-cases (lookup Text_discrete m.node_id d.members)) [
  | inl free ↦ inl (
    free,
    ground (arith, lookup-insert Text_discrete m.node_id m.node_id m d.members),
    ground arith,
  )
  | inr (x, taken) ↦ inr (λ e. cc, ground arith)
]

-- A member that is added under a new id and removed again leaves the members as they were, and each
-- listener of the two kinds is told once.
pub remove-add_member :
    (d : Discovery) (m : Member)
    → lookup Text_discrete m.node_id d.members ≡ none
    → ((remove_member (add_member d m) m.node_id).members ≡ d.members)
      × ((remove_member (add_member d m) m.node_id).told
          ≡ (d.told ++ map (λ l. added l m) d.on_add) ++ map (λ l. removed l m) d.on_remove)
unfolding remove_member add_member
remove-add_member d m free =
    let back = delete-insert_new Text_discrete m.node_id m d.members free in
    let there = lookup-insert Text_discrete m.node_id m.node_id m d.members in
    (ground (arith, back, there), ground (arith, there))
