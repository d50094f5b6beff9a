-- ===== src/Actor/Family/Creating.antt =====
-- Creations and exits keep the count of the goroutines.
use actorgo.Common.{
  suc, ◌≡◌, ◌≢◌, refl, inl, inr, true, false, none, some, List, [], ◌∷◌, Text, Text_discrete, arith,
  Option-cases, subst,
}
use actorgo.Common.Dict.{lookup, insert, Distinct, lookup-insert, insert-Distinct}
use actorgo.Actor.Family.{
  Branch, Forest, store_actor, store_child, exit_actor, exit_child, exit_child_of,
}
use actorgo.Actor.Family.Counting.{
  total-insert_new, length-insert_same, length-insert_new_child, Detached, IsCounted,
  put_branch-IsCounted,
}

-- No child of an ended actor of this id still runs.
abbrev pub NoOrphan : Text → List (Text × Text) → Type 0
NoOrphan id [] = Unit
NoOrphan id ((other, child) ∷ os) = (other ≢ id) × NoOrphan id os

insert-Detached :
    (m : List (Text × Branch)) (id : Text) (b : Branch) (os : List (Text × Text))
    → NoOrphan id os
    → Detached m os
    → Detached (insert Text_discrete id b m) os
insert-Detached m id b [] n d = tt
insert-Detached m id b ((other, child) ∷ os) n d = (
  ground (arith, n.0, d.0, lookup-insert Text_discrete other id b m),
  insert-Detached m id b os n.1 d.1,
)

pub store_actor-IsCounted :
    (f : Forest) (id : Text)
    → lookup Text_discrete id f.actors ≡ none
    → NoOrphan id f.orphans
    → IsCounted f
    → IsCounted (store_actor f id)
store_actor-IsCounted f id absent free k =
    unfold store_actor in
    (record {
      distinct =
          insert-Distinct Text_discrete id (record { asked = false; children = [] }) f.actors
            k.distinct;
      own_children = λ j c h. own j c h;
      detached =
          insert-Detached f.actors id (record { asked = false; children = [] }) f.orphans free
            k.detached;
      counted = omega (
        arith,
        total-insert_new id (record { asked = false; children = [] }) f.actors absent,
        k.counted,
      );
    })
  where
    own :
        (j : Text) (c : Branch)
        → lookup Text_discrete j
            (insert Text_discrete id (record { asked = false; children = [] }) f.actors)
          ≡ some c
        → Distinct Text_discrete c.children
    own j c h = elim (Text_discrete id j) [
      | yes same ↦
          let eq : record { asked = false; children = [] } ≡ c = ground (
            arith,
            h,
            same,
            lookup-insert Text_discrete j id (record { asked = false; children = [] }) f.actors,
          ) in
          subst (λ (x : Branch). Distinct Text_discrete x.children) eq tt
      | no ne ↦ k.own_children j c (
          ground (
            arith,
            h,
            ne,
            lookup-insert Text_discrete j id (record { asked = false; children = [] }) f.actors,
          ))
    ]

pub store_child-IsCounted :
    (f : Forest) (id child : Text) (b : Branch)
    → lookup Text_discrete id f.actors ≡ some b
    → lookup Text_discrete child b.children ≡ none
    → IsCounted f
    → IsCounted (store_child f id child)
store_child-IsCounted f id child b there absent k =
    let b' : Branch = record b { children = insert Text_discrete child false b.children } in
    let l = length-insert_new_child child false b.children absent in
    let same : store_child f id child
        ≡ record f { actors = insert Text_discrete id b' f.actors; working = suc f.working } =
      unfold store_child in ground (arith, there) in
    rw same (
      put_branch-IsCounted f id b b' (suc f.working) there
        (insert-Distinct Text_discrete child false b.children (k.own_children id b there))
        (omega (arith, l)) k)

pub exit_actor-IsCounted : (f : Forest) (id : Text) → IsCounted f → IsCounted (exit_actor f id)
exit_actor-IsCounted f id k = elim (Option-cases (lookup Text_discrete id f.actors)) [
  | inl gone ↦
      let same : exit_actor f id ≡ f = unfold exit_actor in ground (arith, gone) in rw same k
  | inr (b, there) ↦
      let b' : Branch = record b { asked = true } in
      let same : exit_actor f id
          ≡ record f { actors = insert Text_discrete id b' f.actors; working = f.working } =
        unfold exit_actor in ground (arith, there) in
      rw same (put_branch-IsCounted f id b b' f.working there (k.own_children id b there) refl k)
]

pub exit_child-IsCounted :
    (f : Forest) (id child : Text) → IsCounted f → IsCounted (exit_child f id child)
exit_child-IsCounted f id child k = elim (Option-cases (lookup Text_discrete id f.actors)) [
  | inl gone ↦
      let same : exit_child f id child ≡ f = unfold exit_child in ground (arith, gone) in rw same k
  | inr (b, there) ↦ elim (Option-cases (lookup Text_discrete child b.children)) [
    | inl absent ↦
        let same : exit_child f id child ≡ f =
          unfold exit_child exit_child_of in ground (arith, there, absent) in
        rw same k
    | inr (asked, child_there) ↦
        let b' : Branch = record b { children = insert Text_discrete child true b.children } in
        let l = length-insert_same child asked true b.children child_there in
        let same : exit_child f id child
            ≡ record f { actors = insert Text_discrete id b' f.actors; working = f.working } =
          unfold exit_child exit_child_of in ground (arith, there, child_there) in
        rw same (
          put_branch-IsCounted f id b b' f.working there
            (insert-Distinct Text_discrete child true b.children (k.own_children id b there))
            (omega (arith, l)) k)
  ]
]
