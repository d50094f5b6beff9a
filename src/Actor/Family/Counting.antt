-- ===== src/Actor/Family/Counting.antt =====
-- The wait group counts the goroutines.
use actorgo.Common.{
  ℕ, suc, ◌+◌, ◌≡◌, refl, ap, Bool, none, some, List, [], ◌∷◌, Text, Text_discrete, arith, length,
  subst,
}
use actorgo.Common.Dict.{
  lookup, insert, delete, Distinct, lookup-insert, insert-Distinct, delete_absent,
}
use actorgo.Actor.Family.{Branch, Forest, ask_all, orphans_of}

-- The actors and their children.
abbrev pub total : List (Text × Branch) → ℕ
total [] = 0
total ((id, b) ∷ m) = suc (length b.children) + total m

pub total-insert_new :
    (id : Text) (b : Branch) (m : List (Text × Branch))
    → lookup Text_discrete id m ≡ none
    → total (insert Text_discrete id b m) ≡ suc (length b.children) + total m
unfolding lookup insert
total-insert_new id b [] h = omega arith
total-insert_new id b ((j, c) ∷ m) h = ground (arith, total-insert_new id b m)

pub total-insert :
    (id : Text) (b b' : Branch) (m : List (Text × Branch))
    → lookup Text_discrete id m ≡ some b
    → total (insert Text_discrete id b' m) + length b.children ≡ total m + length b'.children
unfolding lookup insert
total-insert id b b' [] h = absurd (cc)
total-insert id b b' ((j, c) ∷ m) h = ground (arith, total-insert id b b' m)

pub total-delete :
    (id : Text) (b : Branch) (m : List (Text × Branch))
    → Distinct Text_discrete m
    → lookup Text_discrete id m ≡ some b
    → total m ≡ suc (length b.children) + total (delete Text_discrete id m)
unfolding lookup delete
total-delete id b [] d h = absurd (cc)
total-delete id b ((j, c) ∷ m) d h =
    ground (arith, total-delete id b m d.1, delete_absent Text_discrete id m, d.0)

pub length-delete :
    {V : Type 0} (k : Text) (v : V) (m : List (Text × V))
    → Distinct Text_discrete m
    → lookup Text_discrete k m ≡ some v
    → length m ≡ suc (length (delete Text_discrete k m))
unfolding lookup delete
length-delete k v [] d h = absurd (cc)
length-delete k v ((j, w) ∷ m) d h =
    ground (arith, length-delete k v m d.1, delete_absent Text_discrete k m, d.0)

pub length-insert_same :
    {V : Type 0} (k : Text) (v w : V) (m : List (Text × V))
    → lookup Text_discrete k m ≡ some v
    → length (insert Text_discrete k w m) ≡ length m
unfolding lookup insert
length-insert_same k v w [] h = absurd (cc)
length-insert_same k v w ((j, u) ∷ m) h = ground (arith, length-insert_same k v w m)

pub length-insert_new_child :
    {V : Type 0} (k : Text) (w : V) (m : List (Text × V))
    → lookup Text_discrete k m ≡ none
    → length (insert Text_discrete k w m) ≡ suc (length m)
unfolding lookup insert
length-insert_new_child k w [] h = omega arith
length-insert_new_child k w ((j, u) ∷ m) h = ground (arith, length-insert_new_child k w m)

pub length-orphans_of :
    (id : Text) (cs : List (Text × Bool)) → length (orphans_of id cs) ≡ length cs
unfolding orphans_of
length-orphans_of id [] = refl
length-orphans_of id ((c, a) ∷ cs) = ap suc (length-orphans_of id cs)

pub total-ask_all : (m : List (Text × Branch)) → total (ask_all m) ≡ total m
unfolding ask_all
total-ask_all [] = refl
total-ask_all ((id, b) ∷ m) = ap (λ n. suc (length b.children) + n) (total-ask_all m)

-- No child waits under the id of an actor that runs.
abbrev pub Detached : List (Text × Branch) → List (Text × Text) → Type 0
Detached m [] = Unit
Detached m ((id, child) ∷ os) = (lookup Text_discrete id m ≡ none) × Detached m os

-- Each id is there once, no orphan is mistaken for a child of a running actor, and the wait group
-- counts every goroutine.
pub record IsCounted (f : Forest) : Type 0 where
  pub distinct : Distinct Text_discrete f.actors
  pub own_children :
      (id : Text) (b : Branch)
      → lookup Text_discrete id f.actors ≡ some b
      → Distinct Text_discrete b.children
  pub detached : Detached f.actors f.orphans
  pub counted : f.working ≡ total f.actors + length f.orphans

pub Detached-same :
    (m m' : List (Text × Branch)) (os : List (Text × Text))
    → ((id : Text) → lookup Text_discrete id m ≡ none → lookup Text_discrete id m' ≡ none)
    → Detached m os
    → Detached m' os
Detached-same m m' [] h d = tt
Detached-same m m' ((id, c) ∷ os) h d = (h id d.0, Detached-same m m' os h d.1)

-- Another branch under an id that is there.
pub put_branch-IsCounted :
    (f : Forest) (id : Text) (b b' : Branch) (working : ℕ)
    → lookup Text_discrete id f.actors ≡ some b
    → Distinct Text_discrete b'.children
    → working + length b.children ≡ f.working + length b'.children
    → IsCounted f
    → IsCounted (record f { actors = insert Text_discrete id b' f.actors; working = working })
put_branch-IsCounted f id b b' working there own count k = record {
  distinct = insert-Distinct Text_discrete id b' f.actors k.distinct;
  own_children = λ j c h. elim (Text_discrete id j) [
    | yes same ↦
        let eq : b' ≡ c = ground (arith, h, same, lookup-insert Text_discrete j id b' f.actors) in
        subst (λ x. Distinct Text_discrete x.children) eq own
    | no ne ↦
        k.own_children j c (ground (arith, h, ne, lookup-insert Text_discrete j id b' f.actors))
  ];
  detached =
      Detached-same f.actors (insert Text_discrete id b' f.actors) f.orphans
        (λ j h. ground (arith, h, there, lookup-insert Text_discrete j id b' f.actors)) k.detached;
  counted = omega (arith, total-insert id b b' f.actors there, count, k.counted);
}
