-- ===== src/Actor/Family/Ending.antt =====
-- System.Stop asks every actor to exit, and its wait comes to an end.
use actorgo.Common.{
  ℕ, zero, suc, ◌-◌, ◌≡◌, refl, ap, Bool, true, none, some, List, [], ◌∷◌, ◌++◌, Text,
  Text_discrete, arith, length, length-append,
}
use actorgo.Common.Dict.{lookup, insert, delete, lookup-insert, lookup-delete, delete-Distinct}
use actorgo.Actor.Family.{
  Branch, Forest, orphans_of, end_actor, remove_child, end_child, orphan_at, without_orphan,
  end_orphan,
}
use actorgo.Actor.Family.Counting.{
  total-insert, total-delete, length-delete, length-orphans_of, Detached, IsCounted, Detached-same,
  put_branch-IsCounted,
}

-- A goroutine that has been asked to exit ends: a top-level actor, a child of one that runs, or an
-- orphan, which its parent has asked.
pub data Ends (f : Forest) : Forest → Type 0 where
  actor_ended :
      (id : Text) (b : Branch)
      → lookup Text_discrete id f.actors ≡ some b
      → b.asked ≡ true
      → Ends f (end_actor f id b)
  child_ended :
      (id child : Text) (b : Branch)
      → lookup Text_discrete id f.actors ≡ some b
      → lookup Text_discrete child b.children ≡ some true
      → Ends f (end_child f id child)
  orphan_ended :
      (n : ℕ) (id child : Text)
      → orphan_at n f.orphans ≡ some (id, child)
      → Ends f (end_orphan f n id child)

orphan_lem :
    (m : List (Text × Branch)) (n : ℕ) (os : List (Text × Text)) (id child : Text)
    → orphan_at n os ≡ some (id, child)
    → Detached m os
    → (lookup Text_discrete id m ≡ none)
      × (length os ≡ suc (length (without_orphan n os)))
      × Detached m (without_orphan n os)
orphan_lem m n [] id child h d = absurd (cc)
orphan_lem m zero ((a, c) ∷ os) id child h d = (ground (arith, d.0, h), refl, d.1)
orphan_lem m (suc n) ((a, c) ∷ os) id child h d =
    let i = orphan_lem m n os id child h d.1 in (i.0, ap suc i.1, (d.0, i.2))

Detached-append :
    (m : List (Text × Branch)) (xs ys : List (Text × Text))
    → Detached m xs
    → Detached m ys
    → Detached m (xs ++ ys)
Detached-append m [] ys hx hy = hy
Detached-append m ((a, c) ∷ xs) ys hx hy = (hx.0, Detached-append m xs ys hx.1 hy)

orphans_of-Detached :
    (m : List (Text × Branch)) (id : Text) (cs : List (Text × Bool))
    → lookup Text_discrete id m ≡ none
    → Detached m (orphans_of id cs)
unfolding orphans_of
orphans_of-Detached m id [] h = tt
orphans_of-Detached m id ((c, a) ∷ cs) h = (h, orphans_of-Detached m id cs h)

end_actor-IsCounted :
    (f : Forest) (id : Text) (b : Branch)
    → lookup Text_discrete id f.actors ≡ some b
    → IsCounted f
    → IsCounted (end_actor f id b) × (suc (end_actor f id b).working ≡ f.working)
end_actor-IsCounted f id b there k =
    let t = total-delete id b f.actors k.distinct there in
    let l = length-append (orphans_of id b.children) f.orphans in
    let o = length-orphans_of id b.children in
    let gone : lookup Text_discrete id (delete Text_discrete id f.actors) ≡ none =
      ground (arith, lookup-delete Text_discrete id id f.actors) in
    unfold end_actor in
    (
      record {
        distinct = delete-Distinct Text_discrete id f.actors k.distinct;
        own_children = λ j c h.
            k.own_children j c (ground (arith, h, lookup-delete Text_discrete j id f.actors));
        detached =
            Detached-append (delete Text_discrete id f.actors) (orphans_of id b.children) f.orphans
              (orphans_of-Detached (delete Text_discrete id f.actors) id b.children gone)
              (Detached-same f.actors (delete Text_discrete id f.actors) f.orphans
                (λ j h. ground (arith, h, lookup-delete Text_discrete j id f.actors)) k.detached);
        counted = omega (arith, t, l, o, k.counted);
      },
      omega (arith, t, k.counted),
    )

end_child-IsCounted :
    (f : Forest) (id child : Text) (b : Branch) (asked : Bool)
    → lookup Text_discrete id f.actors ≡ some b
    → lookup Text_discrete child b.children ≡ some asked
    → IsCounted f
    → IsCounted (end_child f id child) × (suc (end_child f id child).working ≡ f.working)
end_child-IsCounted f id child b asked there child_there k =
    let own = k.own_children id b there in
    let l = length-delete child asked b.children own child_there in
    let t =
      total-insert id b (record b { children = delete Text_discrete child b.children }) f.actors
        there in
    let some_left : suc (f.working - 1) ≡ f.working = omega (arith, l, k.counted, t) in
    let same : end_child f id child ≡ record f {
      actors =
          insert Text_discrete id (record b { children = delete Text_discrete child b.children })
            f.actors;
      working = f.working - 1;
    } =
      unfold end_child remove_child in ground (arith, there) in
    rw same (
      put_branch-IsCounted f id b (record b { children = delete Text_discrete child b.children })
          (f.working - 1) there (delete-Distinct Text_discrete child b.children own)
          (omega (arith, l, some_left)) k,
      some_left,
    )

end_orphan-IsCounted :
    (f : Forest) (n : ℕ) (id child : Text)
    → orphan_at n f.orphans ≡ some (id, child)
    → IsCounted f
    → IsCounted (end_orphan f n id child) × (suc (end_orphan f n id child).working ≡ f.working)
end_orphan-IsCounted f n id child there k =
    let (gone, fewer, rest) = orphan_lem f.actors n f.orphans id child there k.detached in
    let same : end_orphan f n id child
        ≡ record f { orphans = without_orphan n f.orphans; working = f.working - 1 } =
      unfold end_orphan remove_child in ground (arith, gone) in
    rw same (
      record {
        distinct = k.distinct;
        own_children = k.own_children;
        detached = rest;
        counted = omega (arith, k.counted, fewer);
      },
      omega (arith, k.counted, fewer),
    )

-- Each end is counted once.
pub Ends-IsCounted :
    {f g : Forest} → Ends f g → IsCounted f → IsCounted g × (suc g.working ≡ f.working)
Ends-IsCounted {f} (actor_ended id b there asked) k = end_actor-IsCounted f id b there k
Ends-IsCounted {f} (child_ended id child b there c) k =
    end_child-IsCounted f id child b true there c k
Ends-IsCounted {f} (orphan_ended n id child there) k = end_orphan-IsCounted f n id child there k

-- Every top-level actor has been asked to exit.
abbrev pub AllAsked : Forest → Type 0
AllAsked f = (id : Text) (b : Branch) → lookup Text_discrete id f.actors ≡ some b → b.asked ≡ true

pub Ends-AllAsked : {f g : Forest} → Ends f g → IsCounted f → AllAsked f → AllAsked g
Ends-AllAsked {f} (actor_ended id b there asked) k all j c h =
    all j c (unfold end_actor in ground (arith, h, lookup-delete Text_discrete j id f.actors))
Ends-AllAsked {f} (child_ended id child b there c) k all j d h = elim (Text_discrete id j) [
  | yes same ↦
      let old = all id b there in
      unfold end_child remove_child in
      ground (
        arith,
        old,
        there,
        same,
        h,
        lookup-insert Text_discrete j id
            (record b { children = delete Text_discrete child b.children }) f.actors,
      )
  | no ne ↦ all j d (
      unfold end_child remove_child in
      ground (
        arith,
        there,
        ne,
        h,
        lookup-insert Text_discrete j id
            (record b { children = delete Text_discrete child b.children }) f.actors,
      ))
]
Ends-AllAsked {f} (orphan_ended n id child there) k all j c h =
    let gone = (orphan_lem f.actors n f.orphans id child there k.detached).0 in
    all j c (unfold end_orphan end_child remove_child in ground (arith, h, gone))
