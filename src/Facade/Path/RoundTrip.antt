-- ===== src/Facade/Path/RoundTrip.antt =====
-- Printing and parsing actor paths.
use mathlib.Core.List.{append_assoc}
use actorgo.Common.{
  ℕ, ◌≡◌, ◌≢◌, refl, sym, ap, ◌∙◌, subst, ◌⊎◌, inl, inr, Text, Text_discrete, some, List, [], ◌∷◌,
  ◌++◌, All, arith,
}
use actorgo.Facade.Path.{
  ActorPath, dot, new_actor_path, path_string, new_child_path, prepend, split, join, path_of_parts,
  to_actor_path,
}

-- A text without a dot.
abbrev pub IsPlain : Text → Type 0
IsPlain = All (λ c. c ≢ dot)

split_plain : (t : Text) → IsPlain t → split t ≡ t ∷ []
unfolding split
split_plain [] h = refl
split_plain (c ∷ t) h = ground (arith, split_plain t h.1)

split-append : (t u : Text) → IsPlain t → split (t ++ dot ∷ u) ≡ t ∷ split u
unfolding split
split-append [] u h = refl
split-append (c ∷ t) u h = ground (arith, split-append t u h.1)

split-join :
    (t : Text) (ts : List Text) → IsPlain t → All IsPlain ts → split (join (t ∷ ts)) ≡ t ∷ ts
unfolding join
split-join t [] h hs = split_plain t h
split-join t (u ∷ ts) h hs =
    split-append t (join (u ∷ ts)) h ∙ ap (λ r. t ∷ r) (split-join u ts hs.0 hs.1)

join-prepend : (c : ℕ) (ts : List Text) → join (prepend c ts) ≡ c ∷ join ts
unfolding join
join-prepend c [] = refl
join-prepend c (t ∷ []) = refl
join-prepend c (t ∷ u ∷ ts) = refl

split-ne-nil : (t : Text) → split t ≢ []
unfolding split
split-ne-nil [] = λ e. cc
split-ne-nil (c ∷ t) = ground (arith, prepend-ne-nil (split t))
  where
    prepend-ne-nil : (ts : List Text) → prepend c ts ≢ []
    prepend-ne-nil [] e = cc
    prepend-ne-nil (u ∷ ts) e = cc

join-cons : (t : Text) (ts : List Text) → ts ≢ [] → join (t ∷ ts) ≡ t ++ dot ∷ join ts
unfolding join
join-cons t [] h = absurd (h refl)
join-cons t (u ∷ ts) h = refl

join-split : (t : Text) → join (split t) ≡ t
unfolding split
join-split [] = unfold join in refl
join-split (c ∷ t) =
    ground (arith, join-split t, join-prepend c (split t), join-cons [] (split t) (split-ne-nil t))

to_actor_path_parts : (t : Text) → to_actor_path t ≡ path_of_parts (split t)
unfolding to_actor_path
to_actor_path_parts [] = ground arith
to_actor_path_parts (c ∷ t) = ground arith

-- A node id: short, or generated, which is four plain texts with dots between them.
abbrev pub IsNodeId : Text → Type 0
IsNodeId id =
    IsPlain id
    ⊎ ((a b c d : Text) × IsPlain a
        × IsPlain b
        × IsPlain c
        × IsPlain d
        × (id ≡ join (a ∷ b ∷ c ∷ d ∷ [])))

parse_join :
    (t : Text) (ts : List Text)
    → IsPlain t
    → All IsPlain ts
    → to_actor_path (join (t ∷ ts)) ≡ path_of_parts (t ∷ ts)
parse_join t ts h hs = to_actor_path_parts (join (t ∷ ts)) ∙ ap path_of_parts (split-join t ts h hs)

join_four :
    (a b c d : Text) (ts : List Text)
    → ts ≢ []
    → join (a ∷ b ∷ c ∷ d ∷ []) ++ dot ∷ join ts ≡ join (a ∷ b ∷ c ∷ d ∷ ts)
unfolding join
join_four a b c d [] h = absurd (h refl)
join_four a b c d (e ∷ ts) h = simp (append_assoc)

-- The rest of a path after its node id: an actor and perhaps a child.
abbrev rest_of : Text → Text → List Text
rest_of actor [] = actor ∷ []
rest_of actor (c ∷ t) = actor ∷ (c ∷ t) ∷ []

rest_of-ne-nil : (actor child : Text) → rest_of actor child ≢ []
rest_of-ne-nil actor [] = λ e. cc
rest_of-ne-nil actor (c ∷ t) = λ e. cc

rest_of-IsPlain :
    (actor child : Text) → IsPlain actor → IsPlain child → All IsPlain (rest_of actor child)
rest_of-IsPlain actor [] ha hc = (ha, tt)
rest_of-IsPlain actor (c ∷ t) ha hc = (ha, (hc, tt))

path_string_rest :
    (p : ActorPath) → path_string p ≡ p.node_id ++ dot ∷ join (rest_of p.actor_id p.child_id)
unfolding path_string
path_string_rest p = rest p.child_id
  where
    rest :
        (child : Text)
        → new_child_path p.node_id p.actor_id child
          ≡ p.node_id ++ dot ∷ join (rest_of p.actor_id child)
    rest [] = unfold new_child_path join in ground arith
    rest (c ∷ t) = unfold new_child_path join in ground arith

path_of_short :
    (node actor child : Text)
    → path_of_parts (node ∷ rest_of actor child) ≡ some (new_actor_path node actor child)
unfolding path_of_parts
path_of_short node actor [] = refl
path_of_short node actor (c ∷ t) = refl

path_of_generated :
    (a b c d actor child : Text)
    → path_of_parts (a ∷ b ∷ c ∷ d ∷ rest_of actor child)
      ≡ some (new_actor_path (join (a ∷ b ∷ c ∷ d ∷ [])) actor child)
unfolding path_of_parts
path_of_generated a b c d actor [] = refl
path_of_generated a b c d actor (x ∷ t) = refl

-- A path with a short or a generated node id, and with an actor and a child without dots, is read
-- back from its text as it was; the child may be the empty one of a top-level actor.
pub to_actor_path-path_string :
    (p : ActorPath)
    → IsNodeId p.node_id
    → IsPlain p.actor_id
    → IsPlain p.child_id
    → to_actor_path (path_string p) ≡ some p
to_actor_path-path_string p hn ha hc = ap to_actor_path (path_string_rest p) ∙ parsed hn
  where
    plain : All IsPlain (rest_of p.actor_id p.child_id)
    plain = rest_of-IsPlain p.actor_id p.child_id ha hc

    filled : rest_of p.actor_id p.child_id ≢ []
    filled = rest_of-ne-nil p.actor_id p.child_id

    parsed :
        IsNodeId p.node_id
        → to_actor_path (p.node_id ++ dot ∷ join (rest_of p.actor_id p.child_id)) ≡ some p
    parsed (inl h) =
        ap to_actor_path (sym (join-cons p.node_id (rest_of p.actor_id p.child_id) filled))
        ∙ parse_join p.node_id (rest_of p.actor_id p.child_id) h plain
        ∙ path_of_short p.node_id p.actor_id p.child_id
    parsed (inr (a, b, c, d, pa, pb, pc, pd, e)) =
        ap (λ n. to_actor_path (n ++ dot ∷ join (rest_of p.actor_id p.child_id))) e
        ∙ ap to_actor_path (join_four a b c d (rest_of p.actor_id p.child_id) filled)
        ∙ parse_join a (b ∷ c ∷ d ∷ rest_of p.actor_id p.child_id) pa (pb, (pc, (pd, plain)))
        ∙ path_of_generated a b c d p.actor_id p.child_id
        ∙ ap (λ n. some (new_actor_path n p.actor_id p.child_id)) (sym e)

-- The text of a path, perhaps with a dot after it: ToActorPath drops the dot before an empty child.
abbrev pub Prints : ActorPath → Text → Type 0
Prints p t = (path_string p ≡ t) ⊎ (path_string p ++ dot ∷ [] ≡ t)

Prints-parent : (node actor : Text) → Prints (new_actor_path node actor []) (node ++ dot ∷ actor)
unfolding path_string
Prints-parent node actor = inl (ground arith)

Prints-child :
    (node actor child : Text)
    → Prints (new_actor_path node actor child) (node ++ dot ∷ (actor ++ dot ∷ child))
unfolding path_string Text_discrete
Prints-child node actor [] = inr (append_assoc node (dot ∷ actor) (dot ∷ []))
Prints-child node actor (c ∷ t) = inl (ground arith)

Prints-parts : (ts : List Text) (p : ActorPath) → path_of_parts ts ≡ some p → Prints p (join ts)
unfolding path_of_parts join
Prints-parts [] p h = absurd (cc)
Prints-parts (a ∷ []) p h = absurd (cc)
Prints-parts (a ∷ b ∷ []) p h = ground (arith, Prints-parent a b)
Prints-parts (a ∷ b ∷ c ∷ []) p h = ground (arith, Prints-child a b c)
Prints-parts (a ∷ b ∷ c ∷ d ∷ []) p h = absurd (cc)
Prints-parts (a ∷ b ∷ c ∷ d ∷ e ∷ []) p h =
    ground
      (arith, Prints-parent (join (a ∷ b ∷ c ∷ d ∷ [])) e, join_four a b c d (e ∷ []) (λ x. cc))
Prints-parts (a ∷ b ∷ c ∷ d ∷ e ∷ f ∷ []) p h =
    ground (
      arith,
      Prints-child (join (a ∷ b ∷ c ∷ d ∷ [])) e f,
      join_four a b c d (e ∷ f ∷ []) (λ x. cc),
    )
Prints-parts (a ∷ b ∷ c ∷ d ∷ e ∷ f ∷ g ∷ ts) p h = absurd (cc)

-- Whatever text ToActorPath accepts, the path that it gives prints as that text, but for one dot at
-- the end.
pub path_string-to_actor_path : (t : Text) (p : ActorPath) → to_actor_path t ≡ some p → Prints p t
path_string-to_actor_path t p h =
    subst (Prints p) (join-split t) (Prints-parts (split t) p (sym (to_actor_path_parts t) ∙ h))
