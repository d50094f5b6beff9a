-- ===== src/Application/Names.antt =====
-- The names of the components.
use actorgo.Common.{
  ◌≡◌, ◌≢◌, refl, inl, inr, Option, none, some, List, [], ◌∷◌, ◌++◌, Text, Text_discrete, arith,
  Option-cases, Bool-cases,
}
use actorgo.Application.{
  Component, Application, find_in, find_component, register_loop, register_components, remove_named,
  remove_component,
}

-- No name is empty, and no two components have the same.
abbrev pub AreNamed : List Component → Type 0
AreNamed [] = Unit
AreNamed (c ∷ cs) = (c.name ≢ []) × (find_in c.name cs ≡ none) × AreNamed cs

find_in-append :
    (name : Text) (cs : List Component) (c : Component)
    → find_in name cs ≡ none
    → c.name ≢ name
    → find_in name (cs ++ c ∷ []) ≡ none
unfolding find_in
find_in-append name [] c h ne = ground (arith, ne)
find_in-append name (d ∷ cs) c h ne = ground (arith, find_in-append name cs c, h, ne)

append-AreNamed :
    (cs : List Component) (c : Component)
    → AreNamed cs
    → c.name ≢ []
    → find_in c.name cs ≡ none
    → AreNamed (cs ++ c ∷ [])
unfolding find_in
append-AreNamed [] c h ne free = (ne, refl, tt)
append-AreNamed (d ∷ cs) c h ne free = (
  h.0,
  find_in-append d.name cs c h.1 (λ e. ground (arith, e, free)),
  append-AreNamed cs c h.2 ne (ground (arith, free)),
)

register_loop-AreNamed :
    (cs : List (Option Component)) (a : Application)
    → AreNamed a.components
    → AreNamed (register_loop cs a).components
unfolding register_loop
register_loop-AreNamed [] a h = h
register_loop-AreNamed (none ∷ cs) a h = h
register_loop-AreNamed (some c ∷ cs) a h =
    let added = append-AreNamed a.components c h in
    let rest = register_loop-AreNamed cs (record a { components = a.components ++ c ∷ [] }) in
    elim (Text_discrete c.name []) [
      | yes empty ↦ ground (arith, h)
      | no named ↦ elim (Option-cases (find_component a c.name)) [
        | inr (d, taken) ↦ ground (arith, h)
        | inl free ↦ ground (arith, rest (added named (unfold find_component in ground arith)))
      ]
    ]

-- Register keeps every component's name non-empty and its own, whatever it is given, and whether the
-- application runs or not.
pub register_components-AreNamed :
    (a : Application) (cs : List (Option Component))
    → AreNamed a.components
    → AreNamed (register_components a cs).components
unfolding register_components
register_components-AreNamed a cs h = elim (Bool-cases a.running) [
  | inl busy ↦ ground (arith, h)
  | inr idle ↦ ground (arith, register_loop-AreNamed cs a h)
]

remove_named_absent :
    (name : Text) (cs : List Component) (r : Option Component)
    → find_in name cs ≡ none
    → remove_named name cs r ≡ (cs, r)
unfolding remove_named find_in
remove_named_absent name [] r h = refl
remove_named_absent name (c ∷ cs) r h = ground (arith, remove_named_absent name cs r)

find_in-remove_named :
    (name other : Text) (cs : List Component) (r : Option Component)
    → other ≢ name
    → find_in other (remove_named name cs r).0 ≡ find_in other cs
unfolding remove_named find_in
find_in-remove_named name other [] r ne = refl
find_in-remove_named name other (c ∷ cs) r ne = ground (
  arith,
  find_in-remove_named name other cs r ne,
  find_in-remove_named name other cs (some c) ne,
  ne,
)

find_in-remove_named_same :
    (name : Text) (cs : List Component) (r : Option Component)
    → find_in name (remove_named name cs r).0 ≡ none
unfolding remove_named find_in
find_in-remove_named_same name [] r = refl
find_in-remove_named_same name (c ∷ cs) r =
    ground (arith, find_in-remove_named_same name cs r, find_in-remove_named_same name cs (some c))

removed_is_found :
    (name : Text) (cs : List Component)
    → AreNamed cs
    → (remove_named name cs none).1 ≡ find_in name cs
unfolding remove_named find_in
removed_is_found name [] h = refl
removed_is_found name (c ∷ cs) h = elim (Text_discrete c.name name) [
  | no other ↦ ground (arith, removed_is_found name cs h.2)
  | yes same ↦ ground (arith, h.1, same, remove_named_absent name cs (some c))
]

-- Removing a name gives back what Find finds under it, after which Find finds nothing under it and
-- the same as before under every other name.
pub remove_component_lem :
    (a : Application) (name : Text)
    → AreNamed a.components
    → ((remove_component a name).1 ≡ find_component a name)
      × (find_component (remove_component a name).0 name ≡ none)
      × ((other : Text)
          → other ≢ name
          → find_component (remove_component a name).0 other ≡ find_component a other)
unfolding remove_component find_component
remove_component_lem a name h = (
  ground (arith, removed_is_found name a.components h),
  ground (arith, find_in-remove_named_same name a.components none),
  λ other ne. ground (arith, find_in-remove_named name other a.components none ne),
)
