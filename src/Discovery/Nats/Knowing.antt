-- ===== src/Discovery/Nats/Knowing.antt =====
-- What a discovery knows after each operation.
use mathlib.Core.Logic.{ite}
use actorgo.Common.{
  ◌≡◌, inl, inr, Option, none, some, List, [], ◌∷◌, Text, Text_discrete, arith, Option-cases,
}
use actorgo.Common.Dict.{lookup, lookup-insert, lookup-delete, Distinct}
use actorgo.Discovery.Default.{Member, Discovery, add_member, remove_member}
use actorgo.Discovery.Nats.{members_for, receive_members}

abbrev pub known : Discovery → Text → Option Member
known d node = lookup Text_discrete node d.members

-- The first value, or the second where there is none.
abbrev or_else : Option Member → Option Member → Option Member
or_else none o = o
or_else (some m) o = some m

pub known-add_member :
    (d : Discovery) (m : Member) (node : Text)
    → known (add_member d m) node
      ≡ ite (Text_discrete m.node_id node) (or_else (known d node) (some m)) (known d node)
unfolding add_member
known-add_member d m node = elim (Text_discrete m.node_id node) [
  | yes eq ↦ elim (Option-cases (known d node)) [
    | inl gone ↦ ground (arith, eq, gone, lookup-insert Text_discrete node m.node_id m d.members)
    | inr (x, there) ↦ ground (arith, eq, there)
  ]
  | no ne ↦ ground (arith, ne, lookup-insert Text_discrete node m.node_id m d.members)
]

pub known-remove_member :
    (d : Discovery) (gone node : Text)
    → known (remove_member d gone) node ≡ ite (Text_discrete gone node) none (known d node)
unfolding remove_member
known-remove_member d gone node = elim (Option-cases (known d gone)) [
  | inl absent ↦ ground (arith, absent)
  | inr (x, there) ↦ ground (arith, there, lookup-delete Text_discrete node gone d.members)
]

-- The member of this id in a list.
abbrev member_of : Text → List Member → Option Member
member_of node [] = none
member_of node (m ∷ ms) = ite (Text_discrete m.node_id node) (some m) (member_of node ms)

pub known-receive_members :
    (ms : List Member) (d : Discovery) (node : Text)
    → known (receive_members d ms) node ≡ or_else (known d node) (member_of node ms)
unfolding receive_members
known-receive_members [] d node = ground arith
known-receive_members (m ∷ ms) d node =
    ground (arith, known-receive_members ms (add_member d m) node, known-add_member d m node)

-- Each value stands under its own id.
abbrev OwnKeys : List (Text × Member) → Type 0
OwnKeys [] = Unit
OwnKeys ((key, m) ∷ rest) = (m.node_id ≡ key) × OwnKeys rest

pub IsKeyed-OwnKeys :
    (l : List (Text × Member))
    → Distinct Text_discrete l
    → ((node : Text) (m : Member) → lookup Text_discrete node l ≡ some m → m.node_id ≡ node)
    → OwnKeys l
unfolding lookup
IsKeyed-OwnKeys [] d k = tt
IsKeyed-OwnKeys ((key, m) ∷ rest) d k = (
  k key m (ground arith),
  IsKeyed-OwnKeys rest d.1 (λ node x h. k node x (ground (arith, h, d.0))),
)

pub member_of-members_for :
    (own node : Text) (l : List (Text × Member))
    → OwnKeys l
    → member_of node (members_for own l)
      ≡ ite (Text_discrete own node) none (lookup Text_discrete node l)
unfolding members_for lookup
member_of-members_for own node [] k = ground arith
member_of-members_for own node ((key, m) ∷ rest) k =
    ground (arith, k.0, member_of-members_for own node rest k.1)
