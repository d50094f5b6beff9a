-- ===== src/Actor/Queue/Chain.antt =====
-- The shape of the queue's memory at every moment: a chain of nodes from `tail` to `head`, of whose
-- links some have yet to be stored by their producers.
use actorgo.Common.{
  ℕ, ◌≡◌, ◌≢◌, refl, ◌==◌, Bool, true, false, Option, none, some, List, [], ◌∷◌, ◌++◌,
  if◌then◌else◌, length, arith, Bool-cases, inl, inr,
}
use actorgo.Actor.Queue.{update}
use actorgo.Actor.Queue.Nodes.{Out, Nodup}

-- A node behind the tail, its value, and whether the link to it has been stored.
pub record Item (V : Type 0) : Type 0 where
  pub node : ℕ
  pub value : V
  pub linked : Bool

-- What the link to a node holds before and after it is stored.
abbrev pub link_to : Bool → ℕ → Option ℕ
link_to true n = some n
link_to false n = none

module _ {V : Type 0} where
  abbrev pub nodes : List (Item V) → List ℕ
  nodes [] = []
  nodes (i ∷ r) = i.node ∷ nodes r

  abbrev pub values : List (Item V) → List V
  values [] = []
  values (i ∷ r) = i.value ∷ values r

  -- The links that have yet to be stored, oldest first.
  abbrev pub gaps : ℕ → List (Item V) → List (ℕ × ℕ)
  gaps a [] = []
  gaps a (i ∷ r) = if i.linked then gaps i.node r else (a, i.node) ∷ gaps i.node r

  abbrev pub Chain : (ℕ → Option ℕ) → (ℕ → Option V) → ℕ → ℕ → List (Item V) → Type 0
  Chain next val head a [] = (a ≡ head) × (next a ≡ none)
  Chain next val head a (i ∷ r) =
      (next a ≡ link_to i.linked i.node)
      × (val i.node ≡ some i.value)
      × Chain next val head i.node r

  -- A swap puts its node at the end, behind a link to be stored.
  pub Chain-swap :
      (next : ℕ → Option ℕ) (val : ℕ → Option V) (head n : ℕ) (v : V) (a : ℕ) (r : List (Item V))
      → Out n (a ∷ nodes r)
      → Chain next val head a r
      → Chain
          (update next n none)
          (update val n (some v))
          n
          a
          (r ++ (record { node = n; value = v; linked = false } ∷ []))
  Chain-swap next val head n v a [] o c = ground arith
  Chain-swap next val head n v a (i ∷ r) o c =
      (ground arith, ground arith, Chain-swap next val head n v i.node r o.1 c.2)

  pub gaps-swap :
      (next : ℕ → Option ℕ) (val : ℕ → Option V) (head n : ℕ) (v : V) (a : ℕ) (r : List (Item V))
      → Chain next val head a r
      → gaps a (r ++ (record { node = n; value = v; linked = false } ∷ []))
        ≡ gaps a r ++ ((head, n) ∷ [])
  gaps-swap next val head n v a [] c = ground arith
  gaps-swap next val head n v a (i ∷ r) c = ground (arith, gaps-swap next val head n v i.node r c.2)

  -- What the memory holds of other nodes does not matter to a chain.
  pub Chain-frame_next :
      (next : ℕ → Option ℕ) (val : ℕ → Option V) (head k : ℕ) (x : Option ℕ) (a : ℕ)
      (r : List (Item V))
      → Out k (a ∷ nodes r)
      → Chain next val head a r
      → Chain (update next k x) val head a r
  Chain-frame_next next val head k x a [] o c = ground arith
  Chain-frame_next next val head k x a (i ∷ r) o c =
      (ground arith, c.1, Chain-frame_next next val head k x i.node r o.1 c.2)

  pub Chain-frame_val :
      (next : ℕ → Option ℕ) (val : ℕ → Option V) (head k : ℕ) (x : Option V) (a : ℕ)
      (r : List (Item V))
      → Out k (nodes r)
      → Chain next val head a r
      → Chain next (update val k x) head a r
  Chain-frame_val next val head k x a [] o c = c
  Chain-frame_val next val head k x a (i ∷ r) o c =
      (c.0, ground arith, Chain-frame_val next val head k x i.node r o.1 c.2)

  -- Storing the link to the node `n`.
  abbrev pub mark : ℕ → List (Item V) → List (Item V)
  mark n [] = []
  mark n (i ∷ r) = if i.node == n then record i { linked = true } ∷ r else i ∷ mark n r

  pub nodes-mark : (n : ℕ) (r : List (Item V)) → nodes (mark n r) ≡ nodes r
  nodes-mark n [] = refl
  nodes-mark n (i ∷ r) = ground (arith, nodes-mark n r)

  pub values-mark : (n : ℕ) (r : List (Item V)) → values (mark n r) ≡ values r
  values-mark n [] = refl
  values-mark n (i ∷ r) = ground (arith, values-mark n r)

  pub length-mark : (n : ℕ) (r : List (Item V)) → length (mark n r) ≡ length r
  length-mark n [] = refl
  length-mark n (i ∷ r) = ground (arith, length-mark n r)

  -- The two ends of a missing link are nodes of the chain.
  gap_ends :
      (a : ℕ) (r : List (Item V)) (before later : List (ℕ × ℕ)) (p n x : ℕ)
      → gaps a r ≡ before ++ (p, n) ∷ later
      → (Out x (a ∷ nodes r) → x ≢ p) × (Out x (nodes r) → x ≢ n)
  gap_ends a [] [] later p n x e = absurd (cc)
  gap_ends a [] (b ∷ before) later p n x e = absurd (cc)
  gap_ends a (i ∷ r) [] later p n x e = elim (Bool-cases i.linked) [
    | inl l ↦ ground (arith, gap_ends i.node r [] later p n x)
    | inr l ↦ ground arith
  ]
  gap_ends a (i ∷ r) (b ∷ before) later p n x e = elim (Bool-cases i.linked) [
    | inl l ↦ ground (arith, gap_ends i.node r (b ∷ before) later p n x)
    | inr l ↦ ground (arith, gap_ends i.node r before later p n x)
  ]

  -- Storing a missing link fills that gap and no other.
  pub gaps-mark :
      (a : ℕ) (r : List (Item V)) (before later : List (ℕ × ℕ)) (p n : ℕ)
      → Nodup (a ∷ nodes r)
      → gaps a r ≡ before ++ (p, n) ∷ later
      → gaps a (mark n r) ≡ before ++ later
  gaps-mark a [] [] later p n d e = absurd (cc)
  gaps-mark a [] (b ∷ before) later p n d e = absurd (cc)
  gaps-mark a (i ∷ r) [] later p n d e = elim (Bool-cases i.linked) [
    | inl l ↦
        ground (arith, gap_ends i.node r [] later p n i.node, gaps-mark i.node r [] later p n d.1)
    | inr l ↦ ground arith
  ]
  gaps-mark a (i ∷ r) (b ∷ before) later p n d e = elim (Bool-cases i.linked) [
    | inl l ↦ ground (
      arith,
      gap_ends i.node r (b ∷ before) later p n i.node,
      gaps-mark i.node r (b ∷ before) later p n d.1,
    )
    | inr l ↦
        ground (
          arith,
          gap_ends i.node r before later p n i.node,
          gaps-mark i.node r before later p n d.1,
        )
  ]

  pub Chain-mark :
      (next : ℕ → Option ℕ) (val : ℕ → Option V) (head a : ℕ) (r : List (Item V))
      (before later : List (ℕ × ℕ)) (p n : ℕ)
      → Nodup (a ∷ nodes r)
      → gaps a r ≡ before ++ (p, n) ∷ later
      → Chain next val head a r
      → Chain (update next p (some n)) val head a (mark n r)
  Chain-mark next val head a [] [] later p n d e c = absurd (cc)
  Chain-mark next val head a [] (b ∷ before) later p n d e c = absurd (cc)
  Chain-mark next val head a (i ∷ r) [] later p n d e c = elim (Bool-cases i.linked) [
    | inl l ↦ ground (
      arith,
      gap_ends i.node r [] later p n a,
      gap_ends i.node r [] later p n i.node,
      Chain-mark next val head i.node r [] later p n d.1,
    )
    | inr l ↦ ground (arith, Chain-frame_next next val head a (some i.node) i.node r d.0 c.2)
  ]
  Chain-mark next val head a (i ∷ r) (b ∷ before) later p n d e c = elim (Bool-cases i.linked) [
    | inl l ↦ ground (
      arith,
      gap_ends i.node r (b ∷ before) later p n a,
      gap_ends i.node r (b ∷ before) later p n i.node,
      Chain-mark next val head i.node r (b ∷ before) later p n d.1,
    )
    | inr l ↦ ground (
      arith,
      gap_ends i.node r before later p n a,
      gap_ends i.node r before later p n i.node,
      Chain-mark next val head i.node r before later p n d.1,
    )
  ]
