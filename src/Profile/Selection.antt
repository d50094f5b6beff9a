-- ===== src/Profile/Selection.antt =====
-- The item that GetNodeWithConfig chooses.
use actorgo.Common.{
  ℕ, codes, ◌⊎◌, ap, ◌≡◌, ◌≢◌, refl, inl, inr, ◌↔◌, Bool, true, Option, none, some, List, [], ◌∷◌,
  ◌++◌, Text, Text_discrete, arith, Option-cases, Bool-cases, All,
}
use actorgo.Common.Dict.{lookup, Distinct}
use actorgo.Profile.{
  NodeIdValue, NodeItem, Node, Profile, has_prefix, has_suffix, is_regex_node_id, is_listed,
  find_node_id, node_of, node_in, node_among, get_node_with_config,
}

-- A text that ends with this character.
has_suffix_sound :
    (t : Text) (c : ℕ) → has_suffix t c ≡ true → (before : Text) × (t ≡ before ++ c ∷ [])
unfolding has_suffix
has_suffix_sound [] c h = absurd (ground (arith, h))
has_suffix_sound (x ∷ []) c h = ([], ground (arith, h))
has_suffix_sound (x ∷ y ∷ t) c h =
    let (before, e) = has_suffix_sound (y ∷ t) c h in (x ∷ before, ap (λ r. x ∷ r) e)

has_suffix-append : (before : Text) (c : ℕ) → has_suffix (before ++ c ∷ []) c ≡ true
unfolding has_suffix
has_suffix-append [] c = ground arith
has_suffix-append (x ∷ []) c = ground arith
has_suffix-append (x ∷ y ∷ before) c = has_suffix-append (y ∷ before) c

abbrev pub Listed : Text → List Text → Type 0
Listed node [] = ⊥
Listed node (id ∷ ids) = (id ≡ node) ⊎ Listed node ids

module _ (matches : Text → Option (Text → Bool)) where
  -- A profile's node_id names a node by its text, by a regular expression from ^ to $ that compiles
  -- and matches, or in its list.
  pub data Names (node : Text) (v : NodeIdValue) : Type 0 where
    by_text : v.as_text ≡ node → Names node v
    by_regex :
        (inner before : Text) (regex : Text → Bool)
        → v.as_text ≡ codes "^" ++ inner
        → v.as_text ≡ before ++ codes "$"
        → matches v.as_text ≡ some regex
        → regex node ≡ true
        → Names node v
    by_list : Listed node v.listed → Names node v

  is_listed_sound :
      (node : Text) (ids : List Text) → is_listed matches node ids ≡ true → Listed node ids
  is_listed_sound node [] h = absurd (ground (arith, h))
  is_listed_sound node (id ∷ ids) h = elim (Text_discrete id node) [
    | yes same ↦ inl same
    | no ne ↦ inr (is_listed_sound node ids (ground (arith, h, ne)))
  ]

  is_listed_complete :
      (node : Text) (ids : List Text) → Listed node ids → is_listed matches node ids ≡ true
  is_listed_complete node [] h = absurd h
  is_listed_complete node (id ∷ ids) (inl same) = ground (arith, same)
  is_listed_complete node (id ∷ ids) (inr later) = ground (arith, is_listed_complete node ids later)

  has_prefix_sound : (t : Text) → has_prefix t 94 ≡ true → (inner : Text) × (t ≡ codes "^" ++ inner)
  unfolding has_prefix
  has_prefix_sound [] h = absurd (ground (arith, h))
  has_prefix_sound (x ∷ t) h = (t, ground (arith, h))

  is_regex_sound :
      (node : Text) (v : NodeIdValue)
      → is_regex_node_id matches node v.as_text ≡ true
      → Names node v
  is_regex_sound node v h = elim (Bool-cases (has_prefix v.as_text 94)) [
    | inr plain ↦ absurd (unfold is_regex_node_id in ground (arith, h, plain))
    | inl opened ↦ elim (Bool-cases (has_suffix v.as_text 36)) [
      | inr unclosed ↦ absurd (unfold is_regex_node_id in ground (arith, h, opened, unclosed))
      | inl closed ↦ elim (Option-cases (matches v.as_text)) [
        | inl bad ↦ absurd (unfold is_regex_node_id in ground (arith, h, opened, closed, bad))
        | inr (regex, good) ↦
            let (inner, front) = has_prefix_sound v.as_text opened in
            let (before, back) = has_suffix_sound v.as_text 36 closed in
            by_regex inner before regex front back good
              (unfold is_regex_node_id in ground (arith, h, opened, closed, good))
      ]
    ]
  ]

  is_regex_complete :
      (node t inner before : Text) (regex : Text → Bool)
      → t ≡ codes "^" ++ inner
      → t ≡ before ++ codes "$"
      → matches t ≡ some regex
      → regex node ≡ true
      → is_regex_node_id matches node t ≡ true
  is_regex_complete node t inner before regex front back good hit =
      let opened : has_prefix t 94 ≡ true = rw front (unfold has_prefix in refl) in
      let closed : has_suffix t 36 ≡ true = rw back (has_suffix-append before 36) in
      unfold is_regex_node_id in ground (arith, opened, closed, good, hit)

  find_node_id-Names :
      (node : Text) (v : NodeIdValue) → find_node_id matches node v ≡ true → Names node v
  find_node_id-Names node v h = elim (Text_discrete v.as_text node) [
    | yes same ↦ by_text same
    | no ne ↦ elim (Bool-cases (is_regex_node_id matches node v.as_text)) [
      | inl hit ↦ is_regex_sound node v hit
      | inr miss ↦
          by_list
            (is_listed_sound node v.listed (unfold find_node_id in ground (arith, h, ne, miss)))
    ]
  ]

  Names-find_node_id :
      (node : Text) (v : NodeIdValue) → Names node v → find_node_id matches node v ≡ true
  Names-find_node_id node v (by_text same) = unfold find_node_id in ground (arith, same)
  Names-find_node_id node v (by_regex inner before regex front back good hit) =
      let found = is_regex_complete node v.as_text inner before regex front back good hit in
      unfold find_node_id in ground (arith, found)
  Names-find_node_id node v (by_list there) =
      unfold find_node_id in ground (arith, is_listed_complete node v.listed there)

  -- This item names the node, and no item before it does.
  abbrev pub IsFirst : Text → NodeItem → List NodeItem → Type 0
  IsFirst node item items =
      (before after : List NodeItem) × (items ≡ before ++ item ∷ after)
      × All (λ i. ¬ Names node i.node_id) before
      × Names node item.node_id

  node_in_other :
      (node wanted type : Text) (items : List NodeItem)
      → type ≢ wanted
      → node_in matches node wanted type items ≡ none
  unfolding node_in
  node_in_other node wanted type [] ne = refl
  node_in_other node wanted type (item ∷ items) ne =
      ground (arith, ne, node_in_other node wanted type items ne)

  node_in_sound :
      (node wanted : Text) (items : List NodeItem) (n : Node)
      → node_in matches node wanted wanted items ≡ some n
      → (item : NodeItem) × IsFirst node item items × (n ≡ node_of matches node wanted item)
  unfolding node_in
  node_in_sound node wanted [] n h = absurd (ground (arith, h))
  node_in_sound node wanted (item ∷ items) n h =
      let rest = node_in_sound node wanted items n in
      elim (Bool-cases (find_node_id matches node item.node_id)) [
        | inl found ↦ (
          item,
          ([], items, refl, tt, find_node_id-Names node item.node_id found),
          ground (arith, h, found),
        )
        | inr skipped ↦
            let (chosen, (before, after, split, none_before, found), same) =
              rest (ground (arith, h, skipped)) in
            (
              chosen,
              (
                item ∷ before,
                after,
                rw split refl,
                (
                  (λ named.
                      absurd (ground (arith, skipped, Names-find_node_id node item.node_id named))),
                  none_before,
                ),
                found,
              ),
              same,
            )
      ]

  node_in_complete :
      (node wanted : Text) (before after : List NodeItem) (item : NodeItem)
      → All (λ i. ¬ Names node i.node_id) before
      → Names node item.node_id
      → node_in matches node wanted wanted (before ++ item ∷ after)
        ≡ some (node_of matches node wanted item)
  unfolding node_in
  node_in_complete node wanted [] after item h found =
      ground (arith, Names-find_node_id node item.node_id found)
  node_in_complete node wanted (i ∷ before) after item h found =
      let rest = node_in_complete node wanted before after item h.1 found in
      elim (Bool-cases (find_node_id matches node i.node_id)) [
        | inl named ↦ absurd (h.0 (find_node_id-Names node i.node_id named))
        | inr other ↦ ground (arith, other, rest)
      ]

  abbrev in_items : Text → Text → Option (List NodeItem) → Option Node
  in_items node wanted none = none
  in_items node wanted (some items) = node_in matches node wanted wanted items

  node_among-lookup :
      (node wanted : Text) (p : Profile)
      → Distinct Text_discrete p
      → node_among matches node wanted p ≡ in_items node wanted (lookup Text_discrete wanted p)
  unfolding node_among lookup
  node_among-lookup node wanted [] d = refl
  node_among-lookup node wanted ((type, items) ∷ p) d = elim (Text_discrete type wanted) [
    | yes same ↦
        let absent : lookup Text_discrete wanted p ≡ none = ground (arith, d.0, same) in
        let rest : node_among matches node wanted p ≡ none =
          ground (arith, node_among-lookup node wanted p d.1, absent) in
        elim (Option-cases (node_in matches node wanted wanted items)) [
          | inl none_in ↦ ground (arith, same, none_in, rest)
          | inr (n, there) ↦ ground (arith, same, there)
        ]
    | no ne ↦
        ground
          (arith, ne, node_in_other node wanted type items ne, node_among-lookup node wanted p d.1)
  ]

  -- GetNodeWithConfig gives a node exactly if the profile has items of that type and one of them names
  -- the node id, by its text, by a regular expression from ^ to $ that compiles and matches, or in its
  -- list, and none before it does; the node then has the id and type asked
  -- for and the fields of the first such item. Each type stands once in the profile.
  pub get_node_with_config_iff :
      (p : Profile) (node wanted : Text) (n : Node)
      → Distinct Text_discrete p
      → (get_node_with_config matches (some p) node wanted ≡ some n) ↔ (
          (items : List NodeItem) × (item : NodeItem) × (lookup Text_discrete wanted p ≡ some items)
          × IsFirst node item items
          × (n ≡ node_of matches node wanted item))
  unfolding get_node_with_config
  get_node_with_config_iff p node wanted n d = (
    λ h. elim (Option-cases (lookup Text_discrete wanted p)) [
      | inl absent ↦ absurd (ground (arith, h, absent, node_among-lookup node wanted p d))
      | inr (items, there) ↦
          let (item, first, same) =
            node_in_sound node wanted items n
              (ground (arith, h, there, node_among-lookup node wanted p d)) in
          (items, item, there, first, same)
    ],
    λ (items, item, there, (before, after, split, none_before, found), same).
        let chosen = node_in_complete node wanted before after item none_before found in
        let through : node_in matches node wanted wanted items ≡ some n =
          rw split (rw same chosen) in
        ground (arith, there, through, node_among-lookup node wanted p d),
  )
