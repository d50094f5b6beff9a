-- ===== src/Serializer/Stable.antt =====
-- A codec's id is a value on the wire: what stays fixed while codecs are registered.
use actorgo.Common.{
  ◌≡◌, ◌≢◌, refl, ◌∙◌, ap, ◌⊎◌, inl, inr, Option, none, some, List, [], ◌∷◌, Text_discrete, arith,
  Option-cases, Bool-cases, subst,
}
use actorgo.Common.Int.{ℤ, pos, eq_ℤ, ℤ_discrete}
use actorgo.Common.Dict.{lookup, lookup-insert}
use actorgo.Proto.Packet.{codec_protobuf}
use actorgo.Serializer.{
  BodyCodec, CodecRegistry, install_codec, register_codec, lookup_codec, set_default, register_all,
  new_registry,
}

module _ {V : Type 0} where
  -- Any number of Registers and SetDefaults, with or without success.
  pub data Operations (r : CodecRegistry V) : CodecRegistry V → Type 0 where
    no_operation : Operations r r
    then_register :
        {s : CodecRegistry V} (c : Option (BodyCodec V))
        → Operations r s
        → Operations r (register_codec s c).0
    then_set_default :
        {s : CodecRegistry V} (id : ℤ) → Operations r s → Operations r (set_default s id).0

  -- The default is registered, or it is 0 since there is none.
  abbrev pub IsDefaulted : CodecRegistry V → Type 0
  IsDefaulted r =
      ((c : BodyCodec V) × (lookup_codec r r.default_id ≡ some c)) ⊎ (r.default_id ≡ pos 0)

  -- Every id keeps its name.
  abbrev pub Keeps : CodecRegistry V → CodecRegistry V → Type 0
  Keeps r s =
      (id : ℤ) (c : BodyCodec V)
      → lookup_codec r id ≡ some c
      → (d : BodyCodec V) × (lookup_codec s id ≡ some d) × (d.name ≡ c.name)

  install_codec-Keeps :
      (r : CodecRegistry V) (c : BodyCodec V)
      → ((d : BodyCodec V) → lookup_codec r c.id ≡ some d → d.name ≡ c.name)
      → Keeps r (install_codec r c)
  unfolding install_codec lookup_codec
  install_codec-Keeps r c same id d there = elim (ℤ_discrete c.id id) [
    | yes eq ↦ (
      c,
      ground (arith, lookup-insert ℤ_discrete id c.id c r.registered),
      ground (arith, same d, eq, there),
    )
    | no ne ↦ (d, ground (arith, lookup-insert ℤ_discrete id c.id c r.registered, there), refl)
  ]

  register_codec_cases :
      (r : CodecRegistry V) (c : Option (BodyCodec V))
      → ((register_codec r c).0 ≡ r)
        ⊎ ((d : BodyCodec V) × (c ≡ some d)
            × (d.id ≢ pos 0)
            × ((register_codec r c).0 ≡ install_codec r d)
            × ((e : BodyCodec V) → lookup_codec r d.id ≡ some e → e.name ≡ d.name))
  unfolding register_codec lookup_codec
  register_codec_cases r none = inl refl
  register_codec_cases r (some c) = elim (Bool-cases (eq_ℤ c.id (pos 0))) [
    | inl bad ↦ inl (ground arith)
    | inr fine ↦ elim (Option-cases (lookup ℤ_discrete c.id r.registered)) [
      | inl free ↦
          inr (c, refl, (λ q. ground (arith, fine, q)), ground arith, (λ e h. ground arith))
      | inr (d, there) ↦ elim (Text_discrete d.name c.name) [
        | no other ↦ inl (ground arith)
        | yes same ↦ inr (
          c,
          refl,
          (λ q. ground (arith, fine, q)),
          ground arith,
          (λ e h. ground (arith, same, there, h)),
        )
      ]
    ]
  ]

  Operations-Keeps : {r s : CodecRegistry V} → Operations r s → Keeps r s
  Operations-Keeps no_operation id c there = (c, there, refl)
  Operations-Keeps (then_register {s} c o) id d there =
      let (e, was, name) = Operations-Keeps o id d there in
      elim (register_codec_cases s c) [
        | inl same ↦ rw same (e, was, name)
        | inr (f, is, nonzero, new, agrees) ↦
            let k = install_codec-Keeps s f agrees id e was in rw new (k.0, k.1, k.2 ∙ name)
      ]
  Operations-Keeps (then_set_default {s} id' o) id d there =
      let k = Operations-Keeps o id d there in (k.0, default_keeps s id' id k.0 k.1, k.2)
    where
      default_keeps :
          (s : CodecRegistry V) (id' id : ℤ) (c : BodyCodec V)
          → lookup_codec s id ≡ some c
          → lookup_codec (set_default s id').0 id ≡ some c
      default_keeps s id' id c there = unfold set_default lookup_codec in ground (arith, there)

  install_codec-IsDefaulted :
      (r : CodecRegistry V) (c : BodyCodec V)
      → Keeps r (install_codec r c)
      → IsDefaulted r
      → IsDefaulted (install_codec r c)
  install_codec-IsDefaulted r c keeps known = elim (Bool-cases (eq_ℤ r.default_id (pos 0))) [
    | inl unset ↦ inl (
      c,
      unfold install_codec lookup_codec in
          ground (arith, unset, lookup-insert ℤ_discrete c.id c.id c r.registered),
    )
    | inr set ↦ elim known [
      | inr zero' ↦ absurd (ground (arith, zero', set))
      | inl (d, there) ↦
          let k = keeps r.default_id d there in
          let same : (install_codec r c).default_id ≡ r.default_id =
            unfold install_codec in ground (arith, set) in
          inl (k.0, ap (lookup_codec (install_codec r c)) same ∙ k.1)
    ]
  ]

  register_codec-IsDefaulted :
      (r : CodecRegistry V) (c : Option (BodyCodec V))
      → IsDefaulted r
      → IsDefaulted (register_codec r c).0
  register_codec-IsDefaulted r c known = elim (register_codec_cases r c) [
    | inl same ↦ rw same known
    | inr (d, is, nonzero, new, agrees) ↦
        rw new (install_codec-IsDefaulted r d (install_codec-Keeps r d agrees) known)
  ]

  set_default-IsDefaulted :
      (r : CodecRegistry V) (id : ℤ) → IsDefaulted r → IsDefaulted (set_default r id).0
  set_default-IsDefaulted r id known = elim (Option-cases (lookup_codec r id)) [
    | inl gone ↦
        let same : (set_default r id).0 ≡ r = unfold set_default in ground (arith, gone) in
        rw same known
    | inr (c, there) ↦ inl (c, unfold set_default lookup_codec in ground (arith, there))
  ]

  Operations-IsDefaulted : {r s : CodecRegistry V} → Operations r s → IsDefaulted r → IsDefaulted s
  Operations-IsDefaulted no_operation known = known
  Operations-IsDefaulted (then_register {s} c o) known =
      register_codec-IsDefaulted s c (Operations-IsDefaulted o known)
  Operations-IsDefaulted (then_set_default {s} id o) known =
      set_default-IsDefaulted s id (Operations-IsDefaulted o known)

  register_all-IsDefaulted :
      (cs : List (Option (BodyCodec V))) (r s : CodecRegistry V)
      → register_all r cs ≡ some s
      → IsDefaulted r
      → IsDefaulted s
  unfolding register_all
  register_all-IsDefaulted [] r s h known = subst IsDefaulted (ground arith) known
  register_all-IsDefaulted (c ∷ cs) r s h known =
      register_all-IsDefaulted cs (register_codec r c).0 s (ground arith)
        (register_codec-IsDefaulted r c known)

  new_registry-IsDefaulted :
      (cs : List (Option (BodyCodec V))) (r : CodecRegistry V)
      → new_registry cs ≡ some r
      → IsDefaulted r
  new_registry-IsDefaulted cs r h =
      let start : CodecRegistry V = record { registered = []; default_id = pos 0 } in
      elim (Option-cases (register_all start cs)) [
        | inl failed ↦ absurd (unfold new_registry in ground arith)
        | inr (s, made) ↦
            let known = register_all-IsDefaulted cs start s made (inr refl) in
            elim (Option-cases (lookup_codec s codec_protobuf)) [
              | inl no_protobuf ↦
                  let same : s ≡ r = unfold new_registry in ground arith in
                  subst IsDefaulted same known
              | inr (c, there) ↦
                  let same : record s { default_id = codec_protobuf } ≡ r =
                    unfold new_registry in ground arith in
                  subst IsDefaulted same (inl (c, unfold lookup_codec in ground (arith, there)))
            ]
      ]

  -- From a registry that NewRegistry has made, no Register and no SetDefault, with or without
  -- success, takes a codec id away or gives it to a codec of another name, and the default stays a
  -- codec that is registered, or 0.
  pub Operations-stable :
      (cs : List (Option (BodyCodec V))) (r s : CodecRegistry V)
      → new_registry cs ≡ some r
      → Operations r s
      → Keeps r s × IsDefaulted s
  Operations-stable cs r s made o =
      (Operations-Keeps o, Operations-IsDefaulted o (new_registry-IsDefaulted cs r made))
