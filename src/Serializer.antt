-- ===== src/Serializer.antt =====
-- Registry of net/serializer/registry.go: the body codecs by their id. A codec is its id, its name
-- and its two functions. The locks make each operation one step.
pub mod Stable
mod Tests
use actorgo.Common.{
  ℕ, Bool, true, false, Option, none, some, List, [], ◌∷◌, Text, Text_discrete, Bytes,
  if◌then◌else◌, holds, is_some, not,
}
use actorgo.Common.Int.{ℤ, pos, eq_ℤ, ℤ_discrete}
use actorgo.Common.Dict.{lookup, insert}
use actorgo.Proto.Packet.{codec_protobuf}

pub record BodyCodec (V : Type 0) : Type 0 where
  pub id : ℤ
  pub name : Text
  pub marshal_value : V → Option Bytes
  pub unmarshal_value : Bytes → Option V

pub record CodecRegistry (V : Type 0) : Type 0 where
  pub registered : List (ℤ × BodyCodec V)
  pub default_id : ℤ

module _ {V : Type 0} where
  install_codec : CodecRegistry V → BodyCodec V → CodecRegistry V
  install_codec r c = record {
    registered = insert ℤ_discrete c.id c r.registered;
    default_id = if eq_ℤ r.default_id (pos 0) then c.id else r.default_id;
  }

  register_over : CodecRegistry V → BodyCodec V → Option (BodyCodec V) → CodecRegistry V × Bool
  unfolding install_codec
  register_over r c none = (install_codec r c, true)
  register_over r c (some current) =
      if holds (Text_discrete current.name c.name) then (install_codec r c, true) else (r, false)

  -- Register; the Boolean says that there is no error.
  unfoldable pub register_codec : CodecRegistry V → Option (BodyCodec V) → CodecRegistry V × Bool
  unfolding register_over
  register_codec r none = (r, false)
  register_codec r (some c) =
      if eq_ℤ c.id (pos 0)
      then (r, false)
      else register_over r c (lookup ℤ_discrete c.id r.registered)

  unfoldable pub lookup_codec : CodecRegistry V → ℤ → Option (BodyCodec V)
  lookup_codec r id = lookup ℤ_discrete id r.registered

  unfoldable pub set_default : CodecRegistry V → ℤ → CodecRegistry V × Bool
  unfolding lookup_codec
  set_default r id =
      if is_some (lookup_codec r id) then (record r { default_id = id }, true) else (r, false)

  register_all : CodecRegistry V → List (Option (BodyCodec V)) → Option (CodecRegistry V)
  unfolding register_codec
  register_all r [] = some r
  register_all r (c ∷ cs) =
      let (r', fine) = register_codec r c in
      let rest = register_all r' cs in if fine then rest else none

  -- NewRegistry: no registry where a codec is refused, which panics.
  unfoldable pub new_registry : List (Option (BodyCodec V)) → Option (CodecRegistry V)
  unfolding register_all lookup_codec
  new_registry cs = elim (register_all (record { registered = []; default_id = pos 0 }) cs) [
    | none ↦ none
    | some r ↦ some (
        if is_some (lookup_codec r codec_protobuf)
        then record r { default_id = codec_protobuf }
        else r)
  ]

  unfoldable pub marshal_body : CodecRegistry V → ℤ → V → Option Bytes
  unfolding lookup_codec
  marshal_body r id v = elim (lookup_codec r id) [ none ↦ none | some c ↦ c.marshal_value v ]

  unfoldable pub unmarshal_body : CodecRegistry V → ℤ → Bytes → Option V
  unfolding lookup_codec
  unmarshal_body r id bytes = elim (lookup_codec r id) [
    | none ↦ none
    | some c ↦ c.unmarshal_value bytes
  ]
