-- ===== src/Serializer/Tests.antt =====
-- The two codecs of an application.
use actorgo.Common.{ℕ, ◌≡◌, refl, none, some, [], ◌∷◌, codes}
use actorgo.Common.Int.{ℤ_discrete}
use actorgo.Common.Dict.{lookup, insert}
use actorgo.Proto.Packet.{codec_json, codec_protobuf}
use actorgo.Serializer.{BodyCodec, CodecRegistry, new_registry, register_codec, lookup_codec}
use actorgo.Serializer.Stable.{no_operation, then_register, Keeps, IsDefaulted, Operations-stable}

abbrev protobuf : BodyCodec ℕ
protobuf = record {
  id = codec_protobuf;
  name = codes "protobuf";
  marshal_value = λ n. some (n ∷ []);
  unmarshal_value = λ b. none;
}

abbrev json : BodyCodec ℕ
json = record {
  id = codec_json;
  name = codes "json";
  marshal_value = λ n. some (n ∷ []);
  unmarshal_value = λ b. none;
}

abbrev registry : CodecRegistry ℕ
registry = record {
  registered = (codec_protobuf, protobuf) ∷ (codec_json, json) ∷ [];
  default_id = codec_protobuf;
}

registry_made : new_registry (some protobuf ∷ some json ∷ []) ≡ some registry
unfolding new_registry lookup_codec register_codec lookup insert ℤ_discrete
registry_made = refl

-- A codec of another name under the id of JSON is refused.
abbrev other : BodyCodec ℕ
other = record json { name = codes "xml" }

Operations-stable_example :
    Keeps registry (register_codec registry (some other)).0
    × IsDefaulted (register_codec registry (some other)).0
Operations-stable_example =
    Operations-stable (some protobuf ∷ some json ∷ []) registry
      (register_codec registry (some other)).0 registry_made
      (then_register (some other) no_operation)
