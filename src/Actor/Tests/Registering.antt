-- ===== src/Actor/Tests/Registering.antt =====
-- A top-level actor that registers one method in its OnInit.
use actorgo.Common.{ℕ, ◌≡◌, refl, true, false, Text_discrete, some, [], codes}
use actorgo.Common.Dict.{lookup}
use actorgo.Facade.Path.{new_actor_path, is_parent, path_string}
use actorgo.Proto.Packet.{codec_json}
use actorgo.Method.Table.{new_table, msg_type_request}
use actorgo.Method.Invoker.{GoType, Adapted, adapted}
use actorgo.Actor.Mailbox.{
  MethodEntry, Owner, Registry, init_state, new_mailbox, register_method, get_method, BodyCodecs,
}
use actorgo.Actor.Mailbox.Registering.{IsPublished, register_method-IsPublished}

abbrev pub request_type : GoType
request_type = record { ident = 2; is_pointer = true; is_message = true }

abbrev pub unary_handler : Adapted
unary_handler = record {
  msg_type = msg_type_request;
  request_type = request_type;
  protobuf = true;
  unary = true;
}

abbrev map_owner : Owner
map_owner = record { path = new_actor_path (codes "game") (codes "map") []; state = init_state }

abbrev registry : Registry ℕ
registry = record { mailbox = new_mailbox (codes "mail"); table = some new_table }

top_level : is_parent map_owner.path ≡ true
unfolding is_parent Text_discrete
top_level = refl

registry-IsPublished : IsPublished registry (path_string map_owner.path)
unfolding new_mailbox get_method lookup
registry-IsPublished = (new_table, refl, λ method e h. absurd (cc))

register_method-IsPublished_example :
    IsPublished
      (register_method registry (some map_owner) 40 (some (9, adapted unary_handler))).0
      (path_string map_owner.path)
register_method-IsPublished_example =
    register_method-IsPublished registry map_owner 40 (some (9, adapted unary_handler)) top_level
      registry-IsPublished

abbrev length_codecs : BodyCodecs ℕ
length_codecs = record { default_codec = codec_json; unmarshal = λ codec body t. some 3 }

abbrev json_entry : MethodEntry ℕ
json_entry = record { invoke = 9; request_type = some request_type; supports_protobuf = false }
