-- ===== src/Actor/Mailbox.antt =====
-- The mailbox of net/actor/actor_mailbox.go: its handlers by method, and how it decodes a body. Its
-- queue is `Actor.Queue`. A panic is a value, and nothing is changed by it. `H` is what a handler
-- keeps to be called; the body codecs are a parameter.
pub mod Registering
pub mod Extending
use actorgo.Common.{
  ℕ, ◌&&◌, ◌||◌, not, Bool, true, false, Option, none, some, List, [], ◌∷◌, ◌++◌, Text, Bytes,
  codes, ◌==◌, if◌then◌else◌, is_some, ℕ_discrete,
}
use actorgo.Common.Int.{ℤ, pos, eq_ℤ}
use actorgo.Common.Dict.{lookup, insert}
use actorgo.Facade.Path.{ActorPath, is_parent, path_string}
use actorgo.Facade.Result.{
  InvokeResult, Payload, nil, raw, value, error_result, status_internal, status_unsupported_media,
  status_invalid_argument,
}
use actorgo.Proto.Packet.{codec_json, codec_protobuf}
use actorgo.Method.Table.{Table, RegisterError, register}
use actorgo.Method.Invoker.{GoType, AdaptError, Adapted, AdaptResult, adapted, refused}

pub data ActorState : Type 0 where
  init_state worker_state stop_state : ActorState

abbrev pub is_init : ActorState → Bool
is_init init_state = true
is_init worker_state = false
is_init stop_state = false

pub record MethodEntry (H : Type 0) : Type 0 where
  pub invoke : H
  pub request_type : Option GoType
  pub supports_protobuf : Bool

pub record Mailbox (H : Type 0) : Type 0 where
  pub name : Text
  pub method_map : List (ℕ × MethodEntry H)

-- What Register reads of the actor that owns the mailbox.
pub record Owner : Type 0 where
  pub path : ActorPath
  pub state : ActorState

pub data Panic : Type 0 where
  missing_argument already_in_mailbox no_method_table not_in_init : Panic
  bad_handler : AdaptError → Panic
  not_registered : RegisterError → Panic

-- The mailbox and the method table of the application.
pub record Registry (H : Type 0) : Type 0 where
  pub mailbox : Mailbox H
  pub table : Option Table

module _ {H : Type 0} where
  unfoldable pub new_mailbox : Text → Mailbox H
  new_mailbox name = record { name = name; method_map = [] }

  unfoldable pub install : Mailbox H → ℕ → H → Adapted → Mailbox H
  install m method h a = record m {
    method_map =
        insert ℕ_discrete method
          (record {
            invoke = h;
            request_type = some a.request_type;
            supports_protobuf = a.protobuf;
          })
          m.method_map;
  }

  publish_result :
      Registry H → ℕ → H → Adapted → Table × Option RegisterError → Registry H × Option Panic
  publish_result r method h a (t, some e) = (r, some (not_registered e))
  publish_result r method h a (t, none) =
      (record { mailbox = install r.mailbox method h a; table = some t }, none)

  pub publish : Registry H → Owner → ℕ → H → Adapted → Option Table → Registry H × Option Panic
  unfolding publish_result
  publish r owner method h a none = (r, some no_method_table)
  publish r owner method h a (some t) =
      publish_result r method h a (register t method (path_string owner.path) a.msg_type)

  register_adapted : Registry H → Option Owner → ℕ → H → AdaptResult → Registry H × Option Panic
  unfolding publish
  register_adapted r owner method h (refused e) = (r, some (bad_handler e))
  register_adapted r none method h (adapted a) = (r, some no_method_table)
  register_adapted r (some owner) method h (adapted a) =
      if not (is_init owner.state)
      then (r, some not_in_init)
      else (if is_parent owner.path
          then publish r owner method h a r.table
          else (record r { mailbox = install r.mailbox method h a }, none))

  -- mailbox.Register. A handler that is nil is `none`; what it adapts to stands beside it.
  unfoldable pub register_method :
      Registry H → Option Owner → ℕ → Option (H × AdaptResult) → Registry H × Option Panic
  unfolding register_adapted
  register_method r owner method none = (r, some missing_argument)
  register_method r owner method (some (h, a)) =
      if method == 0
      then (r, some missing_argument)
      else (if is_some (lookup ℕ_discrete method r.mailbox.method_map)
          then (r, some already_in_mailbox)
          else register_adapted r owner method h a)

  unfoldable pub get_method : Mailbox H → ℕ → Option (MethodEntry H)
  get_method m method = lookup ℕ_discrete method m.method_map

-- The application's codecs: the default one, and how each reads a body into a request.
pub record BodyCodecs (V : Type 0) : Type 0 where
  pub default_codec : ℤ
  pub unmarshal : ℤ → Bytes → GoType → Option V

pub data Decoded (V : Type 0) : Type 0 where
  decoded : Payload V → Decoded V
  decode_failed : InvokeResult V → Decoded V

-- if codec == 0 { codec = default }, where the application is there.
abbrev pub codec_or_default : {V : Type 0} → Option (BodyCodecs V) → ℤ → ℤ
codec_or_default none codec = codec
codec_or_default (some codecs') codec = if eq_ℤ codec (pos 0) then codecs'.default_codec else codec

module _ {V : Type 0} where
  decoded_request : Option V → Decoded V
  decoded_request none =
      decode_failed (error_result status_invalid_argument (codes "request body decode failed: "))
  decoded_request (some v) = decoded (value v)

  decode_with : Option (BodyCodecs V) → ℤ → Bytes → GoType → Decoded V
  unfolding decoded_request
  decode_with none codec body t =
      decode_failed (error_result status_internal (codes "body codecs are not initialized"))
  decode_with (some codecs') codec body t = decoded_request (codecs'.unmarshal codec body t)

  decode_body : Option (BodyCodecs V) → ℤ → Bool → Bytes → Option GoType → Decoded V
  unfolding decode_with
  decode_body codecs' codec protobuf body none =
      decode_failed (error_result status_internal (codes "actor method request type missing"))
  decode_body codecs' codec protobuf body (some t) =
      if not (eq_ℤ codec codec_json) && (not (eq_ℤ codec codec_protobuf) || not protobuf)
      then decode_failed
          (error_result status_unsupported_media (codes "method does not support body codec"))
      else decode_with codecs' codec body t

  -- mailbox.decodePayload. A payload that is not a byte slice is passed on; the codec of a context
  -- that is nil is 0. The messages do not carry the number of the codec or the decoder's error.
  unfoldable pub decode_payload :
      {H : Type 0} → Option (BodyCodecs V) → ℤ → MethodEntry H → Payload V → Decoded V
  unfolding decode_body
  decode_payload codecs' codec entry nil = decoded nil
  decode_payload codecs' codec entry (value v) = decoded (value v)
  decode_payload codecs' codec entry (raw body) =
      decode_body codecs' (codec_or_default codecs' codec) entry.supports_protobuf body
        entry.request_type
