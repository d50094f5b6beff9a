-- ===== src/Cluster/Message.antt =====
-- ClusterMessage of net/proto/cluster_message.proto, and validateMessage and messageContext of
-- net/cluster/nats_cluster/cluster.go. The enum of message types is open, a number.
use mathlib.Core.List.{Permᴰ}
use actorgo.Common.{
  ℕ, suc, ◌*◌, ◌-◌, ◌^◌, ◌≡◌, ◌⊎◌, inl, inr, ◌↔◌, ◌<◌, ◌==◌, ◌||◌, ◌&&◌, not, Option, none, some,
  [], Text, Text_discrete, Bytes, if◌then◌else◌, holds, is_some, arith, Option-cases,
}
use actorgo.Common.Int.{ℤ, pos, negsuc, eq_ℤ, ltb_ℤ, eq_ℤ_eq}
use actorgo.Facade.Path.{ActorPath, to_actor_path}
use actorgo.Proto.Packet.{Metadata, codec_json, codec_protobuf}
use actorgo.Parser.Connection.State.{Session}
use actorgo.Method.Table.{msg_type_request, msg_type_notify}

pub record ClusterMessage : Type 0 where
  pub message_id : ℕ
  pub msg_type : ℤ
  pub request_id : ℕ
  pub method_id : ℕ
  pub target_path : Text
  pub metadata : Metadata
  pub codec : ℤ
  pub deadline_unix_ms : ℤ
  pub session : Option Session
  pub payload : Bytes
  pub code : ℤ
  pub message : Text

-- The same session and message up to the order of the entries of their maps, which protobuf and Go do
-- not keep.
pub record IsSameSession (s t : Session) : Type 0 where
  pub sid : t.sid ≡ s.sid
  pub uid : t.uid ≡ s.uid
  pub ip : t.ip ≡ s.ip
  pub entries : Permᴰ s.session_data t.session_data

abbrev pub SameSessions : Option Session → Option Session → Type 0
SameSessions none o = o ≡ none
SameSessions (some s) o = (t : Session) × (o ≡ some t) × IsSameSession s t

pub record IsSameMessage (m n : ClusterMessage) : Type 0 where
  pub message_id : n.message_id ≡ m.message_id
  pub msg_type : n.msg_type ≡ m.msg_type
  pub request_id : n.request_id ≡ m.request_id
  pub method_id : n.method_id ≡ m.method_id
  pub target_path : n.target_path ≡ m.target_path
  pub metadata : Permᴰ m.metadata n.metadata
  pub codec : n.codec ≡ m.codec
  pub deadline_unix_ms : n.deadline_unix_ms ≡ m.deadline_unix_ms
  pub session : SameSessions m.session n.session
  pub payload : n.payload ≡ m.payload
  pub code : n.code ≡ m.code
  pub message : n.message ≡ m.message

abbrev pub msg_type_response : ℤ
msg_type_response = pos 1

pub data MessageError : Type 0 where
  message_is_nil ids_required invalid_target invalid_type unsupported_codec : MessageError

check_type : ClusterMessage → Option MessageError
check_type m =
    if not (eq_ℤ m.msg_type msg_type_request) && not (eq_ℤ m.msg_type msg_type_notify)
    then some invalid_type
    else (if not (eq_ℤ m.codec codec_json) && not (eq_ℤ m.codec codec_protobuf)
        then some unsupported_codec
        else none)

check_target : ClusterMessage → Option MessageError
unfolding check_type Text_discrete
check_target m =
    if not (holds (Text_discrete m.target_path [])) && not (is_some (to_actor_path m.target_path))
    then some invalid_target
    else check_type m

unfoldable pub validate_message : Option ClusterMessage → Option MessageError
unfolding check_target
validate_message none = some message_is_nil
validate_message (some m) =
    if (m.message_id == 0) || (m.method_id == 0) then some ids_required else check_target m

-- time.UnixMilli
abbrev pub unix_milli : ℤ → ℤ
unix_milli (pos ms) = pos (ms * 10 ^ 6)
unix_milli (negsuc ms) = negsuc (suc ms * 10 ^ 6 - 1)

-- RequestContext as messageContext fills it; the deadline is a time.Time, in nanoseconds since 1970,
-- where there is one.
pub record ClusterContext : Type 0 where
  pub request_id : ℕ
  pub codec : ℤ
  pub metadata : Metadata
  pub session : Option Session
  pub deadline : Option ℤ

unfoldable pub message_context : ClusterMessage → ClusterContext
message_context m = record {
  request_id = m.request_id;
  codec = m.codec;
  metadata = m.metadata;
  session = m.session;
  deadline =
      if ltb_ℤ (pos 0) m.deadline_unix_ms then some (unix_milli m.deadline_unix_ms) else none;
}

-- A message that another node may be asked to serve.
pub record IsSendable (m : ClusterMessage) : Type 0 where
  pub numbered : 0 < m.message_id
  pub addressed : 0 < m.method_id
  pub reachable :
      (m.target_path ≡ []) ⊎ ((path : ActorPath) × (to_actor_path m.target_path ≡ some path))
  pub outbound : (m.msg_type ≡ msg_type_request) ⊎ (m.msg_type ≡ msg_type_notify)
  pub encoded : (m.codec ≡ codec_json) ⊎ (m.codec ≡ codec_protobuf)

validate_message-IsSendable : (m : ClusterMessage) → validate_message (some m) ≡ none → IsSendable m
unfolding validate_message
validate_message-IsSendable m h = record {
  numbered = ground arith;
  addressed = ground arith;
  reachable = elim (Option-cases (to_actor_path m.target_path)) [
    | inl bad ↦ inl (ground arith)
    | inr (path, good) ↦ inr (path, good)
  ];
  outbound =
      ground (arith, eq_ℤ_eq m.msg_type msg_type_request, eq_ℤ_eq m.msg_type msg_type_notify);
  encoded = ground (arith, eq_ℤ_eq m.codec codec_json, eq_ℤ_eq m.codec codec_protobuf);
}

IsSendable-validate_message : (m : ClusterMessage) → IsSendable m → validate_message (some m) ≡ none
unfolding validate_message
IsSendable-validate_message m s =
    ground (arith, s.numbered, s.addressed, s.reachable, s.outbound, s.encoded)

-- A message passes exactly if it has ids, a target that is empty or parses, the type of a request or
-- of a notification, and one of the two codecs.
pub validate_message_iff : (m : ClusterMessage) → (validate_message (some m) ≡ none) ↔ IsSendable m
validate_message_iff m = (validate_message-IsSendable m, IsSendable-validate_message m)
