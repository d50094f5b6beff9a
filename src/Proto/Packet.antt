-- ===== src/Proto/Packet.antt =====
-- The AGP messages of net/proto/agp.proto as net/proto/agp.pb.go declares them: a packet is one of
-- three kinds with metadata and a body codec. A pointer that may be nil is an option.
use actorgo.Common.{ℕ, Text, Bytes, Option, List}
use actorgo.Common.Int.{ℤ, pos}

pub record Request : Type 0 where
  pub request_id : ℕ
  pub method_id : ℕ
  pub timeout_ms : ℕ
  pub body : Bytes

pub record Response : Type 0 where
  pub request_id : ℕ
  pub code : ℤ
  pub message : Text
  pub body : Bytes

pub record Notify : Type 0 where
  pub method_id : ℕ
  pub body : Bytes

-- The oneof `kind`.
pub data Kind : Type 0 where
  request : Option Request → Kind
  response : Option Response → Kind
  notify : Option Notify → Kind

abbrev pub Metadata : Type 0
Metadata = List (Text × Bytes)

pub record Packet : Type 0 where
  pub kind : Option Kind
  pub metadata : Metadata
  pub codec : ℤ

-- The method ids that connection control reserves.
abbrev pub system_method_handshake : ℕ
system_method_handshake = 1

abbrev pub system_method_heartbeat : ℕ
system_method_heartbeat = 2

abbrev pub system_method_cancel : ℕ
system_method_cancel = 3

abbrev pub system_method_go_away : ℕ
system_method_go_away = 4

abbrev pub system_method_kick : ℕ
system_method_kick = 5

abbrev pub codec_protobuf : ℤ
codec_protobuf = pos 1

abbrev pub codec_json : ℤ
codec_json = pos 2
