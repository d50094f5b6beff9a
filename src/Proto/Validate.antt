-- ===== src/Proto/Validate.antt =====
-- ValidatePacket of net/proto/agp_validator.go. The list order of the metadata is the order in
-- which Go ranges over the map; `none` is the nil error.
pub mod Spec
use mathlib.Core.List.Permᴰ
use actorgo.Common.{
  ℕ, zero, suc, ◌+◌, ◌≤◌, ◌<◌, ◌≡◌, refl, ◌≢◌, ◌⊎◌, inl, inr, Bool, true, false, ◌&&◌, ◌||◌, not,
  Option, none, some, List, [], ◌∷◌, arith, ◌==◌, if◌then◌else◌, length, Text, Bytes, Bool-cases,
}
use actorgo.Common.Int.{ℤ, pos, negsuc, ltb_ℤ, eq_ℤ, ◌≤ℤ◌, pos_part, neg_part}
use actorgo.Proto.Limits.{Limits, normalize_limits, IsNormal}
use actorgo.Proto.Packet.{
  Packet, Kind, request, response, notify, Request, Response, Notify, Metadata, codec_protobuf,
  codec_json,
}

pub data AgpError : Type 0 where
  packet_nil kind_missing unsupported_codec request_ids response_id notify_id : AgpError
  body_too_large too_many_metadata bad_key_length value_too_large metadata_too_large : AgpError
  marshal_failed unmarshal_failed encoded_too_large bad_packet_size : AgpError

pub data Checked (A : Type 0) : Type 0 where
  ok : A → Checked A
  err : AgpError → Checked A

-- switch kind := packet.Kind.(type): the body, or the error of a zero id.
unfoldable pub kind_body : Kind → Checked Bytes
kind_body (request none) = err request_ids
kind_body (request (some r)) =
    if r.request_id == 0 || r.method_id == 0 then err request_ids else ok r.body
kind_body (response none) = err response_id
kind_body (response (some r)) = if r.request_id == 0 then err response_id else ok r.body
kind_body (notify none) = err notify_id
kind_body (notify (some n)) = if n.method_id == 0 then err notify_id else ok n.body

-- The range loop, with the size that it has summed up; the check after it.
unfoldable pub check_metadata : Limits → Metadata → ℕ → Option AgpError
check_metadata l [] size =
    if ltb_ℤ l.max_metadata_size (pos size) then some metadata_too_large else none
check_metadata l ((key, value) ∷ m) size =
    if length key == 0 || ltb_ℤ l.max_metadata_key (pos (length key))
    then some bad_key_length
    else (if ltb_ℤ l.max_metadata_value (pos (length value))
        then some value_too_large
        else check_metadata l m (size + (length key + length value)))

unfoldable pub check_sizes : Limits → Bytes → Metadata → Option AgpError
check_sizes l body m =
    if ltb_ℤ l.max_body_size (pos (length body))
    then some body_too_large
    else (if ltb_ℤ l.max_metadata_keys (pos (length m))
        then some too_many_metadata
        else check_metadata l m 0)

abbrev pub check_kind : Limits → Metadata → Checked Bytes → Option AgpError
check_kind l m (err e) = some e
check_kind l m (ok body) = check_sizes l body m

-- The checks behind the nil test, at normalized limits.
unfoldable pub check_packet : Limits → ℤ → Metadata → Option Kind → Option AgpError
unfolding kind_body check_sizes check_metadata
check_packet l codec m none = some kind_missing
check_packet l codec m (some kind) =
    if not (eq_ℤ codec codec_protobuf) && not (eq_ℤ codec codec_json)
    then some unsupported_codec
    else check_kind l m (kind_body kind)

unfoldable pub validate_packet : Option Packet → Limits → Option AgpError
unfolding check_packet
validate_packet none limits = some packet_nil
validate_packet (some p) limits = check_packet (normalize_limits limits) p.codec p.metadata p.kind
