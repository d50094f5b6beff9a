-- ===== src/Parser/Connection/Handshake.antt =====
-- The handshake, the answer to a request and the deadline that a request is given.
use actorgo.Common.{
  ℕ, ◌+◌, ◌<◌, ◌≡◌, refl, ◌↔◌, ◌++◌, true, false, Option, none, some, List, [], ◌∷◌, Bytes, length,
  arith, Option-cases, inl, inr, ◌⊎◌, subst,
}
use actorgo.Common.Int.{ℤ, pos, ◌≤ℤ◌}
use actorgo.Proto.Packet.{
  Packet, Kind, request, response, notify, Request, Response, system_method_handshake,
  codec_protobuf,
}
use actorgo.Proto.Limits.{IsPositive}
use actorgo.Parser.Options.{Options}
use actorgo.Facade.Result.{InvokeResult, status_ok}
use actorgo.Parser.Connection.State.{
  handshaking, ready, Task, Outbound, Connection, Env, enqueue, send, close, close_unless,
  to_uint32, to_milliseconds, milliseconds,
}
use actorgo.Parser.Connection.Process.{
  response_packet, granted_timeout, set_idle_deadline, contains, process, process_seen,
  process_kind, process_request, process_notify,
}
use actorgo.Parser.Connection.Serving.{encode_result, finish_request}

-- A handshake that is accepted: what the client must send and what the connection must be able to
-- answer.
pub record IsHandshake {V : Type 0} (env : Env V) (c : Connection) (p : Packet) : Type 0 where
  pub call : Request
  pub is_request : p.kind ≡ some (request (some call))
  pub is_protobuf : p.codec ≡ codec_protobuf
  pub is_handshake : call.method_id ≡ system_method_handshake
  pub has_id : 0 < call.request_id
  pub versions : List ℕ
  pub decodes : env.read_handshake call.body ≡ some versions
  pub has_version : contains 1 versions ≡ true
  pub answer : Bytes
  pub encodes :
      env.handshake_response
        (to_uint32 (to_milliseconds c.options.heartbeat_interval))
        (to_uint32 c.options.limits.max_packet_size)
        c.id
      ≡ some answer
  pub open_still : c.is_done ≡ false
  pub room : pos (length c.write_queue + 1) ≤ℤ c.options.write_queue_size

request-IsHandshake :
    {V : Type 0} (env : Env V) (c : Connection) (p : Packet) (r : Request)
    → p.kind ≡ some (request (some r))
    → (process_request env c p r handshaking).1 ≡ true
    → IsHandshake env c p
unfolding process_request enqueue set_idle_deadline
request-IsHandshake env c p r k a = elim (Option-cases (env.read_handshake r.body)) [
  | inl bad ↦ absurd (ground arith)
  | inr (vs, decodes) ↦
      elim (Option-cases (
        env.handshake_response (to_uint32 (to_milliseconds c.options.heartbeat_interval))
          (to_uint32 c.options.limits.max_packet_size) c.id)) [
            | inl bad ↦ absurd (ground arith)
            | inr (body, encodes) ↦ record {
              call = r;
              is_request = k;
              is_protobuf = ground arith;
              is_handshake = ground arith;
              has_id = ground arith;
              versions = vs;
              decodes = decodes;
              has_version = ground arith;
              answer = body;
              encodes = encodes;
              open_still = ground arith;
              room = ground arith;
            }
          ]
]

kind-IsHandshake :
    {V : Type 0} (env : Env V) (c : Connection) (p : Packet) (k : Option Kind)
    → c.state ≡ handshaking
    → p.kind ≡ k
    → (process_kind env c p k c.state).1 ≡ true
    → IsHandshake env c p
unfolding process_kind process_notify
kind-IsHandshake env c p (some (request (some r))) h e a =
    request-IsHandshake env c p r e (subst (λ s. (process_request env c p r s).1 ≡ true) h a)
kind-IsHandshake env c p (some (request none)) h e a = absurd (cc)
kind-IsHandshake env c p (some (notify (some n))) h e a = absurd (ground arith)
kind-IsHandshake env c p (some (notify none)) h e a = absurd (cc)
kind-IsHandshake env c p (some (response r)) h e a = absurd (cc)
kind-IsHandshake env c p none h e a = absurd (cc)

abbrev pub answer_packet : ℕ → Bytes → Packet
answer_packet id body = record {
  kind =
      some
        (response (some (record { request_id = id; code = status_ok; message = []; body = body })));
  metadata = [];
  codec = codec_protobuf;
}

module _ {V : Type 0} (env : Env V) (c : Connection) (p : Packet) (h : c.state ≡ handshaking) where
  -- In the state of the handshake a packet is accepted exactly if it is a handshake in protobuf,
  -- with an id and a known version, that the connection is open to answer and has room for.
  pub process-iff-IsHandshake : ((process env c p).1 ≡ true) ↔ IsHandshake env c p
  unfolding process process_seen enqueue set_idle_deadline
  process-iff-IsHandshake = (λ a. kind-IsHandshake env c p p.kind h refl a, λ w. ground arith)

  -- In the state of the handshake, one that `IsHandshake` accepts makes the connection ready and queues one answer, an OK response to its
  -- id with the handshake's body.
  pub process_handshake :
      (w : IsHandshake env c p)
      → ((process env c p).0.state ≡ ready)
        × ((process env c p).0.write_queue
            ≡ c.write_queue
              ++ (record { packet = answer_packet w.call.request_id w.answer; wants_result = false }
                  ∷ []))
  unfolding process process_seen enqueue set_idle_deadline
  process_handshake w = (ground arith, ground arith)

-- A response to the request of this id.
abbrev pub Answers : ℕ → Packet → Type 0
Answers id p = (r : Response) × (p.kind ≡ some (response (some r))) × (r.request_id ≡ id)

response_packet-Answers :
    {V : Type 0} (id : ℕ) (codec : ℤ) (r : Option (InvokeResult V)) (body : Bytes)
    → Answers id (response_packet id codec r body)
      × ((response_packet id codec r body).codec ≡ codec)
unfolding response_packet
response_packet-Answers id codec none body = ((_, refl, refl), refl)
response_packet-Answers id codec (some r) body = ((_, refl, refl), refl)

send_or_close :
    (c : Connection) (p : Packet)
    → ((close_unless (send c p)).write_queue
        ≡ c.write_queue ++ (record { packet = p; wants_result = false } ∷ []))
      ⊎ ((close_unless (send c p)).is_done ≡ true)
unfolding send enqueue close
send_or_close c p = ground arith

-- Each request that ends gets one answer, under its own id and in the codec of its packet, or the connection
-- is closed: no request is dropped in silence.
pub finish_request-Answers :
    {V : Type 0} (env : Env V) (c : Connection) (t : Task) (others : List Task)
    (result : Option (InvokeResult V))
    → let d = finish_request env c t others result in
      ((o : Outbound) × (d.write_queue ≡ c.write_queue ++ (o ∷ []))
        × Answers t.call.request_id o.packet
        × (o.packet.codec ≡ t.packet_codec))
      ⊎ (d.is_done ≡ true)
unfolding finish_request
finish_request-Answers env c t others result = elim (send_or_close c answer) [
  | inl queued ↦ inl (_, queued, shape.0, shape.1)
  | inr over ↦ inr over
]
  where
    answer : Packet
    answer =
        response_packet t.call.request_id t.packet_codec
          (encode_result env t.context.codec result).0 (encode_result env t.context.codec result).1

    shape : Answers t.call.request_id answer × (answer.codec ≡ t.packet_codec)
    shape =
        response_packet-Answers t.call.request_id t.packet_codec
          (encode_result env t.context.codec result).0 (encode_result env t.context.codec result).1

-- If the server's maximum is positive, the deadline of a request is positive and never beyond it.
pub granted_timeout_bounds :
    (o : Options) (timeout_ms : ℕ)
    → IsPositive o.max_request_timeout
    → IsPositive (granted_timeout o timeout_ms)
      × (granted_timeout o timeout_ms ≤ℤ o.max_request_timeout)
unfolding granted_timeout
granted_timeout_bounds o timeout_ms h = (ground arith, ground arith)

-- A timeout that the client gives and that is within the maximum is granted as it is.
pub granted_timeout_own :
    (o : Options) (timeout_ms : ℕ)
    → 0 < timeout_ms
    → milliseconds timeout_ms ≤ℤ o.max_request_timeout
    → granted_timeout o timeout_ms ≡ milliseconds timeout_ms
unfolding granted_timeout
granted_timeout_own o timeout_ms p q = ground arith
