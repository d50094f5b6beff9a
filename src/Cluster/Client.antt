-- ===== src/Cluster/Client.antt =====
-- The asking side: buildClusterMessage of net/actor/system.go, and nodeSubject, publishMessage,
-- Publish and Request of net/cluster/nats_cluster/cluster.go. The broker is a parameter: whether it
-- takes a message, and what RequestSync gives back. Errors carry no text.
use mathlib.Core.List.{Permᴰ}
use actorgo.Common.{
  ℕ, suc, ◌+◌, ◌*◌, ◌/◌, ◌<◌, ◌≤◌, ◌≡◌, ◌≢◌, refl, ◌⊎◌, inl, inr, ◌%◌, ◌^◌, ◌==◌, ◌||◌, not, ◌++◌,
  Bool, Option, none, some, [], Text, Text_discrete, Bytes, if◌then◌else◌, holds, codes, arith,
  Option-cases,
}
use actorgo.Common.Int.{ℤ, pos, negsuc, pos_part, neg_part, eq_ℤ, ltb_ℤ, ◌≤ℤ◌}
use actorgo.Facade.Result.{InvokeResult}
use actorgo.Discovery.Default.{Discovery, get_type}
use actorgo.Method.Table.{msg_type_request}
use actorgo.Cluster.Message.{
  ClusterMessage, IsSameMessage, SameSessions, unix_milli, msg_type_response, MessageError,
  validate_message, ClusterContext, message_context, IsSendable, validate_message_iff,
}
use actorgo.Cluster.Serving.{
  Published, ClusterServices, process_message, response_of, dispatch_message, or_internal,
  process_message-IsServed_iff,
}

-- GetRemoteSubject
unfoldable pub remote_subject : Text → Text → Text → Text
remote_subject prefix node_type node_id =
    codes "actorgo-" ++ prefix ++ codes ".remote." ++ node_type ++ codes "." ++ node_id

-- time.Time.UnixMilli, which rounds down to whole milliseconds.
abbrev pub to_unix_milli : ℤ → ℤ
to_unix_milli (pos t) = pos (t / 10 ^ 6)
to_unix_milli (negsuc t) = negsuc (t / 10 ^ 6)

-- buildClusterMessage, with the sequence number before it; the maps that are cloned are values here.
unfoldable pub build_cluster_message : ℕ → ClusterContext → Text → ℕ → ℤ → Bytes → ClusterMessage
build_cluster_message sequence ctx target method_id msg_type body = record {
  message_id = suc sequence % 2 ^ 64;
  msg_type = msg_type;
  request_id = ctx.request_id;
  method_id = method_id;
  target_path = target;
  metadata = ctx.metadata;
  codec = ctx.codec;
  deadline_unix_ms = elim ctx.deadline [ none ↦ pos 0 | some t ↦ to_unix_milli t ];
  session = ctx.session;
  payload = body;
  code = pos 0;
  message = [];
}

pub data ClusterError : Type 0 where
  node_id_required node_not_found unwritten not_sent unread mismatch : ClusterError
  rejected : MessageError → ClusterError

pub data Answered : Type 0 where
  answer : ClusterMessage → Answered
  failed : ClusterError → Answered

pub data Subject : Type 0 where
  subject_at : Text → Subject
  no_subject : ClusterError → Subject

unfoldable pub node_subject : Discovery → Text → Text → Subject
unfolding remote_subject Text_discrete
node_subject d prefix node =
    if holds (Text_discrete node []) then no_subject node_id_required else elim (get_type d node) [
      | none ↦ no_subject node_not_found
      | some t ↦ subject_at (remote_subject prefix t node)
    ]

module _ {V : Type 0} (sv : ClusterServices V) where
  send_written : (Text → Bytes → Bool) → Text → Option Bytes → Option ClusterError
  send_written takes subject none = some unwritten
  send_written takes subject (some bytes) = if takes subject bytes then none else some not_sent

  -- publishMessage
  unfoldable pub publish_message :
      (Text → Bytes → Bool) → Text → ClusterMessage → Option ClusterError
  unfolding send_written
  publish_message takes subject m = elim (validate_message (some m)) [
    | some e ↦ some (rejected e)
    | none ↦ send_written takes subject (sv.marshal m)
  ]

  -- Publish
  unfoldable pub publish_node :
      (Text → Bytes → Bool) → Discovery → Text → Text → ClusterMessage → Option ClusterError
  unfolding publish_message
  publish_node takes d prefix node m = elim (node_subject d prefix node) [
    | no_subject e ↦ some e
    | subject_at subject ↦ publish_message takes subject m
  ]

  read_response : ClusterMessage → Option ClusterMessage → Answered
  read_response m none = failed unread
  read_response m (some response) =
      if not (eq_ℤ response.msg_type msg_type_response) || not (response.message_id == m.message_id)
      then failed mismatch
      else answer response

  await_response : ClusterMessage → Option Bytes → Answered
  unfolding read_response
  await_response m none = failed not_sent
  await_response m (some bytes) = read_response m (sv.unmarshal bytes)

  send_request : (Text → Bytes → Option Bytes) → Text → ClusterMessage → Option Bytes → Answered
  unfolding await_response
  send_request sync subject m none = failed unwritten
  send_request sync subject m (some bytes) = await_response m (sync subject bytes)

  request_valid :
      (Text → Bytes → Option Bytes) → Text → ClusterMessage → Option MessageError → Answered
  unfolding send_request
  request_valid sync subject m (some e) = failed (rejected e)
  request_valid sync subject m none = send_request sync subject m (sv.marshal m)

  -- Request
  unfoldable pub request_node :
      (Text → Bytes → Option Bytes) → Discovery → Text → Text → ClusterMessage → Answered
  unfolding request_valid
  request_node sync d prefix node m = elim (node_subject d prefix node) [
    | no_subject e ↦ failed e
    | subject_at subject ↦ request_valid sync subject m (validate_message (some m))
  ]

  -- A broker that hands this request to a node which serves it, and the node's reply back.
  abbrev pub Delivers : (Text → Bytes → Option Bytes) → Text → Text → Bytes → Type 0
  Delivers sync inbox subject bytes =
      (p : Published)
      → process_message sv (record { id = 0; reply = inbox; content = bytes }) ≡ some p
      → sync subject bytes ≡ some p.content

  response_of_correlated :
      (request : ClusterMessage) (ctx : Option ClusterContext) (r : InvokeResult V)
      → ((response_of sv request ctx r).msg_type ≡ msg_type_response)
        × ((response_of sv request ctx r).message_id ≡ request.message_id)
  unfolding response_of
  response_of_correlated request none r = (refl, refl)
  response_of_correlated request (some ctx) r =
      elim (Option-cases (sv.marshal_body ctx.codec r.payload)) [
        | inl bad ↦ (ground arith, ground arith)
        | inr (body, good) ↦ (ground arith, ground arith)
      ]

  -- A request to a node that discovery knows gets exactly the response that the serving node makes of
  -- it, with its result: if the broker hands the request to that node and its reply back, protobuf
  -- writes the request and the response and reads both back, the request is valid, and the inbox has
  -- a subject.
  pub request_node-answers :
      (sync : Text → Bytes → Option Bytes) (d : Discovery) (prefix node inbox subject : Text)
      (m : ClusterMessage) (bytes out : Bytes)
      → let response =
          response_of sv m
            (some (message_context m))
            (or_internal sv (dispatch_message sv m (message_context m))) in
        Delivers sync inbox subject bytes
        → inbox ≢ []
        → node_subject d prefix node ≡ subject_at subject
        → IsSendable m
        → m.msg_type ≡ msg_type_request
        → (sv.marshal m ≡ some bytes) × (sv.unmarshal bytes ≡ some m)
        → (sv.marshal response ≡ some out) × (sv.unmarshal out ≡ some response)
        → request_node sync d prefix node m ≡ answer response
  unfolding request_node read_response
  request_node-answers sync d prefix node inbox subject m bytes out delivers named known sendable
        kind (written, read) (answered, back) =
      let valid = (validate_message_iff m).1 sendable in
      let c =
        response_of_correlated m (some (message_context m))
          (or_internal sv (dispatch_message sv m (message_context m))) in
      let served =
        (process_message-IsServed_iff sv (record { id = 0; reply = inbox; content = bytes })
            (record { subject = inbox; content = out })).1
          (m, read, sendable, kind, named, refl, answered) in
      let got = delivers (record { subject = inbox; content = out }) served in
      ground (arith, known, valid, written, got, back, c)

-- A deadline that has been sent: it is not later, and less than a millisecond earlier.
abbrev pub Arrives : Option ℤ → Option ℤ → Type 0
Arrives none o = o ≡ none
Arrives (some t) o =
    (u : ℤ) × (o ≡ some u) × (u ≤ℤ t) × (pos_part t + neg_part u < pos_part u + neg_part t + 10 ^ 6)

Arrives-to_unix_milli :
    (d : Option ℤ)
    → ((d ≡ none) ⊎ ((t : ℕ) × (d ≡ some (pos t)) × (10 ^ 6 ≤ t)))
    → let ms : ℤ = elim d [ none ↦ pos 0 | some t ↦ to_unix_milli t ] in
      Arrives d (if ltb_ℤ (pos 0) ms then some (unix_milli ms) else none)
Arrives-to_unix_milli none h = refl
Arrives-to_unix_milli (some (negsuc t)) (inl e) = absurd (cc)
Arrives-to_unix_milli (some (negsuc t)) (inr (n, e, long)) = absurd (ground (arith, e))
Arrives-to_unix_milli (some (pos t)) (inl e) = absurd (cc)
Arrives-to_unix_milli (some (pos t)) (inr (n, e, long)) =
    let late : 10 ^ 6 ≤ t = ground (arith, e, long) in
    (pos (t / 10 ^ 6 * 10 ^ 6), ground (arith, late), omega arith, omega arith)

-- The context of a call reaches the other node: if protobuf writes the message that
-- buildClusterMessage makes of it and reads it back up to the order of maps, then messageContext of
-- what is read has the request id and the codec, the metadata and the session up to order, and the
-- deadline rounded down to its millisecond. The deadline is unset or at least a millisecond after 1970.
pub message_context-build_cluster_message :
    (marshal : ClusterMessage → Option Bytes) (unmarshal : Bytes → Option ClusterMessage)
    (sequence : ℕ) (ctx : ClusterContext) (target : Text) (method_id : ℕ) (msg_type : ℤ)
    (body bytes : Bytes)
    → ((m : ClusterMessage) (b : Bytes)
        → marshal m ≡ some b
        → (n : ClusterMessage) × (unmarshal b ≡ some n) × IsSameMessage m n)
    → marshal (build_cluster_message sequence ctx target method_id msg_type body) ≡ some bytes
    → ((ctx.deadline ≡ none) ⊎ ((t : ℕ) × (ctx.deadline ≡ some (pos t)) × (10 ^ 6 ≤ t)))
    → (m : ClusterMessage) × (unmarshal bytes ≡ some m)
      × ((message_context m).request_id ≡ ctx.request_id)
      × ((message_context m).codec ≡ ctx.codec)
      × Permᴰ ctx.metadata (message_context m).metadata
      × SameSessions ctx.session (message_context m).session
      × Arrives ctx.deadline (message_context m).deadline
unfolding message_context build_cluster_message
message_context-build_cluster_message marshal unmarshal sequence ctx target method_id msg_type body
      bytes wire written deadline =
    let (m, read, same) =
      wire (build_cluster_message sequence ctx target method_id msg_type body) bytes written in
    (
      m,
      read,
      same.request_id,
      same.codec,
      same.metadata,
      same.session,
      rw same.deadline_unix_ms (Arrives-to_unix_milli ctx.deadline deadline),
    )
