-- ===== src/Cluster/Rabbit/Answering.antt =====
-- A request over RabbitMQ gets the reply to itself, and leaves no waiter behind.
use actorgo.Common.{
  ◌≡◌, refl, sym, ap, ◌∙◌, ◌⊎◌, inl, inr, ◌==◌, ◌||◌, not, Bool, true, false, Option, none, some,
  List, [], ◌∷◌, Text, Text_discrete, holds, arith, is_some, Option-cases, Bool-cases, subst,
}
use actorgo.Common.Int.{eq_ℤ}
use actorgo.Common.Dict.{lookup, insert, delete, lookup-insert, lookup-delete}
use actorgo.Cluster.Message.{ClusterMessage, msg_type_response}
use actorgo.Cluster.Serving.{ClusterServices}
use actorgo.Cluster.Rabbit.{
  AmqpDelivery, Publishing, process_delivery, reject_delivery, Awaiting, responded, failed,
  not_published, timed_out, RabbitReturned, Rabbit, no_requests, with_content, deliver_reply,
  outcome_of_response,
}
use actorgo.Cluster.Rabbit.Waiting.{
  Among, delivery_of, Responds, IsResponse, process_delivery_content, process_delivery_named,
  reject_delivery_content, IsReply, RabbitStep, begun, published, unpublished, reply_arrived,
  reply_read, timer_fired, RabbitSteps, no_rabbit_step, then_rabbit, IsSharedWire,
}
use actorgo.Cluster.Rabbit.Matching.{
  IsOwn, IsMatched, prepare-ready, begin_request-IsMatched, send_awaiting-IsMatched,
  end_request-IsMatched,
}

module _ {V : Type 0} (sv : ClusterServices V) (servers : Text → ClusterServices V)
    (reply_key : Text) where
  -- A reply to a request that waits is a response to that request.
  IsReply-IsResponse :
      IsSharedWire sv servers reply_key
      → (sent : List Publishing) (id : Text) (a : Awaiting) (d : AmqpDelivery)
      → IsReply sv servers reply_key sent d
      → d.correlation_id ≡ id
      → IsOwn sv servers reply_key sent id a
      → (x : ClusterMessage) × (sv.unmarshal d.body ≡ some x)
        × IsResponse (servers a.routing_key) a.message x
  IsReply-IsResponse wire sent id a d reply named own =
      let p = reply.request in
      let node = servers p.routing_key in
      let q_named = process_delivery_named node (delivery_of p) reply.reply reply.served in
      let d_named : d.correlation_id ≡ reply.reply.correlation_id =
        ap (λ (x : AmqpDelivery). x.correlation_id) reply.same in
      let (body, key) = own.own_sent p reply.was_sent (sym q_named ∙ sym d_named ∙ named) in
      let (n, read, sent_same) =
        wire.there p.routing_key a.message p.body (own.own_bytes ∙ ap some (sym body)) in
      let (y, answer, written) = content n p node read reply.served in
      let (x, read_back, back_same) = wire.back p.routing_key y reply.reply.body written in
      (
        x,
        ap (λ (y : AmqpDelivery). sv.unmarshal y.body) reply.same ∙ read_back,
        subst (λ k. IsResponse (servers k) a.message x) key (n, sent_same, y, answer, back_same),
      )
    where
      content :
          (n : ClusterMessage) (p : Publishing) (node : ClusterServices V)
          → node.unmarshal p.body ≡ some n
          → (process_delivery node (delivery_of p) ≡ some reply.reply)
            ⊎ (reject_delivery node (delivery_of p) ≡ some reply.reply)
          → (y : ClusterMessage) × Responds node n y × (node.marshal y ≡ some reply.reply.body)
      content n p node read (inl h) =
          let (named, x, answer, written) =
            process_delivery_content node (delivery_of p) reply.reply n read h in
          (x, answer, written)
      content n p node read (inr h) =
          let (named, x, answer, written) =
            reject_delivery_content node (delivery_of p) reply.reply n read h in
          (x, answer, written)

  with_content-IsOwn :
      IsSharedWire sv servers reply_key
      → (sent : List Publishing) (id : Text) (a : Awaiting) (d : AmqpDelivery)
      → IsReply sv servers reply_key sent d
      → d.correlation_id ≡ id
      → IsOwn sv servers reply_key sent id a
      → IsOwn sv servers reply_key sent id (with_content d a)
  with_content-IsOwn wire sent id a d reply named own = elim (Option-cases a.content) [
    | inr (e, full) ↦
        let same : with_content d a ≡ a = ground (arith, full) in
        subst (IsOwn sv servers reply_key sent id) (sym same) own
    | inl empty ↦
        let same : with_content d a ≡ record a { content = some d } = ground (arith, empty) in
        subst (IsOwn sv servers reply_key sent id) (sym same) (record {
          own_sent = own.own_sent;
          own_bytes = own.own_bytes;
          own_content = λ e h.
              let eq : d ≡ e = ground (arith, h) in
              subst
                (λ e.
                  (x : ClusterMessage) × (sv.unmarshal e.body ≡ some x)
                  × IsResponse (servers a.routing_key) a.message x)
                eq (IsReply-IsResponse wire sent id a d reply named own);
        })
  ]

  deliver_reply-IsMatched :
      IsSharedWire sv servers reply_key
      → (r : Rabbit) (d : AmqpDelivery) → IsReply sv servers reply_key r.sent d
      → IsMatched sv servers reply_key r
      → IsMatched sv servers reply_key (deliver_reply r d)
  deliver_reply-IsMatched wire r d reply k =
      elim (Bool-cases (
        holds (Text_discrete d.correlation_id [])
        || not (is_some (lookup Text_discrete d.correlation_id r.waiters)))) [
          | inl dropped ↦
              let same : deliver_reply r d ≡ r = unfold deliver_reply in ground (arith, dropped) in
              rw same k
          | inr taken ↦
              let waits : is_some (lookup Text_discrete d.correlation_id r.waiters) ≡ true =
                ground (arith, taken) in
              elim (Option-cases (lookup Text_discrete d.correlation_id r.awaiting)) [
                | inl gone ↦ absurd (ground (arith, gone, k.no_leak d.correlation_id waits))
                | inr (a, there) ↦
                    let same : deliver_reply r d ≡ given a =
                      unfold deliver_reply in ground (arith, taken, there) in
                    rw same (given-IsMatched a there)
              ]
        ]
    where
      given : Awaiting → Rabbit
      given a = record r {
        waiters = delete Text_discrete d.correlation_id r.waiters;
        awaiting = insert Text_discrete d.correlation_id (with_content d a) r.awaiting;
      }

      given-IsMatched :
          (a : Awaiting)
          → lookup Text_discrete d.correlation_id r.awaiting ≡ some a
          → IsMatched sv servers reply_key (given a)
      given-IsMatched a there = record {
        sent_numbered = k.sent_numbered;
        ids_numbered = λ j b h. elim (Text_discrete d.correlation_id j) [
          | yes eq ↦ k.ids_numbered j a (ground (arith, there, eq))
          | no ne ↦ k.ids_numbered j b (
              ground (
                arith,
                h,
                ne,
                lookup-insert Text_discrete j d.correlation_id (with_content d a) r.awaiting,
              ))
        ];
        own = λ j b h. elim (Text_discrete d.correlation_id j) [
          | yes eq ↦
              let eq_b : with_content d a ≡ b = ground (
                arith,
                h,
                eq,
                lookup-insert Text_discrete j d.correlation_id (with_content d a) r.awaiting,
              ) in
              subst (IsOwn sv servers reply_key r.sent j) eq_b (
                with_content-IsOwn wire r.sent j a d reply eq
                  (k.own j a (ground (arith, there, eq))))
          | no ne ↦ k.own j b (
              ground (
                arith,
                h,
                ne,
                lookup-insert Text_discrete j d.correlation_id (with_content d a) r.awaiting,
              ))
        ];
        answered = k.answered;
        no_leak = λ j h. ground (
          arith,
          h,
          k.no_leak j,
          lookup-insert Text_discrete j d.correlation_id (with_content d a) r.awaiting,
          lookup-delete Text_discrete j d.correlation_id r.waiters,
        );
      }

  outcome_of_response-responded :
      (m x : ClusterMessage) (read : Option ClusterMessage)
      → outcome_of_response m read ≡ responded x
      → read ≡ some x
  unfolding outcome_of_response
  outcome_of_response-responded m x none h = absurd (ground (arith, h))
  outcome_of_response-responded m x (some y) h =
      elim (Bool-cases
        (not (eq_ℤ y.msg_type msg_type_response) || not (y.message_id == m.message_id))) [
          | inl bad ↦ absurd (ground (arith, h, bad))
          | inr fine ↦ ground (arith, h, fine)
        ]

  RabbitStep-IsMatched :
      IsSharedWire sv servers reply_key
      → {r t : Rabbit} → RabbitStep sv servers reply_key r t
      → IsMatched sv servers reply_key r
      → IsMatched sv servers reply_key t
  RabbitStep-IsMatched wire {r} (begun d prefix node m key bytes fine small) k =
      begin_request-IsMatched sv servers reply_key r m key bytes
        (prepare-ready sv servers reply_key d prefix node m key bytes fine) small k
  RabbitStep-IsMatched wire {r} (published id a there) k =
      send_awaiting-IsMatched sv servers reply_key r id a there k
  RabbitStep-IsMatched wire {r} (unpublished id a there) k =
      end_request-IsMatched sv servers reply_key r id a (failed not_published) (λ x h. absurd (cc))
        k
  RabbitStep-IsMatched wire {r} (reply_arrived d reply) k = deliver_reply-IsMatched wire r d reply k
  RabbitStep-IsMatched wire {r} (reply_read id a d there full) k =
      end_request-IsMatched sv servers reply_key r id a
        (outcome_of_response a.message (sv.unmarshal d.body))
        (λ x h.
          let (y, read, answer) = (k.own id a there).own_content d full in
          let eq : y ≡ x =
            ground
              (arith, read, outcome_of_response-responded a.message x (sv.unmarshal d.body) h) in
          subst (IsResponse (servers a.routing_key) a.message) eq answer)
        k
  RabbitStep-IsMatched wire {r} (timer_fired id a there) k =
      end_request-IsMatched sv servers reply_key r id a (failed timed_out) (λ x h. absurd (cc)) k

  RabbitSteps-IsMatched :
      IsSharedWire sv servers reply_key
      → {r t : Rabbit} → RabbitSteps sv servers reply_key r t
      → IsMatched sv servers reply_key r
      → IsMatched sv servers reply_key t
  RabbitSteps-IsMatched wire no_rabbit_step k = k
  RabbitSteps-IsMatched wire (then_rabbit s st) k =
      RabbitStep-IsMatched wire st (RabbitSteps-IsMatched wire s k)

  no_requests-IsMatched : IsMatched sv servers reply_key no_requests
  unfolding no_requests
  no_requests-IsMatched = record {
    sent_numbered = λ p at. absurd at;
    ids_numbered = λ id a h. absurd (unfold lookup in cc);
    own = λ id a h. absurd (unfold lookup in cc);
    answered = λ t x at h. absurd at;
    no_leak = λ id h. absurd (unfold lookup in ground (arith, h));
  }

  all_absent :
      (m : List (Text × Bool))
      → ((id : Text) → is_some (lookup Text_discrete id m) ≡ false)
      → m ≡ []
  unfolding lookup
  all_absent [] h = refl
  all_absent ((id, b) ∷ m) h = absurd (ground (arith, h id))

  -- However a node's requests over RabbitMQ begin, are published or not, get replies, read them and
  -- time out, each that returns a response returns one that the node which it was sent to made of
  -- this very request, by its dispatch or because its queue was full; and no waiter is left when no
  -- request is under way. The node makes fewer than 2^64 requests, the broker delivers at its reply
  -- queue only replies to what it has sent, and what a node writes with protobuf the others read back
  -- up to the order of maps, so that request and response are the same up to that order.
  pub RabbitSteps-IsResponse :
      (r : Rabbit)
      → IsSharedWire sv servers reply_key
      → RabbitSteps sv servers reply_key no_requests r
      → ((t : RabbitReturned) (x : ClusterMessage)
          → Among t r.returned
          → t.outcome ≡ responded x
          → IsResponse (servers t.routing_key) t.message x)
        × (r.awaiting ≡ [] → r.waiters ≡ [])
  RabbitSteps-IsResponse r wire s =
      let k = RabbitSteps-IsMatched wire s no_requests-IsMatched in
      (
        k.answered,
        λ h. all_absent r.waiters (λ id.
            elim (Bool-cases (is_some (lookup Text_discrete id r.waiters))) [
              | inl there ↦ absurd (unfold lookup in ground (arith, h, k.no_leak id there))
              | inr absent ↦ absent
            ]),
      )
