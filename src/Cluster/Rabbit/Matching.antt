-- ===== src/Cluster/Rabbit/Matching.antt =====
-- What the requests of a node have in common with what it has sent, while they wait.
use actorgo.Common.{
  ℕ, suc, ◌≡◌, refl, sym, ap, ◌∙◌, inl, inr, ◌≤◌, ◌<◌, ◌%◌, ◌^◌, true, none, some, List, Text,
  Text_discrete, Bytes, arith, is_some, Option-cases, subst,
}
use actorgo.Common.Decimal.{format_uint, format_uint_inj}
use actorgo.Common.Dict.{lookup, insert, delete, lookup-insert, lookup-delete}
use actorgo.Discovery.Default.{Discovery}
use actorgo.Cluster.Message.{ClusterMessage, validate_message}
use actorgo.Cluster.Serving.{ClusterServices}
use actorgo.Cluster.Rabbit.{
  AmqpDelivery, Publishing, ready, prepare, node_routing_key, Awaiting, RabbitOutcome, responded,
  RabbitReturned, Rabbit, begin_request, send_awaiting, end_request,
}
use actorgo.Cluster.Rabbit.Waiting.{Among, IsResponse}

abbrev IsNumbered : ℕ → Text → Type 0
IsNumbered seq id = (k : ℕ) × (k ≤ seq) × (id ≡ format_uint k)

module _ {V : Type 0} (sv : ClusterServices V) (servers : Text → ClusterServices V)
    (reply_key : Text) where
  pub record IsOwn (sent : List Publishing) (id : Text) (a : Awaiting) : Type 0 where
    pub own_sent :
        (p : Publishing)
        → Among p sent
        → p.correlation_id ≡ id
        → (p.body ≡ a.bytes) × (p.routing_key ≡ a.routing_key)
    pub own_bytes : sv.marshal a.message ≡ some a.bytes
    pub own_content :
        (d : AmqpDelivery)
        → a.content ≡ some d
        → (x : ClusterMessage) × (sv.unmarshal d.body ≡ some x)
          × IsResponse (servers a.routing_key) a.message x

  pub record IsMatched (r : Rabbit) : Type 0 where
    pub sent_numbered : (p : Publishing) → Among p r.sent → IsNumbered r.seq p.correlation_id
    pub ids_numbered :
        (id : Text) (a : Awaiting)
        → lookup Text_discrete id r.awaiting ≡ some a
        → IsNumbered r.seq id
    pub own :
        (id : Text) (a : Awaiting) → lookup Text_discrete id r.awaiting ≡ some a → IsOwn r.sent id a
    pub answered :
        (t : RabbitReturned) (x : ClusterMessage)
        → Among t r.returned
        → t.outcome ≡ responded x
        → IsResponse (servers t.routing_key) t.message x
    pub no_leak :
        (id : Text)
        → is_some (lookup Text_discrete id r.waiters) ≡ true
        → is_some (lookup Text_discrete id r.awaiting) ≡ true

  pub prepare-ready :
      (d : Discovery) (prefix node : Text) (m : ClusterMessage) (key : Text) (bytes : Bytes)
      → prepare sv d prefix node m ≡ ready key bytes
      → sv.marshal m ≡ some bytes
  unfolding prepare
  prepare-ready d prefix node m key bytes h = elim (Option-cases (node_routing_key d prefix node)) [
    | inl unknown ↦ absurd (ground (arith, h, unknown))
    | inr (k, known) ↦ elim (Option-cases (validate_message (some m))) [
      | inr (e, bad) ↦ absurd (ground (arith, h, known, bad))
      | inl valid ↦ elim (Option-cases (sv.marshal m)) [
        | inl unwritten ↦ absurd (ground (arith, h, known, valid, unwritten))
        | inr (b, written) ↦ ground (arith, h, known, valid, written)
      ]
    ]
  ]

  IsNumbered-weaken : (s t : ℕ) (id : Text) → s ≤ t → IsNumbered s id → IsNumbered t id
  IsNumbered-weaken s t id le n = (n.0, omega (arith, n.1, le), n.2)

  pub begin_request-IsMatched :
      (r : Rabbit) (m : ClusterMessage) (key : Text) (bytes : Bytes)
      → sv.marshal m ≡ some bytes
      → suc r.seq < 2 ^ 64
      → IsMatched r
      → IsMatched (begin_request r m key bytes)
  begin_request-IsMatched r m key bytes written small k = rw same (record {
    sent_numbered = λ p at.
        IsNumbered-weaken r.seq (suc r.seq) p.correlation_id (omega arith) (k.sent_numbered p at);
    ids_numbered = λ j b h. elim (Text_discrete id j) [
      | yes eq ↦ (suc r.seq, omega arith, sym eq)
      | no ne ↦ IsNumbered-weaken r.seq (suc r.seq) j (omega arith) (
          k.ids_numbered j b (ground (arith, h, ne, lookup-insert Text_discrete j id a r.awaiting)))
    ];
    own = λ j b h. elim (Text_discrete id j) [
      | yes eq ↦
          let own_a : a ≡ b =
            ground (arith, h, eq, lookup-insert Text_discrete j id a r.awaiting) in
          subst (IsOwn r.sent j) own_a (subst (λ i. IsOwn r.sent i a) eq new)
      | no ne ↦ k.own j b (ground (arith, h, ne, lookup-insert Text_discrete j id a r.awaiting))
    ];
    answered = k.answered;
    no_leak = λ j h. ground (
      arith,
      h,
      k.no_leak j,
      lookup-insert Text_discrete j id a r.awaiting,
      lookup-insert Text_discrete j id true r.waiters,
    );
  })
    where
      id : Text
      id = format_uint (suc r.seq)

      a : Awaiting
      a = record { message = m; routing_key = key; bytes = bytes; content = none }

      same : begin_request r m key bytes ≡ record r {
        seq = suc r.seq;
        waiters = insert Text_discrete id true r.waiters;
        awaiting = insert Text_discrete id a r.awaiting;
      }
      same =
          let wrap : suc r.seq % 2 ^ 64 ≡ suc r.seq = omega (arith, small) in
          unfold begin_request in rw wrap refl

      new : IsOwn r.sent id a
      new = record {
        own_sent = λ p at eq.
            let (n, le, named) = k.sent_numbered p at in
            absurd (omega (arith, le, format_uint_inj n (suc r.seq) (sym named ∙ eq)));
        own_bytes = written;
        own_content = λ d h. absurd (ground (arith, h));
      }

  pub send_awaiting-IsMatched :
      (r : Rabbit) (id : Text) (a : Awaiting)
      → lookup Text_discrete id r.awaiting ≡ some a
      → IsMatched r
      → IsMatched (send_awaiting reply_key r id a)
  send_awaiting-IsMatched r id a there k =
      unfold send_awaiting in
      (record {
        sent_numbered = λ p at. elim at [
          | inl new ↦
              subst (IsNumbered r.seq) (ap (λ (q : Publishing). q.correlation_id) new)
                (k.ids_numbered id a there)
          | inr old ↦ k.sent_numbered p old
        ];
        ids_numbered = k.ids_numbered;
        own = λ j b h.
            let before = k.own j b h in
            (record {
              own_sent = λ p at eq. elim at [
                | inl new ↦
                    let own_id : id ≡ j = ap (λ (q : Publishing). q.correlation_id) new ∙ eq in
                    let own_a : a ≡ b = ground (arith, h, there, own_id) in
                    (ground (arith, sym new, own_a), ground (arith, sym new, own_a))
                | inr old ↦ before.own_sent p old eq
              ];
              own_bytes = before.own_bytes;
              own_content = before.own_content;
            });
        answered = k.answered;
        no_leak = k.no_leak;
      })

  pub end_request-IsMatched :
      (r : Rabbit) (id : Text) (a : Awaiting) (outcome : RabbitOutcome)
      → ((x : ClusterMessage)
          → outcome ≡ responded x
          → IsResponse (servers a.routing_key) a.message x)
      → IsMatched r
      → IsMatched (end_request r id a outcome)
  end_request-IsMatched r id a outcome good k =
      unfold end_request in
      (record {
        sent_numbered = k.sent_numbered;
        ids_numbered = λ j b h. k.ids_numbered j b (kept j b h);
        own = λ j b h. k.own j b (kept j b h);
        answered = λ t x at eq. elim at [
          | inl new ↦
              subst (λ (t : RabbitReturned). IsResponse (servers t.routing_key) t.message x) new
                (good x (ap (λ (t : RabbitReturned). t.outcome) new ∙ eq))
          | inr old ↦ k.answered t x old eq
        ];
        no_leak = λ j h. ground (
          arith,
          h,
          k.no_leak j,
          lookup-delete Text_discrete j id r.awaiting,
          lookup-delete Text_discrete j id r.waiters,
        );
      })
    where
      kept :
          (j : Text) (b : Awaiting)
          → lookup Text_discrete j (delete Text_discrete id r.awaiting) ≡ some b
          → lookup Text_discrete j r.awaiting ≡ some b
      kept j b h = ground (arith, h, lookup-delete Text_discrete j id r.awaiting)
