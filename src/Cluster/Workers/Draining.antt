-- ===== src/Cluster/Workers/Draining.antt =====
-- What Stop of a cluster leaves behind.
use actorgo.Common.{
  ℕ, zero, suc, ◌+◌, ◌*◌, ◌<◌, ◌≤◌, ◌≡◌, refl, inl, inr, ◌==◌, true, some, List, [], ◌∷◌, ◌++◌,
  length, if◌then◌else◌, arith, Option-cases, length-append,
}
use actorgo.Cluster.Serving.{NatsMsg, ClusterServices}
use actorgo.Cluster.Workers.{
  Cluster, init_cluster, without, member_at, enqueue_message, finish_message, take_message, leave,
  begin_stop, signal_stop,
}

-- One step of a goroutine: the subscription's callback, a worker, or Stop.
pub data ClusterStep {V : Type 0} (sv : ClusterServices V) (c : Cluster) : Cluster → Type 0 where
  received : (m : NatsMsg) → ClusterStep sv c (enqueue_message sv c m)
  took : 0 < c.idle → ClusterStep sv c (take_message c)
  finished : (n : ℕ) → ClusterStep sv c (finish_message sv n c)
  left : 0 < c.idle → c.stopped ≡ true → ClusterStep sv c (leave c)
  stop_began : ClusterStep sv c (begin_stop c)
  stop_signalled : c.stopping ≡ true → ClusterStep sv c (signal_stop c)

pub data ClusterSteps {V : Type 0} (sv : ClusterServices V) (c : Cluster) : Cluster → Type 0 where
  no_step : ClusterSteps sv c c
  then_step : {d e : Cluster} → ClusterSteps sv c d → ClusterStep sv d e → ClusterSteps sv c e

-- How often messages of this number stand in a list.
abbrev pub count : ℕ → List NatsMsg → ℕ
count id [] = 0
count id (m ∷ ms) = (if m.id == id then 1 else 0) + count id ms

count-append : (id : ℕ) (xs ys : List NatsMsg) → count id (xs ++ ys) ≡ count id xs + count id ys
count-append id [] ys = omega arith
count-append id (x ∷ xs) ys = omega (arith, count-append id xs ys)

without_lem :
    (n : ℕ) (ms : List NatsMsg) (m : NatsMsg) (id : ℕ)
    → member_at n ms ≡ some m
    → (count id ms ≡ (if m.id == id then 1 else 0) + count id (without n ms))
      × (length ms ≡ suc (length (without n ms)))
without_lem n [] m id h = absurd (cc)
without_lem zero (x ∷ ms) m id h = (ground arith, refl)
without_lem (suc n) (x ∷ ms) m id h =
    let i = without_lem n ms m id h in (omega (arith, i.0), omega (arith, i.1))

-- Every worker is somewhere, none has returned while there was work or work could come, the queue is
-- bounded, and every message that was accepted waits, is being processed or is processed.
pub record IsAccounted (workers : ℕ) (c : Cluster) : Type 0 where
  pub total : c.idle + length c.running + c.returned ≡ workers
  pub in_order : c.stopped ≡ true → c.stopping ≡ true
  pub drained : 0 < c.returned → (c.stopping ≡ true) × (c.work ≡ [])
  pub bounded : length c.work ≤ c.queue_size
  pub kept :
      (id : ℕ) → count id c.processed + count id c.running + count id c.work ≡ count id c.accepted

init-IsAccounted : (size workers : ℕ) → IsAccounted workers (init_cluster size workers)
unfolding init_cluster
init-IsAccounted size workers = record {
  total = omega arith;
  in_order = λ h. absurd (cc);
  drained = λ h. absurd (omega (arith, h));
  bounded = omega arith;
  kept = λ id. refl;
}

enqueue_message-IsAccounted :
    {V : Type 0} (sv : ClusterServices V) (workers : ℕ) (c : Cluster) (m : NatsMsg)
    → IsAccounted workers c
    → IsAccounted workers (enqueue_message sv c m)
unfolding enqueue_message
enqueue_message-IsAccounted sv workers c m a = record {
  total = ground (arith, a.total);
  in_order = λ h. ground (arith, a.in_order);
  drained = λ h. ground (arith, a.drained);
  bounded = ground (arith, a.bounded, length-append c.work (m ∷ []));
  kept = λ id. ground (arith, a.kept id, count-append id c.work (m ∷ []));
}

take_message-IsAccounted :
    (workers : ℕ) (c : Cluster)
    → 0 < c.idle
    → IsAccounted workers c
    → IsAccounted workers (take_message c)
take_message-IsAccounted workers c free a = from c.work refl
  where
    from : (q : List NatsMsg) → c.work ≡ q → IsAccounted workers (take_message c)
    from [] e = let same : take_message c ≡ c = unfold take_message in ground arith in rw same a
    from (m ∷ rest) e =
        unfold take_message in
        record {
          total = ground (arith, a.total, free);
          in_order = λ h. ground (arith, a.in_order);
          drained = λ h. absurd (ground (arith, a.drained));
          bounded = ground (arith, a.bounded);
          kept = λ id. ground (arith, a.kept id);
        }

leave-IsAccounted :
    (workers : ℕ) (c : Cluster)
    → 0 < c.idle
    → c.stopped ≡ true
    → IsAccounted workers c
    → IsAccounted workers (leave c)
leave-IsAccounted workers c free stop a = from c.work refl
  where
    from : (q : List NatsMsg) → c.work ≡ q → IsAccounted workers (leave c)
    from (m ∷ rest) e = let same : leave c ≡ c = unfold leave in ground arith in rw same a
    from [] e =
        unfold leave in
        record {
          total = ground (arith, a.total, free);
          in_order = λ h. ground (arith, a.in_order);
          drained = λ h. (ground (arith, a.in_order, stop), ground arith);
          bounded = ground (arith, a.bounded);
          kept = λ id. ground (arith, a.kept id);
        }

finish_message-IsAccounted :
    {V : Type 0} (sv : ClusterServices V) (workers n : ℕ) (c : Cluster)
    → IsAccounted workers c
    → IsAccounted workers (finish_message sv n c)
finish_message-IsAccounted sv workers n c a = elim (Option-cases (member_at n c.running)) [
  | inl nobody ↦
      let same : finish_message sv n c ≡ c = unfold finish_message in ground arith in rw same a
  | inr (m, there) ↦
      unfold finish_message in
      record {
        total = ground (arith, a.total, without_lem n c.running m 0 there, there);
        in_order = λ h. ground (arith, a.in_order, there);
        drained = λ h. ground (arith, a.drained, there);
        bounded = ground (arith, a.bounded, there);
        kept = λ id. ground (arith, a.kept id, without_lem n c.running m id there, there);
      }
]

ClusterStep-IsAccounted :
    {V : Type 0} {sv : ClusterServices V} {c d : Cluster} (workers : ℕ)
    → ClusterStep sv c d
    → IsAccounted workers c
    → IsAccounted workers d
ClusterStep-IsAccounted {sv} {c} workers (received m) a =
    enqueue_message-IsAccounted sv workers c m a
ClusterStep-IsAccounted {c} workers (took free) a = take_message-IsAccounted workers c free a
ClusterStep-IsAccounted {sv} {c} workers (finished n) a =
    finish_message-IsAccounted sv workers n c a
ClusterStep-IsAccounted {c} workers (left free stop) a = leave-IsAccounted workers c free stop a
ClusterStep-IsAccounted {c} workers stop_began a =
    unfold begin_stop in
    record {
      total = a.total;
      in_order = λ h. refl;
      drained = λ h. (refl, (a.drained h).1);
      bounded = a.bounded;
      kept = a.kept;
    }
ClusterStep-IsAccounted {c} workers (stop_signalled first) a =
    unfold signal_stop in
    record {
      total = a.total;
      in_order = λ h. first;
      drained = a.drained;
      bounded = a.bounded;
      kept = a.kept;
    }

ClusterSteps-IsAccounted :
    {V : Type 0} {sv : ClusterServices V} {c d : Cluster} (workers : ℕ)
    → ClusterSteps sv c d
    → IsAccounted workers c
    → IsAccounted workers d
ClusterSteps-IsAccounted workers no_step a = a
ClusterSteps-IsAccounted workers (then_step s st) a =
    ClusterStep-IsAccounted workers st (ClusterSteps-IsAccounted workers s a)

-- When all workers of a cluster have returned, which is what Stop waits for, no message is left in
-- the queue or with a worker, and every message that was accepted has been processed as often as it
-- was accepted, however the subscription, the workers and Stop interleave; there is at least one
-- worker.
pub stop_drains :
    {V : Type 0} (sv : ClusterServices V) (size workers : ℕ) (c : Cluster)
    → 0 < workers
    → ClusterSteps sv (init_cluster size workers) c
    → c.returned ≡ workers
    → (c.work ≡ []) × (c.running ≡ []) × ((id : ℕ) → count id c.processed ≡ count id c.accepted)
stop_drains sv size workers c some_worker s gone =
    let a = ClusterSteps-IsAccounted workers s (init-IsAccounted size workers) in
    let work : c.work ≡ [] = (a.drained (omega (arith, some_worker, gone))).1 in
    let running : c.running ≡ [] = none_running c.running (omega (arith, a.total, gone)) in
    (work, running, λ id. ground (arith, a.kept id, work, running))
  where
    none_running : (ms : List NatsMsg) → length ms ≡ 0 → ms ≡ []
    none_running [] h = refl
    none_running (m ∷ ms) h = absurd (omega (arith, h))

-- What is left to do for Stop.
abbrev pub left_to_do : Cluster → ℕ
left_to_do c = 3 * length c.work + 2 * length c.running + c.idle

-- Stop does not wait for ever: of a cluster that came about by steps and whose stop is signalled,
-- while a worker has not returned some worker has a step to make, and that step leaves less to do.
pub stop_progress :
    {V : Type 0} (sv : ClusterServices V) (size workers : ℕ) (c : Cluster)
    → ClusterSteps sv (init_cluster size workers) c
    → c.stopped ≡ true
    → c.returned < workers
    → (d : Cluster) × ClusterStep sv c d × (left_to_do d < left_to_do c)
stop_progress sv size workers c s stop waiting =
    from c.running c.work refl refl
      (ClusterSteps-IsAccounted workers s (init-IsAccounted size workers)).total
  where
    from :
        (rs q : List NatsMsg)
        → c.running ≡ rs
        → c.work ≡ q
        → c.idle + length c.running + c.returned ≡ workers
        → (d : Cluster) × ClusterStep sv c d × (left_to_do d < left_to_do c)
    from (m ∷ rs) q e f t =
        (finish_message sv 0 c, finished 0, unfold finish_message in ground (arith, e))
    from [] [] e f t = (
      leave c,
      left (ground (arith, t, e, waiting)) stop,
      unfold leave in ground (arith, t, e, f, waiting),
    )
    from [] (m ∷ q) e f t = (
      take_message c,
      took (ground (arith, t, e, waiting)),
      unfold take_message in ground (arith, t, e, f, waiting),
    )
