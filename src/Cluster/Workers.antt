-- ===== src/Cluster/Workers.antt =====
-- The queue and the workers of net/cluster/nats_cluster/cluster.go: enqueue, worker and Stop, as
-- steps of goroutines. A worker is idle, processes a message, or has returned. The queue's channel
-- is a list. Beside the state stand the messages that were accepted, those that are processed, and
-- what was published, latest first.
pub mod Draining
use actorgo.Common.{
  ℕ, zero, suc, ◌+◌, ◌-◌, ltb, ◌==◌, Bool, true, false, Option, none, some, List, [], ◌∷◌, ◌++◌,
  length, if◌then◌else◌,
}
use actorgo.Cluster.Serving.{NatsMsg, Published, ClusterServices, process_message, reject_overload}

pub record Cluster : Type 0 where
  pub queue_size : ℕ
  pub work : List NatsMsg
  pub stopping : Bool
  pub stopped : Bool
  pub idle : ℕ
  pub running : List NatsMsg
  pub returned : ℕ
  pub accepted : List NatsMsg
  pub processed : List NatsMsg
  pub published : List Published

-- Init, of a positive size and a positive number of workers.
unfoldable pub init_cluster : ℕ → ℕ → Cluster
init_cluster size workers = record {
  queue_size = size;
  work = [];
  stopping = false;
  stopped = false;
  idle = workers;
  running = [];
  returned = 0;
  accepted = [];
  processed = [];
  published = [];
}

abbrev pub publish_one : Option Published → List Published → List Published
publish_one none ps = ps
publish_one (some p) ps = p ∷ ps

-- The list without the member at this place.
abbrev pub without : ℕ → List NatsMsg → List NatsMsg
without n [] = []
without zero (m ∷ ms) = ms
without (suc n) (m ∷ ms) = m ∷ without n ms

abbrev pub member_at : ℕ → List NatsMsg → Option NatsMsg
member_at n [] = none
member_at zero (m ∷ ms) = some m
member_at (suc n) (m ∷ ms) = member_at n ms

module _ {V : Type 0} (sv : ClusterServices V) where
  -- enqueue
  unfoldable pub enqueue_message : Cluster → NatsMsg → Cluster
  unfolding reject_overload
  enqueue_message c m =
      if c.stopping
      then c
      else (if ltb (length c.work) c.queue_size
          then record c { work = c.work ++ m ∷ []; accepted = m ∷ c.accepted }
          else record c { published = publish_one (reject_overload sv m) c.published })

  -- A worker whose process of the message at this place ends.
  unfoldable pub finish_message : ℕ → Cluster → Cluster
  unfolding process_message
  finish_message n c = elim (member_at n c.running) [
    | none ↦ c
    | some m ↦ record c {
      running = without n c.running;
      idle = suc c.idle;
      processed = m ∷ c.processed;
      published = publish_one (process_message sv m) c.published;
    }
  ]

-- An idle worker takes the first message, where there is one.
unfoldable pub take_message : Cluster → Cluster
take_message c = elim c.work [
  | [] ↦ c
  | m ∷ rest ↦ record c { work = rest; running = m ∷ c.running; idle = c.idle - 1 }
]

-- An idle worker that has seen the stop and finds no work returns.
unfoldable pub leave : Cluster → Cluster
leave c = elim c.work [
  | [] ↦ record c { idle = c.idle - 1; returned = suc c.returned }
  | m ∷ rest ↦ c
]

-- The two writes of Stop.
unfoldable pub begin_stop : Cluster → Cluster
begin_stop c = record c { stopping = true }

unfoldable pub signal_stop : Cluster → Cluster
signal_stop c = record c { stopped = true }
