-- ===== src/Program/Together/Lives.antt =====
-- oom-watcher/src/main.rs: what the tasks do together to the series of one container is what its own
-- machine does.
use ebpf_oom_watcher.Prelude.{
  ℕ, ◌≡◌, refl, ap, ◌∙◌, List, [], ◌∷◌, Option, none, some, Text, foldl, foldl-append, list_eq,
  nat_eq, pair_eq,
}
use ebpf_oom_watcher.Common.{OomKillEvent, ContainerIdentity}
use ebpf_oom_watcher.Enrich.{enrich}
use ebpf_oom_watcher.Resolve.{ContainerResolver, identity}
use ebpf_oom_watcher.Prometheus.{MetricVec}
use ebpf_oom_watcher.Metrics.Key.{SeriesKey, key_eq, key_of}
use ebpf_oom_watcher.Metrics.Collector.{MetricsCollector}
use ebpf_oom_watcher.Metrics.Invariant.{IsTracked}
use ebpf_oom_watcher.Metrics.Life.{sweep_life, Life, live_on, life_of, run_calls-life}
use ebpf_oom_watcher.Watch.{OomEventSource, Loop, unknown}
use ebpf_oom_watcher.Watch.Spec.{Taken, reports_of}
use ebpf_oom_watcher.Watch.Delivery.{to_calls}
use ebpf_oom_watcher.Program.Together.Calls.{calls_of, run_acts-calls}
use ebpf_oom_watcher.Program.Together.{
  Happening, swept, deleted, Act, took, deleted, key_for, happenings, live_through, run_acts,
}

-- The key under which the loop's enriched event is recorded.
key_of-enrich :
    (raw : OomKillEvent) (node : Text) (id : Option ContainerIdentity) (at : ℕ)
    → key_of (enrich raw (some node) id at) ≡ key_for node id
unfolding key_of enrich
key_of-enrich raw node none at = refl
key_of-enrich raw node (some id) at = refl

key_of-enrich_alone :
    (raw : OomKillEvent) (at : ℕ) → key_of (enrich raw none none at) ≡ key_for unknown none
unfolding key_of enrich
key_of-enrich_alone raw at = refl

timestamp-enrich :
    (raw : OomKillEvent) (node : Option Text) (id : Option ContainerIdentity) (at : ℕ)
    → (enrich raw node id at).timestamp ≡ at
unfolding enrich
timestamp-enrich raw on none at = refl
timestamp-enrich raw on (some id) at = refl

-- The reports of one event change the life of a container as taking the event does.
foldl-reports_of :
    {World : Type 0} (ttl : ℕ) (resolver : Option (ContainerResolver World)) (k : SeriesKey)
    (t : Taken World) (total : Option ℕ) (l : Life)
    → foldl (live_on k) l (to_calls (reports_of resolver t.world t.raw t.at total))
      ≡ live_through ttl resolver k l (took t)
foldl-reports_of ttl none k t none l =
    rw (key_of-enrich_alone t.raw t.at, timestamp-enrich t.raw none none t.at) refl
foldl-reports_of ttl none k t (some total) l =
    rw (key_of-enrich_alone t.raw t.at, timestamp-enrich t.raw none none t.at) refl
foldl-reports_of ttl (some client) k t none l =
    let id = identity (client.resolve t.world t.raw.pid) in
    rw
      (
        key_of-enrich t.raw client.node_name id t.at,
        timestamp-enrich t.raw (some client.node_name) id t.at,
      )
      refl
foldl-reports_of ttl (some client) k t (some total) l =
    let id = identity (client.resolve t.world t.raw.pid) in
    rw
      (
        key_of-enrich t.raw client.node_name id t.at,
        timestamp-enrich t.raw (some client.node_name) id t.at,
      )
      refl

foldl-calls_of :
    {World : Type 0} (ttl : ℕ) (resolver : Option (ContainerResolver World)) (k : SeriesKey)
    (hs : List (Happening World)) (l : Life)
    → foldl (live_on k) l (calls_of ttl resolver hs) ≡ foldl (live_through ttl resolver k) l hs
foldl-calls_of ttl resolver k [] l = refl
foldl-calls_of ttl resolver k (took t ∷ hs) l =
    foldl-append (live_on k) l (to_calls (reports_of resolver t.world t.raw t.at t.total))
      (calls_of ttl resolver hs)
    ∙ ap (λ m. foldl (live_on k) m (calls_of ttl resolver hs))
        (foldl-reports_of ttl resolver k t t.total l)
    ∙ foldl-calls_of ttl resolver k hs (live_through ttl resolver k l (took t))
foldl-calls_of ttl resolver k (swept now ∷ hs) l =
    foldl-calls_of ttl resolver k hs (sweep_life now ttl l)
foldl-calls_of ttl resolver k (deleted namespace pod now ∷ hs) l =
    foldl-calls_of ttl resolver k hs (live_through ttl resolver k l (deleted namespace pod now))

module _ {World Opaque S B : Type 0} (vec : MetricVec) (ttl : ℕ) (source : OomEventSource S)
    (resolver : Option (ContainerResolver World)) (heartbeat : ℕ → B → B) (k : SeriesKey) where
  open vec use {Family}

  -- Whatever the order in which the watch loop, the series sweeper and the pod cache get to the
  -- collector, the counter, the timestamp, the age and the deadline of each container are what its own
  -- machine makes of the kills that the loop takes, the sweeps and the pods deleted: a kill counts for
  -- the container that the resolver names in the world of its turn, under the node alone if it names
  -- none and under `unknown` without a resolver, and for no other.
  pub run_acts-life :
      (acts : List (Act World Opaque)) (l : Loop S (MetricsCollector Family) B)
      → IsTracked vec l.recorder
      → life_of vec k (run_acts vec ttl source resolver heartbeat acts l).recorder
        ≡ foldl
            (live_through ttl resolver k)
            (life_of vec k l.recorder)
            (happenings source acts l.source)
  run_acts-life acts l v =
      let hs = happenings source acts l.source in
      ap (life_of vec k) (run_acts-calls vec ttl source resolver heartbeat acts l)
      ∙ run_calls-life vec k (calls_of ttl resolver hs) l.recorder v
      ∙ foldl-calls_of ttl resolver k hs (life_of vec k l.recorder)
