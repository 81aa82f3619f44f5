-- ===== src/Program/Together.antt =====
-- oom-watcher/src/main.rs: the three tasks that share the collector (the watch loop, the series
-- sweeper, the pod cache), their acts in any order, and what these amount to for one container.
pub mod Calls
pub mod Lives
pub mod Pulse
pub mod Drops
pub mod Kills
pub mod Failures
pub mod Attribution
mod Tests
use ebpf_oom_watcher.Prelude.{
  ℕ, Bool, true, false, List, [], ◌∷◌, ◌++◌, Option, none, some, Text, arith, foldl, if◌then◌else◌,
  ◌==◌, list_eq, nat_eq, pair_eq,
}
use ebpf_oom_watcher.Common.{OomKillEvent, ContainerIdentity}
use ebpf_oom_watcher.Resolve.{ContainerResolver, identity}
use ebpf_oom_watcher.Recorder.{prometheus}
use ebpf_oom_watcher.Prometheus.{MetricVec}
use ebpf_oom_watcher.Metrics.Key.{SeriesKey, key_eq}
use ebpf_oom_watcher.Metrics.Collector.{
  MetricsCollector, note_pod_deleted, saturating_add, deleted_pod_grace_seconds,
}
use ebpf_oom_watcher.Metrics.Evict.{evict_stale}
use ebpf_oom_watcher.Metrics.Life.{Life, kill, sweep_life, is_pod}
use ebpf_oom_watcher.Kubernetes.Pods.{Pod}
use ebpf_oom_watcher.Kubernetes.Cache.{apply, delete, init, init_apply, init_done}
use ebpf_oom_watcher.Kubernetes.Deletions.{Item, event, watch_error, with_names, trim, for_each}
use ebpf_oom_watcher.Watch.{OomEventSource, Turn, source_wins, ticker_wins, Loop, unknown, run}
use ebpf_oom_watcher.Watch.Spec.{Taken}

-- What happens next: a turn of the loop, which may report to the collector up to three times, a tick
-- of the sweeper with the clock's reading, or an item of the pod stream with the clock's reading.
pub data Act (World Opaque : Type 0) : Type 0 where
  turn : Turn World → Act World Opaque
  tick : ℕ → Act World Opaque
  item : ℕ → Item (Pod Opaque) → Act World Opaque

-- The labels under which the kill of a process is counted: the node's, and the identity's.
abbrev pub key_for : Text → Option ContainerIdentity → SeriesKey
key_for node (some id) = record {
  node = node;
  namespace = id.namespace;
  pod = id.pod_name;
  container = id.container_name;
  container_id = id.container_id;
  image_id = id.image_id;
}
key_for node none = record {
  node = node;
  namespace = unknown;
  pod = unknown;
  container = unknown;
  container_id = unknown;
  image_id = unknown;
}

-- The container that an event is counted for: the one that the resolver finds in the world of its
-- turn.
abbrev pub names :
    {World : Type 0} → Option (ContainerResolver World) → World → OomKillEvent → SeriesKey
names none world raw = key_for unknown none
names (some client) world raw = key_for client.node_name (identity (client.resolve world raw.pid))

abbrev go_on : {L : Type 0} → (L → L) → Bool × L → L
go_on more (true, l) = l
go_on more (false, l) = more l

module _ {World Opaque S B : Type 0} (vec : MetricVec) (ttl : ℕ) (source : OomEventSource S)
    (resolver : Option (ContainerResolver World)) (heartbeat : ℕ → B → B) where
  open vec use {Family}

  -- One act on the state that the tasks share; `true` if the loop broke out, which ends the program.
  unfoldable pub step :
      Act World Opaque
      → Loop S (MetricsCollector Family) B
      → Bool × Loop S (MetricsCollector Family) B
  unfolding run
  step (turn t) l = run source resolver (prometheus vec) heartbeat (t ∷ []) l
  step (tick now) l = (false, record l { recorder = (evict_stale vec now ttl l.recorder).1 })
  step (item now i) l = (
    false,
    record l {
      recorder =
          for_each (λ namespace name. note_pod_deleted vec namespace name now) (trim i) l.recorder;
    },
  )

  unfoldable pub run_acts :
      List (Act World Opaque)
      → Loop S (MetricsCollector Family) B
      → Loop S (MetricsCollector Family) B
  unfolding step
  run_acts [] l = l
  run_acts (a ∷ acts) l = go_on (run_acts acts) (step a l)

-- What the acts amount to for the collector: a kill that the loop takes, a sweep, a deleted pod.
pub data Happening (World : Type 0) : Type 0 where
  took : Taken World → Happening World
  swept : ℕ → Happening World
  deleted : Text → Text → ℕ → Happening World

abbrev pub deletions : {World Opaque : Type 0} → ℕ → Item (Pod Opaque) → List (Happening World)
deletions now (event (delete pod)) =
    with_names pod.metadata.namespace pod.metadata.name
      (λ namespace name. deleted namespace name now ∷ []) []
deletions now (event (apply pod)) = []
deletions now (event init) = []
deletions now (event (init_apply pod)) = []
deletions now (event init_done) = []
deletions now (watch_error e) = []

abbrev taken_or_end :
    {World : Type 0}
    → World
    → ℕ
    → Option OomKillEvent
    → Option ℕ
    → List (Happening World)
    → List (Happening World)
taken_or_end world at none total more = []
taken_or_end world at (some e) total more =
    took (record { world = world; raw = e; at = at; total = total }) ∷ more

-- Up to the end of the source.
unfoldable pub happenings :
    {World Opaque S : Type 0}
    → OomEventSource S
    → List (Act World Opaque)
    → S
    → List (Happening World)
happenings source [] s = []
happenings source (turn (ticker_wins stamp) ∷ acts) s = happenings source acts s
happenings source (turn (source_wins world at stamp) ∷ acts) s =
    taken_or_end world at (source.next s).0 (source.dropped_total (source.next s).1)
      (happenings source acts (source.next s).1)
happenings source (tick now ∷ acts) s = swept now ∷ happenings source acts s
happenings source (item now i ∷ acts) s = deletions now i ++ happenings source acts s

-- The machine of one container.
abbrev pub live_through :
    {World : Type 0}
    → ℕ
    → Option (ContainerResolver World)
    → SeriesKey
    → Life
    → Happening World
    → Life
live_through ttl resolver k l (took t) =
    if names resolver t.world t.raw == k then kill t.at l else l
live_through ttl resolver k l (swept now) = sweep_life now ttl l
live_through ttl resolver k l (deleted namespace pod now) =
    if is_pod (namespace, pod) (k.namespace, k.pod)
    then record l { deadline = some (saturating_add now deleted_pod_grace_seconds) }
    else l

abbrev live_after :
    {World : Type 0}
    → ℕ
    → Option (ContainerResolver World)
    → SeriesKey
    → List (Happening World)
    → Life
    → Life
live_after ttl resolver k happened l = foldl (live_through ttl resolver k) l happened
