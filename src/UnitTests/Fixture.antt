-- ===== src/UnitTests/Fixture.antt =====
-- What the tests of oom-watcher/src/metrics.rs share: their events, and what a scrape contains.
use ebpf_oom_watcher.Prelude.{
  ℕ, Bool, ◌||◌, List, [], ◌∷◌, ◌++◌, Option, some, Text, codes, replicate, any, contains, list_eq,
  nat_eq,
}
use ebpf_oom_watcher.Prelude.HashMap.{HashMap, keys}
use ebpf_oom_watcher.Common.{EnrichedOomEvent}
use ebpf_oom_watcher.Prometheus.Listed.{listed_vec}
use ebpf_oom_watcher.Metrics.Collector
use ebpf_oom_watcher.Metrics.Collector.{MetricsCollector}
use ebpf_oom_watcher.Metrics.Evict.{evict_stale}
use ebpf_oom_watcher.Resolve.{ResolutionOutcome}

abbrev pub Listed : Type 0
Listed = MetricsCollector listed_vec.Family

abbrev pub t0 : ℕ
t0 = 1717000000

abbrev pub ttl : ℕ
ttl = 1800

abbrev pub event_for : Text → Text → ℕ → EnrichedOomEvent
event_for pod container_id timestamp = record {
  raw_event = record {
    pid = 1234;
    comm = codes "python" ++ replicate 10 0;
    total_vm = 100;
    anon_rss = 50;
    file_rss = 20;
    shmem_rss = 5;
    uid = 1000;
    pgtables = 8;
    oom_score_adj = 0;
  };
  node_name = some (codes "node-1");
  namespace = some (codes "prod");
  pod_name = some pod;
  container_name = some (codes "api");
  container_id = some container_id;
  image_id = some (codes "repo@sha256:def456");
  timestamp = timestamp;
}

abbrev pub event_at : Text → ℕ → EnrichedOomEvent
event_at pod timestamp = event_for pod (codes "containerd://abc123") timestamp

abbrev pub event_using : Text → ℕ → ℕ → ℕ → ℕ → ℕ → EnrichedOomEvent
event_using pod timestamp total_vm anon_rss file_rss shmem_rss =
    let event = event_at pod timestamp in
    record event {
      raw_event = record event.raw_event {
        total_vm = total_vm;
        anon_rss = anon_rss;
        file_rss = file_rss;
        shmem_rss = shmem_rss;
      };
    }

-- `RESOLVED_LABELS`, in the order of the label names.
abbrev pub resolved_labels : List Text
resolved_labels =
    codes "node-1"
    ∷ codes "prod"
    ∷ codes "api-7d9"
    ∷ codes "api"
    ∷ codes "containerd://abc123"
    ∷ codes "repo@sha256:def456"
    ∷ []

-- The memory gauge of the container.
abbrev pub memory_of : Text → List Text
memory_of memory_type =
    codes "node-1" ∷ codes "prod" ∷ codes "api-7d9" ∷ codes "api" ∷ memory_type ∷ []

-- Whether a label of some series contains a text.
abbrev in_family : Text → HashMap (List Text) ℕ → Bool
in_family part family = any (any (contains part)) (keys family)

abbrev pub scrape_contains : Text → Listed → Bool
scrape_contains part c =
    in_family part c.oom_kills_total
    || in_family part c.oom_kills_per_node_total
    || in_family part c.oom_memory_usage_bytes
    || in_family part c.oom_last_timestamp
    || in_family part c.oom_resolution_failures_total
    || in_family part c.oom_events_dropped_total
    || in_family part c.oom_series_evicted_total

-- The calls of the tests, on families that can be looked through.
unfoldable pub empty : Listed
unfolding Collector.new
empty = Collector.new listed_vec

unfoldable pub killed : EnrichedOomEvent → Listed → Listed
unfolding Collector.record_oom_event Collector.record_series Collector.record_seen
    Collector.record_peaks Collector.record_peak Collector.memory_values Collector.bytes_of
    ebpf_oom_watcher.Prelude.Float.f64_add ebpf_oom_watcher.Metrics.Key.key_of
    ebpf_oom_watcher.Metrics.Key.labels ebpf_oom_watcher.Metrics.Key.memory_labels
    ebpf_oom_watcher.Metrics.Key.key_beq ebpf_oom_watcher.Prelude.HashMap.insert
    ebpf_oom_watcher.Prelude.HashMap.get ebpf_oom_watcher.Prelude.list_beq
    ebpf_oom_watcher.Prelude.contains
killed event c = Collector.record_oom_event listed_vec event c

unfoldable pub deleted : Text → Text → ℕ → Listed → Listed
unfolding Collector.note_pod_deleted ebpf_oom_watcher.Prelude.pair_beq
    ebpf_oom_watcher.Prelude.HashMap.insert
deleted namespace pod now c = Collector.note_pod_deleted listed_vec namespace pod now c

unfoldable pub swept : ℕ → Listed → ℕ × Listed
unfolding evict_stale ebpf_oom_watcher.Metrics.Evict.take_due ebpf_oom_watcher.Metrics.Evict.sweep
    ebpf_oom_watcher.Metrics.Evict.remove_stale ebpf_oom_watcher.Metrics.Evict.remove_series
    ebpf_oom_watcher.Metrics.Evict.remove_memory ebpf_oom_watcher.Metrics.Evict.is_stale
    ebpf_oom_watcher.Metrics.Evict.is_orphaned ebpf_oom_watcher.Prelude.HashMap.drain
    ebpf_oom_watcher.Prelude.HashMap.retain ebpf_oom_watcher.Prelude.Float.f64_add
    ebpf_oom_watcher.Metrics.Key.shares_memory_series_with
swept now c = evict_stale listed_vec now ttl c

unfoldable pub dropping : Text → ℕ → Listed → Listed
unfolding Collector.record_dropped_total ebpf_oom_watcher.Prelude.Float.f64_add
    ebpf_oom_watcher.Prelude.HashMap.insert ebpf_oom_watcher.Prelude.HashMap.get
    ebpf_oom_watcher.Prelude.list_beq
dropping node total c = Collector.record_dropped_total listed_vec node total c

unfoldable pub resolving : Text → ResolutionOutcome → Listed → Listed
unfolding Collector.record_resolution_outcome ebpf_oom_watcher.Prelude.Float.f64_add
    ebpf_oom_watcher.Prelude.HashMap.insert ebpf_oom_watcher.Prelude.HashMap.get
    ebpf_oom_watcher.Prelude.list_beq
resolving node outcome c = Collector.record_resolution_outcome listed_vec node outcome c
