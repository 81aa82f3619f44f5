-- ===== src/Metrics/Collector.antt =====
-- oom-watcher/src/metrics.rs, `MetricsCollector`: recording, and the eviction of stale series.
use ebpf_oom_watcher.Prelude.{
  ℕ, ◌+◌, ◌*◌, ◌%◌, ◌-◌, List, [], ◌∷◌, Text, codes, ltb, if◌then◌else◌, nat_eq, list_eq, pair_eq,
  min,
}
use ebpf_oom_watcher.Prelude.Float.{to_f64}
use ebpf_oom_watcher.Prelude.HashMap.{HashMap, insert}
use ebpf_oom_watcher.Common.{OomKillEvent, EnrichedOomEvent}
use ebpf_oom_watcher.Resolve.{ResolutionOutcome}
use ebpf_oom_watcher.Prometheus.{MetricVec, or_zero}
use ebpf_oom_watcher.Metrics.Key.{SeriesKey, key_eq, labels, memory_labels, key_of, or_unknown}

abbrev pub u64_mod : ℕ
u64_mod = 18446744073709551616

-- `u64::saturating_add`.
abbrev pub saturating_add : ℕ → ℕ → ℕ
saturating_add a b = min (a + b) (u64_mod - 1)

abbrev pub deleted_pod_grace_seconds : ℕ
deleted_pod_grace_seconds = 120

abbrev pub memory_types : List Text
memory_types = codes "total_vm" ∷ codes "anon_rss" ∷ codes "file_rss" ∷ codes "shmem_rss" ∷ []

abbrev per_container_labels : List Text
per_container_labels =
    codes "node"
    ∷ codes "namespace"
    ∷ codes "pod"
    ∷ codes "container"
    ∷ codes "container_id"
    ∷ codes "image_id"
    ∷ []

-- `memory_values`.
unfoldable pub memory_values : OomKillEvent → List ℕ
memory_values raw = raw.total_vm ∷ raw.anon_rss ∷ raw.file_rss ∷ raw.shmem_rss ∷ []

-- `(kilobytes * 1024) as f64`; the product wraps in a release build.
unfoldable pub bytes_of : ℕ → ℕ
bytes_of kilobytes = to_f64 (kilobytes * 1024 % u64_mod)

pub record MetricsCollector (F : Type 0) : Type 0 where
  pub oom_kills_total : F
  pub oom_kills_per_node_total : F
  pub oom_memory_usage_bytes : F
  pub oom_last_timestamp : F
  pub oom_resolution_failures_total : F
  pub oom_events_dropped_total : F
  pub oom_series_evicted_total : F
  pub last_dropped_total : ℕ
  pub last_seen : HashMap SeriesKey ℕ
  pub deleted_after : HashMap (Text × Text) ℕ

module _ (vec : MetricVec) where
  open vec use {Family, create, value, touch, inc_by, set, remove}

  -- `MetricsCollector::new`.
  unfoldable pub new : MetricsCollector Family
  new = record {
    oom_kills_total = create (codes "oom_kills_total") per_container_labels;
    oom_kills_per_node_total = create (codes "oom_kills_per_node_total") (codes "node" ∷ []);
    oom_memory_usage_bytes = create (codes "oom_memory_usage_bytes") (
        codes "node"
        ∷ codes "namespace"
        ∷ codes "pod"
        ∷ codes "container"
        ∷ codes "memory_type"
        ∷ []);
    oom_last_timestamp = create (codes "oom_last_timestamp") per_container_labels;
    oom_resolution_failures_total =
        create (codes "oom_resolution_failures_total") (codes "node" ∷ codes "reason" ∷ []);
    oom_events_dropped_total = create (codes "oom_events_dropped_total") (codes "node" ∷ []);
    oom_series_evicted_total = create (codes "oom_series_evicted_total") (codes "node" ∷ []);
    last_dropped_total = 0;
    last_seen = [];
    deleted_after = [];
  }

  abbrev pub count_failure : Text → Text → MetricsCollector Family → MetricsCollector Family
  count_failure node reason c = record c {
    oom_resolution_failures_total = inc_by (node ∷ reason ∷ []) 1 c.oom_resolution_failures_total;
  }

  unfoldable pub record_resolution_outcome :
      Text → ResolutionOutcome → MetricsCollector Family → MetricsCollector Family
  record_resolution_outcome node (ResolutionOutcome.found id) c = c
  record_resolution_outcome node ResolutionOutcome.not_found c =
      count_failure node (codes "not_found") c
  record_resolution_outcome node (ResolutionOutcome.failed e) c =
      count_failure node (codes "error") c

  -- One round of the memory loop.
  unfoldable pub record_peak : SeriesKey → Text → ℕ → Family → Family
  record_peak k memory_type kilobytes m =
      let gauge = touch (memory_labels k memory_type) m in
      let bytes = bytes_of kilobytes in
      if ltb (or_zero (value gauge (memory_labels k memory_type))) bytes
      then set (memory_labels k memory_type) bytes gauge
      else gauge

  -- The loop over `MEMORY_TYPES` zipped with `memory_values`.
  unfoldable pub record_peaks : SeriesKey → List Text → List ℕ → Family → Family
  record_peaks k [] figures m = m
  record_peaks k (t ∷ ts) [] m = m
  record_peaks k (t ∷ ts) (kb ∷ kbs) m = record_peaks k ts kbs (record_peak k t kb m)

  -- `record_oom_event` in three parts: what comes before the lock, split where the memory gauge
  -- is written, and the entry in `last_seen` that is written under the lock.
  unfoldable pub record_series :
      EnrichedOomEvent → MetricsCollector Family → MetricsCollector Family
  record_series event c = record c {
    oom_kills_total = inc_by (labels (key_of event)) 1 c.oom_kills_total;
    oom_kills_per_node_total =
        inc_by (or_unknown event.node_name ∷ []) 1 c.oom_kills_per_node_total;
    oom_memory_usage_bytes =
        record_peaks (key_of event) memory_types (memory_values event.raw_event)
          c.oom_memory_usage_bytes;
    oom_last_timestamp =
        set (labels (key_of event)) (to_f64 event.timestamp)
          (touch (labels (key_of event)) c.oom_last_timestamp);
  }

  unfoldable pub record_seen : EnrichedOomEvent → MetricsCollector Family → MetricsCollector Family
  record_seen event c = record c { last_seen = insert (key_of event) event.timestamp c.last_seen }

  unfoldable pub record_oom_event :
      EnrichedOomEvent → MetricsCollector Family → MetricsCollector Family
  record_oom_event event c = record_seen event (record_series event c)

  -- `swap` stores the total whatever comes of it; `checked_sub` gives up on a smaller one.
  unfoldable pub record_dropped_total : Text → ℕ → MetricsCollector Family → MetricsCollector Family
  record_dropped_total node total c =
      let swapped = record c { last_dropped_total = total } in
      if ltb total c.last_dropped_total
      then swapped
      else if ltb 0 (total - c.last_dropped_total)
      then record swapped {
        oom_events_dropped_total =
            inc_by (node ∷ []) (to_f64 (total - c.last_dropped_total)) c.oom_events_dropped_total;
      }
      else swapped

  unfoldable pub note_pod_deleted :
      Text → Text → ℕ → MetricsCollector Family → MetricsCollector Family
  note_pod_deleted namespace pod now c = record c {
    deleted_after =
        insert (namespace, pod) (saturating_add now deleted_pod_grace_seconds) c.deleted_after;
  }
