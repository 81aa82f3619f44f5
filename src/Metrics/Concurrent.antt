-- ===== src/Metrics/Concurrent.antt =====
-- oom-watcher/src/metrics.rs under its three callers: the watch loop records without the lock that
-- the sweeper holds, so their calls interleave below the level of a whole call.
pub mod Known
pub mod Steps
pub mod NoLeak
pub mod Whole
mod Tests
use ebpf_oom_watcher.Prelude.{ℕ, not, List, [], ◌∷◌, Text, list_eq, pair_eq, nat_eq}
use ebpf_oom_watcher.Prelude.HashMap.{keys, insert, retain}
use ebpf_oom_watcher.Prelude.Float.{to_f64}
use ebpf_oom_watcher.Common.{EnrichedOomEvent}
use ebpf_oom_watcher.Resolve.{ResolutionOutcome}
use ebpf_oom_watcher.Prometheus.{MetricVec}
use ebpf_oom_watcher.Metrics.Key.{SeriesKey, key_eq, key_of, labels, or_unknown}
use ebpf_oom_watcher.Metrics.Collector.{
  MetricsCollector, memory_types, memory_values, record_peak, note_pod_deleted,
  record_resolution_outcome, record_dropped_total,
}
use ebpf_oom_watcher.Metrics.Evict.{is_stale, is_orphaned, remove_series, take_due}

-- The accesses of `record_oom_event` to what it shares, in the order of the source. Only the last
-- takes a lock.
pub data Access : Type 0 where
  count_kill : SeriesKey → Access
  count_on_node : Text → Access
  raise_peak : SeriesKey → Text → ℕ → Access
  stamp : SeriesKey → ℕ → Access
  see : SeriesKey → ℕ → Access

abbrev pub peaks_of : SeriesKey → List Text → List ℕ → List Access → List Access
peaks_of k [] figures rest = rest
peaks_of k (t ∷ ts) [] rest = rest
peaks_of k (t ∷ ts) (kb ∷ kbs) rest = raise_peak k t kb ∷ peaks_of k ts kbs rest

unfoldable pub accesses_of : EnrichedOomEvent → List Access
accesses_of e =
    count_kill (key_of e)
    ∷ count_on_node (or_unknown e.node_name)
    ∷ peaks_of (key_of e) memory_types (memory_values e.raw_event)
        (stamp (key_of e) e.timestamp ∷ see (key_of e) e.timestamp ∷ [])

-- Where the sweeper is in `evict_stale`: between its two critical sections, with the pods that are
-- due, or in the second, with the keys whose series it has still to remove.
pub data Sweeper : Type 0 where
  idle : Sweeper
  drained : ℕ → ℕ → List (Text × Text) → Sweeper
  removing : List SeriesKey → Sweeper

pub record Threads (F : Type 0) : Type 0 where
  pub collector : MetricsCollector F
  pub pending : List Access
  pub sweeper : Sweeper

-- The lock does not stand in the way of the access.
abbrev IsFree : Access → Sweeper → Type 0
IsFree (see k at) (removing stale) = ⊥
IsFree a w = Unit

module _ (vec : MetricVec) where
  open vec use {Family, inc_by, set, touch}

  unfoldable pub perform : Access → MetricsCollector Family → MetricsCollector Family
  perform (count_kill k) c = record c { oom_kills_total = inc_by (labels k) 1 c.oom_kills_total }
  perform (count_on_node node) c = record c {
    oom_kills_per_node_total = inc_by (node ∷ []) 1 c.oom_kills_per_node_total;
  }
  perform (raise_peak k t kb) c = record c {
    oom_memory_usage_bytes = record_peak vec k t kb c.oom_memory_usage_bytes;
  }
  perform (stamp k at) c = record c {
    oom_last_timestamp = set (labels k) (to_f64 at) (touch (labels k) c.oom_last_timestamp);
  }
  perform (see k at) c = record c { last_seen = insert k at c.last_seen }

  unfoldable pub perform_all : List Access → MetricsCollector Family → MetricsCollector Family
  unfolding perform
  perform_all [] c = c
  perform_all (a ∷ more) c = perform_all more (perform a c)

  -- The entry to the second critical section: what is stale leaves `last_seen`.
  unfoldable pub scan :
      ℕ
      → ℕ
      → List (Text × Text)
      → MetricsCollector Family
      → List SeriesKey × MetricsCollector Family
  scan now ttl due c = (
    keys (retain (is_stale now ttl due) c.last_seen),
    record c { last_seen = retain (λ k seen. not (is_stale now ttl due k seen)) c.last_seen },
  )

  unfoldable pub remove_one : SeriesKey → MetricsCollector Family → MetricsCollector Family
  remove_one key c = remove_series vec key (is_orphaned c.last_seen key) c

  unfoldable pub remove_each : List SeriesKey → MetricsCollector Family → MetricsCollector Family
  unfolding remove_one
  remove_each [] c = c
  remove_each (key ∷ stale) c = remove_each stale (remove_one key c)

  -- The steps of the three tasks. While the sweeper removes it holds the lock on `last_seen`, so
  -- the recorder does not pass its last access; everything else runs free of it. A call of
  -- `with_label_values` and what it does to the series are one step, as are the removals of one key,
  -- which are in different families.
  pub data Step : Threads Family → Threads Family → Type 0 where
    begins :
        (e : EnrichedOomEvent) (c : MetricsCollector Family) (w : Sweeper)
        → Step
            (record { collector = c; pending = []; sweeper = w })
            (record { collector = c; pending = accesses_of e; sweeper = w })
    writes :
        (a : Access) (rest : List Access) (c : MetricsCollector Family) (w : Sweeper)
        → IsFree a w
        → Step
            (record { collector = c; pending = a ∷ rest; sweeper = w })
            (record { collector = perform a c; pending = rest; sweeper = w })
    reports :
        (node : Text) (o : ResolutionOutcome) (t : Threads Family)
        → Step t (record t { collector = record_resolution_outcome vec node o t.collector })
    reads_drops :
        (node : Text) (total : ℕ) (t : Threads Family)
        → Step t (record t { collector = record_dropped_total vec node total t.collector })
    notes :
        (namespace pod : Text) (now : ℕ) (t : Threads Family)
        → Step t (record t { collector = note_pod_deleted vec namespace pod now t.collector })
    drains :
        (now ttl : ℕ) (c : MetricsCollector Family) (p : List Access)
        → Step
            (record { collector = c; pending = p; sweeper = idle })
            (record {
              collector = (take_due vec now c).1;
              pending = p;
              sweeper = drained now ttl (take_due vec now c).0;
            })
    locks :
        (now ttl : ℕ) (due : List (Text × Text)) (c : MetricsCollector Family) (p : List Access)
        → Step
            (record { collector = c; pending = p; sweeper = drained now ttl due })
            (record {
              collector = (scan now ttl due c).1;
              pending = p;
              sweeper = removing (scan now ttl due c).0;
            })
    removes :
        (key : SeriesKey) (stale : List SeriesKey) (c : MetricsCollector Family) (p : List Access)
        → Step
            (record { collector = c; pending = p; sweeper = removing (key ∷ stale) })
            (record { collector = remove_one key c; pending = p; sweeper = removing stale })
    unlocks :
        (c : MetricsCollector Family) (p : List Access)
        → Step
            (record { collector = c; pending = p; sweeper = removing [] })
            (record { collector = c; pending = p; sweeper = idle })
