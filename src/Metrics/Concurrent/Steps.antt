-- ===== src/Metrics/Concurrent/Steps.antt =====
-- oom-watcher/src/metrics.rs: no step of the three tasks leaves a series that nobody knows of.
use ebpf_oom_watcher.Prelude.{
  ℕ, refl, List, [], ◌∷◌, Text, ◌==◌, list_eq, pair_eq, nat_eq, any_of_In, arith,
}
use ebpf_oom_watcher.Prelude.HashMap.{any-keys-insert, any-keys-retain}
use ebpf_oom_watcher.Prelude.Float.{to_f64}
use ebpf_oom_watcher.Common.{EnrichedOomEvent}
use ebpf_oom_watcher.Resolve.{ResolutionOutcome}
use ebpf_oom_watcher.Prometheus.{MetricVec}
use ebpf_oom_watcher.Metrics.Key.{
  SeriesKey, key_eq, labels, labels_beq, memory_labels, memory_labels_beq,
  shares_memory_series_with,
}
use ebpf_oom_watcher.Metrics.Collector.{
  MetricsCollector, memory_types, note_pod_deleted, record_resolution_outcome, record_dropped_total,
}
use ebpf_oom_watcher.Metrics.Evict.{is_stale, remove_series, take_due}
use ebpf_oom_watcher.Metrics.Tracked.Record.{is_some-record_peak}
use ebpf_oom_watcher.Metrics.Tracked.Sweep.{value-remove_memory, orphaned_sharer}
use ebpf_oom_watcher.Metrics.Concurrent.{
  Access, count_kill, count_on_node, raise_peak, stamp, see, accesses_of, Sweeper, idle, drained,
  removing, Threads, perform, scan, remove_one, Step, begins, writes, reports, reads_drops, notes,
  drains, locks, removes, unlocks,
}
use ebpf_oom_watcher.Metrics.Concurrent.Known.{seen_keys, accesses_of-Ahead, NoLeak, NoLeak-frame}

module _ (vec : MetricVec) where
  open vec use {
    Family, value, set, touch, value-create, value-inc_by, value-set, value-touch, value-remove,
  }

  removes-NoLeak :
      (key : SeriesKey) (stale : List SeriesKey) (c : MetricsCollector Family) (p : List Access)
      → NoLeak vec c p (removing (key ∷ stale))
      → NoLeak vec (remove_one vec key c) p (removing stale)
  unfolding remove_one remove_series
  removes-NoLeak key stale c p v = record {
    ahead = v.ahead;
    kills = λ k h. ground (
      arith,
      v.kills k,
      value-remove (labels key) (labels k) c.oom_kills_total,
      labels_beq key k,
    );
    timestamps = λ k h. ground (
      arith,
      v.timestamps k,
      value-remove (labels key) (labels k) c.oom_last_timestamp,
      labels_beq key k,
    );
    memory = λ k t m h. ground (
      arith,
      v.memory k t m,
      value-remove_memory vec key k t memory_types c.oom_memory_usage_bytes,
      orphaned_sharer vec key k c.last_seen,
    );
  }

  count_kill-NoLeak :
      (j : SeriesKey) (rest : List Access) (c : MetricsCollector Family) (w : Sweeper)
      → NoLeak vec c (count_kill j ∷ rest) w
      → NoLeak vec (perform vec (count_kill j) c) rest w
  unfolding perform
  count_kill-NoLeak j rest c w v = record {
    ahead = v.ahead.1;
    kills = λ k h. ground (
      arith,
      v.kills k,
      value-inc_by (labels j) (labels k) 1 c.oom_kills_total,
      labels_beq j k,
      any_of_In (λ i. i == k) (seen_keys rest) j v.ahead.0,
    );
    timestamps = v.timestamps;
    memory = v.memory;
  }

  stamp-NoLeak :
      (j : SeriesKey) (at : ℕ) (rest : List Access) (c : MetricsCollector Family) (w : Sweeper)
      → NoLeak vec c (stamp j at ∷ rest) w
      → NoLeak vec (perform vec (stamp j at) c) rest w
  unfolding perform
  stamp-NoLeak j at rest c w v = record {
    ahead = v.ahead.1;
    kills = v.kills;
    timestamps = λ k h. ground (
      arith,
      v.timestamps k,
      value-set (labels j) (labels k) (to_f64 at) (touch (labels j) c.oom_last_timestamp),
      value-touch (labels j) (labels k) c.oom_last_timestamp,
      labels_beq j k,
      any_of_In (λ i. i == k) (seen_keys rest) j v.ahead.0,
    );
    memory = v.memory;
  }

  raise_peak-NoLeak :
      (j : SeriesKey) (s : Text) (kb : ℕ) (rest : List Access) (c : MetricsCollector Family)
      (w : Sweeper)
      → NoLeak vec c (raise_peak j s kb ∷ rest) w
      → NoLeak vec (perform vec (raise_peak j s kb) c) rest w
  unfolding perform
  raise_peak-NoLeak j s kb rest c w v = record {
    ahead = v.ahead.1;
    kills = v.kills;
    timestamps = v.timestamps;
    memory = λ k t m h. ground (
      arith,
      v.memory k t m,
      is_some-record_peak vec j s kb c.oom_memory_usage_bytes (memory_labels k t),
      memory_labels_beq j k s t,
      any_of_In (λ i. shares_memory_series_with i k) (seen_keys rest) j v.ahead.0,
    );
  }

  writes-NoLeak :
      (a : Access) (rest : List Access) (c : MetricsCollector Family) (w : Sweeper)
      → NoLeak vec c (a ∷ rest) w
      → NoLeak vec (perform vec a c) rest w
  writes-NoLeak (count_kill k) rest c w v = count_kill-NoLeak k rest c w v
  writes-NoLeak (raise_peak k t kb) rest c w v = raise_peak-NoLeak k t kb rest c w v
  writes-NoLeak (stamp k at) rest c w v = stamp-NoLeak k at rest c w v
  writes-NoLeak (count_on_node node) rest c w v =
      unfold perform in
      NoLeak-frame vec c (perform vec (count_on_node node) c) (count_on_node node ∷ rest) rest w w
        v.ahead refl refl refl (λ test h. h) v
  writes-NoLeak (see k at) rest c w v =
      unfold perform in
      NoLeak-frame vec c (perform vec (see k at) c) (see k at ∷ rest) rest w w v.ahead refl refl
        refl (λ test h. ground (arith, any-keys-insert test k at c.last_seen)) v

  locks-NoLeak :
      (now ttl : ℕ) (due : List (Text × Text)) (c : MetricsCollector Family) (p : List Access)
      → NoLeak vec c p (drained now ttl due)
      → NoLeak vec (scan vec now ttl due c).1 p (removing (scan vec now ttl due c).0)
  unfolding scan
  locks-NoLeak now ttl due c p v =
      NoLeak-frame vec c (scan vec now ttl due c).1 p p (drained now ttl due)
        (removing (scan vec now ttl due c).0) v.ahead refl refl refl
        (λ test h. ground (arith, any-keys-retain test (is_stale now ttl due) c.last_seen)) v

  begins-NoLeak :
      (e : EnrichedOomEvent) (c : MetricsCollector Family) (w : Sweeper)
      → NoLeak vec c [] w
      → NoLeak vec c (accesses_of e) w
  begins-NoLeak e c w v =
      NoLeak-frame vec c c [] (accesses_of e) w w (accesses_of-Ahead e) refl refl refl
        (λ test h. ground arith) v

  reports-NoLeak :
      (node : Text) (o : ResolutionOutcome) (c : MetricsCollector Family) (p : List Access)
      (w : Sweeper)
      → NoLeak vec c p w
      → NoLeak vec (record_resolution_outcome vec node o c) p w
  unfolding record_resolution_outcome
  reports-NoLeak node (ResolutionOutcome.found id) c p w v = v
  reports-NoLeak node o c p w v =
      NoLeak-frame vec c (record_resolution_outcome vec node o c) p p w w v.ahead refl refl refl
        (λ test h. h) v

  drops-NoLeak :
      (node : Text) (total : ℕ) (c : MetricsCollector Family) (p : List Access) (w : Sweeper)
      → NoLeak vec c p w
      → NoLeak vec (record_dropped_total vec node total c) p w
  unfolding record_dropped_total
  drops-NoLeak node total c p w v =
      NoLeak-frame vec c (record_dropped_total vec node total c) p p w w v.ahead (ground arith)
        (ground arith) (ground arith) (λ test h. ground arith) v

  pub Step-NoLeak :
      {s t : Threads Family}
      → Step vec s t
      → NoLeak vec s.collector s.pending s.sweeper
      → NoLeak vec t.collector t.pending t.sweeper
  Step-NoLeak (begins e c w) v = begins-NoLeak e c w v
  Step-NoLeak (writes a rest c w free) v = writes-NoLeak a rest c w v
  Step-NoLeak (reports node o t) v = reports-NoLeak node o t.collector t.pending t.sweeper v
  Step-NoLeak (reads_drops node total t) v =
      drops-NoLeak node total t.collector t.pending t.sweeper v
  Step-NoLeak (notes namespace pod now t) v =
      unfold note_pod_deleted in
      NoLeak-frame vec t.collector (note_pod_deleted vec namespace pod now t.collector) t.pending
        t.pending t.sweeper t.sweeper v.ahead refl refl refl (λ test h. h) v
  Step-NoLeak (drains now ttl c p) v =
      unfold take_due in
      NoLeak-frame vec c (take_due vec now c).1 p p idle (drained now ttl (take_due vec now c).0)
        v.ahead refl refl refl (λ test h. h) v
  Step-NoLeak (locks now ttl due c p) v = locks-NoLeak now ttl due c p v
  Step-NoLeak (removes key stale c p) v = removes-NoLeak key stale c p v
  Step-NoLeak (unlocks c p) v =
      NoLeak-frame vec c c p p (removing []) idle v.ahead refl refl refl (λ test h. h) v
