-- ===== src/Metrics/Order.antt =====
-- oom-watcher/src/metrics.rs: the order of the two hash maps, which Rust leaves open, has no effect.
pub mod Swept
pub mod Scrape
mod Tests
use ebpf_oom_watcher.Prelude.{
  ℕ, ◌-◌, ◌≡◌, List, [], ◌∷◌, Text, list_eq, pair_eq, nat_eq, arith, codes,
}
use ebpf_oom_watcher.Prelude.HashMap.{Distinct, insert-Distinct}
use ebpf_oom_watcher.Prelude.SameMap.{SameMap, insert-SameMap}
use ebpf_oom_watcher.Prelude.Float.{to_f64}
use ebpf_oom_watcher.Common.{EnrichedOomEvent}
use ebpf_oom_watcher.Resolve.{ResolutionOutcome}
use ebpf_oom_watcher.Prometheus.{MetricVec}
use ebpf_oom_watcher.Metrics.Key.{SeriesKey, key_eq, key_of, labels, memory_labels, or_unknown}
use ebpf_oom_watcher.Metrics.Collector.{
  MetricsCollector, memory_types, memory_values, bytes_of, count_failure, record_resolution_outcome,
  record_peak, record_peaks, record_oom_event, record_series, record_seen, record_dropped_total,
  note_pod_deleted, saturating_add, deleted_pod_grace_seconds,
}

module _ (vec : MetricVec) where
  open vec use {
    Family, value, touch, inc_by, set, remove, value-touch, value-inc_by, value-set, value-remove,
  }

  -- Two families that a scrape does not tell apart.
  abbrev SameFamily : Family → Family → Type 0
  SameFamily x y = (l : List Text) → value x l ≡ value y l

  -- Two collectors that show the same, and whose maps have the same entries in whatever order.
  pub record Alike (c d : MetricsCollector Family) : Type 0 where
    pub kills : SameFamily c.oom_kills_total d.oom_kills_total
    pub on_node : SameFamily c.oom_kills_per_node_total d.oom_kills_per_node_total
    pub memory : SameFamily c.oom_memory_usage_bytes d.oom_memory_usage_bytes
    pub timestamps : SameFamily c.oom_last_timestamp d.oom_last_timestamp
    pub failures : SameFamily c.oom_resolution_failures_total d.oom_resolution_failures_total
    pub drops : SameFamily c.oom_events_dropped_total d.oom_events_dropped_total
    pub evicted : SameFamily c.oom_series_evicted_total d.oom_series_evicted_total
    pub total : c.last_dropped_total ≡ d.last_dropped_total
    pub seen : SameMap c.last_seen d.last_seen
    pub deleted : SameMap c.deleted_after d.deleted_after
    pub distinct : Distinct c.last_seen × Distinct d.last_seen
    pub pods_distinct : Distinct c.deleted_after × Distinct d.deleted_after

  inc_by-SameFamily :
      (k : List Text) (v : ℕ) (x y : Family)
      → SameFamily x y
      → SameFamily (inc_by k v x) (inc_by k v y)
  inc_by-SameFamily k v x y h l =
      ground (arith, value-inc_by k l v x, value-inc_by k l v y, h k, h l)

  touch-SameFamily :
      (k : List Text) (x y : Family) → SameFamily x y → SameFamily (touch k x) (touch k y)
  touch-SameFamily k x y h l = ground (arith, value-touch k l x, value-touch k l y, h k, h l)

  set-SameFamily :
      (k : List Text) (v : ℕ) (x y : Family) → SameFamily x y → SameFamily (set k v x) (set k v y)
  set-SameFamily k v x y h l = ground (arith, value-set k l v x, value-set k l v y, h l)

  record_peak-SameFamily :
      (k : SeriesKey) (t : Text) (kb : ℕ) (x y : Family)
      → SameFamily x y
      → SameFamily (record_peak vec k t kb x) (record_peak vec k t kb y)
  unfolding record_peak
  record_peak-SameFamily k t kb x y h l =
      let key = memory_labels k t in
      let touched = touch-SameFamily key x y h in
      ground (
        arith,
        touched key,
        touched l,
        set-SameFamily key (bytes_of kb) (touch key x) (touch key y) touched l,
      )

  record_peaks-SameFamily :
      (k : SeriesKey) (ts : List Text) (kbs : List ℕ) (x y : Family)
      → SameFamily x y
      → SameFamily (record_peaks vec k ts kbs x) (record_peaks vec k ts kbs y)
  unfolding record_peaks
  record_peaks-SameFamily k [] kbs x y h = h
  record_peaks-SameFamily k (t ∷ ts) [] x y h = h
  record_peaks-SameFamily k (t ∷ ts) (kb ∷ kbs) x y h =
      record_peaks-SameFamily k ts kbs (record_peak vec k t kb x) (record_peak vec k t kb y)
        (record_peak-SameFamily k t kb x y h)

  pub record_oom_event-Alike :
      (e : EnrichedOomEvent) (c d : MetricsCollector Family)
      → Alike c d
      → Alike (record_oom_event vec e c) (record_oom_event vec e d)
  unfolding record_oom_event record_seen record_series
  record_oom_event-Alike e c d a =
      let key = labels (key_of e) in
      record {
        kills = inc_by-SameFamily key 1 c.oom_kills_total d.oom_kills_total a.kills;
        on_node =
            inc_by-SameFamily (or_unknown e.node_name ∷ []) 1 c.oom_kills_per_node_total
              d.oom_kills_per_node_total a.on_node;
        memory =
            record_peaks-SameFamily (key_of e) memory_types (memory_values e.raw_event)
              c.oom_memory_usage_bytes d.oom_memory_usage_bytes a.memory;
        timestamps =
            set-SameFamily key (to_f64 e.timestamp) (touch key c.oom_last_timestamp)
              (touch key d.oom_last_timestamp)
              (touch-SameFamily key c.oom_last_timestamp d.oom_last_timestamp a.timestamps);
        failures = a.failures;
        drops = a.drops;
        evicted = a.evicted;
        total = a.total;
        seen = insert-SameMap (key_of e) e.timestamp c.last_seen d.last_seen a.seen;
        deleted = a.deleted;
        distinct = (
          insert-Distinct (key_of e) e.timestamp c.last_seen a.distinct.0,
          insert-Distinct (key_of e) e.timestamp d.last_seen a.distinct.1,
        );
        pods_distinct = a.pods_distinct;
      }

  count_failure-Alike :
      (node reason : Text) (c d : MetricsCollector Family)
      → Alike c d
      → Alike (count_failure vec node reason c) (count_failure vec node reason d)
  count_failure-Alike node reason c d a = record {
    kills = a.kills;
    on_node = a.on_node;
    memory = a.memory;
    timestamps = a.timestamps;
    failures =
        inc_by-SameFamily (node ∷ reason ∷ []) 1 c.oom_resolution_failures_total
          d.oom_resolution_failures_total a.failures;
    drops = a.drops;
    evicted = a.evicted;
    total = a.total;
    seen = a.seen;
    deleted = a.deleted;
    distinct = a.distinct;
    pods_distinct = a.pods_distinct;
  }

  pub record_resolution_outcome-Alike :
      (node : Text) (o : ResolutionOutcome) (c d : MetricsCollector Family)
      → Alike c d
      → Alike (record_resolution_outcome vec node o c) (record_resolution_outcome vec node o d)
  unfolding record_resolution_outcome
  record_resolution_outcome-Alike node (ResolutionOutcome.found id) c d a = a
  record_resolution_outcome-Alike node ResolutionOutcome.not_found c d a =
      count_failure-Alike node (codes "not_found") c d a
  record_resolution_outcome-Alike node (ResolutionOutcome.failed e) c d a =
      count_failure-Alike node (codes "error") c d a

  pub note_pod_deleted-Alike :
      (namespace pod : Text) (now : ℕ) (c d : MetricsCollector Family)
      → Alike c d
      → Alike (note_pod_deleted vec namespace pod now c) (note_pod_deleted vec namespace pod now d)
  unfolding note_pod_deleted
  note_pod_deleted-Alike namespace pod now c d a =
      let key : Text × Text = (namespace, pod) in
      let at = saturating_add now deleted_pod_grace_seconds in
      record {
        kills = a.kills;
        on_node = a.on_node;
        memory = a.memory;
        timestamps = a.timestamps;
        failures = a.failures;
        drops = a.drops;
        evicted = a.evicted;
        total = a.total;
        seen = a.seen;
        deleted = insert-SameMap key at c.deleted_after d.deleted_after a.deleted;
        distinct = a.distinct;
        pods_distinct = (
          insert-Distinct key at c.deleted_after a.pods_distinct.0,
          insert-Distinct key at d.deleted_after a.pods_distinct.1,
        );
      }

  dropped-SameFamily :
      (node : Text) (total : ℕ) (c d : MetricsCollector Family)
      → Alike c d
      → SameFamily
          (record_dropped_total vec node total c).oom_events_dropped_total
          (record_dropped_total vec node total d).oom_events_dropped_total
  unfolding record_dropped_total
  dropped-SameFamily node total c d a l = ground (
    arith,
    a.total,
    a.drops l,
    inc_by-SameFamily (node ∷ []) (to_f64 (total - c.last_dropped_total)) c.oom_events_dropped_total
        d.oom_events_dropped_total a.drops l,
  )

  pub record_dropped_total-Alike :
      (node : Text) (total : ℕ) (c d : MetricsCollector Family)
      → Alike c d
      → Alike (record_dropped_total vec node total c) (record_dropped_total vec node total d)
  unfolding record_dropped_total
  record_dropped_total-Alike node total c d a = record {
    kills = λ k. ground (arith, a.kills k);
    on_node = λ k. ground (arith, a.on_node k);
    memory = λ k. ground (arith, a.memory k);
    timestamps = λ k. ground (arith, a.timestamps k);
    failures = λ k. ground (arith, a.failures k);
    drops = dropped-SameFamily node total c d a;
    evicted = λ k. ground (arith, a.evicted k);
    total = ground arith;
    seen = λ k. ground (arith, a.seen k);
    deleted = λ k. ground (arith, a.deleted k);
    distinct = (ground (arith, a.distinct), ground (arith, a.distinct));
    pods_distinct = (ground (arith, a.pods_distinct), ground (arith, a.pods_distinct));
  }
