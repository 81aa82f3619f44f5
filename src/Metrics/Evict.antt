-- ===== src/Metrics/Evict.antt =====
-- oom-watcher/src/metrics.rs, `MetricsCollector::evict_stale`: the sweep that bounds cardinality.
use ebpf_oom_watcher.Prelude.{
  ℕ, ◌-◌, Bool, ◌||◌, ◌&&◌, not, List, [], ◌∷◌, Text, ltb, leb, if◌then◌else◌, ◌==◌, nat_eq,
  list_eq, pair_eq, any, length,
}
use ebpf_oom_watcher.Prelude.HashMap.{HashMap, keys, drain}
use ebpf_oom_watcher.Prometheus.{MetricVec}
use ebpf_oom_watcher.Metrics.Key.{
  SeriesKey, key_eq, labels, memory_labels, shares_memory_series_with,
}
use ebpf_oom_watcher.Metrics.Collector.{MetricsCollector, memory_types}

-- `now >= removable_at`: a deleted pod's grace has passed.
abbrev pub is_due : ℕ → Text × Text → ℕ → Bool
is_due now pod removable_at = not (ltb now removable_at)

-- The test of the sweep over `last_seen`.
unfoldable pub is_stale : ℕ → ℕ → List (Text × Text) → SeriesKey → ℕ → Bool
is_stale now ttl_secs due key seen =
    leb ttl_secs (now - seen)
    || any (λ (pod : Text × Text). key.namespace == pod.0 && key.pod == pod.1) due

-- `!last_seen.keys().any(|live| live.shares_memory_series_with(key))`
unfoldable pub is_orphaned : HashMap SeriesKey ℕ → SeriesKey → Bool
is_orphaned live key = not (any (λ k. shares_memory_series_with k key) (keys live))

module _ (vec : MetricVec) where
  open vec use {Family, inc_by, remove}

  -- The loop over `MEMORY_TYPES` in `remove_series`.
  unfoldable pub remove_memory : SeriesKey → List Text → Family → Family
  remove_memory key [] m = m
  remove_memory key (t ∷ ts) m = remove_memory key ts (remove (memory_labels key t) m)

  unfoldable pub remove_series :
      SeriesKey → Bool → MetricsCollector Family → MetricsCollector Family
  remove_series key memory_series_orphaned c = record c {
    oom_kills_total = remove (labels key) c.oom_kills_total;
    oom_last_timestamp = remove (labels key) c.oom_last_timestamp;
    oom_memory_usage_bytes =
        if memory_series_orphaned
        then remove_memory key memory_types c.oom_memory_usage_bytes
        else c.oom_memory_usage_bytes;
    oom_series_evicted_total = inc_by (key.node ∷ []) 1 c.oom_series_evicted_total;
  }

  -- The loop over the stale keys; `live` is the map after the sweep.
  unfoldable pub remove_stale :
      HashMap SeriesKey ℕ → List SeriesKey → MetricsCollector Family → MetricsCollector Family
  remove_stale live [] c = c
  remove_stale live (key ∷ stale) c =
      remove_stale live stale (remove_series key (is_orphaned live key) c)

  -- The first critical section: the pods that are due leave `deleted_after`.
  unfoldable pub take_due :
      ℕ → MetricsCollector Family → List (Text × Text) × MetricsCollector Family
  take_due now c =
      let (due, pending) = drain (is_due now) c.deleted_after in
      (due, record c { deleted_after = pending })

  -- The second: the sweep of `last_seen` and the removals, under its lock.
  unfoldable pub sweep :
      ℕ → ℕ → List (Text × Text) → MetricsCollector Family → ℕ × MetricsCollector Family
  sweep now ttl_secs due c =
      let (stale, live) = drain (is_stale now ttl_secs due) c.last_seen in
      (length stale, remove_stale live stale (record c { last_seen = live }))

  unfoldable pub evict_stale : ℕ → ℕ → MetricsCollector Family → ℕ × MetricsCollector Family
  evict_stale now ttl_secs c = let (due, drained) = take_due now c in sweep now ttl_secs due drained
