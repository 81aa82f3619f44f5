-- ===== src/Metrics/Tracked/Sweep/Removal.antt =====
-- oom-watcher/src/metrics.rs, `remove_series` and the second half of `evict_stale`: which series go.
use ebpf_oom_watcher.Prelude.{
  ℕ, ◌≡◌, refl, ◌&&◌, not, List, [], ◌∷◌, none, arith, Text, if◌then◌else◌, ◌==◌, list_eq, pair_eq,
  nat_eq, any, Bool-cases, inl, inr,
}
use ebpf_oom_watcher.Prelude.HashMap.{HashMap}
use ebpf_oom_watcher.Prometheus.{MetricVec}
use ebpf_oom_watcher.Metrics.Key.{
  SeriesKey, key_eq, labels, memory_labels, shares_memory_series_with, labels_beq,
  memory_labels_beq,
}
use ebpf_oom_watcher.Metrics.Collector.{MetricsCollector, memory_types}
use ebpf_oom_watcher.Metrics.Evict.{is_orphaned, remove_memory, remove_series, remove_stale}
use ebpf_oom_watcher.Metrics.Invariant.{has_sharer, has_sharer_trans}

module _ (vec : MetricVec) where
  open vec use {Family, value, remove, value-remove}

  pub value-remove_memory :
      (s k : SeriesKey) (t : Text) (ts : List Text) (m : Family)
      → value (remove_memory vec s ts m) (memory_labels k t) ≡ (
          if shares_memory_series_with s k && any (λ u. u == t) ts
          then none
          else value m (memory_labels k t))
  unfolding remove_memory
  value-remove_memory s k t [] m = ground arith
  value-remove_memory s k t (u ∷ ts) m = ground (
    arith,
    value-remove_memory s k t ts (remove (memory_labels s u) m),
    value-remove (memory_labels s u) (memory_labels k t) m,
    memory_labels_beq s k u t,
  )

  -- The per-container counter and timestamp lose the series of the listed keys.
  pub value-remove_stale_kills :
      (live : HashMap SeriesKey ℕ) (stale : List SeriesKey) (c : MetricsCollector Family)
      (k : SeriesKey)
      → value (remove_stale vec live stale c).oom_kills_total (labels k)
        ≡ (if any (λ s. s == k) stale then none else value c.oom_kills_total (labels k))
  unfolding remove_stale remove_series
  value-remove_stale_kills live [] c k = refl
  value-remove_stale_kills live (s ∷ stale) c k = ground (
    arith,
    value-remove_stale_kills live stale (remove_series vec s (is_orphaned live s) c) k,
    value-remove (labels s) (labels k) c.oom_kills_total,
    labels_beq s k,
  )

  pub value-remove_stale_timestamps :
      (live : HashMap SeriesKey ℕ) (stale : List SeriesKey) (c : MetricsCollector Family)
      (k : SeriesKey)
      → value (remove_stale vec live stale c).oom_last_timestamp (labels k)
        ≡ (if any (λ s. s == k) stale then none else value c.oom_last_timestamp (labels k))
  unfolding remove_stale remove_series
  value-remove_stale_timestamps live [] c k = refl
  value-remove_stale_timestamps live (s ∷ stale) c k = ground (
    arith,
    value-remove_stale_timestamps live stale (remove_series vec s (is_orphaned live s) c) k,
    value-remove (labels s) (labels k) c.oom_last_timestamp,
    labels_beq s k,
  )

  pub orphaned_sharer :
      (s k : SeriesKey) (live : HashMap SeriesKey ℕ)
      → (shares_memory_series_with s k && is_orphaned live s)
        ≡ (shares_memory_series_with s k && not (has_sharer k live))
  unfolding is_orphaned
  orphaned_sharer s k live = elim (Bool-cases (shares_memory_series_with s k)) [
    | inl h ↦ rw (h, has_sharer_trans s k live h)
    | inr h ↦ rw h
  ]

  -- A memory series goes when a listed key shares it and no live one does.
  pub value-remove_stale_memory :
      (live : HashMap SeriesKey ℕ) (stale : List SeriesKey) (c : MetricsCollector Family)
      (k : SeriesKey) (t : Text)
      → value (remove_stale vec live stale c).oom_memory_usage_bytes (memory_labels k t) ≡ (
          if any (λ s. shares_memory_series_with s k) stale
            && not (has_sharer k live)
            && any (λ u. u == t) memory_types
          then none
          else value c.oom_memory_usage_bytes (memory_labels k t))
  unfolding remove_stale remove_series
  value-remove_stale_memory live [] c k t = refl
  value-remove_stale_memory live (s ∷ stale) c k t = ground (
    arith,
    value-remove_stale_memory live stale (remove_series vec s (is_orphaned live s) c) k t,
    value-remove_memory s k t memory_types c.oom_memory_usage_bytes,
    orphaned_sharer s k live,
  )

  pub last_seen-remove_stale :
      (live : HashMap SeriesKey ℕ) (stale : List SeriesKey) (c : MetricsCollector Family)
      → (remove_stale vec live stale c).last_seen ≡ c.last_seen
  unfolding remove_stale remove_series
  last_seen-remove_stale live [] c = refl
  last_seen-remove_stale live (s ∷ stale) c =
      last_seen-remove_stale live stale (remove_series vec s (is_orphaned live s) c)

  pub deleted_after-remove_stale :
      (live : HashMap SeriesKey ℕ) (stale : List SeriesKey) (c : MetricsCollector Family)
      → (remove_stale vec live stale c).deleted_after ≡ c.deleted_after
  unfolding remove_stale remove_series
  deleted_after-remove_stale live [] c = refl
  deleted_after-remove_stale live (s ∷ stale) c =
      deleted_after-remove_stale live stale (remove_series vec s (is_orphaned live s) c)
