-- ===== src/Metrics/Race.antt =====
-- oom-watcher/src/metrics.rs: a sweep that runs between the two halves of `record_oom_event`. The
-- recorder writes the series before it takes the lock of `last_seen`, and the sweeper is a task of
-- its own.
use ebpf_oom_watcher.Prelude.{
  ℕ, ◌≡◌, refl, ap, ◌∙◌, true, none, some, arith, list_eq, nat_eq, pair_eq, eq_self,
}
use ebpf_oom_watcher.Prelude.HashMap.{get, get-insert}
use ebpf_oom_watcher.Common.{EnrichedOomEvent}
use ebpf_oom_watcher.Prometheus.{MetricVec}
use ebpf_oom_watcher.Metrics.Key.{key_eq, key_of, labels}
use ebpf_oom_watcher.Metrics.Collector.{MetricsCollector, record_series, record_seen}
use ebpf_oom_watcher.Metrics.Evict.{evict_stale}
use ebpf_oom_watcher.Metrics.Invariant.{IsTracked}
use ebpf_oom_watcher.Metrics.Eviction.{is_expired, evict_stale-is_expired}

module _ (vec : MetricVec) (e : EnrichedOomEvent) (now ttl : ℕ) where
  -- The recorder's writes to the families, then a whole sweep, then its entry in `last_seen`.
  pub record_around_sweep : MetricsCollector vec.Family → MetricsCollector vec.Family
  record_around_sweep c = record_seen vec e (evict_stale vec now ttl (record_series vec e c)).1

module _ (vec : MetricVec) (e : EnrichedOomEvent) (now ttl : ℕ)
    (c : MetricsCollector vec.Family) where
  open vec use {value}

  series_frame :
      ((record_series vec e c).last_seen ≡ c.last_seen)
      × ((record_series vec e c).deleted_after ≡ c.deleted_after)
  unfolding record_series
  series_frame = (refl, refl)

  -- When the container was already tracked and has expired, a sweep between the two halves of
  -- `record_oom_event` deletes the counter that the first half has just advanced, and the second
  -- half then tracks a key that no series stands behind: the invariant is broken and the kill is
  -- not shown.
  pub record_around_sweep_loses_kill :
      {seen : ℕ}
      → IsTracked vec c
      → get (key_of e) c.last_seen ≡ some seen
      → is_expired now ttl c (key_of e) seen ≡ true
      → (value (record_around_sweep vec e now ttl c).oom_kills_total (labels (key_of e)) ≡ none)
        × (get (key_of e) (record_around_sweep vec e now ttl c).last_seen ≡ some e.timestamp)
        × ¬ IsTracked vec (record_around_sweep vec e now ttl c)
  unfolding record_around_sweep record_seen
  record_around_sweep_loses_kill {seen} v tracked expired =
      let half = record_series vec e c in
      let swept =
        evict_stale-is_expired vec now ttl half (rw series_frame.0 v.distinct)
          (rw series_frame.1 v.pods_distinct) (key_of e) {seen = seen}
          (ap (get (key_of e)) series_frame.0 ∙ tracked) in
      let gone : value (evict_stale vec now ttl half).1.oom_kills_total (labels (key_of e)) ≡ none =
        swept.0
        ∙ ground (arith, ap (λ m. get ((key_of e).namespace, (key_of e).pod) m) series_frame.1) in
      let again =
        get-insert (key_of e) (key_of e) e.timestamp (evict_stale vec now ttl half).1.last_seen in
      (
        gone,
        ground (arith, again, eq_self (key_of e)),
        λ w. ground (arith, again, eq_self (key_of e), w.kills (key_of e), gone),
      )
