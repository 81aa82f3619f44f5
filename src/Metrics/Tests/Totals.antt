-- ===== src/Metrics/Tests/Totals.antt =====
-- The totals of one collector on concrete events: the theorems on metrics.rs applied to them.
use ebpf_oom_watcher.Prelude.{
  ℕ, ◌+◌, ◌≡◌, refl, ◌⊎◌, inl, inr, List, [], ◌∷◌, Option, none, some, Text, list_eq, pair_eq,
  nat_eq, codes, length, arith, if◌then◌else◌,
}
use ebpf_oom_watcher.Prelude.HashMap.{get, keys}
use ebpf_oom_watcher.Prometheus.{or_zero}
use ebpf_oom_watcher.Prometheus.Sample.{sample_vec}
use ebpf_oom_watcher.Metrics.Key.{SeriesKey, key_eq, key_of, labels, memory_labels}
use ebpf_oom_watcher.Metrics.Collector.{MetricsCollector, new, note_pod_deleted, record_oom_event}
use ebpf_oom_watcher.Metrics.Evict.{evict_stale}
use ebpf_oom_watcher.Metrics.History.{
  Call, outcome, event, dropped, pod_deleted, evict, run_calls, history-IsTracked,
  pod_deleted-IsTracked,
}
use ebpf_oom_watcher.Metrics.Peak.{peak_history}
use ebpf_oom_watcher.Metrics.Drops.{read_totals, read_totals-dip, drop_total}
use ebpf_oom_watcher.Metrics.Tally.{evict_stale-tally, evicted_total, keys_on}
use ebpf_oom_watcher.Metrics.Tests.{web, empty, history, after_history}

peak_history_example :
    or_zero (
      sample_vec.value after_history.oom_memory_usage_bytes
        (memory_labels (key_of web) (codes "anon_rss")))
    ≡ 819200
unfolding ebpf_oom_watcher.Metrics.Key.shares_memory_series_with ebpf_oom_watcher.Prelude.list_beq
    key_of new ebpf_oom_watcher.Metrics.Collector.bytes_of ebpf_oom_watcher.Prelude.Float.to_f64
peak_history_example = peak_history sample_vec (key_of web) (codes "anon_rss") history empty tt

evict_stale-tally_example :
    ((evict_stale sample_vec 3000 1800 after_history).0
        + length (evict_stale sample_vec 3000 1800 after_history).1.last_seen
      ≡ 2)
    × (evicted_total sample_vec (codes "n1") (evict_stale sample_vec 3000 1800 after_history).1
          + keys_on (codes "n1") (keys (evict_stale sample_vec 3000 1800 after_history).1.last_seen)
        ≡ 2)
unfolding run_calls ebpf_oom_watcher.Metrics.History.apply record_oom_event
    ebpf_oom_watcher.Metrics.Collector.record_seen ebpf_oom_watcher.Prelude.HashMap.insert
    ebpf_oom_watcher.Metrics.Collector.record_series new ebpf_oom_watcher.Metrics.Key.key_beq
    ebpf_oom_watcher.Prelude.list_beq key_of
evict_stale-tally_example =
    evict_stale-tally sample_vec (codes "n1") 3000 1800 after_history (ground arith)

-- The source's total reads 8, then 3, then 8 again.
read_totals-dip_example :
    drop_total sample_vec (codes "n1") (
      read_totals sample_vec
        (codes "n1")
        (3 ∷ 8 ∷ [])
        (run_calls sample_vec (dropped (codes "n1") 8 ∷ []) empty))
    ≡ 13
unfolding run_calls ebpf_oom_watcher.Metrics.History.apply new
    ebpf_oom_watcher.Metrics.Collector.record_dropped_total ebpf_oom_watcher.Prelude.list_beq
    ebpf_oom_watcher.Prelude.Float.to_f64 ebpf_oom_watcher.Prelude.Float.f64_add
read_totals-dip_example =
    read_totals-dip sample_vec (codes "n1") 3
      (run_calls sample_vec (dropped (codes "n1") 8 ∷ []) empty) (ground arith) (ground arith)
