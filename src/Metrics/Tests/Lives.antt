-- ===== src/Metrics/Tests/Lives.antt =====
-- One container among others, and the size of the maps: the theorems on metrics.rs applied to them.
use ebpf_oom_watcher.Prelude.{
  ℕ, ◌+◌, ◌≡◌, refl, ◌⊎◌, inl, inr, List, [], ◌∷◌, Option, none, some, Text, list_eq, pair_eq,
  nat_eq, codes, length, arith, foldl, ◌≤◌, if◌then◌else◌,
}
use ebpf_oom_watcher.Prometheus.Sample.{sample_vec}
use ebpf_oom_watcher.Metrics.Key.{SeriesKey, key_eq, key_of, labels, memory_labels}
use ebpf_oom_watcher.Metrics.Evict.{evict_stale}
use ebpf_oom_watcher.Metrics.History.{Call, event, pod_deleted, evict, run_calls}
use ebpf_oom_watcher.Metrics.Life.{live_on, life_of, run_calls-life}
use ebpf_oom_watcher.Metrics.Bound.{evict_stale-length}
use ebpf_oom_watcher.Metrics.Tests.{web, later, history, after_history, with_sweep, tracked}

abbrev with_deletion : List Call
with_deletion = pod_deleted (codes "shop") (codes "web-0") 1200 ∷ evict 1600 1800 ∷ []

run_calls-life_example :
    life_of sample_vec (key_of web) (run_calls sample_vec with_sweep after_history)
    ≡ foldl (live_on (key_of web)) (life_of sample_vec (key_of web) after_history) with_sweep
run_calls-life_example = run_calls-life sample_vec (key_of web) with_sweep after_history tracked

-- The same machine on its own: two kills, and the sweep that the deletion of the pod brings.
life_ends :
    foldl
      (live_on (key_of web))
      (record { kills = none; stamp = none; seen = none; deadline = none })
      (event web ∷ event later ∷ with_deletion)
    ≡ record { kills = none; stamp = none; seen = none; deadline = none }
unfolding key_of ebpf_oom_watcher.Metrics.Key.key_beq ebpf_oom_watcher.Prelude.list_beq
    ebpf_oom_watcher.Prelude.pair_beq ebpf_oom_watcher.Prelude.Float.f64_add
    ebpf_oom_watcher.Prelude.Float.to_f64
life_ends = refl

evict_stale-length_example :
    (length (evict_stale sample_vec 3000 1800 after_history).1.last_seen ≤ 1)
    × (length (evict_stale sample_vec 3000 1800 after_history).1.deleted_after ≤ 0)
evict_stale-length_example = evict_stale-length sample_vec history 3000 1800
