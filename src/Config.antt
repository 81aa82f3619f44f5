-- ===== src/Config.antt =====
-- oom-watcher/src/main.rs, `env_seconds` and the settings that it reads. The environment is a
-- parameter.
mod Tests
use ebpf_oom_watcher.Prelude.{
  ℕ, max, ◌-◌, ◌≡◌, refl, ◌∙◌, false, Option, some, Text, list_eq, nat_eq, pair_eq, arith, codes,
  leb,
}
use ebpf_oom_watcher.Prelude.Decimal.{parse_uint}
use ebpf_oom_watcher.Prelude.HashMap.{get}
use ebpf_oom_watcher.Prometheus.{MetricVec}
use ebpf_oom_watcher.Metrics.Key.{SeriesKey, key_eq, labels}
use ebpf_oom_watcher.Metrics.Collector.{MetricsCollector, u64_mod}
use ebpf_oom_watcher.Metrics.Evict.{evict_stale}
use ebpf_oom_watcher.Metrics.Invariant.{IsTracked}
use ebpf_oom_watcher.Metrics.Eviction.{is_gone, evict_stale-is_expired}
use ebpf_oom_watcher.Kubernetes.Pods.{and_then, unwrap_or}

abbrev default_series_ttl_seconds : ℕ
default_series_ttl_seconds = 1800

abbrev default_series_sweep_interval_seconds : ℕ
default_series_sweep_interval_seconds = 300

-- `std::env::var(name).ok()` is the argument's value at the name.
unfoldable pub env_seconds : (Text → Option Text) → Text → ℕ → ℕ
unfolding parse_uint
env_seconds var name default = max (unwrap_or (and_then (var name) (parse_uint u64_mod)) default) 1

unfoldable pub series_ttl : (Text → Option Text) → ℕ
unfolding env_seconds
series_ttl var = env_seconds var (codes "SERIES_TTL_SECONDS") default_series_ttl_seconds

unfoldable pub sweep_interval : (Text → Option Text) → ℕ
unfolding env_seconds
sweep_interval var =
    env_seconds var (codes "SERIES_SWEEP_INTERVAL_SECONDS") default_series_sweep_interval_seconds

module _ (vec : MetricVec) where
  open vec use {value}

  -- Whatever the environment says of the TTL, zero included, a series whose container was last
  -- killed in the second of the sweep keeps its counter, unless its pod was deleted and the grace
  -- is over.
  pub series_ttl_keeps_fresh :
      (var : Text → Option Text) (now : ℕ) (c : MetricsCollector vec.Family) (k : SeriesKey)
      → IsTracked vec c
      → get k c.last_seen ≡ some now
      → is_gone now c k ≡ false
      → value (evict_stale vec now (series_ttl var) c).1.oom_kills_total (labels k)
        ≡ value c.oom_kills_total (labels k)
  unfolding env_seconds series_ttl
  series_ttl_keeps_fresh var now c k v seen here =
      let (kills, stamps, entry) =
        evict_stale-is_expired vec now (series_ttl var) c v.distinct v.pods_distinct k seen in
      let young : leb (series_ttl var) (now - now) ≡ false = ground arith in
      kills ∙ rw (young, here) refl
