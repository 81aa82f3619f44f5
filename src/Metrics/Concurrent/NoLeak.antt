-- ===== src/Metrics/Concurrent/NoLeak.antt =====
-- oom-watcher/src/metrics.rs: no interleaving leaves a series that no sweep will find.
use ebpf_oom_watcher.Prelude.{[], list_eq, pair_eq, nat_eq, arith}
use ebpf_oom_watcher.Prelude.HashMap.{get}
use ebpf_oom_watcher.Prometheus.{MetricVec}
use ebpf_oom_watcher.Metrics.Key.{key_eq}
use ebpf_oom_watcher.Metrics.Collector.{new}
use ebpf_oom_watcher.Metrics.Invariant.{new-IsTracked}
use ebpf_oom_watcher.Metrics.Concurrent.{idle, Threads, Step}
use ebpf_oom_watcher.Metrics.Concurrent.Known.{NoLeak}
use ebpf_oom_watcher.Metrics.Concurrent.Steps.{Step-NoLeak}

module _ (vec : MetricVec) where
  open vec use {
    Family, value, set, touch, value-create, value-inc_by, value-set, value-touch, value-remove,
  }

  pub data Reach : Threads Family → Type 0 where
    built : Reach (record { collector = new vec; pending = []; sweeper = idle })
    later : {s t : Threads Family} → Reach s → Step vec s t → Reach t

  -- In no interleaving of the watch loop, the pod cache and the sweeper, at the grain of single
  -- accesses, does a series outlive all knowledge of it: a per-container counter, timestamp or memory
  -- gauge that a scrape shows belongs to a key in `last_seen`, to one that the recorder is about to
  -- enter there, or to one whose series the sweeper is about to remove.
  pub Reach-NoLeak : {t : Threads Family} → Reach t → NoLeak vec t.collector t.pending t.sweeper
  unfolding new get
  Reach-NoLeak built = record {
    ahead = tt;
    kills = λ k h. ground (arith, (new-IsTracked vec).kills k);
    timestamps = λ k h. ground (arith, (new-IsTracked vec).timestamps k);
    memory = λ k t m h. ground (arith, (new-IsTracked vec).memory k t);
  }
  Reach-NoLeak (later r step) = Step-NoLeak vec step (Reach-NoLeak r)
