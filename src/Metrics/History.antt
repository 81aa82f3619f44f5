-- ===== src/Metrics/History.antt =====
-- oom-watcher/src/metrics.rs: the calls that the watch loop, the pod cache and the sweeper make on
-- one collector, in any order.
use ebpf_oom_watcher.Prelude.{
  ◌++◌, ℕ, ◌≡◌, refl, List, [], ◌∷◌, Text, pair_eq, list_eq, nat_eq, arith,
}
use ebpf_oom_watcher.Prelude.HashMap.{insert-Distinct}
use ebpf_oom_watcher.Common.{EnrichedOomEvent}
use ebpf_oom_watcher.Resolve.{ResolutionOutcome}
use ebpf_oom_watcher.Prometheus.{MetricVec}
use ebpf_oom_watcher.Metrics.Collector.{
  MetricsCollector, new, record_resolution_outcome, record_oom_event, record_dropped_total,
  note_pod_deleted, saturating_add, deleted_pod_grace_seconds,
}
use ebpf_oom_watcher.Metrics.Evict.{evict_stale}
use ebpf_oom_watcher.Metrics.Invariant.{IsTracked, new-IsTracked}
use ebpf_oom_watcher.Metrics.Tracked.Record.{record_oom_event-IsTracked}
use ebpf_oom_watcher.Metrics.Tracked.Sweep.{evict_stale-IsTracked}

pub data Call : Type 0 where
  outcome : Text → ResolutionOutcome → Call
  event : EnrichedOomEvent → Call
  dropped : Text → ℕ → Call
  pod_deleted : Text → Text → ℕ → Call
  evict : ℕ → ℕ → Call

module _ (vec : MetricVec) where
  open vec use {Family}

  unfoldable pub apply : Call → MetricsCollector Family → MetricsCollector Family
  apply (outcome node o) c = record_resolution_outcome vec node o c
  apply (event e) c = record_oom_event vec e c
  apply (dropped node total) c = record_dropped_total vec node total c
  apply (pod_deleted namespace pod now) c = note_pod_deleted vec namespace pod now c
  apply (evict now ttl) c = (evict_stale vec now ttl c).1

  unfoldable pub run_calls : List Call → MetricsCollector Family → MetricsCollector Family
  run_calls [] c = c
  run_calls (call ∷ calls) c = run_calls calls (apply call c)

  -- Only these fields bear on the invariant.
  IsTracked-frame :
      (c d : MetricsCollector Family)
      → d.last_seen ≡ c.last_seen
      → d.deleted_after ≡ c.deleted_after
      → d.oom_kills_total ≡ c.oom_kills_total
      → d.oom_last_timestamp ≡ c.oom_last_timestamp
      → d.oom_memory_usage_bytes ≡ c.oom_memory_usage_bytes
      → IsTracked vec c
      → IsTracked vec d
  IsTracked-frame c d seen deleted kills timestamps memory v = record {
    distinct = rw seen v.distinct;
    pods_distinct = rw deleted v.pods_distinct;
    kills = rw (seen, kills) v.kills;
    timestamps = rw (seen, timestamps) v.timestamps;
    memory = rw (seen, memory) v.memory;
  }

  outcome-IsTracked :
      (node : Text) (o : ResolutionOutcome) (c : MetricsCollector Family)
      → IsTracked vec c
      → IsTracked vec (record_resolution_outcome vec node o c)
  unfolding record_resolution_outcome
  outcome-IsTracked node (ResolutionOutcome.found id) c v = v
  outcome-IsTracked node o c v = IsTracked-frame c _ refl refl refl refl refl v

  dropped-IsTracked :
      (node : Text) (total : ℕ) (c : MetricsCollector Family)
      → IsTracked vec c
      → IsTracked vec (record_dropped_total vec node total c)
  unfolding record_dropped_total
  dropped-IsTracked node total c v =
      IsTracked-frame c (record_dropped_total vec node total c) (ground arith) (ground arith)
        (ground arith) (ground arith) (ground arith) v

  pub pod_deleted-IsTracked :
      (namespace pod : Text) (now : ℕ) (c : MetricsCollector Family)
      → IsTracked vec c
      → IsTracked vec (note_pod_deleted vec namespace pod now c)
  unfolding note_pod_deleted
  pod_deleted-IsTracked namespace pod now c v = record {
    distinct = v.distinct;
    pods_distinct =
        insert-Distinct (namespace, pod) (saturating_add now deleted_pod_grace_seconds)
          c.deleted_after v.pods_distinct;
    kills = v.kills;
    timestamps = v.timestamps;
    memory = v.memory;
  }

  pub apply-IsTracked :
      (call : Call) (c : MetricsCollector Family) → IsTracked vec c → IsTracked vec (apply call c)
  unfolding apply
  apply-IsTracked (outcome node o) c v = outcome-IsTracked node o c v
  apply-IsTracked (event e) c v = record_oom_event-IsTracked vec e c v
  apply-IsTracked (dropped node total) c v = dropped-IsTracked node total c v
  apply-IsTracked (pod_deleted namespace pod now) c v = pod_deleted-IsTracked namespace pod now c v
  apply-IsTracked (evict now ttl) c v = evict_stale-IsTracked vec now ttl c v

  pub run_calls-append :
      (xs ys : List Call) (c : MetricsCollector Family)
      → run_calls (xs ++ ys) c ≡ run_calls ys (run_calls xs c)
  unfolding run_calls
  run_calls-append [] ys c = refl
  run_calls-append (call ∷ xs) ys c = run_calls-append xs ys (apply call c)

  run_calls-IsTracked :
      (calls : List Call) (c : MetricsCollector Family)
      → IsTracked vec c
      → IsTracked vec (run_calls calls c)
  unfolding run_calls
  run_calls-IsTracked [] c v = v
  run_calls-IsTracked (call ∷ calls) c v =
      run_calls-IsTracked calls (apply call c) (apply-IsTracked call c v)

  -- After any history of calls on a new collector, the per-container counter and timestamp that a
  -- scrape shows are exactly those of the keys in `last_seen`, and the memory series exactly
  -- those that some such key shares.
  pub history-IsTracked : (calls : List Call) → IsTracked vec (run_calls calls (new vec))
  history-IsTracked calls = run_calls-IsTracked calls (new vec) (new-IsTracked vec)
