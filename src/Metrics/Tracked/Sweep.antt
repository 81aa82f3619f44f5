-- ===== src/Metrics/Tracked/Sweep.antt =====
-- oom-watcher/src/metrics.rs, `evict_stale`: the sweep removes the series of the stale keys and of
-- no other, so it keeps the bookkeeping invariant.
mod Removal
use ebpf_oom_watcher.Prelude.{
  ℕ, ◌≡◌, ◌∙◌, ap, Bool, not, List, none, arith, Text, if◌then◌else◌, ◌==◌, list_eq, pair_eq,
  nat_eq, any, is_some, length,
}
use ebpf_oom_watcher.Prelude.HashMap.{
  HashMap, keys, get, retain, drain_lem, guard, get-retain, retain-Distinct, any-keys-eq,
  any-keys-retain, Distinct,
}
use ebpf_oom_watcher.Prometheus.{MetricVec}
use ebpf_oom_watcher.Metrics.Key.{SeriesKey, key_eq, labels, shares_memory_series_with}
use ebpf_oom_watcher.Metrics.Collector.{MetricsCollector}
use ebpf_oom_watcher.Metrics.Evict.{is_due, is_stale, remove_stale, take_due, sweep, evict_stale}
use ebpf_oom_watcher.Metrics.Invariant.{IsTracked, has_sharer}
use ebpf_oom_watcher.Metrics.Tracked.Sweep.Removal.{
  value-remove_stale_kills, value-remove_stale_timestamps, value-remove_stale_memory,
  last_seen-remove_stale, deleted_after-remove_stale,
}
pub use ebpf_oom_watcher.Metrics.Tracked.Sweep.Removal.{value-remove_memory, orphaned_sharer}

-- The second critical section, for any test of staleness.
module _ (vec : MetricVec) (drop : SeriesKey → ℕ → Bool) (c : MetricsCollector vec.Family) where
  open vec use {value}

  abbrev pub live_keys : HashMap SeriesKey ℕ
  live_keys = retain (λ k seen. not (drop k seen)) c.last_seen

  abbrev pub stale_keys : List SeriesKey
  stale_keys = keys (retain drop c.last_seen)

  unfoldable pub swept : MetricsCollector vec.Family
  swept = remove_stale vec live_keys stale_keys (record c { last_seen = live_keys })

  pub last_seen-swept : swept.last_seen ≡ live_keys
  unfolding swept
  last_seen-swept =
      last_seen-remove_stale vec live_keys stale_keys (record c { last_seen = live_keys })

  pub deleted_after-swept : swept.deleted_after ≡ c.deleted_after
  unfolding swept
  deleted_after-swept =
      deleted_after-remove_stale vec live_keys stale_keys (record c { last_seen = live_keys })

  -- A key is listed as stale exactly if it is tracked and fails the test.
  any-stale_keys :
      Distinct c.last_seen
      → (k : SeriesKey)
      → any (λ s. s == k) stale_keys ≡ is_some (guard (drop k) (get k c.last_seen))
  any-stale_keys d k =
      any-keys-eq k (retain drop c.last_seen) ∙ ap is_some (get-retain k drop c.last_seen d)

  pub get-live_keys :
      Distinct c.last_seen
      → (k : SeriesKey) → get k live_keys ≡ guard (λ seen. not (drop k seen)) (get k c.last_seen)
  get-live_keys d k = get-retain k (λ k seen. not (drop k seen)) c.last_seen d

  -- What a scrape shows of `k` after the sweep.
  pub swept-kills :
      Distinct c.last_seen
      → (k : SeriesKey)
      → value swept.oom_kills_total (labels k) ≡ (
          if is_some (guard (drop k) (get k c.last_seen))
          then none
          else value c.oom_kills_total (labels k))
  unfolding swept
  swept-kills d k =
      rw (← any-stale_keys d k)
        (value-remove_stale_kills vec live_keys stale_keys (record c { last_seen = live_keys }) k)

  pub swept-timestamps :
      Distinct c.last_seen
      → (k : SeriesKey)
      → value swept.oom_last_timestamp (labels k) ≡ (
          if is_some (guard (drop k) (get k c.last_seen))
          then none
          else value c.oom_last_timestamp (labels k))
  unfolding swept
  swept-timestamps d k = rw (← any-stale_keys d k) (
      value-remove_stale_timestamps vec live_keys stale_keys (record c { last_seen = live_keys }) k)

  swept-IsTracked : IsTracked vec c → IsTracked vec swept
  unfolding swept
  swept-IsTracked v = record {
    distinct =
        rw last_seen-swept (retain-Distinct (λ k seen. not (drop k seen)) c.last_seen v.distinct);
    pods_distinct = rw deleted_after-swept v.pods_distinct;
    kills = λ k. ground (
      arith,
      ap (get k) last_seen-swept,
      get-live_keys v.distinct k,
      swept-kills v.distinct k,
      v.kills k,
    );
    timestamps = λ k. ground (
      arith,
      ap (get k) last_seen-swept,
      get-live_keys v.distinct k,
      swept-timestamps v.distinct k,
      v.timestamps k,
    );
    memory = λ k t. ground (
      arith,
      ap (has_sharer k) last_seen-swept,
      any-keys-retain (λ j. shares_memory_series_with j k) drop c.last_seen,
      value-remove_stale_memory vec live_keys stale_keys (record c { last_seen = live_keys }) k t,
      v.memory k t,
    );
  }

module _ {F : Type 0} (now : ℕ) (c : MetricsCollector F) where
  -- The deleted pods whose grace has passed.
  abbrev pub due_pods : List (Text × Text)
  due_pods = keys (retain (is_due now) c.deleted_after)

  -- The collector after the first critical section.
  abbrev pub drained : MetricsCollector F
  drained = record c { deleted_after = retain (λ pod at. not (is_due now pod at)) c.deleted_after }

module _ (vec : MetricVec) (now ttl : ℕ) (c : MetricsCollector vec.Family) where
  -- `evict_stale` is that sweep, with the pods that are due.
  pub evict_stale_lem : evict_stale vec now ttl c ≡ (
    length (stale_keys vec (is_stale now ttl (due_pods now c)) (drained now c)),
    swept vec (is_stale now ttl (due_pods now c)) (drained now c),
  )
  unfolding evict_stale take_due sweep swept
  evict_stale_lem = simp drain_lem

  drained-IsTracked : IsTracked vec c → IsTracked vec (drained now c)
  drained-IsTracked v = record {
    distinct = v.distinct;
    pods_distinct =
        retain-Distinct (λ pod at. not (is_due now pod at)) c.deleted_after v.pods_distinct;
    kills = v.kills;
    timestamps = v.timestamps;
    memory = v.memory;
  }

  pub evict_stale-IsTracked : IsTracked vec c → IsTracked vec (evict_stale vec now ttl c).1
  evict_stale-IsTracked v = rw evict_stale_lem (
      swept-IsTracked vec (is_stale now ttl (due_pods now c)) (drained now c) (drained-IsTracked v))
