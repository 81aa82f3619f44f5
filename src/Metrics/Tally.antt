-- ===== src/Metrics/Tally.antt =====
-- oom-watcher/src/metrics.rs, `evict_stale`: what a sweep reports of its own work.
use ebpf_oom_watcher.Prelude.{
  ℕ, ◌+◌, ◌<◌, ◌≡◌, ap, Bool, not, List, [], ◌∷◌, arith, Text, if◌then◌else◌, ◌==◌, list_eq,
  list_beq, nat_eq, length,
}
use ebpf_oom_watcher.Prelude.Float.{f64_add_exact, exact_below}
use ebpf_oom_watcher.Prelude.HashMap.{HashMap, keys, retain}
use ebpf_oom_watcher.Prometheus.{MetricVec, or_zero}
use ebpf_oom_watcher.Metrics.Key.{SeriesKey}
use ebpf_oom_watcher.Metrics.Collector.{MetricsCollector}
use ebpf_oom_watcher.Metrics.Evict.{is_stale, is_orphaned, remove_series, remove_stale, evict_stale}
use ebpf_oom_watcher.Metrics.Tracked.Sweep.{
  stale_keys, live_keys, drained, due_pods, swept, last_seen-swept, evict_stale_lem,
}

-- How many tracked keys are on the node.
abbrev pub keys_on : Text → List SeriesKey → ℕ
keys_on node [] = 0
keys_on node (k ∷ ks) = (if k.node == node then 1 else 0) + keys_on node ks

keys_on-retain :
    (node : Text) (drop : SeriesKey → ℕ → Bool) (m : HashMap SeriesKey ℕ)
    → keys_on node (keys m)
      ≡ keys_on node (keys (retain drop m))
        + keys_on node (keys (retain (λ k seen. not (drop k seen)) m))
unfolding retain
keys_on-retain node drop [] = omega arith
keys_on-retain node drop ((k, v) ∷ m) = ground (arith, keys_on-retain node drop m)

length-retain :
    (drop : SeriesKey → ℕ → Bool) (m : HashMap SeriesKey ℕ)
    → length m ≡ length (keys (retain drop m)) + length (retain (λ k seen. not (drop k seen)) m)
unfolding retain
length-retain drop [] = omega arith
length-retain drop ((k, v) ∷ m) = ground (arith, length-retain drop m)

module _ (vec : MetricVec) where
  open vec use {Family, value, value-inc_by}

  abbrev pub evicted_total : Text → MetricsCollector Family → ℕ
  evicted_total node c = or_zero (value c.oom_series_evicted_total (node ∷ []))

  evicted_total-remove_series :
      (node : Text) (s : SeriesKey) (orphaned : Bool) (c : MetricsCollector Family)
      → evicted_total node c + (if s.node == node then 1 else 0) < exact_below
      → evicted_total node (remove_series vec s orphaned c)
        ≡ evicted_total node c + (if s.node == node then 1 else 0)
  unfolding remove_series list_beq
  evicted_total-remove_series node s orphaned c h = ground (
    arith,
    value-inc_by (s.node ∷ []) (node ∷ []) 1 c.oom_series_evicted_total,
    f64_add_exact (evicted_total node c) 1,
    (list_eq {A = ℕ}).eq_iff s.node node,
  )

  evicted_total-remove_stale :
      (node : Text) (live : HashMap SeriesKey ℕ) (stale : List SeriesKey)
      (c : MetricsCollector Family)
      → evicted_total node c + keys_on node stale < exact_below
      → evicted_total node (remove_stale vec live stale c)
        ≡ evicted_total node c + keys_on node stale
  unfolding remove_stale
  evicted_total-remove_stale node live [] c h = omega arith
  evicted_total-remove_stale node live (s ∷ stale) c h =
      let step = evicted_total-remove_series node s (is_orphaned live s) c (omega arith) in
      omega (
        arith,
        step,
        evicted_total-remove_stale node live stale (remove_series vec s (is_orphaned live s) c),
      )

  swept-tally :
      (node : Text) (drop : SeriesKey → ℕ → Bool) (c : MetricsCollector Family)
      → evicted_total node c + keys_on node (stale_keys vec drop c) < exact_below
      → (evicted_total node (swept vec drop c) + keys_on node (keys (swept vec drop c).last_seen)
          ≡ evicted_total node c + keys_on node (keys c.last_seen))
        × (length (stale_keys vec drop c) + length (swept vec drop c).last_seen
            ≡ length c.last_seen)
  unfolding swept
  swept-tally node drop c h = omega (
    arith,
    keys_on-retain node drop c.last_seen,
    length-retain drop c.last_seen,
    ap length (last_seen-swept vec drop c),
    ap (λ (m : HashMap SeriesKey ℕ). keys_on node (keys m)) (last_seen-swept vec drop c),
    evicted_total-remove_stale node (live_keys vec drop c) (stale_keys vec drop c)
        (record c { last_seen = live_keys vec drop c }),
  )

  -- A sweep returns the number of keys that it stops tracking, and its counter grows by the number
  -- of those on the node.
  pub evict_stale-tally :
      (node : Text) (now ttl : ℕ) (c : MetricsCollector Family)
      → evicted_total node c + keys_on node (keys c.last_seen) < exact_below
      → ((evict_stale vec now ttl c).0 + length (evict_stale vec now ttl c).1.last_seen
          ≡ length c.last_seen)
        × (evicted_total node (evict_stale vec now ttl c).1
              + keys_on node (keys (evict_stale vec now ttl c).1.last_seen)
            ≡ evicted_total node c + keys_on node (keys c.last_seen))
  evict_stale-tally node now ttl c h =
      let test = is_stale now ttl (due_pods now c) in
      let split = keys_on-retain node test c.last_seen in
      let tally = swept-tally node test (drained now c) (omega arith) in
      rw (evict_stale_lem vec now ttl c) (tally.1, tally.0)
