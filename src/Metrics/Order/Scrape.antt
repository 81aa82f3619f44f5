-- ===== src/Metrics/Order/Scrape.antt =====
-- oom-watcher/src/metrics.rs: every call on two collectors that differ in the order of their maps leaves
-- two such collectors.
use ebpf_oom_watcher.Prelude.{
  ℕ, ◌-◌, leb, ◌||◌, ◌≡◌, refl, ap, sym, ◌∙◌, List, [], ◌∷◌, Bool, ◌&&◌, not, true, Text, ◌==◌,
  list_eq, pair_eq, nat_eq, any, length, arith,
}
use ebpf_oom_watcher.Prelude.HashMap.{get, retain, retain-Distinct}
use ebpf_oom_watcher.Prelude.SameMap.{SameMap, count, any-SameMap, retain-SameMap, count-SameMap}
use ebpf_oom_watcher.Prometheus.{MetricVec}
use ebpf_oom_watcher.Metrics.Key.{
  SeriesKey, key_eq, labels, memory_labels, shares_memory_series_with,
}
use ebpf_oom_watcher.Metrics.Collector.{MetricsCollector, memory_types}
use ebpf_oom_watcher.Metrics.Evict.{is_due, is_stale, is_orphaned, evict_stale}
use ebpf_oom_watcher.Metrics.Tracked.Sweep.{
  stale_keys, live_keys, swept, due_pods, drained, evict_stale_lem,
}
use ebpf_oom_watcher.Metrics.History.{
  Call, outcome, event, dropped, pod_deleted, evict, apply, run_calls,
}
use ebpf_oom_watcher.Metrics.Order.{
  Alike, record_oom_event-Alike, record_resolution_outcome-Alike, note_pod_deleted-Alike,
  record_dropped_total-Alike,
}
use ebpf_oom_watcher.Metrics.Order.Swept.{
  bumped, takes_memory, any-ext, count-length, stale-kills, stale-timestamps, stale-memory,
  stale-evicted, stale-frame,
}

module _ (vec : MetricVec) where
  open vec use {Family, value}

  module _ (p q : SeriesKey → ℕ → Bool) (same : (k : SeriesKey) (seen : ℕ) → p k seen ≡ q k seen)
      (c d : MetricsCollector Family) (a : Alike vec c d) where
    stale-SameMap : SameMap (retain p c.last_seen) (retain q d.last_seen)
    stale-SameMap = retain-SameMap p q c.last_seen d.last_seen a.distinct.0 a.distinct.1 same a.seen

    live-SameMap : SameMap (live_keys vec p c) (live_keys vec q d)
    live-SameMap =
        retain-SameMap (λ k seen. not (p k seen)) (λ k seen. not (q k seen)) c.last_seen d.last_seen
          a.distinct.0 a.distinct.1 (λ k seen. ap not (same k seen)) a.seen

    any-stale :
        (test : SeriesKey → Bool) → any test (stale_keys vec p c) ≡ any test (stale_keys vec q d)
    any-stale test = any-SameMap test (retain p c.last_seen) (retain q d.last_seen) stale-SameMap

    count-stale :
        (test : SeriesKey → Bool)
        → count test (stale_keys vec p c) ≡ count test (stale_keys vec q d)
    count-stale test =
        count-SameMap test (retain p c.last_seen) (retain q d.last_seen)
          (retain-Distinct p c.last_seen a.distinct.0) (retain-Distinct q d.last_seen a.distinct.1)
          stale-SameMap

    length-stale : length (stale_keys vec p c) ≡ length (stale_keys vec q d)
    length-stale =
        sym (count-length (retain p c.last_seen))
        ∙ count-stale (λ k. true)
        ∙ count-length (retain q d.last_seen)

    same_orphans :
        (s : SeriesKey) → is_orphaned (live_keys vec p c) s ≡ is_orphaned (live_keys vec q d) s
    unfolding is_orphaned
    same_orphans s = ap not (
        any-SameMap (λ k. shares_memory_series_with k s) (live_keys vec p c) (live_keys vec q d)
          live-SameMap)

    any-takes_memory :
        (l : List Text)
        → any (takes_memory (live_keys vec p c) l) (stale_keys vec p c)
          ≡ any (takes_memory (live_keys vec q d) l) (stale_keys vec q d)
    any-takes_memory l =
        any-ext (takes_memory (live_keys vec p c) l) (takes_memory (live_keys vec q d) l)
          (stale_keys vec p c)
          (λ s. ap (λ b. b && any (λ t. memory_labels s t == l) memory_types) (same_orphans s))
        ∙ any-stale (takes_memory (live_keys vec q d) l)

    swept-Alike : Alike vec (swept vec p c) (swept vec q d)
    unfolding swept
    swept-Alike =
        let live = live_keys vec p c in
        let live' = live_keys vec q d in
        let stale = stale_keys vec p c in
        let stale' = stale_keys vec q d in
        let c' : MetricsCollector Family = record c { last_seen = live } in
        let d' : MetricsCollector Family = record d { last_seen = live' } in
        let (node, failures, drops, total, seen, deleted) = stale-frame vec live stale c' in
        let (node', failures', drops', total', seen', deleted') = stale-frame vec live' stale' d' in
        record {
          kills = λ l. ground (
            arith,
            stale-kills vec live l stale c',
            stale-kills vec live' l stale' d',
            any-stale (λ s. labels s == l),
            a.kills l,
          );
          on_node = λ l. ap (λ f. value f l) node ∙ a.on_node l ∙ sym (ap (λ f. value f l) node');
          memory = λ l. ground (
            arith,
            stale-memory vec live l stale c',
            stale-memory vec live' l stale' d',
            any-takes_memory l,
            a.memory l,
          );
          timestamps = λ l. ground (
            arith,
            stale-timestamps vec live l stale c',
            stale-timestamps vec live' l stale' d',
            any-stale (λ s. labels s == l),
            a.timestamps l,
          );
          failures = λ l.
              ap (λ f. value f l) failures ∙ a.failures l ∙ sym (ap (λ f. value f l) failures');
          drops = λ l. ap (λ f. value f l) drops ∙ a.drops l ∙ sym (ap (λ f. value f l) drops');
          evicted = λ l.
              stale-evicted vec live l stale c'
              ∙ ap (λ n. bumped n (value c.oom_series_evicted_total l))
                  (count-stale (λ s. (s.node ∷ []) == l))
              ∙ ap (bumped (count (λ (s : SeriesKey). (s.node ∷ []) == l) stale')) (a.evicted l)
              ∙ sym (stale-evicted vec live' l stale' d');
          total = total ∙ a.total ∙ sym total';
          seen = λ k. ap (get k) seen ∙ live-SameMap k ∙ sym (ap (get k) seen');
          deleted = λ k. ap (get k) deleted ∙ a.deleted k ∙ sym (ap (get k) deleted');
          distinct = (
            rw seen (retain-Distinct (λ k at. not (p k at)) c.last_seen a.distinct.0),
            rw seen' (retain-Distinct (λ k at. not (q k at)) d.last_seen a.distinct.1),
          );
          pods_distinct = (rw deleted a.pods_distinct.0, rw deleted' a.pods_distinct.1);
        }

  drained-Alike :
      (now : ℕ) (c d : MetricsCollector Family)
      → Alike vec c d
      → Alike vec (drained now c) (drained now d)
  drained-Alike now c d a =
      let pending : Text × Text → ℕ → Bool = λ pod at. not (is_due now pod at) in
      record {
        kills = a.kills;
        on_node = a.on_node;
        memory = a.memory;
        timestamps = a.timestamps;
        failures = a.failures;
        drops = a.drops;
        evicted = a.evicted;
        total = a.total;
        seen = a.seen;
        deleted =
            retain-SameMap pending pending c.deleted_after d.deleted_after a.pods_distinct.0
              a.pods_distinct.1 (λ pod at. refl) a.deleted;
        distinct = a.distinct;
        pods_distinct = (
          retain-Distinct pending c.deleted_after a.pods_distinct.0,
          retain-Distinct pending d.deleted_after a.pods_distinct.1,
        );
      }

  same_test :
      (now ttl : ℕ) (c d : MetricsCollector Family)
      → Alike vec c d
      → (k : SeriesKey) (seen : ℕ)
      → is_stale now ttl (due_pods now c) k seen ≡ is_stale now ttl (due_pods now d) k seen
  unfolding is_stale
  same_test now ttl c d a k seen =
      ap (λ b. leb ttl (now - seen) || b)
        (any-SameMap (λ (pod : Text × Text). k.namespace == pod.0 && k.pod == pod.1)
          (retain (is_due now) c.deleted_after) (retain (is_due now) d.deleted_after)
          (retain-SameMap (is_due now) (is_due now) c.deleted_after d.deleted_after
            a.pods_distinct.0 a.pods_distinct.1 (λ pod at. refl) a.deleted))

  evict_stale-Alike :
      (now ttl : ℕ) (c d : MetricsCollector Family)
      → Alike vec c d
      → ((evict_stale vec now ttl c).0 ≡ (evict_stale vec now ttl d).0)
        × Alike vec (evict_stale vec now ttl c).1 (evict_stale vec now ttl d).1
  evict_stale-Alike now ttl c d a =
      let p = is_stale now ttl (due_pods now c) in
      let q = is_stale now ttl (due_pods now d) in
      let drained_alike = drained-Alike now c d a in
      rw (evict_stale_lem vec now ttl c, evict_stale_lem vec now ttl d)
        (
          length-stale p q (same_test now ttl c d a) (drained now c) (drained now d) drained_alike,
          swept-Alike p q (same_test now ttl c d a) (drained now c) (drained now d) drained_alike,
        )

  apply-Alike :
      (call : Call) (c d : MetricsCollector Family)
      → Alike vec c d
      → Alike vec (apply vec call c) (apply vec call d)
  unfolding apply
  apply-Alike (outcome node o) c d a = record_resolution_outcome-Alike vec node o c d a
  apply-Alike (event e) c d a = record_oom_event-Alike vec e c d a
  apply-Alike (dropped node total) c d a = record_dropped_total-Alike vec node total c d a
  apply-Alike (pod_deleted namespace pod now) c d a =
      note_pod_deleted-Alike vec namespace pod now c d a
  apply-Alike (evict now ttl) c d a = (evict_stale-Alike now ttl c d a).1

  run_calls-Alike :
      (calls : List Call) (c d : MetricsCollector Family)
      → Alike vec c d
      → Alike vec (run_calls vec calls c) (run_calls vec calls d)
  unfolding run_calls
  run_calls-Alike [] c d a = a
  run_calls-Alike (call ∷ calls) c d a =
      run_calls-Alike calls (apply vec call c) (apply vec call d) (apply-Alike call c d a)

  -- The order in which the hash maps hold their entries has no effect: two collectors that show the
  -- same and have the same entries, in whatever order, show the same after any history of calls, in
  -- every family, and a sweep then reports the same number of evictions.
  pub run_calls-order :
      (calls : List Call) (c d : MetricsCollector Family) (now ttl : ℕ)
      → Alike vec c d
      → Alike vec (run_calls vec calls c) (run_calls vec calls d)
        × ((evict_stale vec now ttl (run_calls vec calls c)).0
            ≡ (evict_stale vec now ttl (run_calls vec calls d)).0)
  run_calls-order calls c d now ttl a =
      let after = run_calls-Alike calls c d a in
      (after, (evict_stale-Alike now ttl (run_calls vec calls c) (run_calls vec calls d) after).0)
