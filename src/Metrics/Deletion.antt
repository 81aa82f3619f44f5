-- ===== src/Metrics/Deletion.antt =====
-- oom-watcher/src/metrics.rs, `note_pod_deleted`: a deletion is scheduled, and the sweep carries it
-- out when its grace is over.
use ebpf_oom_watcher.Prelude.{
  ℕ, ◌+◌, ◌-◌, ◌≤◌, ◌<◌, ◌≡◌, refl, ap, ◌∙◌, not, Option, none, some, arith, Text, ltb, leb,
  if◌then◌else◌, list_eq, pair_eq, nat_eq, eq_self,
}
use ebpf_oom_watcher.Prelude.HashMap.{get, guard, get-retain, get-insert}
use ebpf_oom_watcher.Common.{EnrichedOomEvent}
use ebpf_oom_watcher.Prometheus.{MetricVec}
use ebpf_oom_watcher.Metrics.Key.{SeriesKey, key_eq, key_of, labels}
use ebpf_oom_watcher.Metrics.Collector.{
  MetricsCollector, note_pod_deleted, record_oom_event, record_seen, record_series, saturating_add,
  deleted_pod_grace_seconds, u64_mod,
}
use ebpf_oom_watcher.Metrics.Evict.{is_due, evict_stale}
use ebpf_oom_watcher.Metrics.Invariant.{IsTracked}
use ebpf_oom_watcher.Metrics.Tracked.Record.{record_oom_event-IsTracked}
use ebpf_oom_watcher.Metrics.Tracked.Sweep.{drained, deleted_after-swept, evict_stale_lem, due_pods}
use ebpf_oom_watcher.Metrics.Evict.{is_stale}
use ebpf_oom_watcher.Metrics.History.{pod_deleted-IsTracked}
use ebpf_oom_watcher.Metrics.Eviction.{is_gone, evict_stale-is_expired}

module _ (vec : MetricVec) (c : MetricsCollector vec.Family) (v : IsTracked vec c) where
  open vec use {value}

  -- After a sweep the deleted pods that are still remembered are those whose grace is not over:
  -- the others are forgotten, whether or not a series named them.
  pub evict_stale-forgets :
      (now ttl : ℕ) (pod : Text × Text)
      → get pod (evict_stale vec now ttl c).1.deleted_after
        ≡ guard (λ removable_at. ltb now removable_at) (get pod c.deleted_after)
  evict_stale-forgets now ttl pod = rw (evict_stale_lem vec now ttl c) (
      ap (get pod) (deleted_after-swept vec (is_stale now ttl (due_pods now c)) (drained now c))
      ∙ get-retain pod (λ pod at. not (is_due now pod at)) c.deleted_after v.pods_distinct
      ∙ not_not (get pod c.deleted_after))
    where
      not_not : (o : Option ℕ) → guard (λ at. not (not (ltb now at))) o ≡ guard (λ at. ltb now at) o
      not_not o = ground arith

  is_gone_noted :
      (k : SeriesKey) (at now : ℕ)
      → at + deleted_pod_grace_seconds < u64_mod
      → is_gone now (note_pod_deleted vec k.namespace k.pod at c) k
        ≡ leb (at + deleted_pod_grace_seconds) now
  unfolding note_pod_deleted
  is_gone_noted k at now h =
      let pod : Text × Text = (k.namespace, k.pod) in
      ground (
        arith,
        get-insert pod pod (saturating_add at deleted_pod_grace_seconds) c.deleted_after,
        eq_self pod,
      )

  noted_frame :
      (namespace pod : Text) (at : ℕ)
      → ((note_pod_deleted vec namespace pod at c).last_seen ≡ c.last_seen)
        × ((note_pod_deleted vec namespace pod at c).oom_kills_total ≡ c.oom_kills_total)
  unfolding note_pod_deleted
  noted_frame namespace pod at = (refl, refl)

  -- A deletion at `at` removes the series of a container of that pod, however fresh, at the first
  -- sweep from `at + 120` on, and no sooner.
  deletion_grace :
      (k : SeriesKey) {seen : ℕ} (at now ttl : ℕ)
      → get k c.last_seen ≡ some seen
      → at + deleted_pod_grace_seconds < u64_mod
      → now - seen < ttl
      → value
          (evict_stale vec now ttl (note_pod_deleted vec k.namespace k.pod at c)).1.oom_kills_total
          (labels k)
        ≡ (if leb (at + deleted_pod_grace_seconds) now
            then none
            else value c.oom_kills_total (labels k))
  deletion_grace k {seen} at now ttl tracked h fresh =
      let noted = note_pod_deleted vec k.namespace k.pod at c in
      let w = pod_deleted-IsTracked vec k.namespace k.pod at c v in
      let swept =
        evict_stale-is_expired vec now ttl noted w.distinct w.pods_distinct k {seen = seen}
          (ap (get k) (noted_frame k.namespace k.pod at).0 ∙ tracked) in
      swept.0
      ∙ ground (
        arith,
        is_gone_noted k at now h,
        ap (λ m. value m (labels k)) (noted_frame k.namespace k.pod at).1,
      )

  is_gone_recorded :
      (e : EnrichedOomEvent) (k : SeriesKey) (now : ℕ)
      → is_gone now (record_oom_event vec e c) k ≡ is_gone now c k
  unfolding record_oom_event record_seen record_series
  is_gone_recorded e k now = refl

  recorded_seen :
      (e : EnrichedOomEvent)
      → get (key_of e) (record_oom_event vec e c).last_seen ≡ some e.timestamp
  unfolding record_oom_event record_seen record_series
  recorded_seen e =
      ground (arith, get-insert (key_of e) (key_of e) e.timestamp c.last_seen, eq_self (key_of e))

  -- A pod that is made again under the name of a deleted one, as a StatefulSet does, loses its
  -- kills: once the first pod's grace is over, a kill of the second is removed by the next sweep,
  -- even if it is recorded in the second of that sweep and no scrape has seen it.
  pub recreated_pod_loses_kill :
      (e : EnrichedOomEvent) (removable_at now ttl : ℕ)
      → get ((key_of e).namespace, (key_of e).pod) c.deleted_after ≡ some removable_at
      → removable_at ≤ now
      → value
          (evict_stale vec now ttl (record_oom_event vec e c)).1.oom_kills_total
          (labels (key_of e))
        ≡ none
  recreated_pod_loses_kill e removable_at now ttl scheduled due =
      let w = record_oom_event-IsTracked vec e c v in
      let swept =
        evict_stale-is_expired vec now ttl (record_oom_event vec e c) w.distinct w.pods_distinct
          (key_of e) {seen = e.timestamp} (recorded_seen e) in
      swept.0 ∙ ground (arith, is_gone_recorded e (key_of e) now)
