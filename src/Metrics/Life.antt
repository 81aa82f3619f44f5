-- ===== src/Metrics/Life.antt =====
-- oom-watcher/src/metrics.rs, seen from one container: what the collector does to its series is what
-- a small machine does that knows nothing of other containers.
use ebpf_oom_watcher.Prelude.{
  ℕ, ◌-◌, ◌≡◌, refl, ap, ◌∙◌, ◌||◌, not, List, [], ◌∷◌, Option, none, some, arith, Bool, Text, ltb,
  leb, if◌then◌else◌, ◌==◌, list_eq, pair_eq, nat_eq, is_some, foldl, Option-cases, inl, inr,
}
use ebpf_oom_watcher.Prelude.HashMap.{get, guard, get-insert}
use ebpf_oom_watcher.Prelude.Float.{to_f64, f64_add}
use ebpf_oom_watcher.Common.{EnrichedOomEvent}
use ebpf_oom_watcher.Resolve.{ResolutionOutcome}
use ebpf_oom_watcher.Prometheus.{MetricVec, or_zero}
use ebpf_oom_watcher.Metrics.Key.{SeriesKey, key_eq, key_of, labels, labels_beq}
use ebpf_oom_watcher.Metrics.Collector.{
  MetricsCollector, note_pod_deleted, record_oom_event, record_seen, record_series, saturating_add,
  deleted_pod_grace_seconds, record_resolution_outcome, record_dropped_total,
}
use ebpf_oom_watcher.Metrics.Evict.{evict_stale}
use ebpf_oom_watcher.Metrics.Invariant.{IsTracked}
use ebpf_oom_watcher.Metrics.History.{
  Call, outcome, event, dropped, pod_deleted, evict, apply, run_calls, apply-IsTracked,
}
use ebpf_oom_watcher.Metrics.Eviction.{
  evicted-kills, evicted-timestamps, evicted-seen, is_stale_lem,
}
use ebpf_oom_watcher.Metrics.Deletion.{evict_stale-forgets}

-- What a scrape shows of a container, when it was last killed, and when its pod's deletion is due.
pub record Life : Type 0 where
  pub kills : Option ℕ
  pub stamp : Option ℕ
  pub seen : Option ℕ
  pub deadline : Option ℕ

-- The container's series go when it was last killed a TTL ago or its pod's deletion is due.
abbrev pub ends : ℕ → ℕ → Life → Bool
ends now ttl l = is_some (
    guard (λ seen. leb ttl (now - seen) || is_some (guard (λ at. not (ltb now at)) l.deadline))
      l.seen)

abbrev pub kill : ℕ → Life → Life
kill at l = record l {
  kills = some (f64_add (or_zero l.kills) 1);
  stamp = some (to_f64 at);
  seen = some at;
}

abbrev pub sweep_life : ℕ → ℕ → Life → Life
sweep_life now ttl l = record {
  kills = if ends now ttl l then none else l.kills;
  stamp = if ends now ttl l then none else l.stamp;
  seen = if ends now ttl l then none else l.seen;
  deadline = guard (λ at. ltb now at) l.deadline;
}

abbrev pub is_pod : Text × Text → Text × Text → Bool
is_pod p q = p == q

-- The machine of the container with key `k`.
abbrev pub live_on : SeriesKey → Life → Call → Life
live_on k l (outcome node o) = l
live_on k l (event e) = if key_of e == k then kill e.timestamp l else l
live_on k l (dropped node total) = l
live_on k l (pod_deleted namespace pod now) =
    if is_pod (namespace, pod) (k.namespace, k.pod)
    then record l { deadline = some (saturating_add now deleted_pod_grace_seconds) }
    else l
live_on k l (evict now ttl) = sweep_life now ttl l

module _ (vec : MetricVec) where
  open vec use {Family, value, touch, value-inc_by, value-touch, value-set}

  abbrev pub life_of : SeriesKey → MetricsCollector Family → Life
  life_of k c = record {
    kills = value c.oom_kills_total (labels k);
    stamp = value c.oom_last_timestamp (labels k);
    seen = get k c.last_seen;
    deadline = get (k.namespace, k.pod) c.deleted_after;
  }

  life-event :
      (k : SeriesKey) (e : EnrichedOomEvent) (c : MetricsCollector Family)
      → life_of k (record_oom_event vec e c) ≡ live_on k (life_of k c) (event e)
  unfolding record_oom_event record_seen record_series
  life-event k e c = ground (
    arith,
    value-inc_by (labels (key_of e)) (labels k) 1 c.oom_kills_total,
    value-set (labels (key_of e)) (labels k) (to_f64 e.timestamp)
        (touch (labels (key_of e)) c.oom_last_timestamp),
    value-touch (labels (key_of e)) (labels k) c.oom_last_timestamp,
    labels_beq (key_of e) k,
    key_eq.eq_iff (key_of e) k,
    get-insert (key_of e) k e.timestamp c.last_seen,
  )

  life-dropped :
      (k : SeriesKey) (node : Text) (total : ℕ) (c : MetricsCollector Family)
      → life_of k (record_dropped_total vec node total c) ≡ life_of k c
  unfolding record_dropped_total
  life-dropped k node total c = ground arith

  life-pod_deleted :
      (k : SeriesKey) (namespace pod : Text) (now : ℕ) (c : MetricsCollector Family)
      → life_of k (note_pod_deleted vec namespace pod now c)
        ≡ live_on k (life_of k c) (pod_deleted namespace pod now)
  unfolding note_pod_deleted
  life-pod_deleted k namespace pod now c = ground (
    arith,
    get-insert (namespace, pod) (k.namespace, k.pod) (saturating_add now deleted_pod_grace_seconds)
        c.deleted_after,
  )

  life-evict :
      (k : SeriesKey) (now ttl : ℕ) (c : MetricsCollector Family)
      → IsTracked vec c
      → life_of k (evict_stale vec now ttl c).1 ≡ sweep_life now ttl (life_of k c)
  life-evict k now ttl c v =
      let shown = evicted-kills vec now ttl c v.distinct v.pods_distinct k in
      let stamped = evicted-timestamps vec now ttl c v.distinct v.pods_distinct k in
      let tracked = evicted-seen vec now ttl c v.distinct v.pods_distinct k in
      let due = evict_stale-forgets vec c v now ttl (k.namespace, k.pod) in
      elim (Option-cases (get k c.last_seen)) [
        | inl e ↦ ground (arith, shown, stamped, tracked, due)
        | inr (seen, e) ↦
            ground
              (arith, shown, stamped, tracked, due, is_stale_lem now ttl c v.pods_distinct k seen)
      ]

  life-apply :
      (k : SeriesKey) (call : Call) (c : MetricsCollector Family)
      → IsTracked vec c
      → life_of k (apply vec call c) ≡ live_on k (life_of k c) call
  unfolding apply record_resolution_outcome
  life-apply k (outcome node (ResolutionOutcome.found id)) c v = refl
  life-apply k (outcome node ResolutionOutcome.not_found) c v = refl
  life-apply k (outcome node (ResolutionOutcome.failed e)) c v = refl
  life-apply k (event e) c v = life-event k e c
  life-apply k (dropped node total) c v = life-dropped k node total c
  life-apply k (pod_deleted namespace pod now) c v = life-pod_deleted k namespace pod now c
  life-apply k (evict now ttl) c v = life-evict k now ttl c v

  -- Over any history each container's part of the collector is what its own machine makes of the
  -- same calls: a kill advances its counter from 0 or from where it stood, stamps it and restarts
  -- its age; a deletion of its pod sets the deadline; a sweep ends both series at once when the age
  -- has reached the TTL or the deadline has passed, and drops a passed deadline.
  pub run_calls-life :
      (k : SeriesKey) (calls : List Call) (c : MetricsCollector Family)
      → IsTracked vec c
      → life_of k (run_calls vec calls c) ≡ foldl (live_on k) (life_of k c) calls
  unfolding run_calls
  run_calls-life k [] c v = refl
  run_calls-life k (call ∷ calls) c v =
      run_calls-life k calls (apply vec call c) (apply-IsTracked vec call c v)
      ∙ ap (λ l. foldl (live_on k) l calls) (life-apply k call c v)
