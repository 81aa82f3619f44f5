-- ===== src/Metrics/Bound.antt =====
-- oom-watcher/src/metrics.rs: what the two maps of the collector can grow to.
use ebpf_oom_watcher.Prelude.{
  ℕ, ◌+◌, ◌-◌, ◌≤◌, ◌≡◌, refl, not, List, [], ◌∷◌, arith, Bool, true, Text, ltb, leb, length,
  if◌then◌else◌, list_eq, pair_eq, nat_eq, Eq,
}
use ebpf_oom_watcher.Prelude.HashMap.{HashMap, insert, retain}
use ebpf_oom_watcher.Common.{EnrichedOomEvent}
use ebpf_oom_watcher.Resolve.{ResolutionOutcome}
use ebpf_oom_watcher.Prometheus.{MetricVec}
use ebpf_oom_watcher.Metrics.Key.{SeriesKey, key_eq, key_of}
use ebpf_oom_watcher.Metrics.Collector.{
  MetricsCollector, new, note_pod_deleted, record_oom_event, record_seen, record_series,
  saturating_add, deleted_pod_grace_seconds, record_resolution_outcome, record_dropped_total,
}
use ebpf_oom_watcher.Metrics.Evict.{evict_stale, is_stale, is_due}
use ebpf_oom_watcher.Metrics.History.{
  Call, outcome, event, dropped, pod_deleted, evict, apply, run_calls,
}
use ebpf_oom_watcher.Metrics.Tracked.Sweep.{
  due_pods, drained, last_seen-swept, deleted_after-swept, evict_stale_lem,
}

-- The entries whose value passes.
abbrev count_values {ℓ} : {K : Type ℓ} → (ℕ → Bool) → HashMap K ℕ → ℕ
count_values p [] = 0
count_values p ((k, v) ∷ m) = (if p v then 1 else 0) + count_values p m

module _ {ℓ} {K : Type ℓ} (p : ℕ → Bool) where
  count_values-insert :
      ⦃e : Eq K⦄ (k : K) (v : ℕ) (m : HashMap K ℕ)
      → count_values p (insert k v m) ≤ count_values p m + (if p v then 1 else 0)
  unfolding insert
  count_values-insert k v [] = omega arith
  count_values-insert k v ((j, w) ∷ m) = ground (arith, count_values-insert k v m)

  count_values-retain :
      (q : K → ℕ → Bool) (m : HashMap K ℕ) → count_values p (retain q m) ≤ count_values p m
  unfolding retain
  count_values-retain q [] = omega arith
  count_values-retain q ((k, v) ∷ m) = ground (arith, count_values-retain q m)

  length-retain :
      (q : K → ℕ → Bool) (m : HashMap K ℕ)
      → ((k : K) (v : ℕ) → q k v ≡ true → p v ≡ true)
      → length (retain q m) ≤ count_values p m
  unfolding retain
  length-retain q [] h = omega arith
  length-retain q ((k, v) ∷ m) h = ground (arith, h k v, length-retain q m h)

-- The events of a history whose time passes, and its deletions whose deadline passes.
abbrev events_where : (ℕ → Bool) → List Call → ℕ
events_where p [] = 0
events_where p (event e ∷ calls) = (if p e.timestamp then 1 else 0) + events_where p calls
events_where p (_ ∷ calls) = events_where p calls

abbrev deletions_where : (ℕ → Bool) → List Call → ℕ
deletions_where p [] = 0
deletions_where p (pod_deleted namespace pod now ∷ calls) =
    (if p (saturating_add now deleted_pod_grace_seconds) then 1 else 0) + deletions_where p calls
deletions_where p (_ ∷ calls) = deletions_where p calls

module _ (vec : MetricVec) where
  open vec use {Family}

  abbrev after_sweep : List Call → ℕ → ℕ → MetricsCollector Family
  after_sweep calls now ttl = (evict_stale vec now ttl (run_calls vec calls (new vec))).1

  last_seen-evict_stale :
      (now ttl : ℕ) (c : MetricsCollector Family)
      → (evict_stale vec now ttl c).1.last_seen
        ≡ retain (λ k seen. not (is_stale now ttl (due_pods now c) k seen)) c.last_seen
  last_seen-evict_stale now ttl c =
      rw (evict_stale_lem vec now ttl c)
        (last_seen-swept vec (is_stale now ttl (due_pods now c)) (drained now c))

  deleted_after-evict_stale :
      (now ttl : ℕ) (c : MetricsCollector Family)
      → (evict_stale vec now ttl c).1.deleted_after
        ≡ retain (λ pod at. not (is_due now pod at)) c.deleted_after
  deleted_after-evict_stale now ttl c =
      rw (evict_stale_lem vec now ttl c)
        (deleted_after-swept vec (is_stale now ttl (due_pods now c)) (drained now c))

  module _ (p : ℕ → Bool) where
    outcome_frame :
        (node : Text) (o : ResolutionOutcome) (c : MetricsCollector Family)
        → ((record_resolution_outcome vec node o c).last_seen ≡ c.last_seen)
          × ((record_resolution_outcome vec node o c).deleted_after ≡ c.deleted_after)
    unfolding record_resolution_outcome
    outcome_frame node (ResolutionOutcome.found id) c = (refl, refl)
    outcome_frame node ResolutionOutcome.not_found c = (refl, refl)
    outcome_frame node (ResolutionOutcome.failed e) c = (refl, refl)

    dropped_frame :
        (node : Text) (total : ℕ) (c : MetricsCollector Family)
        → ((record_dropped_total vec node total c).last_seen ≡ c.last_seen)
          × ((record_dropped_total vec node total c).deleted_after ≡ c.deleted_after)
    unfolding record_dropped_total
    dropped_frame node total c = ground arith

    frame :
        {xs ys : HashMap SeriesKey ℕ} {ps qs : HashMap (Text × Text) ℕ}
        → (xs ≡ ys) × (ps ≡ qs)
        → (count_values p xs ≤ count_values p ys + 0) × (count_values p ps ≤ count_values p qs + 0)
    frame (e, f) = rw (e, f) (omega arith, omega arith)

    count-event :
        (e : EnrichedOomEvent) (c : MetricsCollector Family)
        → (count_values p (record_oom_event vec e c).last_seen
            ≤ count_values p c.last_seen + (if p e.timestamp then 1 else 0))
          × (count_values p (record_oom_event vec e c).deleted_after
              ≤ count_values p c.deleted_after + 0)
    unfolding record_oom_event record_seen record_series
    count-event e c = (count_values-insert p (key_of e) e.timestamp c.last_seen, omega arith)

    count-pod_deleted :
        (namespace pod : Text) (now : ℕ) (c : MetricsCollector Family)
        → (count_values p (note_pod_deleted vec namespace pod now c).last_seen
            ≤ count_values p c.last_seen + 0)
          × (count_values p (note_pod_deleted vec namespace pod now c).deleted_after
              ≤ count_values p c.deleted_after
                + (if p (saturating_add now deleted_pod_grace_seconds) then 1 else 0))
    unfolding note_pod_deleted
    count-pod_deleted namespace pod now c = (
      omega arith,
      count_values-insert p (namespace, pod) (saturating_add now deleted_pod_grace_seconds)
          c.deleted_after,
    )

    count-evict :
        (now ttl : ℕ) (c : MetricsCollector Family)
        → (count_values p (evict_stale vec now ttl c).1.last_seen ≤ count_values p c.last_seen + 0)
          × (count_values p (evict_stale vec now ttl c).1.deleted_after
              ≤ count_values p c.deleted_after + 0)
    count-evict now ttl c =
        rw (last_seen-evict_stale now ttl c, deleted_after-evict_stale now ttl c)
          (
            omega (
              arith,
              count_values-retain p (λ k seen. not (is_stale now ttl (due_pods now c) k seen))
                  c.last_seen,
            ),
            omega
                (arith, count_values-retain p (λ pod at. not (is_due now pod at)) c.deleted_after),
          )

    -- No call adds more entries that pass than it names.
    count-apply :
        (call : Call) (c : MetricsCollector Family)
        → (count_values p (apply vec call c).last_seen
            ≤ count_values p c.last_seen + events_where p (call ∷ []))
          × (count_values p (apply vec call c).deleted_after
              ≤ count_values p c.deleted_after + deletions_where p (call ∷ []))
    unfolding apply
    count-apply (outcome node o) c = frame (outcome_frame node o c)
    count-apply (event e) c = let (a, b) = count-event e c in (omega (arith, a), b)
    count-apply (dropped node total) c = frame (dropped_frame node total c)
    count-apply (pod_deleted namespace pod now) c =
        let (a, b) = count-pod_deleted namespace pod now c in (a, omega (arith, b))
    count-apply (evict now ttl) c = count-evict now ttl c

    events_where-cons :
        (call : Call) (calls : List Call)
        → (events_where p (call ∷ calls) ≡ events_where p (call ∷ []) + events_where p calls)
          × (deletions_where p (call ∷ calls)
              ≡ deletions_where p (call ∷ []) + deletions_where p calls)
    events_where-cons (outcome node o) calls = omega arith
    events_where-cons (event e) calls = omega arith
    events_where-cons (dropped node total) calls = omega arith
    events_where-cons (pod_deleted namespace pod now) calls = omega arith
    events_where-cons (evict now ttl) calls = omega arith

    count-run_calls :
        (calls : List Call) (c : MetricsCollector Family)
        → (count_values p (run_calls vec calls c).last_seen
            ≤ count_values p c.last_seen + events_where p calls)
          × (count_values p (run_calls vec calls c).deleted_after
              ≤ count_values p c.deleted_after + deletions_where p calls)
    unfolding run_calls
    count-run_calls [] c = (omega arith, omega arith)
    count-run_calls (call ∷ calls) c =
        let (a, b) = count-apply call c in
        let (x, y) = count-run_calls calls (apply vec call c) in
        let (u, w) = events_where-cons call calls in
        (omega (arith, a, x, u), omega (arith, b, y, w))

  -- After a sweep the collector tracks no more containers than there were kills within the TTL, and
  -- remembers no more deleted pods than there were deletions whose grace is still running, whatever
  -- happened before: neither map grows with the age of the process.
  pub evict_stale-length :
      (calls : List Call) (now ttl : ℕ)
      → (length (after_sweep calls now ttl).last_seen
          ≤ events_where (λ at. not (leb ttl (now - at))) calls)
        × (length (after_sweep calls now ttl).deleted_after
            ≤ deletions_where (λ removable_at. ltb now removable_at) calls)
  unfolding new is_stale
  evict_stale-length calls now ttl =
      let c = run_calls vec calls (new vec) in
      let (a, b) = count-run_calls (λ at. not (leb ttl (now - at))) calls (new vec) in
      let (x, y) = count-run_calls (λ removable_at. ltb now removable_at) calls (new vec) in
      rw (last_seen-evict_stale now ttl c, deleted_after-evict_stale now ttl c)
        (
          omega (
            arith,
            a,
            length-retain (λ at. not (leb ttl (now - at)))
                (λ k seen. not (is_stale now ttl (due_pods now c) k seen)) c.last_seen
                (λ k v h. ground arith),
          ),
          omega (
            arith,
            y,
            length-retain (λ removable_at. ltb now removable_at) (λ pod at. not (is_due now pod at))
                c.deleted_after (λ pod at h. ground arith),
          ),
        )
