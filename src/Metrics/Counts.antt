-- ===== src/Metrics/Counts.antt =====
-- oom-watcher/src/metrics.rs: the counters count what they are named for, over any history.
use ebpf_oom_watcher.Prelude.{
  ℕ, ◌+◌, ◌<◌, ◌≡◌, refl, ap, ◌∙◌, Bool, false, ◌&&◌, List, [], ◌∷◌, ◌++◌, Option, none, some,
  arith, Text, codes, if◌then◌else◌, ◌==◌, list_eq, list_beq, nat_eq,
}
use ebpf_oom_watcher.Prelude.Float.{f64_add_exact, exact_below}
use ebpf_oom_watcher.Prelude.HashMap.{HashMap}
use ebpf_oom_watcher.Common.{EnrichedOomEvent}
use ebpf_oom_watcher.Resolve.{ResolutionOutcome}
use ebpf_oom_watcher.Prometheus.{MetricVec, or_zero}
use ebpf_oom_watcher.Metrics.Key.{SeriesKey, or_unknown}
use ebpf_oom_watcher.Metrics.Collector.{
  MetricsCollector, record_series, record_seen, record_oom_event, record_resolution_outcome,
  record_dropped_total, note_pod_deleted,
}
use ebpf_oom_watcher.Metrics.Evict.{
  is_orphaned, remove_series, remove_stale, take_due, sweep, evict_stale,
}
use ebpf_oom_watcher.Metrics.History.{
  Call, outcome, event, dropped, pod_deleted, evict, apply, run_calls,
}

-- How many events name the node.
abbrev pub events_on : Text → List Call → ℕ
events_on node [] = 0
events_on node (event e ∷ calls) =
    (if or_unknown e.node_name == node then 1 else 0) + events_on node calls
events_on node (_ ∷ calls) = events_on node calls

abbrev pub reason_of : ResolutionOutcome → Option Text
reason_of (ResolutionOutcome.found id) = none
reason_of ResolutionOutcome.not_found = some (codes "not_found")
reason_of (ResolutionOutcome.failed e) = some (codes "error")

abbrev pub is_reason : Text → Text → Text → Option Text → Bool
is_reason node n reason none = false
is_reason node n reason (some r) = n == node && r == reason

-- How many resolutions on the node failed for the reason.
abbrev pub failures_on : Text → Text → List Call → ℕ
failures_on node reason [] = 0
failures_on node reason (outcome n o ∷ calls) =
    (if is_reason node n reason (reason_of o) then 1 else 0) + failures_on node reason calls
failures_on node reason (_ ∷ calls) = failures_on node reason calls

module _ (vec : MetricVec) where
  open vec use {Family, value, value-inc_by}

  -- The node-scoped counters, which only their own call writes.
  abbrev pub node_total : Text → MetricsCollector Family → ℕ
  node_total node c = or_zero (value c.oom_kills_per_node_total (node ∷ []))

  abbrev pub failure_total : Text → Text → MetricsCollector Family → ℕ
  failure_total node reason c = or_zero (value c.oom_resolution_failures_total (node ∷ reason ∷ []))

  remove_stale_frame :
      (live : HashMap SeriesKey ℕ) (stale : List SeriesKey) (c : MetricsCollector Family)
      → ((remove_stale vec live stale c).oom_kills_per_node_total ≡ c.oom_kills_per_node_total)
        × ((remove_stale vec live stale c).oom_resolution_failures_total
            ≡ c.oom_resolution_failures_total)
        × ((remove_stale vec live stale c).oom_events_dropped_total ≡ c.oom_events_dropped_total)
  unfolding remove_stale remove_series
  remove_stale_frame live [] c = (refl, refl, refl)
  remove_stale_frame live (s ∷ stale) c =
      remove_stale_frame live stale (remove_series vec s (is_orphaned live s) c)

  evict_stale_frame :
      (now ttl : ℕ) (c : MetricsCollector Family)
      → ((evict_stale vec now ttl c).1.oom_kills_per_node_total ≡ c.oom_kills_per_node_total)
        × ((evict_stale vec now ttl c).1.oom_resolution_failures_total
            ≡ c.oom_resolution_failures_total)
        × ((evict_stale vec now ttl c).1.oom_events_dropped_total ≡ c.oom_events_dropped_total)
  unfolding evict_stale sweep take_due
  evict_stale_frame now ttl c = remove_stale_frame _ _ _

  count_event :
      (e : EnrichedOomEvent) (node : Text) (c : MetricsCollector Family)
      → node_total node c + (if or_unknown e.node_name == node then 1 else 0) < exact_below
      → node_total node (record_oom_event vec e c)
        ≡ node_total node c + (if or_unknown e.node_name == node then 1 else 0)
  unfolding record_oom_event record_seen record_series list_beq
  count_event e node c h = ground (
    arith,
    value-inc_by (or_unknown e.node_name ∷ []) (node ∷ []) 1 c.oom_kills_per_node_total,
    f64_add_exact (node_total node c) 1,
    (list_eq {A = ℕ}).eq_iff (or_unknown e.node_name) node,
  )

  count_outcome :
      (n : Text) (o : ResolutionOutcome) (node reason : Text) (c : MetricsCollector Family)
      → failure_total node reason c + (if is_reason node n reason (reason_of o) then 1 else 0)
        < exact_below
      → failure_total node reason (record_resolution_outcome vec n o c)
        ≡ failure_total node reason c + (if is_reason node n reason (reason_of o) then 1 else 0)
  unfolding record_resolution_outcome list_beq
  count_outcome n (ResolutionOutcome.found id) node reason c h = omega arith
  count_outcome n ResolutionOutcome.not_found node reason c h = ground (
    arith,
    value-inc_by (n ∷ codes "not_found" ∷ []) (node ∷ reason ∷ []) 1
        c.oom_resolution_failures_total,
    f64_add_exact (failure_total node reason c) 1,
    (list_eq {A = ℕ}).eq_iff n node,
    (list_eq {A = ℕ}).eq_iff (codes "not_found") reason,
  )
  count_outcome n (ResolutionOutcome.failed e) node reason c h = ground (
    arith,
    value-inc_by (n ∷ codes "error" ∷ []) (node ∷ reason ∷ []) 1 c.oom_resolution_failures_total,
    f64_add_exact (failure_total node reason c) 1,
    (list_eq {A = ℕ}).eq_iff n node,
    (list_eq {A = ℕ}).eq_iff (codes "error") reason,
  )

  outcome_node :
      (n node : Text) (o : ResolutionOutcome) (c : MetricsCollector Family)
      → node_total node (record_resolution_outcome vec n o c) ≡ node_total node c
  unfolding record_resolution_outcome
  outcome_node n node (ResolutionOutcome.found id) c = refl
  outcome_node n node _ c = refl

  dropped_counts :
      (n : Text) (total : ℕ) (node reason : Text) (c : MetricsCollector Family)
      → (node_total node (record_dropped_total vec n total c) ≡ node_total node c)
        × (failure_total node reason (record_dropped_total vec n total c)
            ≡ failure_total node reason c)
  unfolding record_dropped_total
  dropped_counts n total node reason c = ground arith

  deleted_counts :
      (namespace pod : Text) (now : ℕ) (node reason : Text) (c : MetricsCollector Family)
      → (node_total node (note_pod_deleted vec namespace pod now c) ≡ node_total node c)
        × (failure_total node reason (note_pod_deleted vec namespace pod now c)
            ≡ failure_total node reason c)
  unfolding note_pod_deleted
  deleted_counts namespace pod now node reason c = (refl, refl)

  event_failures :
      (e : EnrichedOomEvent) (node reason : Text) (c : MetricsCollector Family)
      → failure_total node reason (record_oom_event vec e c) ≡ failure_total node reason c
  unfolding record_oom_event record_seen record_series
  event_failures e node reason c = refl

  apply-node_total :
      (node : Text) (call : Call) (c : MetricsCollector Family)
      → node_total node c + events_on node (call ∷ []) < exact_below
      → node_total node (apply vec call c) ≡ node_total node c + events_on node (call ∷ [])
  unfolding apply
  apply-node_total node (outcome n o) c h = outcome_node n node o c ∙ omega arith
  apply-node_total node (event e) c h = omega (arith, count_event e node c (ground arith))
  apply-node_total node (dropped n total) c h = omega (arith, (dropped_counts n total node [] c).0)
  apply-node_total node (pod_deleted namespace pod now) c h =
      omega (arith, (deleted_counts namespace pod now node [] c).0)
  apply-node_total node (evict now ttl) c h =
      ap (λ m. or_zero (value m (node ∷ []))) (evict_stale_frame now ttl c).0 ∙ omega arith

  apply-failure_total :
      (node reason : Text) (call : Call) (c : MetricsCollector Family)
      → failure_total node reason c + failures_on node reason (call ∷ []) < exact_below
      → failure_total node reason (apply vec call c)
        ≡ failure_total node reason c + failures_on node reason (call ∷ [])
  unfolding apply
  apply-failure_total node reason (outcome n o) c h =
      omega (arith, count_outcome n o node reason c (ground arith))
  apply-failure_total node reason (event e) c h = event_failures e node reason c ∙ omega arith
  apply-failure_total node reason (dropped n total) c h =
      omega (arith, (dropped_counts n total node reason c).1)
  apply-failure_total node reason (pod_deleted namespace pod now) c h =
      omega (arith, (deleted_counts namespace pod now node reason c).1)
  apply-failure_total node reason (evict now ttl) c h =
      ap (λ m. or_zero (value m (node ∷ reason ∷ []))) (evict_stale_frame now ttl c).1 ∙ omega arith

  events_on_cons :
      (node : Text) (call : Call) (calls : List Call)
      → events_on node (call ∷ calls) ≡ events_on node (call ∷ []) + events_on node calls
  events_on_cons node (event e) calls = omega arith
  events_on_cons node _ calls = omega arith

  pub events_on-append :
      (node : Text) (xs ys : List Call)
      → events_on node (xs ++ ys) ≡ events_on node xs + events_on node ys
  events_on-append node [] ys = omega arith
  events_on-append node (call ∷ xs) ys = omega (
    arith,
    events_on_cons node call (xs ++ ys),
    events_on_cons node call xs,
    events_on-append node xs ys,
  )

  failures_on_cons :
      (node reason : Text) (call : Call) (calls : List Call)
      → failures_on node reason (call ∷ calls)
        ≡ failures_on node reason (call ∷ []) + failures_on node reason calls
  failures_on_cons node reason (outcome n o) calls = omega arith
  failures_on_cons node reason _ calls = omega arith

  pub failures_on-append :
      (node reason : Text) (xs ys : List Call)
      → failures_on node reason (xs ++ ys) ≡ failures_on node reason xs + failures_on node reason ys
  failures_on-append node reason [] ys = omega arith
  failures_on-append node reason (call ∷ xs) ys = omega (
    arith,
    failures_on_cons node reason call (xs ++ ys),
    failures_on_cons node reason call xs,
    failures_on-append node reason xs ys,
  )

  -- Over any history, sweeps included, the node's kill counter grows by the number of events
  -- recorded for the node, as long as it stays below 2 ^ 53.
  pub run_calls-node_total :
      (node : Text) (calls : List Call) (c : MetricsCollector Family)
      → node_total node c + events_on node calls < exact_below
      → node_total node (run_calls vec calls c) ≡ node_total node c + events_on node calls
  unfolding run_calls
  run_calls-node_total node [] c h = omega arith
  run_calls-node_total node (call ∷ calls) c h =
      let e = events_on_cons node call calls in
      let step = apply-node_total node call c (omega arith) in
      let rest = run_calls-node_total node calls (apply vec call c) (omega arith) in omega arith

  -- Over any history the failure counter of a node and a reason grows by the number of outcomes
  -- with that reason there, as long as it stays below 2 ^ 53: an absent container and a failed
  -- lookup are told apart, and a found container is not counted.
  pub run_calls-failure_total :
      (node reason : Text) (calls : List Call) (c : MetricsCollector Family)
      → failure_total node reason c + failures_on node reason calls < exact_below
      → failure_total node reason (run_calls vec calls c)
        ≡ failure_total node reason c + failures_on node reason calls
  unfolding run_calls
  run_calls-failure_total node reason [] c h = omega arith
  run_calls-failure_total node reason (call ∷ calls) c h =
      let f = failures_on_cons node reason call calls in
      let step = apply-failure_total node reason call c (omega arith) in
      let rest = run_calls-failure_total node reason calls (apply vec call c) (omega arith) in
      omega arith
