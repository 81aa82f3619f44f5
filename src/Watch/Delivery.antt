-- ===== src/Watch/Delivery.antt =====
-- oom-watcher/src/watch.rs with oom-watcher/src/metrics.rs: what a scrape shows of the events that
-- the loop has taken.
use ebpf_oom_watcher.Prelude.{
  ℕ, ◌+◌, ◌<◌, ◌≡◌, refl, ap, ◌∙◌, List, [], ◌∷◌, ◌++◌, Option, none, some, Text, arith, length,
  list_eq, nat_eq, eq_self,
}
use ebpf_oom_watcher.Prelude.Float.{exact_below}
use ebpf_oom_watcher.Enrich.{enrich, enrich-node_name}
use ebpf_oom_watcher.Resolve.{ContainerResolver, identity}
use ebpf_oom_watcher.Prometheus.{MetricVec}
use ebpf_oom_watcher.Metrics.Collector.{MetricsCollector}
use ebpf_oom_watcher.Metrics.History.{Call, apply, run_calls}
use ebpf_oom_watcher.Metrics.Counts.{events_on, node_total, run_calls-node_total}
use ebpf_oom_watcher.Recorder.{Report, outcome, event, dropped, prometheus, replay}
use ebpf_oom_watcher.Watch.{OomEventSource, Turn, Loop, node_label, unknown, run}
use ebpf_oom_watcher.Watch.Spec.{Taken, taken, reports, reports_of, run-reports}

abbrev to_call : Report → Call
to_call (outcome node o) = Call.outcome node o
to_call (event e) = Call.event e
to_call (dropped node total) = Call.dropped node total

abbrev pub to_calls : List Report → List Call
to_calls [] = []
to_calls (r ∷ rs) = to_call r ∷ to_calls rs

pub replay-run_calls :
    (vec : MetricVec) (rs : List Report) (c : MetricsCollector vec.Family)
    → replay (prometheus vec) rs c ≡ run_calls vec (to_calls rs) c
unfolding run_calls apply
replay-run_calls vec [] c = refl
replay-run_calls vec (outcome node o ∷ rs) c = replay-run_calls vec rs _
replay-run_calls vec (event e ∷ rs) c = replay-run_calls vec rs _
replay-run_calls vec (dropped node total ∷ rs) c = replay-run_calls vec rs _

events_on-append :
    (node : Text) (xs ys : List Report)
    → events_on node (to_calls (xs ++ ys))
      ≡ events_on node (to_calls xs) + events_on node (to_calls ys)
events_on-append node [] ys = omega arith
events_on-append node (outcome n o ∷ xs) ys = events_on-append node xs ys
events_on-append node (event e ∷ xs) ys = omega (arith, events_on-append node xs ys)
events_on-append node (dropped n t ∷ xs) ys = events_on-append node xs ys

-- An event names the node of the resolver, and one event is reported for each that is taken.
pub events_on-reports_of :
    {World : Type 0} (resolver : Option (ContainerResolver World)) (t : Taken World)
    → events_on (node_label resolver) (to_calls (reports_of resolver t.world t.raw t.at t.total))
      ≡ 1
unfolding enrich
events_on-reports_of none t = ground (arith, eq_self unknown)
events_on-reports_of (some client) t = ground (
  arith,
  eq_self client.node_name,
  enrich-node_name t.raw (some client.node_name) (identity (client.resolve t.world t.raw.pid)) t.at,
)

module _ {World : Type 0} (resolver : Option (ContainerResolver World)) where
  events_on-reports :
      (ts : List (Taken World))
      → events_on (node_label resolver) (to_calls (reports resolver ts)) ≡ length ts
  events_on-reports [] = refl
  events_on-reports (t ∷ ts) = omega (
    arith,
    events_on-append (node_label resolver) (reports_of resolver t.world t.raw t.at t.total)
        (reports resolver ts),
    events_on-reports_of resolver t,
    events_on-reports ts,
  )

module _ {World S B : Type 0} (vec : MetricVec) (source : OomEventSource S)
    (resolver : Option (ContainerResolver World)) (heartbeat : ℕ → B → B) where
  -- With the Prometheus adapter, the node's kill counter has grown by exactly the number of events
  -- that the loop has taken, resolved or not, as long as it stays below 2 ^ 53.
  run-node_total :
      (turns : List (Turn World)) (l : Loop S (MetricsCollector vec.Family) B)
      → node_total vec (node_label resolver) l.recorder + length (taken source turns l.source)
        < exact_below
      → node_total vec
          (node_label resolver)
          (run source resolver (prometheus vec) heartbeat turns l).1.recorder
        ≡ node_total vec (node_label resolver) l.recorder + length (taken source turns l.source)
  run-node_total turns l h =
      let node = node_label resolver in
      let rs = reports resolver (taken source turns l.source) in
      let counted = events_on-reports resolver (taken source turns l.source) in
      ap (node_total vec node) (
        (run-reports source resolver (prometheus vec) heartbeat turns l).0
        ∙ replay-run_calls vec rs l.recorder)
      ∙ rw (← counted) (run_calls-node_total vec node (to_calls rs) l.recorder (omega arith))
