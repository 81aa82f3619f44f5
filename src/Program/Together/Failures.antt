-- ===== src/Program/Together/Failures.antt =====
-- oom-watcher/src/main.rs: the counter of failed resolutions after the tasks have run together.
use ebpf_oom_watcher.Prelude.{
  ℕ, ◌+◌, ◌<◌, ◌≡◌, refl, ap, ◌∙◌, Bool, false, if◌then◌else◌, ◌==◌, list_eq, nat_eq, eq_self, List,
  [], ◌∷◌, Option, none, some, Text, arith,
}
use ebpf_oom_watcher.Prelude.Float.{exact_below}
use ebpf_oom_watcher.Resolve.{ContainerResolver}
use ebpf_oom_watcher.Prometheus.{MetricVec}
use ebpf_oom_watcher.Metrics.Collector.{MetricsCollector}
use ebpf_oom_watcher.Metrics.Counts.{
  reason_of, is_reason, failures_on, failures_on-append, failure_total, run_calls-failure_total,
}
use ebpf_oom_watcher.Watch.{OomEventSource, Loop, node_label}
use ebpf_oom_watcher.Watch.Spec.{Taken, taken, reports_of}
use ebpf_oom_watcher.Watch.Delivery.{to_calls}
use ebpf_oom_watcher.Program.Together.{Act, Happening, took, swept, deleted, happenings, run_acts}
use ebpf_oom_watcher.Program.Together.Calls.{calls_of, run_acts-calls}
use ebpf_oom_watcher.Program.Together.Pulse.{turns_of}
use ebpf_oom_watcher.Program.Together.Kills.{kills_in, kills_in-happenings}

-- Why the resolution of the process failed, in the world of its turn.
abbrev failure_of : {World : Type 0} → Option (ContainerResolver World) → Taken World → Option Text
failure_of none t = none
failure_of (some client) t = reason_of (client.resolve t.world t.raw.pid)

abbrev is_for : Text → Option Text → Bool
is_for reason none = false
is_for reason (some r) = r == reason

-- How many of the kills the resolver failed on for the reason.
abbrev failed_for :
    {World : Type 0} → Option (ContainerResolver World) → Text → List (Taken World) → ℕ
failed_for resolver reason [] = 0
failed_for resolver reason (t ∷ ts) =
    (if is_for reason (failure_of resolver t) then 1 else 0) + failed_for resolver reason ts

one_failure :
    (node reason : Text) (failed : Option Text)
    → (if is_reason node node reason failed then 1 else 0) + 0
      ≡ (if is_for reason failed then 1 else 0)
one_failure node reason none = refl
one_failure node reason (some r) = ground (arith, eq_self node)

failures_on-reports_of :
    {World : Type 0} (resolver : Option (ContainerResolver World)) (reason : Text) (t : Taken World)
    (total : Option ℕ)
    → failures_on
        (node_label resolver)
        reason
        (to_calls (reports_of resolver t.world t.raw t.at total))
      ≡ (if is_for reason (failure_of resolver t) then 1 else 0)
failures_on-reports_of none reason t none = refl
failures_on-reports_of none reason t (some total) = refl
failures_on-reports_of (some client) reason t none =
    one_failure client.node_name reason (reason_of (client.resolve t.world t.raw.pid))
failures_on-reports_of (some client) reason t (some total) =
    one_failure client.node_name reason (reason_of (client.resolve t.world t.raw.pid))

module _ {World : Type 0} (vec : MetricVec) (ttl : ℕ) (resolver : Option (ContainerResolver World))
    (reason : Text) where
  failures_on-calls_of :
      (hs : List (Happening World))
      → failures_on (node_label resolver) reason (calls_of ttl resolver hs)
        ≡ failed_for resolver reason (kills_in hs)
  failures_on-calls_of [] = refl
  failures_on-calls_of (took t ∷ hs) = omega (
    arith,
    failures_on-append vec (node_label resolver) reason
        (to_calls (reports_of resolver t.world t.raw t.at t.total)) (calls_of ttl resolver hs),
    failures_on-reports_of resolver reason t t.total,
    failures_on-calls_of hs,
  )
  failures_on-calls_of (swept now ∷ hs) = failures_on-calls_of hs
  failures_on-calls_of (deleted namespace pod now ∷ hs) = failures_on-calls_of hs

module _ {World Opaque S B : Type 0} (vec : MetricVec) (ttl : ℕ) (source : OomEventSource S)
    (resolver : Option (ContainerResolver World)) (heartbeat : ℕ → B → B) where
  -- However sweeps and pod events fall between the turns of the loop, the node's counter of failed
  -- resolutions grows, for each reason, by the number of events taken whose process the resolver
  -- failed on for that reason in the world of its turn, as long as it stays below 2 ^ 53: `not_found`
  -- if it answered that there is no container, `error` if it answered with an error, none if it found
  -- one or if there is no resolver.
  pub run_acts-failure_total :
      (reason : Text) (acts : List (Act World Opaque)) (l : Loop S (MetricsCollector vec.Family) B)
      → failure_total vec (node_label resolver) reason l.recorder
          + failed_for resolver reason (taken source (turns_of acts) l.source)
        < exact_below
      → failure_total vec
          (node_label resolver)
          reason
          (run_acts vec ttl source resolver heartbeat acts l).recorder
        ≡ failure_total vec (node_label resolver) reason l.recorder
          + failed_for resolver reason (taken source (turns_of acts) l.source)
  run_acts-failure_total reason acts l h =
      let node = node_label resolver in
      let hs = happenings source acts l.source in
      let counted =
        failures_on-calls_of vec ttl resolver reason hs
        ∙ ap (failed_for resolver reason) (kills_in-happenings source acts l.source) in
      ap (failure_total vec node reason) (run_acts-calls vec ttl source resolver heartbeat acts l)
      ∙ rw (← counted) (
          run_calls-failure_total vec node reason (calls_of ttl resolver hs) l.recorder
            (omega arith))
