-- ===== src/Program/Together/Kills.antt =====
-- oom-watcher/src/main.rs: the node's kill counter after the tasks have run together.
use ebpf_oom_watcher.Prelude.{
  ℕ, ◌+◌, ◌<◌, ◌≡◌, refl, ap, ◌∙◌, inl, inr, List, [], ◌∷◌, ◌++◌, Option, none, some, Text, arith,
  length, Option-cases,
}
use ebpf_oom_watcher.Prelude.Float.{exact_below}
use ebpf_oom_watcher.Resolve.{ContainerResolver}
use ebpf_oom_watcher.Prometheus.{MetricVec}
use ebpf_oom_watcher.Metrics.Collector.{MetricsCollector}
use ebpf_oom_watcher.Metrics.Counts.{events_on, events_on-append, node_total, run_calls-node_total}
use ebpf_oom_watcher.Kubernetes.Pods.{Pod}
use ebpf_oom_watcher.Kubernetes.Cache
use ebpf_oom_watcher.Kubernetes.Deletions
use ebpf_oom_watcher.Kubernetes.Deletions.{Item, watch_error, with_names}
use ebpf_oom_watcher.Watch.{OomEventSource, source_wins, ticker_wins, Loop, node_label}
use ebpf_oom_watcher.Watch.Spec.{Taken, taken, reports_of}
use ebpf_oom_watcher.Watch.Delivery.{to_calls, events_on-reports_of}
use ebpf_oom_watcher.Program.Together.{
  Act, turn, tick, item, Happening, took, swept, deleted, deletions, happenings, run_acts,
}
use ebpf_oom_watcher.Program.Together.Calls.{calls_of, run_acts-calls}
use ebpf_oom_watcher.Program.Together.Pulse.{turns_of}

-- The kills taken.
abbrev pub kills_in : {World : Type 0} → List (Happening World) → List (Taken World)
kills_in [] = []
kills_in (took t ∷ hs) = t ∷ kills_in hs
kills_in (swept now ∷ hs) = kills_in hs
kills_in (deleted namespace pod now ∷ hs) = kills_in hs

kills_in-with_names :
    {World : Type 0} (namespace name : Option Text) (now : ℕ) (hs : List (Happening World))
    → kills_in (with_names namespace name (λ n p. deleted n p now ∷ []) [] ++ hs) ≡ kills_in hs
kills_in-with_names (some n) (some p) now hs = refl
kills_in-with_names none name now hs = refl
kills_in-with_names (some n) none now hs = refl

kills_in-deletions :
    {World Opaque : Type 0} (now : ℕ) (i : Item (Pod Opaque)) (hs : List (Happening World))
    → kills_in (deletions now i ++ hs) ≡ kills_in hs
kills_in-deletions now (Deletions.event (Cache.delete pod)) hs =
    kills_in-with_names pod.metadata.namespace pod.metadata.name now hs
kills_in-deletions now (Deletions.event (Cache.apply pod)) hs = refl
kills_in-deletions now (Deletions.event Cache.init) hs = refl
kills_in-deletions now (Deletions.event (Cache.init_apply pod)) hs = refl
kills_in-deletions now (Deletions.event Cache.init_done) hs = refl
kills_in-deletions now (watch_error e) hs = refl

-- The loop takes what it takes alone.
pub kills_in-happenings :
    {World Opaque S : Type 0} (source : OomEventSource S) (acts : List (Act World Opaque)) (s : S)
    → kills_in (happenings source acts s) ≡ taken source (turns_of acts) s
unfolding happenings taken
kills_in-happenings source [] s = refl
kills_in-happenings source (turn (ticker_wins stamp) ∷ acts) s = kills_in-happenings source acts s
kills_in-happenings source (turn (source_wins world at stamp) ∷ acts) s =
    elim (Option-cases (source.next s).0) [
      | inl e ↦ rw e refl
      | inr (raw, e) ↦ rw e (
          ap
            (λ ts.
              record {
                world = world;
                raw = raw;
                at = at;
                total = source.dropped_total (source.next s).1;
              }
              ∷ ts)
            (kills_in-happenings source acts (source.next s).1))
    ]
kills_in-happenings source (tick now ∷ acts) s = kills_in-happenings source acts s
kills_in-happenings source (item now i ∷ acts) s =
    kills_in-deletions now i (happenings source acts s) ∙ kills_in-happenings source acts s

events_on-calls_of :
    {World : Type 0} (vec : MetricVec) (ttl : ℕ) (resolver : Option (ContainerResolver World))
    (hs : List (Happening World))
    → events_on (node_label resolver) (calls_of ttl resolver hs) ≡ length (kills_in hs)
events_on-calls_of vec ttl resolver [] = refl
events_on-calls_of vec ttl resolver (took t ∷ hs) = omega (
  arith,
  events_on-append vec (node_label resolver)
      (to_calls (reports_of resolver t.world t.raw t.at t.total)) (calls_of ttl resolver hs),
  events_on-reports_of resolver t,
  events_on-calls_of vec ttl resolver hs,
)
events_on-calls_of vec ttl resolver (swept now ∷ hs) = events_on-calls_of vec ttl resolver hs
events_on-calls_of vec ttl resolver (deleted namespace pod now ∷ hs) =
    events_on-calls_of vec ttl resolver hs

module _ {World Opaque S B : Type 0} (vec : MetricVec) (ttl : ℕ) (source : OomEventSource S)
    (resolver : Option (ContainerResolver World)) (heartbeat : ℕ → B → B) where
  -- However sweeps and pod events fall between the turns of the loop, the node's kill counter grows by
  -- the number of events that the loop takes in these turns, as long as it stays below 2 ^ 53.
  pub run_acts-node_total :
      (acts : List (Act World Opaque)) (l : Loop S (MetricsCollector vec.Family) B)
      → node_total vec (node_label resolver) l.recorder
          + length (taken source (turns_of acts) l.source)
        < exact_below
      → node_total vec
          (node_label resolver)
          (run_acts vec ttl source resolver heartbeat acts l).recorder
        ≡ node_total vec (node_label resolver) l.recorder
          + length (taken source (turns_of acts) l.source)
  run_acts-node_total acts l h =
      let node = node_label resolver in
      let hs = happenings source acts l.source in
      let counted =
        events_on-calls_of vec ttl resolver hs
        ∙ ap length (kills_in-happenings source acts l.source) in
      ap (node_total vec node) (run_acts-calls vec ttl source resolver heartbeat acts l)
      ∙ rw (← counted)
          (run_calls-node_total vec node (calls_of ttl resolver hs) l.recorder (omega arith))
