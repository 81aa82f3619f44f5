-- ===== src/Program/Together/Drops.antt =====
-- oom-watcher/src/main.rs: what the drop counter shows after the tasks have run together.
mod Counter
use ebpf_oom_watcher.Prelude.{
  ℕ, ◌+◌, ◌-◌, ◌<◌, ◌≡◌, refl, ap, sym, ◌∙◌, List, [], ◌∷◌, Option, none, some, Text, arith, foldl,
  push_some,
}
use ebpf_oom_watcher.Prelude.Float.{exact_below}
use ebpf_oom_watcher.Resolve.{ContainerResolver}
use ebpf_oom_watcher.Recorder.{prometheus, replay}
use ebpf_oom_watcher.Prometheus.{MetricVec, or_zero}
use ebpf_oom_watcher.Metrics.Collector.{MetricsCollector, note_pod_deleted}
use ebpf_oom_watcher.Metrics.Evict.{evict_stale}
use ebpf_oom_watcher.Metrics.Drops.{gains, IsRising, last_reading, drop_total, read_totals-IsRising}
use ebpf_oom_watcher.Kubernetes.Cache
use ebpf_oom_watcher.Kubernetes.Deletions
use ebpf_oom_watcher.Watch.{OomEventSource, Loop, node_label}
use ebpf_oom_watcher.Watch.Spec.{reports_of}
use ebpf_oom_watcher.Metrics.History.{run_calls}
use ebpf_oom_watcher.Metrics.History
use ebpf_oom_watcher.Program.Together.Calls.{calls_of, run_calls-took, run_acts-calls}
use ebpf_oom_watcher.Program.Together.{Act, Happening, took, swept, deleted, happenings, run_acts}
use ebpf_oom_watcher.Program.Together.Drops.Counter.{
  drops_of, advance, drops_of-read_totals, drops_of-evict_stale, drops_of-reports_of,
}

-- The totals that the source reported with the events taken.
abbrev readings : {World : Type 0} → List (Happening World) → List ℕ
readings [] = []
readings (took t ∷ hs) = push_some t.total (readings hs)
readings (swept now ∷ hs) = readings hs
readings (deleted namespace pod now ∷ hs) = readings hs

abbrev read_all : (vec : MetricVec) → Text → List ℕ → vec.Family × ℕ → vec.Family × ℕ
read_all vec node totals d = foldl (advance vec node) d totals

foldl-push_some :
    (vec : MetricVec) (node : Text) (o : Option ℕ) (totals : List ℕ) (d : vec.Family × ℕ)
    → read_all vec node totals (read_all vec node (push_some o []) d)
      ≡ read_all vec node (push_some o totals) d
foldl-push_some vec node none totals d = refl
foldl-push_some vec node (some total) totals d = refl

drops_of-calls_of :
    {World : Type 0} (vec : MetricVec) (ttl : ℕ) (resolver : Option (ContainerResolver World))
    (hs : List (Happening World)) (c : MetricsCollector vec.Family)
    → drops_of vec (node_label resolver) (run_calls vec (calls_of ttl resolver hs) c)
      ≡ read_all vec (node_label resolver) (readings hs) (drops_of vec (node_label resolver) c)
unfolding run_calls History.apply note_pod_deleted
drops_of-calls_of vec ttl resolver [] c = refl
drops_of-calls_of vec ttl resolver (took t ∷ hs) c =
    let node = node_label resolver in
    let rs = reports_of resolver t.world t.raw t.at t.total in
    ap (drops_of vec node) (run_calls-took vec ttl resolver t hs c)
    ∙ drops_of-calls_of vec ttl resolver hs (replay (prometheus vec) rs c)
    ∙ ap (read_all vec node (readings hs)) (drops_of-reports_of vec resolver t t.total c)
    ∙ foldl-push_some vec node t.total (readings hs) (drops_of vec node c)
drops_of-calls_of vec ttl resolver (swept now ∷ hs) c =
    let node = node_label resolver in
    drops_of-calls_of vec ttl resolver hs (evict_stale vec now ttl c).1
    ∙ ap (read_all vec node (readings hs)) (drops_of-evict_stale vec node now ttl c)
drops_of-calls_of vec ttl resolver (deleted namespace pod now ∷ hs) c =
    drops_of-calls_of vec ttl resolver hs (note_pod_deleted vec namespace pod now c)

module _ {World Opaque S B : Type 0} (vec : MetricVec) (ttl : ℕ) (source : OomEventSource S)
    (resolver : Option (ContainerResolver World)) (heartbeat : ℕ → B → B) where
  open vec use {Family}

  -- Whatever the order in which the three tasks get to the collector, the node's drop counter has grown
  -- by exactly what the source's total of lost events has between the collector's last reading of it
  -- and the one with the last event taken, if the totals never fall and the counter stays below
  -- 2 ^ 53.
  pub run_acts-drop_total :
      (acts : List (Act World Opaque)) (l : Loop S (MetricsCollector Family) B)
      → IsRising l.recorder.last_dropped_total (readings (happenings source acts l.source))
      → drop_total vec (node_label resolver) l.recorder
          + gains l.recorder.last_dropped_total (readings (happenings source acts l.source))
        < exact_below
      → drop_total vec
            (node_label resolver)
            (run_acts vec ttl source resolver heartbeat acts l).recorder
          + l.recorder.last_dropped_total
        ≡ drop_total vec (node_label resolver) l.recorder
          + last_reading l.recorder.last_dropped_total (readings (happenings source acts l.source))
  run_acts-drop_total acts l rising exact =
      let totals = readings (happenings source acts l.source) in
      let node = node_label resolver in
      let same =
        ap (drops_of vec node) (run_acts-calls vec ttl source resolver heartbeat acts l)
        ∙ drops_of-calls_of vec ttl resolver (happenings source acts l.source) l.recorder
        ∙ sym (drops_of-read_totals vec node totals l.recorder) in
      ap (λ (d : Family × ℕ). or_zero (vec.value d.0 (node ∷ [])) + l.recorder.last_dropped_total)
        same
      ∙ read_totals-IsRising vec node totals l.recorder rising exact
