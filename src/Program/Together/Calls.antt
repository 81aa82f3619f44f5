-- ===== src/Program/Together/Calls.antt =====
-- oom-watcher/src/main.rs: what the tasks do to the collector together is one history of calls of
-- oom-watcher/src/metrics.rs.
use ebpf_oom_watcher.Prelude.{
  ℕ, ◌≡◌, refl, ap, sym, ◌∙◌, inl, inr, List, [], ◌∷◌, ◌++◌, Option, none, some, Text, Option-cases,
}
use ebpf_oom_watcher.Resolve.{ContainerResolver}
use ebpf_oom_watcher.Recorder.{prometheus, replay}
use ebpf_oom_watcher.Prometheus.{MetricVec}
use ebpf_oom_watcher.Metrics.Collector.{MetricsCollector, note_pod_deleted}
use ebpf_oom_watcher.Metrics.Evict.{evict_stale}
use ebpf_oom_watcher.Metrics.History.{Call, run_calls, run_calls-append}
use ebpf_oom_watcher.Metrics.History
use ebpf_oom_watcher.Kubernetes.Pods.{Pod, prune_for_cache}
use ebpf_oom_watcher.Kubernetes.Cache.{Event}
use ebpf_oom_watcher.Kubernetes.Cache
use ebpf_oom_watcher.Kubernetes.Deletions
use ebpf_oom_watcher.Kubernetes.Deletions.{Item, watch_error, with_names, trim, for_each}
use ebpf_oom_watcher.Watch.{OomEventSource, source_wins, ticker_wins, Loop}
use ebpf_oom_watcher.Watch.Spec.{Taken, reports_of, run-ticked, run-taken, run-ended}
use ebpf_oom_watcher.Watch.Delivery.{to_calls, replay-run_calls}
use ebpf_oom_watcher.Program.Together.{
  Act, turn, tick, item, Happening, took, swept, deleted, deletions, happenings, run_acts,
}

-- The calls of one happening after the other; a kill taken is reported in up to three.
abbrev pub calls_of :
    {World : Type 0} → ℕ → Option (ContainerResolver World) → List (Happening World) → List Call
calls_of ttl resolver [] = []
calls_of ttl resolver (took t ∷ hs) =
    to_calls (reports_of resolver t.world t.raw t.at t.total) ++ calls_of ttl resolver hs
calls_of ttl resolver (swept now ∷ hs) = Call.evict now ttl ∷ calls_of ttl resolver hs
calls_of ttl resolver (deleted namespace pod now ∷ hs) =
    Call.pod_deleted namespace pod now ∷ calls_of ttl resolver hs

module _ {World : Type 0} (vec : MetricVec) (ttl : ℕ)
    (resolver : Option (ContainerResolver World)) where
  open vec use {Family}

  run_calls-with_names :
      (namespace name : Option Text) (now : ℕ) (hs : List (Happening World))
      (c : MetricsCollector Family)
      → run_calls vec
          (calls_of ttl resolver (with_names namespace name (λ n p. deleted n p now ∷ []) [] ++ hs))
          c
        ≡ run_calls vec
            (calls_of ttl resolver hs)
            (with_names namespace name (λ n p. note_pod_deleted vec n p now c) c)
  unfolding run_calls History.apply
  run_calls-with_names (some n) (some p) now hs c = refl
  run_calls-with_names none name now hs c = refl
  run_calls-with_names (some n) none now hs c = refl

  run_calls-deletions :
      {Opaque : Type 0} (now : ℕ) (i : Item (Pod Opaque)) (hs : List (Happening World))
      (c : MetricsCollector Family)
      → run_calls vec (calls_of ttl resolver (deletions now i ++ hs)) c
        ≡ run_calls vec
            (calls_of ttl resolver hs)
            (for_each (λ namespace name. note_pod_deleted vec namespace name now) (trim i) c)
  unfolding for_each prune_for_cache
  run_calls-deletions now (Deletions.event (Cache.delete pod)) hs c =
      run_calls-with_names pod.metadata.namespace pod.metadata.name now hs c
  run_calls-deletions now (Deletions.event (Cache.apply pod)) hs c = refl
  run_calls-deletions now (Deletions.event Cache.init) hs c = refl
  run_calls-deletions now (Deletions.event (Cache.init_apply pod)) hs c = refl
  run_calls-deletions now (Deletions.event Cache.init_done) hs c = refl
  run_calls-deletions now (watch_error e) hs c = refl

  pub run_calls-took :
      (t : Taken World) (hs : List (Happening World)) (c : MetricsCollector Family)
      → run_calls vec (calls_of ttl resolver (took t ∷ hs)) c
        ≡ run_calls vec
            (calls_of ttl resolver hs)
            (replay (prometheus vec) (reports_of resolver t.world t.raw t.at t.total) c)
  run_calls-took t hs c =
      let rs = reports_of resolver t.world t.raw t.at t.total in
      run_calls-append vec (to_calls rs) (calls_of ttl resolver hs) c
      ∙ ap (run_calls vec (calls_of ttl resolver hs)) (sym (replay-run_calls vec rs c))

module _ {World Opaque S B : Type 0} (vec : MetricVec) (ttl : ℕ) (source : OomEventSource S)
    (resolver : Option (ContainerResolver World)) (heartbeat : ℕ → B → B) where
  open vec use {Family}

  -- Whatever the order of their acts, the tasks leave the collector as the calls of what has happened
  -- do, made one after the other: those of the kills taken, the sweeps and the pods deleted, up to the
  -- end of the source.
  pub run_acts-calls :
      (acts : List (Act World Opaque)) (l : Loop S (MetricsCollector Family) B)
      → (run_acts vec ttl source resolver heartbeat acts l).recorder
        ≡ run_calls vec (calls_of ttl resolver (happenings source acts l.source)) l.recorder
  unfolding run_acts happenings run_calls History.apply
  run_acts-calls [] l = refl
  run_acts-calls (turn (ticker_wins stamp) ∷ acts) l =
      rw (run-ticked source resolver (prometheus vec) heartbeat stamp l)
        (run_acts-calls acts (record l { pulse = heartbeat stamp l.pulse }))
  run_acts-calls (turn (source_wins world at stamp) ∷ acts) l =
      elim (Option-cases (source.next l.source).0) [
        | inl e ↦
            rw (run-ended source resolver (prometheus vec) heartbeat world at stamp l e, e) refl
        | inr (raw, e) ↦
            let t : Taken World = record {
              world = world;
              raw = raw;
              at = at;
              total = source.dropped_total (source.next l.source).1;
            } in
            rw (run-taken source resolver (prometheus vec) heartbeat world at stamp raw l e, e)
              (run_acts-calls acts (record {
                source = (source.next l.source).1;
                recorder =
                    replay (prometheus vec) (reports_of resolver world raw at t.total) l.recorder;
                pulse = heartbeat stamp l.pulse;
              })
                ∙ sym (
                    run_calls-took vec ttl resolver t
                      (happenings source acts (source.next l.source).1) l.recorder))
      ]
  run_acts-calls (tick now ∷ acts) l =
      run_acts-calls acts (record l { recorder = (evict_stale vec now ttl l.recorder).1 })
  run_acts-calls (item now i ∷ acts) l =
      run_acts-calls acts (record l {
        recorder =
            for_each (λ namespace name. note_pod_deleted vec namespace name now) (trim i)
              l.recorder;
      })
      ∙ sym
          (run_calls-deletions vec ttl resolver now i (happenings source acts l.source) l.recorder)
