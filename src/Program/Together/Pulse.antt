-- ===== src/Program/Together/Pulse.antt =====
-- oom-watcher/src/main.rs: the sweeper and the pod cache leave the heartbeat and the source alone.
use ebpf_oom_watcher.Prelude.{ℕ, ◌≡◌, refl, inl, inr, List, [], ◌∷◌, Option, Option-cases}
use ebpf_oom_watcher.Resolve.{ContainerResolver}
use ebpf_oom_watcher.Recorder.{prometheus, replay}
use ebpf_oom_watcher.Prometheus.{MetricVec}
use ebpf_oom_watcher.Metrics.Collector.{MetricsCollector, note_pod_deleted}
use ebpf_oom_watcher.Metrics.Evict.{evict_stale}
use ebpf_oom_watcher.Kubernetes.Deletions.{trim, for_each}
use ebpf_oom_watcher.Watch.{OomEventSource, Turn, source_wins, ticker_wins, Loop}
use ebpf_oom_watcher.Watch.Spec.{stamps, reports_of, beat_all, run-ticked, run-taken, run-ended}
use ebpf_oom_watcher.Program.Together.{Act, turn, tick, item, run_acts}

abbrev pub turns_of : {World Opaque : Type 0} → List (Act World Opaque) → List (Turn World)
turns_of [] = []
turns_of (turn t ∷ acts) = t ∷ turns_of acts
turns_of (tick now ∷ acts) = turns_of acts
turns_of (item now i ∷ acts) = turns_of acts

module _ {World Opaque S B : Type 0} (vec : MetricVec) (ttl : ℕ) (source : OomEventSource S)
    (resolver : Option (ContainerResolver World)) (heartbeat : ℕ → B → B) where
  open vec use {Family}

  -- However sweeps and pod events fall between the turns of the loop, the heartbeat gets one stamp for
  -- each of these turns, up to the end of the source, and no other.
  run_acts-stamps :
      (acts : List (Act World Opaque)) (l : Loop S (MetricsCollector Family) B)
      → (run_acts vec ttl source resolver heartbeat acts l).pulse
        ≡ beat_all heartbeat (stamps source (turns_of acts) l.source) l.pulse
  unfolding run_acts stamps
  run_acts-stamps [] l = refl
  run_acts-stamps (turn (ticker_wins stamp) ∷ acts) l =
      rw (run-ticked source resolver (prometheus vec) heartbeat stamp l)
        (run_acts-stamps acts (record l { pulse = heartbeat stamp l.pulse }))
  run_acts-stamps (turn (source_wins world at stamp) ∷ acts) l =
      elim (Option-cases (source.next l.source).0) [
        | inl e ↦
            rw (run-ended source resolver (prometheus vec) heartbeat world at stamp l e, e) refl
        | inr (raw, e) ↦
            let total = source.dropped_total (source.next l.source).1 in
            rw (run-taken source resolver (prometheus vec) heartbeat world at stamp raw l e, e)
              (run_acts-stamps acts (record {
                source = (source.next l.source).1;
                recorder =
                    replay (prometheus vec) (reports_of resolver world raw at total) l.recorder;
                pulse = heartbeat stamp l.pulse;
              }))
      ]
  run_acts-stamps (tick now ∷ acts) l =
      run_acts-stamps acts (record l { recorder = (evict_stale vec now ttl l.recorder).1 })
  run_acts-stamps (item now i ∷ acts) l = run_acts-stamps acts (record l {
    recorder =
        for_each (λ namespace name. note_pod_deleted vec namespace name now) (trim i) l.recorder;
  })
