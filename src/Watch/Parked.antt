-- ===== src/Watch/Parked.antt =====
-- oom-watcher/src/source.rs, `ParkSource`: the source of a build without the `ebpf` feature, under
-- the loop of oom-watcher/src/watch.rs.
use ebpf_oom_watcher.Prelude.{ℕ, ◌≡◌, refl, List, [], ◌∷◌, Option, false}
use ebpf_oom_watcher.Resolve.{ContainerResolver}
use ebpf_oom_watcher.Recorder.{MetricsRecorder}
use ebpf_oom_watcher.Watch.{OomEventSource, Turn, ticker_wins, Loop, run, select, handle}
use ebpf_oom_watcher.Watch.Spec.{beat_all}

-- `next` sleeps for ever, so that the ticker wins each turn; the clock's reading at each.
abbrev parked_turns : {World : Type 0} → List ℕ → List (Turn World)
parked_turns [] = []
parked_turns (stamp ∷ stamps) = ticker_wins stamp ∷ parked_turns stamps

module _ {World S R B : Type 0} (source : OomEventSource S)
    (resolver : Option (ContainerResolver World)) (recorder : MetricsRecorder R)
    (heartbeat : ℕ → B → B) where
  -- On a parked source the loop goes on, stamps the heartbeat at every tick, and reports nothing.
  run-parked_turns :
      (stamps : List ℕ) (l : Loop S R B)
      → run source resolver recorder heartbeat (parked_turns stamps) l
        ≡ (false, record l { pulse = beat_all heartbeat stamps l.pulse })
  unfolding run select handle
  run-parked_turns [] l = refl
  run-parked_turns (stamp ∷ stamps) l =
      run-parked_turns stamps (record l { pulse = heartbeat stamp l.pulse })
