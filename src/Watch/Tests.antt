-- ===== src/Watch/Tests.antt =====
-- Two events through the loop: the theorems on watch.rs applied to them.
use ebpf_oom_watcher.Prelude.{ℕ, ◌≡◌, List, [], ◌∷◌, Option, some, true, Text, codes}
use ebpf_oom_watcher.Common.{OomKillEvent}
use ebpf_oom_watcher.Resolve.{ContainerResolver, Behavior, fake}
use ebpf_oom_watcher.Recorder.{prometheus, replay}
use ebpf_oom_watcher.Prometheus.Sample.{sample_vec}
use ebpf_oom_watcher.Metrics.Collector.{MetricsCollector, new}
use ebpf_oom_watcher.Watch.{Turn, source_wins, ticker_wins, Loop, VecSource, vec_source, run}
use ebpf_oom_watcher.Watch.Spec.{
  taken, reports, stamps, beat_all, raws, run-reports, run-vec_source,
}

abbrev raw_of : ℕ → OomKillEvent
raw_of pid = record {
  pid = pid;
  comm = [];
  total_vm = 900;
  anon_rss = 800;
  file_rss = 5;
  shmem_rss = 0;
  uid = 0;
  pgtables = 2;
  oom_score_adj = 0;
}

abbrev resolver : Option (ContainerResolver Text)
resolver = some (fake (record { node = codes "n1"; behavior = Behavior.not_found }))

-- The turns: an event, a beat, an event, and the end of the source.
abbrev turns : List (Turn Text)
turns =
    source_wins [] 1000 1001
    ∷ ticker_wins 1030
    ∷ source_wins [] 1040 1041
    ∷ source_wins [] 1050 1051
    ∷ []

abbrev record_stamp : ℕ → List ℕ → List ℕ
record_stamp at stamps = at ∷ stamps

abbrev start : Loop VecSource (MetricsCollector sample_vec.Family) (List ℕ)
start = record {
  source = record { events = raw_of 7 ∷ raw_of 8 ∷ []; drops = some 3 };
  recorder = new sample_vec;
  pulse = [];
}

run-reports_example :
    ((run vec_source resolver (prometheus sample_vec) record_stamp turns start).1.recorder
      ≡ replay
          (prometheus sample_vec)
          (reports resolver (taken vec_source turns start.source))
          start.recorder)
    × ((run vec_source resolver (prometheus sample_vec) record_stamp turns start).1.pulse
        ≡ beat_all record_stamp (stamps vec_source turns start.source) [])
run-reports_example =
    run-reports vec_source resolver (prometheus sample_vec) record_stamp turns start

run-vec_source_example :
    (raws (taken vec_source turns start.source) ≡ raw_of 7 ∷ raw_of 8 ∷ [])
    × ((run vec_source resolver (prometheus sample_vec) record_stamp turns start).0 ≡ true)
run-vec_source_example = run-vec_source resolver (prometheus sample_vec) record_stamp turns start
