-- ===== src/Metrics/Concurrent/Tests.antt =====
-- A sweep in the midst of a kill: the theorems on the interleavings applied to it.
use ebpf_oom_watcher.Prelude.{ℕ, ◌≡◌, refl, List, [], ◌∷◌, Option, none, some, Text, codes}
use ebpf_oom_watcher.Common.{EnrichedOomEvent}
use ebpf_oom_watcher.Prometheus.Sample.{sample_vec}
use ebpf_oom_watcher.Metrics.Key.{key_of}
use ebpf_oom_watcher.Metrics.Collector.{MetricsCollector, new}
use ebpf_oom_watcher.Metrics.Evict.{take_due}
use ebpf_oom_watcher.Metrics.Concurrent.{
  Access, count_kill, accesses_of, idle, removing, Threads, perform, scan, begins, writes, drains,
  locks,
}
use ebpf_oom_watcher.Metrics.Concurrent.Known.{NoLeak}
use ebpf_oom_watcher.Metrics.Concurrent.NoLeak.{Reach, built, later, Reach-NoLeak}

abbrev kill : EnrichedOomEvent
kill = record {
  raw_event = record {
    pid = 7;
    comm = [];
    total_vm = 900;
    anon_rss = 800;
    file_rss = 5;
    shmem_rss = 0;
    uid = 0;
    pgtables = 2;
    oom_score_adj = 0;
  };
  node_name = some (codes "n1");
  namespace = some (codes "shop");
  pod_name = some (codes "web-0");
  container_name = some (codes "app");
  container_id = some (codes "a1");
  image_id = some (codes "i1");
  timestamp = 1000;
}

abbrev empty : MetricsCollector sample_vec.Family
empty = new sample_vec

abbrev counted : MetricsCollector sample_vec.Family
counted = perform sample_vec (count_kill (key_of kill)) empty

abbrev rest_of : List Access → List Access
rest_of [] = []
rest_of (a ∷ rest) = rest

abbrev swept : Threads sample_vec.Family
swept = record {
  collector = (scan sample_vec 1001 60 [] counted).1;
  pending = rest_of (accesses_of kill);
  sweeper = removing [];
}

-- The kill is counted, and a whole sweep passes before its key is entered.
racing : Reach sample_vec swept
unfolding accesses_of take_due scan new perform ebpf_oom_watcher.Prelude.HashMap.drain
    ebpf_oom_watcher.Prelude.HashMap.retain
racing =
    later
      (later
        (later (later built (begins kill empty idle))
          (writes (count_kill (key_of kill)) (rest_of (accesses_of kill)) empty idle tt))
        (drains 1001 60 counted (rest_of (accesses_of kill))))
      (locks 1001 60 [] counted (rest_of (accesses_of kill)))

Reach-NoLeak_example : NoLeak sample_vec swept.collector swept.pending swept.sweeper
Reach-NoLeak_example = Reach-NoLeak sample_vec racing
