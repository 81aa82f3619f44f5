-- ===== src/Metrics/Tests.antt =====
-- One collector on concrete events: the theorems on metrics.rs applied to them.
mod Totals
mod Lives
use ebpf_oom_watcher.Prelude.{
  ℕ, ◌≡◌, refl, List, [], ◌∷◌, none, some, Text, list_eq, pair_eq, nat_eq, codes, arith,
}
use ebpf_oom_watcher.Prelude.HashMap.{get}
use ebpf_oom_watcher.Common.{OomKillEvent, EnrichedOomEvent}
use ebpf_oom_watcher.Resolve.{ResolutionOutcome}
use ebpf_oom_watcher.Prometheus.Sample.{sample_vec}
use ebpf_oom_watcher.Metrics.Key.{key_eq, key_of, labels}
use ebpf_oom_watcher.Metrics.Collector.{MetricsCollector, new, note_pod_deleted, record_oom_event}
use ebpf_oom_watcher.Metrics.Evict.{evict_stale}
use ebpf_oom_watcher.Metrics.Invariant.{IsTracked}
use ebpf_oom_watcher.Metrics.History.{
  Call, outcome, event, pod_deleted, evict, run_calls, history-IsTracked, pod_deleted-IsTracked,
}
use ebpf_oom_watcher.Metrics.Eviction.{evict_stale-is_expired}
use ebpf_oom_watcher.Metrics.Deletion.{recreated_pod_loses_kill}
use ebpf_oom_watcher.Metrics.Race.{record_around_sweep, record_around_sweep_loses_kill}

abbrev pub raw_of : ℕ → OomKillEvent
raw_of anon = record {
  pid = 7;
  comm = [];
  total_vm = 900;
  anon_rss = anon;
  file_rss = 5;
  shmem_rss = 0;
  uid = 0;
  pgtables = 2;
  oom_score_adj = 0;
}

abbrev kill_of : Text → ℕ → ℕ → EnrichedOomEvent
kill_of pod anon at = record {
  raw_event = raw_of anon;
  node_name = some (codes "n1");
  namespace = some (codes "shop");
  pod_name = some pod;
  container_name = some (codes "app");
  container_id = some (codes "containerd://a1");
  image_id = some (codes "i1");
  timestamp = at;
}

abbrev pub web : EnrichedOomEvent
web = kill_of (codes "web-0") 800 1000

abbrev pub later : EnrichedOomEvent
later = kill_of (codes "web-0") 300 1100

abbrev pub other : EnrichedOomEvent
other = kill_of (codes "db-0") 40 2700

abbrev pub empty : MetricsCollector sample_vec.Family
empty = new sample_vec

abbrev pub history : List Call
history = event web ∷ event other ∷ event later ∷ []

abbrev pub after_history : MetricsCollector sample_vec.Family
after_history = run_calls sample_vec history empty

abbrev pub with_sweep : List Call
with_sweep =
    outcome (codes "n1") ResolutionOutcome.not_found
    ∷ event web
    ∷ pod_deleted (codes "shop") (codes "web-0") 1200
    ∷ evict 3000 1800
    ∷ event other
    ∷ []

pub tracked : IsTracked sample_vec after_history
tracked = history-IsTracked sample_vec history

noted :
    IsTracked sample_vec
      (note_pod_deleted sample_vec (codes "shop") (codes "web-0") 1200 after_history)
noted = pod_deleted-IsTracked sample_vec (codes "shop") (codes "web-0") 1200 after_history tracked

history-IsTracked_example : IsTracked sample_vec (run_calls sample_vec with_sweep empty)
history-IsTracked_example = history-IsTracked sample_vec with_sweep

evict_stale-is_expired_example :
    (sample_vec.value
        (evict_stale sample_vec 3000 1800 after_history).1.oom_kills_total
        (labels (key_of web))
      ≡ none)
    × (sample_vec.value
          (evict_stale sample_vec 3000 1800 after_history).1.oom_last_timestamp
          (labels (key_of web))
        ≡ none)
    × (get (key_of web) (evict_stale sample_vec 3000 1800 after_history).1.last_seen ≡ none)
unfolding run_calls ebpf_oom_watcher.Metrics.History.apply record_oom_event
    ebpf_oom_watcher.Metrics.Collector.record_seen ebpf_oom_watcher.Prelude.HashMap.insert
    ebpf_oom_watcher.Metrics.Collector.record_series new ebpf_oom_watcher.Metrics.Key.key_beq
    ebpf_oom_watcher.Prelude.list_beq key_of get
evict_stale-is_expired_example =
    evict_stale-is_expired sample_vec 3000 1800 after_history tracked.distinct tracked.pods_distinct
      (key_of web) {seen = 1100} refl

-- The pod is deleted at 1200 and made again; the new pod is killed at 1400 and swept at once.
recreated_pod_loses_kill_example :
    sample_vec.value
      (evict_stale sample_vec 1400 1800 (
        record_oom_event sample_vec (kill_of (codes "web-0") 500 1400) (
          note_pod_deleted sample_vec
            (codes "shop")
            (codes "web-0")
            1200
            after_history))).1.oom_kills_total
      (labels (key_of (kill_of (codes "web-0") 500 1400)))
    ≡ none
unfolding run_calls ebpf_oom_watcher.Metrics.History.apply record_oom_event
    ebpf_oom_watcher.Metrics.Collector.record_seen ebpf_oom_watcher.Prelude.HashMap.insert
    ebpf_oom_watcher.Metrics.Collector.record_series new ebpf_oom_watcher.Metrics.Key.key_beq
    ebpf_oom_watcher.Prelude.list_beq key_of get note_pod_deleted ebpf_oom_watcher.Prelude.pair_beq
recreated_pod_loses_kill_example =
    recreated_pod_loses_kill sample_vec
      (note_pod_deleted sample_vec (codes "shop") (codes "web-0") 1200 after_history) noted
      (kill_of (codes "web-0") 500 1400) 1320 1400 1800 refl (ground arith)

record_around_sweep_loses_kill_example :
    (sample_vec.value
        (record_around_sweep sample_vec
          (kill_of (codes "web-0") 500 3000)
          3000
          1800
          after_history).oom_kills_total
        (labels (key_of web))
      ≡ none)
    × (get
          (key_of web)
          (record_around_sweep sample_vec
            (kill_of (codes "web-0") 500 3000)
            3000
            1800
            after_history).last_seen
        ≡ some 3000)
    × ¬ IsTracked sample_vec
        (record_around_sweep sample_vec (kill_of (codes "web-0") 500 3000) 3000 1800 after_history)
unfolding run_calls ebpf_oom_watcher.Metrics.History.apply record_oom_event
    ebpf_oom_watcher.Metrics.Collector.record_seen ebpf_oom_watcher.Prelude.HashMap.insert
    ebpf_oom_watcher.Metrics.Collector.record_series new ebpf_oom_watcher.Metrics.Key.key_beq
    ebpf_oom_watcher.Prelude.list_beq key_of get note_pod_deleted ebpf_oom_watcher.Prelude.pair_beq
record_around_sweep_loses_kill_example =
    record_around_sweep_loses_kill sample_vec (kill_of (codes "web-0") 500 3000) 3000 1800
      after_history {seen = 1100} tracked refl refl
