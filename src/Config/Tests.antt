-- ===== src/Config/Tests.antt =====
-- A TTL of zero in the environment: the theorem on the settings applied to it.
use ebpf_oom_watcher.Prelude.{◌≡◌, refl, List, [], ◌∷◌, Option, none, some, Text, codes}
use ebpf_oom_watcher.Common.{EnrichedOomEvent}
use ebpf_oom_watcher.Prometheus.Sample.{sample_vec}
use ebpf_oom_watcher.Metrics.Key.{key_of, labels}
use ebpf_oom_watcher.Metrics.Collector.{MetricsCollector, new}
use ebpf_oom_watcher.Metrics.Evict.{evict_stale}
use ebpf_oom_watcher.Metrics.History.{event, run_calls, history-IsTracked}
use ebpf_oom_watcher.Config.{series_ttl, series_ttl_keeps_fresh}

-- An event that could not be resolved.
abbrev kill : EnrichedOomEvent
kill = record {
  raw_event = record {
    pid = 7;
    comm = [];
    total_vm = 900;
    anon_rss = 800;
    file_rss = 5;
    shmem_rss = 0;
    uid = 0;
    pgtables = 2;
    oom_score_adj = 0;
  };
  node_name = some (codes "n1");
  namespace = none;
  pod_name = none;
  container_name = none;
  container_id = none;
  image_id = none;
  timestamp = 3000;
}

abbrev zero_ttl : Text → Option Text
zero_ttl name = some (codes "0")

abbrev collector : MetricsCollector sample_vec.Family
collector = run_calls sample_vec (event kill ∷ []) (new sample_vec)

series_ttl_keeps_fresh_example :
    sample_vec.value
      (evict_stale sample_vec 3000 (series_ttl zero_ttl) collector).1.oom_kills_total
      (labels (key_of kill))
    ≡ some 1
unfolding run_calls ebpf_oom_watcher.Metrics.History.apply
    ebpf_oom_watcher.Metrics.Collector.record_oom_event
    ebpf_oom_watcher.Metrics.Collector.record_seen ebpf_oom_watcher.Prelude.HashMap.insert
    ebpf_oom_watcher.Prelude.HashMap.get ebpf_oom_watcher.Metrics.Collector.record_series new
    ebpf_oom_watcher.Metrics.Key.key_beq ebpf_oom_watcher.Prelude.list_beq
    ebpf_oom_watcher.Prelude.Float.f64_add key_of labels
series_ttl_keeps_fresh_example =
    series_ttl_keeps_fresh sample_vec zero_ttl 3000 collector (key_of kill)
      (history-IsTracked sample_vec (event kill ∷ [])) refl refl
