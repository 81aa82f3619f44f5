-- ===== src/Metrics/Order/Tests.antt =====
-- Two orders of two entries: the theorem on the order of the maps applied to them.
use ebpf_oom_watcher.Prelude.{
  ℕ, ◌≡◌, refl, List, [], ◌∷◌, Option, none, some, false, Text, codes, ◌==◌, list_eq, nat_eq,
  pair_eq,
}
use ebpf_oom_watcher.Prelude.HashMap.{get}
use ebpf_oom_watcher.Prelude.SameMap.{swap-SameMap}
use ebpf_oom_watcher.Prometheus.Sample.{sample_vec}
use ebpf_oom_watcher.Metrics.Key.{SeriesKey, key_eq}
use ebpf_oom_watcher.Metrics.Collector.{MetricsCollector, new}
use ebpf_oom_watcher.Metrics.Evict.{evict_stale}
use ebpf_oom_watcher.Metrics.History.{Call, pod_deleted, evict, run_calls}
use ebpf_oom_watcher.Metrics.Order.{Alike}
use ebpf_oom_watcher.Metrics.Order.Scrape.{run_calls-order}

abbrev on_pod : Text → SeriesKey
on_pod pod = record {
  node = codes "n1";
  namespace = codes "shop";
  pod = pod;
  container = codes "app";
  container_id = codes "a1";
  image_id = codes "i1";
}

abbrev web : SeriesKey
web = on_pod (codes "web-0")

abbrev db : SeriesKey
db = on_pod (codes "db-0")

abbrev one_way : MetricsCollector sample_vec.Family
one_way = record (new sample_vec) { last_seen = (web, 1000) ∷ (db, 2700) ∷ [] }

abbrev other_way : MetricsCollector sample_vec.Family
other_way = record (new sample_vec) { last_seen = (db, 2700) ∷ (web, 1000) ∷ [] }

both_ways : Alike sample_vec one_way other_way
unfolding new get ebpf_oom_watcher.Metrics.Key.key_beq ebpf_oom_watcher.Prelude.list_beq
both_ways = record {
  kills = λ l. refl;
  on_node = λ l. refl;
  memory = λ l. refl;
  timestamps = λ l. refl;
  failures = λ l. refl;
  drops = λ l. refl;
  evicted = λ l. refl;
  total = refl;
  seen = swap-SameMap web db 1000 2700 [] refl;
  deleted = λ k. refl;
  distinct = ((refl, (refl, tt)), (refl, (refl, tt)));
  pods_distinct = (tt, tt);
}

abbrev calls : List Call
calls = pod_deleted (codes "shop") (codes "db-0") 1200 ∷ evict 1400 1800 ∷ []

run_calls-order_example :
    Alike sample_vec (run_calls sample_vec calls one_way) (run_calls sample_vec calls other_way)
    × ((evict_stale sample_vec 3000 1800 (run_calls sample_vec calls one_way)).0
        ≡ (evict_stale sample_vec 3000 1800 (run_calls sample_vec calls other_way)).0)
run_calls-order_example = run_calls-order sample_vec calls one_way other_way 3000 1800 both_ways
