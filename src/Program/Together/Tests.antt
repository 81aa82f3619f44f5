-- ===== src/Program/Together/Tests.antt =====
-- A kill, the deletion of its pod and two sweeps: the theorems on the tasks together applied to them.
use ebpf_oom_watcher.Prelude.{
  ℕ, ◌+◌, ◌≡◌, refl, List, [], ◌∷◌, Option, none, some, Text, codes, arith, In, foldl, ap, ◌∙◌,
}
use ebpf_oom_watcher.Common.{OomKillEvent}
use ebpf_oom_watcher.Resolve.{ResolutionOutcome, ContainerResolver, identity}
use ebpf_oom_watcher.Prometheus.Sample.{sample_vec}
use ebpf_oom_watcher.Metrics.Key.{SeriesKey, labels}
use ebpf_oom_watcher.Metrics.Collector.{MetricsCollector, new}
use ebpf_oom_watcher.Metrics.Invariant.{new-IsTracked}
use ebpf_oom_watcher.Metrics.Life.{Life, life_of}
use ebpf_oom_watcher.Metrics.Drops.{drop_total}
use ebpf_oom_watcher.Kubernetes.Pods.{
  Pod, ContainerStatus, identity_from_pods, running_container_id, terminated_container_id,
  names_container,
}
use ebpf_oom_watcher.Kubernetes.Cgroup.{Regex}
use ebpf_oom_watcher.Kubernetes.Cache.{
  delete, content, refused, ready, Store, World, IsResolved, resolve,
}
use ebpf_oom_watcher.Kubernetes.Deletions.{event}
use ebpf_oom_watcher.Watch.{source_wins, ticker_wins, Loop, VecSource, vec_source}
use ebpf_oom_watcher.Watch.Spec.{Taken}
use ebpf_oom_watcher.Program.Together.{
  Act, turn, tick, item, took, key_for, happenings, live_through, run_acts,
}
use ebpf_oom_watcher.Metrics.History.{run_calls}
use ebpf_oom_watcher.Metrics.Counts.{failure_total}
use ebpf_oom_watcher.Program.Together.Calls.{calls_of, run_acts-calls}
use ebpf_oom_watcher.Program.Together.Failures.{run_acts-failure_total}
use ebpf_oom_watcher.Program.Together.Lives.{run_acts-life}
use ebpf_oom_watcher.Program.Together.Attribution.{in_cluster, run_acts-IsResolved}
use ebpf_oom_watcher.Program.Together.Drops.{run_acts-drop_total}

abbrev raw : OomKillEvent
raw = record {
  pid = 7;
  comm = [];
  total_vm = 900;
  anon_rss = 800;
  file_rss = 5;
  shmem_rss = 0;
  uid = 0;
  pgtables = 2;
  oom_score_adj = 0;
}

abbrev app : ContainerStatus
app = record {
  name = codes "app";
  container_id = some (codes "containerd://a1");
  image_id = codes "i1";
  last_state = none;
}

abbrev web : Pod Text
web = record {
  metadata = record {
    namespace = some (codes "shop");
    name = some (codes "web-0");
    managed_fields = none;
    annotations = none;
  };
  spec = some (codes "spec");
  status = some (some (app ∷ []));
}

abbrev store : Store (Pod Text) (List (Pod Text))
store = record { state = λ s. s; latch = λ s. ready }

-- An engine that finds the same id in any file.
abbrev find_a1 : Regex → Text → Option (Option Text)
find_a1 re text = some (some (codes "a1"))

abbrev world : World (List (Pod Text))
world = record { read_to_string = λ path. content (codes "0::/docker-a1"); store = web ∷ [] }

abbrev resolver : Option (ContainerResolver (World (List (Pod Text))))
resolver = in_cluster store find_a1 (codes "n1")

abbrev record_stamp : ℕ → List ℕ → List ℕ
record_stamp at stamps = at ∷ stamps

-- A sweep, a kill, a beat, the pod's deletion, a second kill, and a sweep before the grace is over.
abbrev acts : List (Act (World (List (Pod Text))) Text)
acts =
    tick 900
    ∷ turn (source_wins world 1000 1001)
    ∷ turn (ticker_wins 1030)
    ∷ item 1100 (event (delete web))
    ∷ turn (source_wins world 1110 1111)
    ∷ tick 1150
    ∷ []

abbrev events : VecSource
events = record { events = raw ∷ raw ∷ []; drops = some 3 }

abbrev start : Loop VecSource (MetricsCollector sample_vec.Family) (List ℕ)
start = record { source = events; recorder = new sample_vec; pulse = [] }

-- The labels of the container that the cache has for the id.
abbrev app_key : SeriesKey
app_key = key_for (codes "n1") (
    some (record {
      namespace = codes "shop";
      pod_name = codes "web-0";
      container_name = codes "app";
      container_id = codes "containerd://a1";
      image_id = codes "i1";
    }))

run_acts-life_example :
    life_of sample_vec app_key
      (run_acts sample_vec 3600 vec_source resolver record_stamp acts start).recorder
    ≡ foldl
        (live_through 3600 resolver app_key)
        (life_of sample_vec app_key start.recorder)
        (happenings vec_source acts events)
run_acts-life_example =
    run_acts-life sample_vec 3600 vec_source resolver record_stamp app_key acts start
      (new-IsTracked sample_vec)

-- The counter shows both kills.
shown :
    (run_acts sample_vec 3600 vec_source resolver record_stamp acts start).recorder.oom_kills_total
      (labels app_key)
    ≡ some 2
unfolding new happenings resolve ebpf_oom_watcher.Kubernetes.Cgroup.extract_container_id
    identity_from_pods running_container_id terminated_container_id names_container
    ebpf_oom_watcher.Prelude.ends_with ebpf_oom_watcher.Kubernetes.Pods.match_container
    ebpf_oom_watcher.Prelude.find_map ebpf_oom_watcher.Kubernetes.Pods.match_pod
    ebpf_oom_watcher.Kubernetes.Pods.match_status ebpf_oom_watcher.Prelude.contains
    ebpf_oom_watcher.Prelude.list_beq ebpf_oom_watcher.Prelude.pair_beq
    ebpf_oom_watcher.Metrics.Key.key_beq run_acts identity
    ebpf_oom_watcher.Kubernetes.Pods.identity_of_match ebpf_oom_watcher.Prelude.Float.f64_add
    ebpf_oom_watcher.Prelude.HashMap.get
shown =
    ap (λ (l : Life). l.kills)
      (run_acts-life sample_vec 3600 vec_source resolver record_stamp app_key acts start
        (new-IsTracked sample_vec))
    ∙ refl

run_acts-IsResolved_example :
    (t : Taken (World (List (Pod Text)))) × (o : ResolutionOutcome) × In
      (took t)
      (happenings vec_source acts events)
    × IsResolved store find_a1 t.world t.raw.pid o
    × (app_key ≡ key_for (codes "n1") (identity o))
run_acts-IsResolved_example =
    run_acts-IsResolved sample_vec 3600 vec_source store find_a1 (codes "n1") record_stamp acts
      events [] app_key 2 shown

run_acts-drop_total_example :
    drop_total sample_vec
        (codes "n1")
        (run_acts sample_vec 3600 vec_source resolver record_stamp acts start).recorder
      + 0
    ≡ 3
unfolding happenings new
run_acts-drop_total_example =
    run_acts-drop_total sample_vec 3600 vec_source resolver record_stamp acts start (ground arith)
      (ground arith)

run_acts-calls_example :
    (run_acts sample_vec 3600 vec_source resolver record_stamp acts start).recorder
    ≡ run_calls sample_vec
        (calls_of 3600 resolver (happenings vec_source acts events))
        start.recorder
run_acts-calls_example = run_acts-calls sample_vec 3600 vec_source resolver record_stamp acts start

-- The same acts, with a cgroup file that may not be read at the second kill.
abbrev blocked : World (List (Pod Text))
blocked = record { read_to_string = λ path. refused (codes "denied"); store = web ∷ [] }

abbrev acts_blocked : List (Act (World (List (Pod Text))) Text)
acts_blocked =
    turn (source_wins world 1000 1001)
    ∷ item 1100 (event (delete web))
    ∷ turn (source_wins blocked 1110 1111)
    ∷ tick 1150
    ∷ []

run_acts-failure_total_example :
    failure_total sample_vec
      (codes "n1")
      (codes "error")
      (run_acts sample_vec 3600 vec_source resolver record_stamp acts_blocked start).recorder
    ≡ 1
unfolding new ebpf_oom_watcher.Watch.Spec.taken resolve
    ebpf_oom_watcher.Kubernetes.Cgroup.extract_container_id identity_from_pods running_container_id
    terminated_container_id names_container ebpf_oom_watcher.Prelude.ends_with
    ebpf_oom_watcher.Kubernetes.Pods.match_container ebpf_oom_watcher.Prelude.find_map
    ebpf_oom_watcher.Kubernetes.Pods.match_pod ebpf_oom_watcher.Kubernetes.Pods.match_status
    ebpf_oom_watcher.Prelude.contains ebpf_oom_watcher.Prelude.list_beq
run_acts-failure_total_example =
    run_acts-failure_total sample_vec 3600 vec_source resolver record_stamp (codes "error")
      acts_blocked start (ground arith)
