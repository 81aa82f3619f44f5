-- ===== src/Program/Tests.antt =====
-- A start that fails, one that succeeds, and a minute of the sweeper: the theorems on main.rs applied to them.
use ebpf_oom_watcher.Prelude.{
  length, ◌⊎◌, ℕ, ◌≤◌, ◌<◌, inl, arith, ◌≡◌, refl, List, [], ◌∷◌, ◌++◌, Option, none, some, Bool,
  true, false, Text, codes, is_some, if◌then◌else◌, ◌==◌, list_eq, nat_eq, ◌↔◌, All, leb,
}
use ebpf_oom_watcher.Common.{EnrichedOomEvent}
use ebpf_oom_watcher.Resolve.{ContainerResolver, Behavior, fake}
use ebpf_oom_watcher.Recorder.{prometheus}
use ebpf_oom_watcher.Prometheus.Sample.{sample_vec}
use ebpf_oom_watcher.Metrics.Collector.{MetricsCollector, new}
use ebpf_oom_watcher.Metrics.Key.{key_of}
use ebpf_oom_watcher.Metrics.History.{
  Call, event, dropped, pod_deleted, evict, run_calls, history-IsTracked,
}
use ebpf_oom_watcher.Metrics.Life.{life_of}
use ebpf_oom_watcher.Config.{series_ttl, sweep_interval}
use ebpf_oom_watcher.Program.Sweeping.{
  HasEnded, Interleaved, done, left, right, series_sweeper-HasEnded,
}
use ebpf_oom_watcher.Health
use ebpf_oom_watcher.Http.{health_handler}
use ebpf_oom_watcher.Kubernetes.Cache.{Latch, ready, pending}
use ebpf_oom_watcher.Tracepoint.Layout.{content, accepted, verify_kernel_layout}
use ebpf_oom_watcher.Watch.{ticker_wins, VecSource, vec_source}
use ebpf_oom_watcher.Watch.Spec.{stamps}
use ebpf_oom_watcher.Program.{
  Stage, load_object, find_program, as_tracepoint, load_program, attach, take_events,
  ring_buf_of_events, register, take_dropped, dropped_of_map, Env, with_ebpf, without_ebpf, Started,
  started, Running, start, Signal, sigterm, shutdown_signal, Completion, shutdown, pod_cache,
  event_processor, stopped, main, metrics_port,
}
use ebpf_oom_watcher.Program.Outcome.{start_iff, main_stopped_iff, PassesBy, Asks}
use ebpf_oom_watcher.Program.Watching

-- No cluster, and a kernel without the tracepoint's file.
abbrev bare : Env
bare = record {
  var = λ name. none;
  incluster = some (codes "no service account");
  try_from = none;
  bind = λ port. none;
  read_to_string = λ path. content [];
  bring_up = λ stage. none;
}

start_iff_example : ((r : Running) × (start with_ebpf bare ≡ started r)) ↔ (
    (bare.bind 8080 ≡ none)
    × (verify_kernel_layout bare.read_to_string ≡ accepted)
    × (bare.bring_up load_object ≡ none)
    × (bare.bring_up find_program ≡ none)
    × (bare.bring_up as_tracepoint ≡ none)
    × (bare.bring_up load_program ≡ none)
    × (bare.bring_up attach ≡ none)
    × (bare.bring_up take_events ≡ none)
    × (bare.bring_up ring_buf_of_events ≡ none)
    × (bare.bring_up register ≡ none)
    × (bare.bring_up take_dropped ≡ none)
    × (bare.bring_up dropped_of_map ≡ none))
start_iff_example = start_iff bare

main_stopped_iff_example :
    (main without_ebpf bare (pod_cache ∷ shutdown sigterm ∷ event_processor ∷ []) ≡ some stopped)
    ↔ ((r : Running) × (s : Signal) × (before : List Completion) × (after : List Completion)
        × (start without_ebpf bare ≡ started r)
        × Asks s
        × ((pod_cache ∷ shutdown sigterm ∷ event_processor ∷ []) ≡ before ++ (shutdown s ∷ after))
        × All (PassesBy (is_some r.node)) before)
main_stopped_iff_example =
    main_stopped_iff without_ebpf bare (pod_cache ∷ shutdown sigterm ∷ event_processor ∷ [])

-- Without a client the completion of a cache that there is not does not stop the program.
stops : main without_ebpf bare (pod_cache ∷ shutdown sigterm ∷ event_processor ∷ []) ≡ some stopped
unfolding main start ebpf_oom_watcher.Program.supervise ebpf_oom_watcher.Program.open_source
    ebpf_oom_watcher.Program.new_client
stops = refl

abbrev resolver : Option (ContainerResolver Text)
resolver = some (fake (record { node = codes "n1"; behavior = Behavior.not_found }))

abbrev quiet : VecSource
quiet = record { events = []; drops = none }

-- The cache lists in the third second.
abbrev listed : ℕ → Latch
listed at = if leb at 1 then pending else ready

abbrev processed : Watching.Processed VecSource (MetricsCollector sample_vec.Family)
processed =
    Watching.event_processor vec_source resolver (prometheus sample_vec) 1000 listed
      (ticker_wins 1030 ∷ []) quiet (new sample_vec) Health.new

event_processor-healthy_example :
    (length processed.waiting ≤ 10)
    × All (λ h. (health_handler h 1093).0 ≡ 503) processed.waiting
    × (((health_handler processed.ended.1.pulse 1093).0 ≡ 200) ↔ (1093 ≤ 1120))
unfolding stamps
event_processor-healthy_example =
    Watching.event_processor-healthy vec_source resolver (prometheus sample_vec) 1000 listed
      (ticker_wins 1030 ∷ []) quiet (new sample_vec) 1093

-- A container that could not be named, killed at 1000.
abbrev kill : EnrichedOomEvent
kill = record {
  raw_event = record {
    pid = 7;
    comm = [];
    total_vm = 900;
    anon_rss = 800;
    file_rss = 5;
    shmem_rss = 0;
    uid = 0;
    pgtables = 2;
    oom_score_adj = 0;
  };
  node_name = some (codes "n1");
  namespace = none;
  pod_name = none;
  container_name = none;
  container_id = none;
  image_id = none;
  timestamp = 1000;
}

abbrev killed : MetricsCollector sample_vec.Family
killed = run_calls sample_vec (event kill ∷ []) (new sample_vec)

abbrev minute : Text → Option Text
minute name = some (codes "60")

abbrev calls : List Call
calls =
    dropped (codes "n1") 3 ∷ evict 1060 60 ∷ pod_deleted (codes "shop") (codes "web-0") 1070 ∷ []

series_sweeper-HasEnded_example :
    (now : ℕ) × (before : List Call) × (after : List Call) × (calls
      ≡ before ++ (evict now 60 ∷ after))
    × (now < 1120)
    × HasEnded (
        life_of sample_vec
          (key_of kill)
          (run_calls sample_vec (before ++ (evict now 60 ∷ [])) killed))
    × HasEnded (life_of sample_vec (key_of kill) (run_calls sample_vec calls killed))
unfolding series_ttl sweep_interval ebpf_oom_watcher.Config.env_seconds
    ebpf_oom_watcher.Program.Sweeping.series_sweeper run_calls ebpf_oom_watcher.Prelude.HashMap.get
    ebpf_oom_watcher.Metrics.History.apply ebpf_oom_watcher.Metrics.Collector.record_oom_event
    ebpf_oom_watcher.Metrics.Collector.record_seen ebpf_oom_watcher.Prelude.HashMap.insert
    ebpf_oom_watcher.Metrics.Collector.record_series new ebpf_oom_watcher.Metrics.Key.key_beq
    ebpf_oom_watcher.Prelude.list_beq key_of
series_sweeper-HasEnded_example =
    series_sweeper-HasEnded sample_vec minute (key_of kill) killed 1000 1000 (1060 ∷ [])
      (dropped (codes "n1") 3 ∷ pod_deleted (codes "shop") (codes "web-0") 1070 ∷ []) calls
      (history-IsTracked sample_vec (event kill ∷ [])) refl (tt, (tt, tt))
      (left (dropped (codes "n1") 3)
        (right (evict 1060 60) (left (pod_deleted (codes "shop") (codes "web-0") 1070) done)))
      (ground arith) (ground arith, tt) (inl (ground arith))
