-- ===== src/Lib.antt =====
-- The out-of-memory watcher: an eBPF probe on `oom:mark_victim`, and a daemon that names the
-- container of each process killed and counts the kills for Prometheus.
--
-- How the parts interact. The watch loop (oom-watcher/src/watch.rs) takes one event at a time
-- from a source, has the resolver (resolve.rs, kubernetes.rs) name its container, joins the two
-- (enrich.rs), hands the result to the metrics recorder (metrics.rs) and stamps the heartbeat
-- (health.rs), which the liveness endpoint (http.rs) reads. A sweeper and the pod cache call
-- the recorder from other tasks. The events come from the probe (oom-watcher-ebpf/src/main.rs)
-- through a ring buffer that source.rs drains. Before the probe is loaded, tracepoint.rs holds
-- the kernel's trace-entry layout against the one that the probe decodes.
--
-- Which file models which part.
-- - Common, Enrich: oom-watcher-common/src/lib.rs and `enrich`. Integers of w bits are natural
--   numbers; the signed `oom_score_adj` is its bit pattern.
-- - Resolve, Recorder: the traits `ContainerResolver` and `MetricsRecorder` as records of
--   functions, with the adapter that the loop's tests use. A resolver is given the state of the
--   world that it reads, since others change it between calls.
-- - Prometheus: the metric vectors of the `prometheus` crate, an interface whose laws are the
--   documented effect of `with_label_values`, `inc_by`, `set`, `get` and `remove_label_values`.
--   Prometheus.Sample has vectors that meet it, Prometheus.Listed some that can be looked
--   through. Floating point values are those of whole numbers; Prelude.Float rounds them as `as
--   f64` and `+` do.
-- - Metrics: oom-watcher/src/metrics.rs. Metrics.Key has the series keys, Metrics.Collector the
--   recorder, Metrics.Evict the sweep, Metrics.Invariant what the bookkeeping promises. The
--   rest proves, on histories of calls in any order (Metrics.History). The order of the two
--   maps is that of a list; Metrics.Order shows that it has no effect. A mutex that no caller
--   poisons is left out. Metrics.Life sees the calls from one container, Metrics.Bound counts
--   the entries of the maps. Metrics.Race splits `record_oom_event` where it takes the lock;
--   Metrics.Concurrent takes `record_oom_event` and `evict_stale` apart into single accesses
--   and interleaves them with the other calls.
-- - Health, Http: health.rs with its two atomics, and the answer of `health_handler`;
--   Http.Router has the scrape and the routes, with axum and the text encoder as parameters.
--   Health.Probe has the probe's loads among the stores of the loop: an atomic is the list of
--   its stores, and the acquiring load of the flag takes over what its release has published.
-- - Watch: watch.rs. The outcomes of the `select!`, the clock's readings and the resolver's
--   world come as a list of turns, so the loop recurs on it; Watch.Spec says what it leaves in
--   the recorder, Watch.Spy what a recording spy then holds. Watch.Log has the lines that it
--   logs, Watch.Parked the source of a build without the probe.
-- - Kubernetes: kubernetes.rs. Kubernetes.Cgroup has the patterns of container ids as syntax
--   trees; Kubernetes.Cgroup.Engine says what the `regex` crate promises of them, and
--   Kubernetes.Cgroup.Sample has an engine that keeps it. Kubernetes.Cgroup.Scan is a scanner
--   without patterns to compare with. Kubernetes.Pods has the match against pods,
--   Kubernetes.Cache the lookup, Kubernetes.Deletions the stream of watch events that reports
--   deleted pods to the collector. The regex engine, the reflector's store and the file system
--   are parameters.
-- - Tracepoint: tracepoint.rs, the parser of `format` files over the string functions of the
--   standard library, and the check. White space is that of ASCII. Tracepoint.Declared has a
--   field as the kernel prints it, Tracepoint.Refusal the texts of the errors.
-- - Source: oom-watcher/src/source.rs, the decoding of ring buffer records and the poll loop of
--   `RingBufSource`; the readiness of the ring and the beats that cancel a poll are its input.
--   Source.Layout writes the bytes of the `#[repr(C)]` event, with any padding.
-- - Probe: oom-watcher-ebpf/src/main.rs, with the ring buffer map as an interface and what the
--   kernel's read helpers return as input. Nothing leaves the ring while the probe runs there;
--   Source has the other end. Probe.Decode holds the offsets that the probe reads against the
--   fields that the layout check accepts. Probe.Build is oom-watcher-ebpf/build.rs.
-- - Config: `env_seconds` of oom-watcher/src/main.rs and the two settings of the sweeper.
-- - Program: oom-watcher/src/main.rs and the constructors it calls, `RingBufSource::new` of
--   source.rs and `KubernetesClient::new` of kubernetes.rs. What the operating system, the API
--   server and aya answer is a record, what completes under the `select!` a list.
--   Program.Watching has the event processor with its wait for the pod cache (a latch, second
--   by second) and the heartbeat meanwhile, Program.Sweeping the series sweeper by what the
--   clock reads at its ticks, among the calls of the other tasks. Program.Together has the
--   watch loop, the sweeper and the pod cache on the collector that they share, one act after
--   the other in any order: an act is a turn of the loop, a tick of the sweeper or an item of
--   the pod stream. Its Calls makes their acts a history of calls of the collector; its Lives,
--   Attribution, Drops, Kills, Failures and Pulse follow a container, a set of labels, the
--   counters of the node and the heartbeat through the acts. Calls that overlap are
--   Metrics.Concurrent's.
-- - Pipeline: the probe, the ring, its source, the loop and the collector put together, the
--   loop among the other tasks.
-- - BuildScript: oom-watcher/build.rs, from the environment to the copy of the probe's object
--   that a release build of the program embeds; a debug build embeds the one in
--   target/ebpf-subbuild. `Path::parent`, cargo and the file system are parameters.
-- - UnitTests: the unit tests at the end of the program's files, each as the proposition that
--   it asserts, run on the model. The reflector's writer, which some of them drive, is a
--   parameter; the one that interleaves two tasks is stated of a list that lands in any second
--   of the wait.
-- - Prelude: lists, texts as code points, hash maps as association lists, decimal numbers.
--
-- Bounds. Counters are exact below 2 ^ 53, which the theorems on totals take as a hypothesis;
-- `saturating_add` and `saturating_sub` are written out. Two functions run on fuel: the decimal
-- printer, on its number, and the rounding to floats, which halves a number of at most 64 bits
-- at most 11 times to come below 2 ^ 53 and has 64.
--
-- Not modelled: the aborting of tasks at the exit; what aya does to load and attach the probe;
-- the watcher and the reflector behind the pod cache; axum's server, the text exposition, which
-- a library writes; the log lines outside of the watch loop; deployment files.
pub mod Prelude
pub mod Common
pub mod Enrich
pub mod Resolve
pub mod Prometheus
pub mod Metrics
pub mod Health
pub mod Http
pub mod Recorder
pub mod Watch
pub mod Kubernetes
pub mod Tracepoint
pub mod Source
pub mod Probe
pub mod Config
pub mod Program
pub mod Pipeline
pub mod BuildScript
pub mod UnitTests
pub mod Tests
