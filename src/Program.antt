-- ===== src/Program.antt =====
-- oom-watcher/src/main.rs: the start of the program, and its end. What the operating system, the API
-- server and the libraries answer is a parameter.
pub mod Outcome
pub mod Watching
pub mod Together
pub mod Sweeping
mod Tests
use ebpf_oom_watcher.Prelude.{
  ℕ, List, [], ◌∷◌, Option, none, some, Bool, true, false, Text, codes, is_some,
}
use ebpf_oom_watcher.Prelude.Decimal.{parse_uint}
use ebpf_oom_watcher.Tracepoint.Layout.{Read, Verdict, accepted, verify_kernel_layout}
use ebpf_oom_watcher.Kubernetes.Pods.{unwrap_or}
use ebpf_oom_watcher.Config.{series_ttl, sweep_interval}

-- The steps of `RingBufSource::new` that load and attach the probe, in order.
pub data Stage : Type 0 where
  load_object find_program as_tracepoint load_program attach take_events ring_buf_of_events register
        take_dropped dropped_of_map :
      Stage

abbrev pub stages : List Stage
stages =
    load_object ∷ find_program ∷ as_tracepoint ∷ load_program ∷ attach ∷ take_events
    ∷ ring_buf_of_events ∷ register ∷ take_dropped ∷ dropped_of_map ∷ []

-- The `ebpf` feature of the build.
pub data Build : Type 0 where
  with_ebpf without_ebpf : Build

-- What the program asks for at its start; an error by its text.
pub record Env : Type 0 where
  pub var : Text → Option Text
  pub incluster : Option Text
  pub try_from : Option Text
  pub bind : ℕ → Option Text
  pub read_to_string : Text → Read
  pub bring_up : Stage → Option Text

pub data StartError : Type 0 where
  bind_failed : Text → StartError
  bad_layout : Verdict → StartError
  not_brought_up : Stage → Text → StartError

pub data Started (A : Type 0) : Type 0 where
  started : A → Started A
  not_started : StartError → Started A

-- Why `KubernetesClient::new` fails.
pub data ClientError : Type 0 where
  no_incluster_config : Text → ClientError
  no_client : Text → ClientError
  node_name_unset : ClientError

pub data Connected : Type 0 where
  connected : Text → Connected
  not_connected : ClientError → Connected

abbrev named : Option Text → Connected
named none = not_connected node_name_unset
named (some node_name) = connected node_name

abbrev try_client : Option Text → Option Text → Connected
try_client (some e) node_name = not_connected (no_client e)
try_client none node_name = named node_name

abbrev configure : Option Text → Option Text → Option Text → Connected
configure (some e) client node_name = not_connected (no_incluster_config e)
configure none client node_name = try_client client node_name

-- `KubernetesClient::new`, up to the cache that it spawns: the node, or the error.
unfoldable pub new_client : Env → Connected
new_client env = configure env.incluster env.try_from (env.var (codes "NODE_NAME"))

-- The client and its cache task are there together or not at all.
abbrev resolver_node : Connected → Option Text
resolver_node (connected node_name) = some node_name
resolver_node (not_connected e) = none

abbrev u16_mod : ℕ
u16_mod = 65536

unfoldable pub metrics_port : Env → ℕ
unfolding parse_uint
metrics_port env =
    unwrap_or (parse_uint u16_mod (unwrap_or (env.var (codes "METRICS_PORT")) (codes "8080"))) 8080

-- The first stage that fails.
unfoldable pub first_failure : (Stage → Option Text) → List Stage → Option StartError
first_failure bring_up [] = none
first_failure bring_up (stage ∷ rest) = elim (bring_up stage) [
  | none ↦ first_failure bring_up rest
  | some e ↦ some (not_brought_up stage e)
]

abbrev pub checked : Verdict → Option StartError → Option StartError
checked accepted next = next
checked verdict next = some (bad_layout verdict)

-- `RingBufSource::new`, or the `ParkSource` of a build without the feature: the error, if any.
unfoldable pub open_source : Build → Env → Option StartError
unfolding verify_kernel_layout first_failure
open_source without_ebpf env = none
open_source with_ebpf env =
    checked (verify_kernel_layout env.read_to_string) (first_failure env.bring_up stages)

-- What the tasks are spawned with.
pub record Running : Type 0 where
  pub node : Option Text
  pub port : ℕ
  pub ttl_seconds : ℕ
  pub sweep_seconds : ℕ

abbrev opened : Running → Option StartError → Started Running
opened r none = started r
opened r (some e) = not_started e

abbrev pub bound : Running → Option StartError → Option Text → Started Running
bound r source (some e) = not_started (bind_failed e)
bound r source none = opened r source

-- `main` down to its `select!`: the socket is bound before the probe is loaded.
unfoldable pub start : Build → Env → Started Running
unfolding new_client metrics_port open_source series_ttl sweep_interval
start build env =
    let running : Running = record {
      node = resolver_node (new_client env);
      port = metrics_port env;
      ttl_seconds = series_ttl env.var;
      sweep_seconds = sweep_interval env.var;
    } in
    bound running (open_source build env) (env.bind (metrics_port env))

-- What `shutdown_signal` waits for, once it has registered for SIGTERM. `ctrl_c` has an error if it
-- could not listen.
pub data Signal : Type 0 where
  not_registered : Text → Signal
  ctrl_c : Option Text → Signal
  sigterm : Signal

-- Its result: the error, if any.
abbrev pub shutdown_signal : Signal → Option Text
shutdown_signal (not_registered e) = some e
shutdown_signal (ctrl_c e) = e
shutdown_signal sigterm = none

-- What can complete under the `select!`: `shutdown_signal` or one of the tasks.
pub data Completion : Type 0 where
  shutdown : Signal → Completion
  event_processor metrics_server series_sweeper pod_cache : Completion

-- The result of `main`.
pub data Exit : Type 0 where
  stopped : Exit
  start_failed : StartError → Exit
  signal_failed : Text → Exit
  task_exited : Completion → Exit

abbrev signalled : Option Text → Exit
signalled none = stopped
signalled (some e) = signal_failed e

-- The arms. That of the pod cache is disabled where there is none.
abbrev arm : Bool → Completion → Option Exit
arm watching_pods (shutdown s) = some (signalled (shutdown_signal s))
arm watching_pods event_processor = some (task_exited event_processor)
arm watching_pods metrics_server = some (task_exited metrics_server)
arm watching_pods series_sweeper = some (task_exited series_sweeper)
arm true pod_cache = some (task_exited pod_cache)
arm false pod_cache = none

-- The `select!`, over what completes, in order; none while it waits.
unfoldable pub supervise : Bool → List Completion → Option Exit
supervise watching_pods [] = none
supervise watching_pods (c ∷ cs) = elim (arm watching_pods c) [
  | none ↦ supervise watching_pods cs
  | some exit ↦ some exit
]

abbrev pub run_started : Started Running → List Completion → Option Exit
run_started (not_started e) completions = some (start_failed e)
run_started (started r) completions = supervise (is_some r.node) completions

unfoldable pub main : Build → Env → List Completion → Option Exit
unfolding start supervise
main build env completions = run_started (start build env) completions
