-- ===== src/Resolve.antt =====
-- oom-watcher/src/resolve.rs: the seam that turns a process id into a container identity.
use ebpf_oom_watcher.Prelude.{ℕ, Option, none, some, Text}
use ebpf_oom_watcher.Common.{ContainerIdentity}

-- `anyhow::Error`, by the place where the program makes it. The message of the first two is the
-- operating system's or the library's.
pub data Error : Type 0 where
  cgroup_unreadable : Text → Error
  cache_stopped : Text → Error
  cache_unsynced : Error
  api_down : Error

pub data ResolutionOutcome : Type 0 where
  found : ContainerIdentity → ResolutionOutcome
  not_found : ResolutionOutcome
  failed : Error → ResolutionOutcome

-- `ResolutionOutcome::identity`.
unfoldable pub identity : ResolutionOutcome → Option ContainerIdentity
identity (found id) = some id
identity not_found = none
identity (failed e) = none

-- The trait `ContainerResolver`. A resolver answers from state that others change in between
-- (the pods on the node, `/proc`), so each call is given that state.
pub record ContainerResolver (World : Type 0) : Type 0 where
  pub node_name : Text
  pub resolve : World → ℕ → ResolutionOutcome

-- The second adapter, for tests.
pub data Behavior : Type 0 where
  found : ContainerIdentity → Behavior
  not_found : Behavior
  fail : Behavior

pub record FakeResolver : Type 0 where
  pub node : Text
  pub behavior : Behavior

abbrev behave : Behavior → ResolutionOutcome
behave (found id) = found id
behave not_found = not_found
behave fail = failed api_down

abbrev pub fake : {World : Type 0} → FakeResolver → ContainerResolver World
fake f = record { node_name = f.node; resolve = λ _ _. behave f.behavior }
