-- ===== src/UnitTests.antt =====
-- The unit tests of the program, each as the proposition that it asserts, run on the model.
mod Fixture
mod Heartbeat
mod Enrichment
mod Outcomes
mod Loops
mod Layouts
mod Recording
mod Sweeping
mod Restarts
mod Peaks
mod Cgroups
mod Resolution
mod Caches
use ebpf_oom_watcher.Prelude.{codes}
use ebpf_oom_watcher.Common.{ContainerIdentity}

-- `identity`, which the tests of resolve.rs, enrich.rs and watch.rs share.
abbrev pub prod_identity : ContainerIdentity
prod_identity = record {
  namespace = codes "prod";
  pod_name = codes "api-7d9";
  container_name = codes "api";
  container_id = codes "containerd://abc123";
  image_id = codes "repo@sha256:def456";
}
