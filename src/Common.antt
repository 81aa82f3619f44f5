-- ===== src/Common.antt =====
-- oom-watcher-common/src/lib.rs: the records that cross from the probe to the metrics.
use ebpf_oom_watcher.Prelude.{ℕ, List, Option, Text}

-- Integers are numbers below 2 ^ their width; `oom_score_adj`, an `i16`, is its bit pattern.
pub record OomKillEvent : Type 0 where
  pub pid : ℕ
  pub comm : List ℕ
  pub total_vm : ℕ
  pub anon_rss : ℕ
  pub file_rss : ℕ
  pub shmem_rss : ℕ
  pub uid : ℕ
  pub pgtables : ℕ
  pub oom_score_adj : ℕ

pub record ContainerIdentity : Type 0 where
  pub namespace : Text
  pub pod_name : Text
  pub container_name : Text
  pub container_id : Text
  pub image_id : Text

pub record EnrichedOomEvent : Type 0 where
  pub raw_event : OomKillEvent
  pub node_name : Option Text
  pub namespace : Option Text
  pub pod_name : Option Text
  pub container_name : Option Text
  pub container_id : Option Text
  pub image_id : Option Text
  pub timestamp : ℕ
