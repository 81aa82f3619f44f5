-- ===== src/Enrich.antt =====
-- oom-watcher/src/enrich.rs: the one place where an enriched event is built.
use ebpf_oom_watcher.Prelude.{ℕ, ◌≡◌, refl, Option, none, some, Text}
use ebpf_oom_watcher.Common.{OomKillEvent, ContainerIdentity, EnrichedOomEvent}

unfoldable pub enrich : OomKillEvent → Option Text → Option ContainerIdentity → ℕ → EnrichedOomEvent
enrich raw_event node_name (some id) timestamp = record {
  raw_event = raw_event;
  node_name = node_name;
  namespace = some id.namespace;
  pod_name = some id.pod_name;
  container_name = some id.container_name;
  container_id = some id.container_id;
  image_id = some id.image_id;
  timestamp = timestamp;
}
enrich raw_event node_name none timestamp = record {
  raw_event = raw_event;
  node_name = node_name;
  namespace = none;
  pod_name = none;
  container_name = none;
  container_id = none;
  image_id = none;
  timestamp = timestamp;
}

-- The node does not depend on what the resolution found.
pub enrich-node_name :
    (raw_event : OomKillEvent) (node_name : Option Text) (id : Option ContainerIdentity) (at : ℕ)
    → (enrich raw_event node_name id at).node_name ≡ node_name
unfolding enrich
enrich-node_name raw_event node_name (some id) at = refl
enrich-node_name raw_event node_name none at = refl
