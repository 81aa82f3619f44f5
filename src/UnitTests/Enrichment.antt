-- ===== src/UnitTests/Enrichment.antt =====
-- The tests of oom-watcher/src/enrich.rs.
use ebpf_oom_watcher.Prelude.{◌≡◌, refl, ◌++◌, Option, none, some, Text, codes, replicate}
use ebpf_oom_watcher.Common.{OomKillEvent, EnrichedOomEvent}
use ebpf_oom_watcher.Enrich.{enrich}
use ebpf_oom_watcher.UnitTests.{prod_identity}

abbrev raw : OomKillEvent
raw = record {
  pid = 1234;
  comm = codes "python" ++ replicate 10 0;
  total_vm = 100;
  anon_rss = 50;
  file_rss = 20;
  shmem_rss = 5;
  uid = 1000;
  pgtables = 8;
  oom_score_adj = 0;
}

-- The five fields of an identity, in the order of their assertions.
abbrev Identifies :
    EnrichedOomEvent → Option Text → Option Text → Option Text → Option Text → Option Text → Type 0
Identifies e namespace pod container id image =
    (e.namespace ≡ namespace)
    × (e.pod_name ≡ pod)
    × (e.container_name ≡ container)
    × (e.container_id ≡ id)
    × (e.image_id ≡ image)

abbrev FillsAllFieldsWhenIdentityResolvedOnNode : Type 0
FillsAllFieldsWhenIdentityResolvedOnNode =
    let e = enrich raw (some (codes "node-1")) (some prod_identity) 42 in
    (e.node_name ≡ some (codes "node-1"))
    × Identifies e (some (codes "prod")) (some (codes "api-7d9")) (some (codes "api"))
        (some (codes "containerd://abc123")) (some (codes "repo@sha256:def456"))

fills_all_fields_when_identity_resolved_on_node : FillsAllFieldsWhenIdentityResolvedOnNode
unfolding enrich
fills_all_fields_when_identity_resolved_on_node = (refl, (refl, refl, refl, refl, refl))

abbrev KeepsNodeWhenIdentityUnresolved : Type 0
KeepsNodeWhenIdentityUnresolved =
    let e = enrich raw (some (codes "node-1")) none 42 in
    (e.node_name ≡ some (codes "node-1")) × Identifies e none none none none none

keeps_node_when_identity_unresolved : KeepsNodeWhenIdentityUnresolved
unfolding enrich
keeps_node_when_identity_unresolved = (refl, (refl, refl, refl, refl, refl))

abbrev AllNoneInStandaloneMode : Type 0
AllNoneInStandaloneMode =
    let e = enrich raw none none 42 in (e.node_name ≡ none) × Identifies e none none none none none

all_none_in_standalone_mode : AllNoneInStandaloneMode
unfolding enrich
all_none_in_standalone_mode = (refl, (refl, refl, refl, refl, refl))

abbrev PassesRawEventAndTimestampThrough : Type 0
PassesRawEventAndTimestampThrough =
    let e = enrich raw none none 99 in
    (e.timestamp ≡ 99) × (e.raw_event.pid ≡ 1234) × (e.raw_event.total_vm ≡ 100)

passes_raw_event_and_timestamp_through : PassesRawEventAndTimestampThrough
unfolding enrich
passes_raw_event_and_timestamp_through = (refl, refl, refl)
