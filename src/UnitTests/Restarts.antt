-- ===== src/UnitTests/Restarts.antt =====
-- The tests of oom-watcher/src/metrics.rs: evictions by node, and of restarts of one container.
use ebpf_oom_watcher.Prelude.{
  ◌+◌, ◌*◌, ◌≡◌, refl, Bool, true, false, ◌||◌, List, [], ◌∷◌, some, none, Text, codes, list_eq,
  nat_eq, length, any, ◌==◌,
}
use ebpf_oom_watcher.Prelude.HashMap.{get, keys}
use ebpf_oom_watcher.Common.{EnrichedOomEvent}
use ebpf_oom_watcher.Metrics.Collector.{memory_types}
use ebpf_oom_watcher.UnitTests.Fixture.{
  Listed, t0, ttl, event_for, event_at, scrape_contains, empty, killed, swept,
}

-- `contains("pod=\"unknown\"")`: the pod is the third label where there are six, and where there are
-- five.
abbrev third_is_unknown : List Text → Bool
third_is_unknown (node ∷ namespace ∷ pod ∷ rest) = pod == codes "unknown"
third_is_unknown other = false

abbrev has_pod_unknown : Listed → Bool
has_pod_unknown c =
    any third_is_unknown (keys c.oom_kills_total)
    || any third_is_unknown (keys c.oom_memory_usage_bytes)
    || any third_is_unknown (keys c.oom_last_timestamp)

abbrev CountsEvictionsPerNode : Type 0
CountsEvictionsPerNode =
    let (evicted, after) =
      swept (t0 + ttl)
        (killed (event_at (codes "api-8f2") t0) (killed (event_at (codes "api-7d9") t0) empty)) in
    get (codes "node-1" ∷ []) after.oom_series_evicted_total ≡ some 2

counts_evictions_per_node : CountsEvictionsPerNode
unfolding empty killed swept
counts_evictions_per_node = refl

abbrev DoesNotEmitAnEvictionSeriesUntilSomethingIsEvicted : Type 0
DoesNotEmitAnEvictionSeriesUntilSomethingIsEvicted =
    (swept t0 (killed (event_at (codes "api-7d9") t0) empty)).1.oom_series_evicted_total ≡ []

does_not_emit_an_eviction_series_until_something_is_evicted :
    DoesNotEmitAnEvictionSeriesUntilSomethingIsEvicted
unfolding empty killed swept
does_not_emit_an_eviction_series_until_something_is_evicted = refl

abbrev LeavesNodeScopedSeriesAlone : Type 0
LeavesNodeScopedSeriesAlone =
    get (codes "node-1" ∷ [])
      (swept (t0 + ttl) (killed (event_at (codes "api-7d9") t0) empty)).1.oom_kills_per_node_total
    ≡ some 1

leaves_node_scoped_series_alone : LeavesNodeScopedSeriesAlone
unfolding empty killed swept
leaves_node_scoped_series_alone = refl

abbrev EvictsTheUnknownLabelSetOfAnUnresolvedEvent : Type 0
EvictsTheUnknownLabelSetOfAnUnresolvedEvent =
    let event : EnrichedOomEvent = record (event_at (codes "api-7d9") t0) {
      node_name = none;
      namespace = none;
      pod_name = none;
      container_name = none;
    } in
    let (evicted, after) = swept (t0 + ttl) (killed event empty) in
    (has_pod_unknown (killed event empty) ≡ true) × (evicted ≡ 1) × (has_pod_unknown after ≡ false)

evicts_the_unknown_label_set_of_an_unresolved_event : EvictsTheUnknownLabelSetOfAnUnresolvedEvent
unfolding empty killed swept
evicts_the_unknown_label_set_of_an_unresolved_event = (refl, refl, refl)

abbrev KeepsTheMemoryGaugeWhileAnotherRestartOfTheContainerIsLive : Type 0
KeepsTheMemoryGaugeWhileAnotherRestartOfTheContainerIsLive =
    let (evicted, after) = swept (t0 + ttl) (
      killed (event_for (codes "api-7d9") (codes "containerd://restart-2") (t0 + ttl))
        (killed (event_for (codes "api-7d9") (codes "containerd://restart-1") t0) empty)) in
    (evicted ≡ 1)
    × (scrape_contains (codes "containerd://restart-1") after ≡ false)
    × (scrape_contains (codes "containerd://restart-2") after ≡ true)
    × (length after.oom_memory_usage_bytes ≡ length memory_types)

keeps_the_memory_gauge_while_another_restart_of_the_container_is_live :
    KeepsTheMemoryGaugeWhileAnotherRestartOfTheContainerIsLive
unfolding empty killed swept
keeps_the_memory_gauge_while_another_restart_of_the_container_is_live = (refl, refl, refl, refl)

abbrev RemovesTheMemoryGaugeOnceTheLastRestartGoesStale : Type 0
RemovesTheMemoryGaugeOnceTheLastRestartGoesStale =
    let once =
      (swept (t0 + ttl) (
        killed (event_for (codes "api-7d9") (codes "containerd://restart-2") (t0 + ttl))
          (killed (event_for (codes "api-7d9") (codes "containerd://restart-1") t0) empty))).1 in
    let (evicted, after) = swept (t0 + 2 * ttl) once in
    (evicted ≡ 1) × (after.oom_memory_usage_bytes ≡ [])

removes_the_memory_gauge_once_the_last_restart_goes_stale :
    RemovesTheMemoryGaugeOnceTheLastRestartGoesStale
unfolding empty killed swept
removes_the_memory_gauge_once_the_last_restart_goes_stale = (refl, refl)
