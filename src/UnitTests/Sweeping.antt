-- ===== src/UnitTests/Sweeping.antt =====
-- The tests of oom-watcher/src/metrics.rs: the sweep of stale series and of deleted pods.
use ebpf_oom_watcher.Prelude.{
  ◌+◌, ◌-◌, ◌*◌, ◌≡◌, refl, true, false, [], some, codes, list_eq, nat_eq, length,
}
use ebpf_oom_watcher.Prelude.HashMap.{get}
use ebpf_oom_watcher.Metrics.Collector.{memory_types, deleted_pod_grace_seconds}
use ebpf_oom_watcher.UnitTests.Fixture.{
  t0, ttl, event_for, event_at, resolved_labels, scrape_contains, empty, killed, deleted, swept,
}

abbrev EvictsASeriesUntouchedForAtLeastTheTtl : Type 0
EvictsASeriesUntouchedForAtLeastTheTtl =
    let (evicted, after) = swept (t0 + ttl) (killed (event_at (codes "api-7d9") t0) empty) in
    (evicted ≡ 1) × (scrape_contains (codes "api-7d9") after ≡ false)

evicts_a_series_untouched_for_at_least_the_ttl : EvictsASeriesUntouchedForAtLeastTheTtl
unfolding empty killed swept
evicts_a_series_untouched_for_at_least_the_ttl = (refl, refl)

abbrev KeepsASeriesTouchedWithinTheTtl : Type 0
KeepsASeriesTouchedWithinTheTtl =
    let (evicted, after) = swept (t0 + ttl - 1) (killed (event_at (codes "api-7d9") t0) empty) in
    (evicted ≡ 0) × (get resolved_labels after.oom_kills_total ≡ some 1)

keeps_a_series_touched_within_the_ttl : KeepsASeriesTouchedWithinTheTtl
unfolding empty killed swept
keeps_a_series_touched_within_the_ttl = (refl, refl)

abbrev ADeletedPodsSeriesGoesOnThePodsScheduleNotTheTtls : Type 0
ADeletedPodsSeriesGoesOnThePodsScheduleNotTheTtls =
    let (evicted, after) = swept (t0 + deleted_pod_grace_seconds) (
      deleted (codes "prod") (codes "api-7d9") t0 (killed (event_at (codes "api-7d9") t0) empty)) in
    (evicted ≡ 1) × (scrape_contains (codes "api-7d9") after ≡ false)

a_deleted_pods_series_goes_on_the_pods_schedule_not_the_ttls :
    ADeletedPodsSeriesGoesOnThePodsScheduleNotTheTtls
unfolding empty killed deleted swept
a_deleted_pods_series_goes_on_the_pods_schedule_not_the_ttls = (refl, refl)

abbrev ADeletedPodsSeriesSurvivesUntilTheGraceHasPassed : Type 0
ADeletedPodsSeriesSurvivesUntilTheGraceHasPassed =
    let (evicted, after) = swept (t0 + deleted_pod_grace_seconds - 1) (
      deleted (codes "prod") (codes "api-7d9") t0 (killed (event_at (codes "api-7d9") t0) empty)) in
    (evicted ≡ 0) × (get resolved_labels after.oom_kills_total ≡ some 1)

a_deleted_pods_series_survives_until_the_grace_has_passed :
    ADeletedPodsSeriesSurvivesUntilTheGraceHasPassed
unfolding empty killed deleted swept
a_deleted_pods_series_survives_until_the_grace_has_passed = (refl, refl)

abbrev DeletingAPodTakesEveryRestartOfItsContainers : Type 0
DeletingAPodTakesEveryRestartOfItsContainers =
    let restarts =
      killed (event_for (codes "api-7d9") (codes "containerd://second") t0)
        (killed (event_for (codes "api-7d9") (codes "containerd://first") t0) empty) in
    let noted = deleted (codes "prod") (codes "api-7d9") t0 restarts in
    let (evicted, after) = swept (t0 + deleted_pod_grace_seconds) noted in
    (evicted ≡ 2) × (after.oom_memory_usage_bytes ≡ [])

deleting_a_pod_takes_every_restart_of_its_containers : DeletingAPodTakesEveryRestartOfItsContainers
unfolding empty killed deleted swept
deleting_a_pod_takes_every_restart_of_its_containers = (refl, refl)

abbrev ADeletedPodLeavesAnotherPodsSeriesAlone : Type 0
ADeletedPodLeavesAnotherPodsSeriesAlone =
    let both =
      killed (event_at (codes "worker-1") t0) (killed (event_at (codes "api-7d9") t0) empty) in
    let noted = deleted (codes "prod") (codes "api-7d9") t0 both in
    let (evicted, after) = swept (t0 + deleted_pod_grace_seconds) noted in
    (evicted ≡ 1) × (scrape_contains (codes "worker-1") after ≡ true)

a_deleted_pod_leaves_another_pods_series_alone : ADeletedPodLeavesAnotherPodsSeriesAlone
unfolding empty killed deleted swept
a_deleted_pod_leaves_another_pods_series_alone = (refl, refl)

abbrev ForgetsADeletedPodThatNeverOomed : Type 0
ForgetsADeletedPodThatNeverOomed =
    let (evicted, after) =
      swept (t0 + deleted_pod_grace_seconds)
        (deleted (codes "prod") (codes "never-oomed") t0 empty) in
    (evicted ≡ 0) × (after.deleted_after ≡ [])

forgets_a_deleted_pod_that_never_oomed : ForgetsADeletedPodThatNeverOomed
unfolding empty deleted swept
forgets_a_deleted_pod_that_never_oomed = (refl, refl)

abbrev KeepsADeletedPodsBookkeepingUntilItIsDue : Type 0
KeepsADeletedPodsBookkeepingUntilItIsDue =
    let (evicted, after) =
      swept (t0 + deleted_pod_grace_seconds - 1)
        (deleted (codes "prod") (codes "never-oomed") t0 empty) in
    (evicted ≡ 0) × (length after.deleted_after ≡ 1)

keeps_a_deleted_pods_bookkeeping_until_it_is_due : KeepsADeletedPodsBookkeepingUntilItIsDue
unfolding empty deleted swept
keeps_a_deleted_pods_bookkeeping_until_it_is_due = (refl, refl)

abbrev DistinguishesPodsOfTheSameNameInDifferentNamespaces : Type 0
DistinguishesPodsOfTheSameNameInDifferentNamespaces =
    let noted =
      deleted (codes "staging") (codes "api-7d9") t0
        (killed (event_at (codes "api-7d9") t0) empty) in
    let (evicted, after) = swept (t0 + deleted_pod_grace_seconds) noted in
    (evicted ≡ 0) × (scrape_contains (codes "api-7d9") after ≡ true)

distinguishes_pods_of_the_same_name_in_different_namespaces :
    DistinguishesPodsOfTheSameNameInDifferentNamespaces
unfolding empty killed deleted swept
distinguishes_pods_of_the_same_name_in_different_namespaces = (refl, refl)

abbrev EvictsOnlyTheStaleSeriesAndLeavesFreshOnes : Type 0
EvictsOnlyTheStaleSeriesAndLeavesFreshOnes =
    let both =
      killed (event_at (codes "steady-1") (t0 + ttl))
        (killed (event_at (codes "crashloop-1") t0) empty) in
    let (evicted, after) = swept (t0 + ttl) both in
    (evicted ≡ 1)
    × (scrape_contains (codes "crashloop-1") after ≡ false)
    × (scrape_contains (codes "steady-1") after ≡ true)

evicts_only_the_stale_series_and_leaves_fresh_ones : EvictsOnlyTheStaleSeriesAndLeavesFreshOnes
unfolding empty killed swept
evicts_only_the_stale_series_and_leaves_fresh_ones = (refl, refl, refl)

abbrev EvictingRemovesEveryMemoryTypeGauge : Type 0
EvictingRemovesEveryMemoryTypeGauge =
    (length (killed (event_at (codes "api-7d9") t0) empty).oom_memory_usage_bytes
      ≡ length memory_types)
    × ((swept (t0 + ttl) (killed (event_at (codes "api-7d9") t0) empty)).1.oom_memory_usage_bytes
        ≡ [])

evicting_removes_every_memory_type_gauge : EvictingRemovesEveryMemoryTypeGauge
unfolding empty killed swept
evicting_removes_every_memory_type_gauge = (refl, refl)

abbrev ALaterTouchExtendsTheLifetimeOfASeries : Type 0
ALaterTouchExtendsTheLifetimeOfASeries =
    (swept (t0 + ttl) (
      killed (event_at (codes "api-7d9") (t0 + ttl))
        (killed (event_at (codes "api-7d9") t0) empty))).0
    ≡ 0

a_later_touch_extends_the_lifetime_of_a_series : ALaterTouchExtendsTheLifetimeOfASeries
unfolding empty killed swept
a_later_touch_extends_the_lifetime_of_a_series = refl

abbrev ForgetsTheEvictedKeySoASecondSweepIsANoOp : Type 0
ForgetsTheEvictedKeySoASecondSweepIsANoOp =
    (swept (t0 + 2 * ttl) (swept (t0 + ttl) (killed (event_at (codes "api-7d9") t0) empty)).1).0 ≡ 0

forgets_the_evicted_key_so_a_second_sweep_is_a_no_op : ForgetsTheEvictedKeySoASecondSweepIsANoOp
unfolding empty killed swept
forgets_the_evicted_key_so_a_second_sweep_is_a_no_op = refl

abbrev ASeriesRecreatedAfterEvictionStartsFromZero : Type 0
ASeriesRecreatedAfterEvictionStartsFromZero =
    let evicted =
      (swept (t0 + ttl) (
        killed (event_at (codes "api-7d9") t0) (killed (event_at (codes "api-7d9") t0) empty))).1 in
    get resolved_labels (killed (event_at (codes "api-7d9") (t0 + 2 * ttl)) evicted).oom_kills_total
    ≡ some 1

a_series_recreated_after_eviction_starts_from_zero : ASeriesRecreatedAfterEvictionStartsFromZero
unfolding empty killed swept
a_series_recreated_after_eviction_starts_from_zero = refl
