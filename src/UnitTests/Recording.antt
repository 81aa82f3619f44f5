-- ===== src/UnitTests/Recording.antt =====
-- The tests of oom-watcher/src/metrics.rs: failures, drops and labels.
use ebpf_oom_watcher.Prelude.{
  ◌≡◌, refl, true, [], ◌∷◌, some, none, codes, list_eq, nat_eq, length, all, is_some, ◌==◌,
}
use ebpf_oom_watcher.Prelude.HashMap.{get, keys}
use ebpf_oom_watcher.Common.{EnrichedOomEvent, ContainerIdentity}
use ebpf_oom_watcher.Resolve.{ResolutionOutcome, Error}
use ebpf_oom_watcher.UnitTests.Fixture.{
  t0, event_at, resolved_labels, memory_of, empty, killed, dropping, resolving,
}

abbrev some_identity : ContainerIdentity
some_identity = record {
  namespace = codes "p";
  pod_name = codes "po";
  container_name = codes "c";
  container_id = codes "containerd://id";
  image_id = codes "repo@sha256:d";
}

abbrev CountsFailuresByReasonAndIgnoresFound : Type 0
CountsFailuresByReasonAndIgnoresFound =
    (x : Error)
    → let node = codes "node-1" in
      let twice =
        resolving node ResolutionOutcome.not_found
          (resolving node ResolutionOutcome.not_found empty) in
      let failed_once = resolving node (ResolutionOutcome.failed x) twice in
      let after = resolving node (ResolutionOutcome.found some_identity) failed_once in
      (get (node ∷ codes "not_found" ∷ []) after.oom_resolution_failures_total ≡ some 2)
      × (get (node ∷ codes "error" ∷ []) after.oom_resolution_failures_total ≡ some 1)

counts_failures_by_reason_and_ignores_found : CountsFailuresByReasonAndIgnoresFound
unfolding empty resolving
counts_failures_by_reason_and_ignores_found = λ x. (refl, refl)

abbrev AdvancesTheDropCounterByTheDeltaBetweenReadings : Type 0
AdvancesTheDropCounterByTheDeltaBetweenReadings =
    let node = codes "node-1" in
    let after = dropping node 10 (dropping node 3 (dropping node 3 empty)) in
    get (node ∷ []) after.oom_events_dropped_total ≡ some 10

advances_the_drop_counter_by_the_delta_between_readings :
    AdvancesTheDropCounterByTheDeltaBetweenReadings
unfolding empty dropping
advances_the_drop_counter_by_the_delta_between_readings = refl

abbrev IgnoresADropTotalThatMovesBackwards : Type 0
IgnoresADropTotalThatMovesBackwards =
    let node = codes "node-1" in
    let after = dropping node 2 (dropping node 7 empty) in
    get (node ∷ []) after.oom_events_dropped_total ≡ some 7

ignores_a_drop_total_that_moves_backwards : IgnoresADropTotalThatMovesBackwards
unfolding empty dropping
ignores_a_drop_total_that_moves_backwards = refl

abbrev DoesNotEmitADropSeriesUntilSomethingIsDropped : Type 0
DoesNotEmitADropSeriesUntilSomethingIsDropped =
    (dropping (codes "node-1") 0 empty).oom_events_dropped_total ≡ []

does_not_emit_a_drop_series_until_something_is_dropped :
    DoesNotEmitADropSeriesUntilSomethingIsDropped
unfolding empty dropping
does_not_emit_a_drop_series_until_something_is_dropped = refl

abbrev LabelsOomKillsTotalWithTheContainerAndImageIds : Type 0
LabelsOomKillsTotalWithTheContainerAndImageIds =
    get resolved_labels (killed (event_at (codes "api-7d9") t0) empty).oom_kills_total ≡ some 1

labels_oom_kills_total_with_the_container_and_image_ids :
    LabelsOomKillsTotalWithTheContainerAndImageIds
unfolding empty killed
labels_oom_kills_total_with_the_container_and_image_ids = refl

abbrev LabelsOomLastTimestampWithTheContainerAndImageIds : Type 0
LabelsOomLastTimestampWithTheContainerAndImageIds =
    is_some (get resolved_labels (killed (event_at (codes "api-7d9") t0) empty).oom_last_timestamp)
    ≡ true

labels_oom_last_timestamp_with_the_container_and_image_ids :
    LabelsOomLastTimestampWithTheContainerAndImageIds
unfolding empty killed
labels_oom_last_timestamp_with_the_container_and_image_ids = refl

abbrev LeavesTheMemoryGaugeLabelSetUnchanged : Type 0
LeavesTheMemoryGaugeLabelSetUnchanged =
    (is_some (
        get (memory_of (codes "anon_rss"))
          (killed (event_at (codes "api-7d9") t0) empty).oom_memory_usage_bytes)
      ≡ true)
    × (all (λ labels. length labels == 5)
          (keys (killed (event_at (codes "api-7d9") t0) empty).oom_memory_usage_bytes)
        ≡ true)

leaves_the_memory_gauge_label_set_unchanged : LeavesTheMemoryGaugeLabelSetUnchanged
unfolding empty killed
leaves_the_memory_gauge_label_set_unchanged = (refl, refl)

abbrev FallsBackToUnknownForBothIdsWhenResolutionFailed : Type 0
FallsBackToUnknownForBothIdsWhenResolutionFailed =
    let event : EnrichedOomEvent = record (event_at (codes "api-7d9") t0) {
      namespace = none;
      pod_name = none;
      container_name = none;
      container_id = none;
      image_id = none;
    } in
    let unknown = codes "unknown" in
    get (codes "node-1" ∷ unknown ∷ unknown ∷ unknown ∷ unknown ∷ unknown ∷ [])
      (killed event empty).oom_kills_total
    ≡ some 1

falls_back_to_unknown_for_both_ids_when_resolution_failed :
    FallsBackToUnknownForBothIdsWhenResolutionFailed
unfolding empty killed
falls_back_to_unknown_for_both_ids_when_resolution_failed = refl
