-- ===== src/UnitTests/Resolution.antt =====
-- The tests of oom-watcher/src/kubernetes.rs on pods and on the cache.
mod Pods
use ebpf_oom_watcher.Prelude.{◌≡◌, refl, List, [], ◌∷◌, Option, none, some, Text, codes, replicate}
use ebpf_oom_watcher.Common.{ContainerIdentity}
use ebpf_oom_watcher.Resolve.{Error}
use ebpf_oom_watcher.Kubernetes.Pods.{Pod, identity_from_pods, prune_for_cache}
use ebpf_oom_watcher.Kubernetes.Cache.{Store, Latch, ready, pending, Result, ok, err, identity_of}
use ebpf_oom_watcher.UnitTests.Resolution.Pods.{
  containerd, container_status, restarted_container_status, pod_with_statuses, pod_with, replaced,
  no_pod,
}
pub use ebpf_oom_watcher.UnitTests.Resolution.Pods.{id, victim_pod}

-- The lookup of the container of the tests.
unfoldable pub lookup : List (Pod Text) → Option ContainerIdentity
unfolding identity_from_pods ebpf_oom_watcher.Kubernetes.Pods.match_container
    ebpf_oom_watcher.Kubernetes.Pods.match_pod ebpf_oom_watcher.Kubernetes.Pods.match_status
    ebpf_oom_watcher.Kubernetes.Pods.identity_of_match
    ebpf_oom_watcher.Kubernetes.Pods.names_container
    ebpf_oom_watcher.Kubernetes.Pods.running_container_id
    ebpf_oom_watcher.Kubernetes.Pods.terminated_container_id ebpf_oom_watcher.Prelude.find_map
    ebpf_oom_watcher.Prelude.ends_with ebpf_oom_watcher.Prelude.contains
lookup pods = identity_from_pods pods id

abbrev Resolves : List (Pod Text) → (ContainerIdentity → Type 0) → Type 0
Resolves pods P = (identity : ContainerIdentity) × (lookup pods ≡ some identity) × P identity

abbrev CarriesTheKubeletPrefixedContainerIdNotTheBareCgroupId : Type 0
CarriesTheKubeletPrefixedContainerIdNotTheBareCgroupId =
    Resolves (victim_pod ∷ []) (λ identity. identity.container_id ≡ containerd id)

carries_the_kubelet_prefixed_container_id_not_the_bare_cgroup_id :
    CarriesTheKubeletPrefixedContainerIdNotTheBareCgroupId
unfolding lookup
carries_the_kubelet_prefixed_container_id_not_the_bare_cgroup_id = (_, refl, refl)

abbrev CarriesTheImageIdVerbatim : Type 0
CarriesTheImageIdVerbatim =
    (Resolves (pod_with (containerd id) (codes "repo@sha256:2f1c8e9d4a5b6c7e") ∷ [])
      (λ identity. identity.image_id ≡ codes "repo@sha256:2f1c8e9d4a5b6c7e"))
    × (Resolves
        (pod_with (containerd id) (codes "docker-pullable://repo@sha256:2f1c8e9d4a5b6c7e") ∷ [])
        (λ identity. identity.image_id ≡ codes "docker-pullable://repo@sha256:2f1c8e9d4a5b6c7e"))

carries_the_image_id_verbatim : CarriesTheImageIdVerbatim
unfolding lookup
carries_the_image_id_verbatim = ((_, refl, refl), (_, refl, refl))

abbrev ResolvesAContainerWhoseImageIdIsEmpty : Type 0
ResolvesAContainerWhoseImageIdIsEmpty =
    Resolves (pod_with (containerd id) [] ∷ [])
      (λ identity. (identity.image_id ≡ []) × (identity.container_name ≡ codes "api"))

resolves_a_container_whose_image_id_is_empty : ResolvesAContainerWhoseImageIdIsEmpty
unfolding lookup
resolves_a_container_whose_image_id_is_empty = (_, refl, (refl, refl))

abbrev ResolvesThePodAndContainerNamesAlongsideTheIds : Type 0
ResolvesThePodAndContainerNamesAlongsideTheIds = Resolves (victim_pod ∷ []) (λ identity.
    (identity.namespace ≡ codes "prod")
    × (identity.pod_name ≡ codes "api-7d9")
    × (identity.container_name ≡ codes "api"))

resolves_the_pod_and_container_names_alongside_the_ids :
    ResolvesThePodAndContainerNamesAlongsideTheIds
unfolding lookup
resolves_the_pod_and_container_names_alongside_the_ids = (_, refl, (refl, refl, refl))

abbrev PicksTheMatchingContainerAmongSeveralInOnePod : Type 0
PicksTheMatchingContainerAmongSeveralInOnePod =
    let sidecar =
      container_status (codes "sidecar") (containerd (replicate 64 b'a'))
        (codes "sidecar@sha256:1") in
    let api = container_status (codes "api") (containerd id) (codes "api@sha256:2") in
    Resolves (pod_with_statuses (sidecar ∷ api ∷ []) ∷ []) (λ identity.
      (identity.container_name ≡ codes "api") × (identity.image_id ≡ codes "api@sha256:2"))

picks_the_matching_container_among_several_in_one_pod :
    PicksTheMatchingContainerAmongSeveralInOnePod
unfolding lookup
picks_the_matching_container_among_several_in_one_pod = (_, refl, (refl, refl))

abbrev ResolvesAContainerTheKubeletHasAlreadyReplaced : Type 0
ResolvesAContainerTheKubeletHasAlreadyReplaced =
    Resolves (replaced (containerd id) ∷ []) (λ identity.
      (identity.namespace ≡ codes "prod")
      × (identity.pod_name ≡ codes "api-7d9")
      × (identity.container_name ≡ codes "api"))

resolves_a_container_the_kubelet_has_already_replaced :
    ResolvesAContainerTheKubeletHasAlreadyReplaced
unfolding lookup
resolves_a_container_the_kubelet_has_already_replaced = (_, refl, (refl, refl, refl))

abbrev CarriesTheDeadContainersIdNotItsReplacement : Type 0
CarriesTheDeadContainersIdNotItsReplacement =
    Resolves (replaced (containerd id) ∷ []) (λ identity. identity.container_id ≡ containerd id)

carries_the_dead_containers_id_not_its_replacement : CarriesTheDeadContainersIdNotItsReplacement
unfolding lookup
carries_the_dead_containers_id_not_its_replacement = (_, refl, refl)

abbrev PrefersARunningContainerOverATerminatedOne : Type 0
PrefersARunningContainerOverATerminatedOne =
    let stale =
      restarted_container_status (codes "stale") (codes "containerd://replacement")
        (containerd id) in
    Resolves (pod_with_statuses (stale ∷ []) ∷ victim_pod ∷ []) (λ identity.
      (identity.container_name ≡ codes "api") × (identity.container_id ≡ containerd id))

prefers_a_running_container_over_a_terminated_one : PrefersARunningContainerOverATerminatedOne
unfolding lookup
prefers_a_running_container_over_a_terminated_one = (_, refl, (refl, refl))

abbrev FindsNothingWhenNeitherTheRunningNorTheTerminatedContainerMatches : Type 0
FindsNothingWhenNeitherTheRunningNorTheTerminatedContainerMatches =
    lookup (replaced (codes "containerd://someone-else") ∷ []) ≡ none

finds_nothing_when_neither_the_running_nor_the_terminated_container_matches :
    FindsNothingWhenNeitherTheRunningNorTheTerminatedContainerMatches
unfolding lookup
finds_nothing_when_neither_the_running_nor_the_terminated_container_matches = refl

abbrev FindsNothingWhenNoContainerOnTheNodeMatches : Type 0
FindsNothingWhenNoContainerOnTheNodeMatches =
    lookup (pod_with (containerd (replicate 64 b'b')) (codes "x@sha256:1") ∷ []) ≡ none

finds_nothing_when_no_container_on_the_node_matches : FindsNothingWhenNoContainerOnTheNodeMatches
unfolding lookup
finds_nothing_when_no_container_on_the_node_matches = refl

abbrev FindsNothingWhenAPodHasNoContainerStatusesYet : Type 0
FindsNothingWhenAPodHasNoContainerStatusesYet =
    let not_yet : Pod Text = record no_pod { status = some none } in
    lookup (not_yet ∷ no_pod ∷ []) ≡ none

finds_nothing_when_a_pod_has_no_container_statuses_yet :
    FindsNothingWhenAPodHasNoContainerStatusesYet
unfolding lookup
finds_nothing_when_a_pod_has_no_container_statuses_yet = refl

abbrev PruningKeepsEverythingResolutionReads : Type 0
PruningKeepsEverythingResolutionReads =
    let pod : Pod Text = record victim_pod {
      spec = some (codes "node-1");
      metadata = record victim_pod.metadata {
        managed_fields = some [];
        annotations = some (codes "kubectl.kubernetes.io/last-applied-configuration");
      };
    } in
    Resolves (pod ∷ []) (λ identity. lookup (prune_for_cache pod ∷ []) ≡ some identity)

pruning_keeps_everything_resolution_reads : PruningKeepsEverythingResolutionReads
unfolding lookup prune_for_cache
pruning_keeps_everything_resolution_reads = (_, refl, refl)

-- The cache as the reflector has left it: its latch, and the pods that it holds.
abbrev CacheState : Type 0
CacheState = Latch × List (Pod Text)

abbrev cache : Store (Pod Text) CacheState
cache = record { state = λ s. s.1; latch = λ s. s.0 }

-- A lookup by id matches no pattern.
abbrev from_cache : CacheState → Result (Option ContainerIdentity)
from_cache s = identity_of cache (λ re text. none) s id

abbrev ResolvesAContainerFromTheCache : Type 0
ResolvesAContainerFromTheCache =
    (identity : ContainerIdentity) × (from_cache (ready, victim_pod ∷ []) ≡ ok (some identity))
    × (identity.pod_name ≡ codes "api-7d9")
    × (identity.container_id ≡ containerd id)

resolves_a_container_from_the_cache : ResolvesAContainerFromTheCache
unfolding lookup identity_of
resolves_a_container_from_the_cache = (_, refl, refl, refl)

abbrev ASyncedCacheThatDoesNotHoldTheContainerIsAMissNotAnError : Type 0
ASyncedCacheThatDoesNotHoldTheContainerIsAMissNotAnError =
    let other = pod_with (containerd (replicate 64 b'b')) (codes "x@sha256:1") in
    from_cache (ready, other ∷ []) ≡ ok none

a_synced_cache_that_does_not_hold_the_container_is_a_miss_not_an_error :
    ASyncedCacheThatDoesNotHoldTheContainerIsAMissNotAnError
unfolding lookup identity_of
a_synced_cache_that_does_not_hold_the_container_is_a_miss_not_an_error = refl

abbrev AnUnsyncedCacheIsAnErrorNotAMiss : Type 0
AnUnsyncedCacheIsAnErrorNotAMiss =
    (pods : List (Pod Text)) → (e : Error) × (from_cache (pending, pods) ≡ err e)

an_unsynced_cache_is_an_error_not_a_miss : AnUnsyncedCacheIsAnErrorNotAMiss
unfolding lookup identity_of
an_unsynced_cache_is_an_error_not_a_miss = λ pods. (_, refl)
