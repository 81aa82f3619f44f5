-- ===== src/Kubernetes/Pods.antt =====
-- oom-watcher/src/kubernetes.rs: matching a container id against the pods on the node.
pub mod Matching
use ebpf_oom_watcher.Prelude.{
  Bool, ◌||◌, List, Option, none, some, Text, codes, find_map, or_else, contains, ends_with,
  if◌then◌else◌,
}
use ebpf_oom_watcher.Common.{ContainerIdentity}

-- The fields of the Kubernetes API types that the program reads or writes. `last_terminated` is
-- `last_state.terminated.container_id`, none where a link is missing.
pub record ContainerStatus : Type 0 where
  pub name : Text
  pub container_id : Option Text
  pub image_id : Text
  pub last_state : Option (Option (Option Text))

pub record Metadata (Opaque : Type 0) : Type 0 where
  pub namespace : Option Text
  pub name : Option Text
  pub managed_fields : Option Opaque
  pub annotations : Option Opaque

-- What the program only drops is `Opaque`.
pub record Pod (Opaque : Type 0) : Type 0 where
  pub metadata : Metadata Opaque
  pub spec : Option Opaque
  pub status : Option (Option (List ContainerStatus))

abbrev pub and_then {ℓ κ} : {A : Type ℓ} {B : Type κ} → Option A → (A → Option B) → Option B
and_then none f = none
and_then (some a) f = f a

abbrev pub unwrap_or {ℓ} : {A : Type ℓ} → Option A → A → A
unwrap_or none d = d
unwrap_or (some a) d = a

unfoldable pub running_container_id : ContainerStatus → Option Text
running_container_id status = status.container_id

-- `last_state.as_ref()?.terminated.as_ref()?.container_id`
unfoldable pub terminated_container_id : ContainerStatus → Option Text
terminated_container_id status =
    and_then status.last_state (λ state. and_then state (λ terminated. terminated))

unfoldable pub names_container : Text → Text → Bool
names_container reported container_id =
    ends_with container_id reported || contains container_id reported

-- One status of a pod: its reported id, if that names the container.
unfoldable pub match_status :
    Text → (ContainerStatus → Option Text) → ContainerStatus → Option (ContainerStatus × Text)
match_status container_id candidate status =
    and_then (candidate status)
      (λ full. if names_container full container_id then some (status, full) else none)

module _ {Opaque : Type 0} where
  unfoldable pub identity_of_match : Pod Opaque → ContainerStatus × Text → ContainerIdentity
  identity_of_match pod (status, full) = record {
    namespace = unwrap_or pod.metadata.namespace (codes "default");
    pod_name = unwrap_or pod.metadata.name (codes "unknown");
    container_name = status.name;
    container_id = full;
    image_id = status.image_id;
  }

  -- The closure of the search: a pod without statuses is passed over.
  unfoldable pub match_pod :
      Text → (ContainerStatus → Option Text) → Pod Opaque → Option ContainerIdentity
  match_pod container_id candidate pod = and_then pod.status (λ status. and_then status (λ statuses.
      and_then (find_map (match_status container_id candidate) statuses)
        (λ hit. some (identity_of_match pod hit))))

  unfoldable pub match_container :
      List (Pod Opaque) → Text → (ContainerStatus → Option Text) → Option ContainerIdentity
  match_container pods container_id candidate = find_map (match_pod container_id candidate) pods

  -- The running containers first, then those that they replaced.
  unfoldable pub identity_from_pods : List (Pod Opaque) → Text → Option ContainerIdentity
  identity_from_pods pods container_id =
      or_else (match_container pods container_id running_container_id)
        (match_container pods container_id terminated_container_id)

  unfoldable pub prune_for_cache : Pod Opaque → Pod Opaque
  prune_for_cache pod =
      let unspecified = record pod { spec = none } in
      record unspecified {
        metadata = record (pod.metadata) { managed_fields = none; annotations = none };
      }
