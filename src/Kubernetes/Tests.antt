-- ===== src/Kubernetes/Tests.antt =====
-- One node with two pods: the theorems on kubernetes.rs applied to it.
use ebpf_oom_watcher.Prelude.{
  ◌≡◌, refl, ◌⊎◌, inl, inr, List, [], ◌∷◌, ◌++◌, Option, none, some, Text, codes, map, ◌↔◌, In,
  Bool, true,
}
use ebpf_oom_watcher.Prelude.{ℕ, pair_eq, list_eq, nat_eq}
use ebpf_oom_watcher.Prelude.HashMap.{get}
use ebpf_oom_watcher.Prometheus.Sample.{sample_vec}
use ebpf_oom_watcher.Metrics.Collector.{new}
use ebpf_oom_watcher.Kubernetes.Deletions.{
  Item, event, watch_error, watch_pods, watch_pods-deadline,
}
use ebpf_oom_watcher.Common.{ContainerIdentity}
use ebpf_oom_watcher.Resolve.{ResolutionOutcome}
use ebpf_oom_watcher.Kubernetes.Pods.{
  Pod, ContainerStatus, names_container, running_container_id, terminated_container_id,
  identity_of_match, identity_from_pods, prune_for_cache,
}
use ebpf_oom_watcher.Kubernetes.Pods.Matching.{
  IsIdentity, identity_from_pods-IsIdentity, identity_from_pods-prune,
}
use ebpf_oom_watcher.Kubernetes.Cgroup.{Regex}
use ebpf_oom_watcher.Kubernetes.Cache.{
  delete, init, Store, World, content, ready, IsResolved, resolve, resolve-IsResolved,
}

-- The container was restarted: `b2` runs, `a1` is the one that died.
abbrev restarted : ContainerStatus
restarted = record {
  name = codes "app";
  container_id = some (codes "containerd://b2");
  image_id = codes "i1";
  last_state = some (some (some (codes "containerd://a1")));
}

abbrev steady : ContainerStatus
steady = record {
  name = codes "db";
  container_id = some (codes "containerd://c3");
  image_id = codes "i2";
  last_state = none;
}

abbrev pod_of : Text → ContainerStatus → Pod Text
pod_of name status = record {
  metadata = record {
    namespace = some (codes "shop");
    name = some name;
    managed_fields = some (codes "kubelet");
    annotations = none;
  };
  spec = some (codes "spec");
  status = some (some (status ∷ []));
}

abbrev node_pods : List (Pod Text)
node_pods = pod_of (codes "web-0") restarted ∷ pod_of (codes "db-0") steady ∷ []

abbrev identity_for : Text → ContainerStatus → Text → ContainerIdentity
identity_for name status full = identity_of_match (pod_of name status) (status, full)

identity_from_pods-IsIdentity_example :
    IsIdentity node_pods
      (codes "a1")
      (some (identity_for (codes "web-0") restarted (codes "containerd://a1")))
unfolding identity_from_pods running_container_id terminated_container_id names_container
    ebpf_oom_watcher.Prelude.ends_with ebpf_oom_watcher.Kubernetes.Pods.match_container
    ebpf_oom_watcher.Prelude.find_map ebpf_oom_watcher.Kubernetes.Pods.match_pod
    ebpf_oom_watcher.Kubernetes.Pods.match_status ebpf_oom_watcher.Prelude.contains
identity_from_pods-IsIdentity_example = identity_from_pods-IsIdentity node_pods (codes "a1")

identity_from_pods-prune_example :
    identity_from_pods (map prune_for_cache node_pods) (codes "a1")
    ≡ identity_from_pods node_pods (codes "a1")
identity_from_pods-prune_example = identity_from_pods-prune node_pods (codes "a1")

abbrev store_of : Store (Pod Text) (List (Pod Text))
store_of = record { state = λ s. s; latch = λ s. ready }

-- An engine that finds the same id in any file.
abbrev find_a1 : Regex → Text → Option (Option Text)
find_a1 re text = some (some (codes "a1"))

abbrev world : World (List (Pod Text))
world = record { read_to_string = λ path. content (codes "0::/docker-a1"); store = node_pods }

resolve-IsResolved_example :
    IsResolved store_of find_a1 world 7
      (ResolutionOutcome.found (identity_for (codes "web-0") restarted (codes "containerd://a1")))
unfolding identity_from_pods running_container_id terminated_container_id names_container
    ebpf_oom_watcher.Prelude.ends_with ebpf_oom_watcher.Kubernetes.Pods.match_container
    ebpf_oom_watcher.Prelude.find_map ebpf_oom_watcher.Kubernetes.Pods.match_pod
    ebpf_oom_watcher.Kubernetes.Pods.match_status ebpf_oom_watcher.Prelude.contains resolve
    ebpf_oom_watcher.Kubernetes.Cgroup.extract_container_id
resolve-IsResolved_example = resolve-IsResolved store_of find_a1 world 7

abbrev stream : List (ℕ × Item (Pod Text))
stream =
    (1200, event (delete (pod_of (codes "web-0") restarted)))
    ∷ (1300, event init)
    ∷ (1400, watch_error (codes "gone"))
    ∷ (1500, event (delete (pod_of (codes "web-0") restarted)))
    ∷ []

-- The pod is deleted, listed again, and deleted once more.
watch_pods-deadline_example :
    get (codes "shop", codes "web-0") (watch_pods sample_vec stream (new sample_vec)).deleted_after
    ≡ some 1620
unfolding new ebpf_oom_watcher.Prelude.pair_beq ebpf_oom_watcher.Prelude.list_beq
watch_pods-deadline_example =
    watch_pods-deadline sample_vec (codes "shop", codes "web-0") stream (new sample_vec)
