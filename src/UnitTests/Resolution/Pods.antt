-- ===== src/UnitTests/Resolution/Pods.antt =====
-- The pods of the tests of oom-watcher/src/kubernetes.rs.
use ebpf_oom_watcher.Prelude.{List, [], ◌∷◌, ◌++◌, none, some, Text, codes}
use ebpf_oom_watcher.Kubernetes.Pods.{Pod, ContainerStatus}

abbrev pub id : Text
id = codes "3b2f1c8e9d4a5b6c7e8f9a0b1c2d3e4f5a6b7c8d9e0f1a2b3c4d5e6f7a8b9c0d"

abbrev pub containerd : Text → Text
containerd bare = codes "containerd://" ++ bare

abbrev pub container_status : Text → Text → Text → ContainerStatus
container_status name container_id image_id = record {
  name = name;
  container_id = some container_id;
  image_id = image_id;
  last_state = none;
}

abbrev pub restarted_container_status : Text → Text → Text → ContainerStatus
restarted_container_status name container_id terminated_container_id =
    record (container_status name container_id (codes "repo@sha256:abc")) {
      last_state = some (some (some terminated_container_id));
    }

-- What the program drops of a pod is a text here.
abbrev pub pod_with_statuses : List ContainerStatus → Pod Text
pod_with_statuses container_statuses = record {
  metadata = record {
    namespace = some (codes "prod");
    name = some (codes "api-7d9");
    managed_fields = none;
    annotations = none;
  };
  spec = none;
  status = some (some container_statuses);
}

abbrev pub pod_with : Text → Text → Pod Text
pod_with container_id image_id =
    pod_with_statuses (container_status (codes "api") container_id image_id ∷ [])

abbrev pub victim_pod : Pod Text
victim_pod = pod_with (containerd id) (codes "repo@sha256:abc")

abbrev pub replaced : Text → Pod Text
replaced dead =
    pod_with_statuses
      (restarted_container_status (codes "api") (codes "containerd://replacement") dead ∷ [])

-- `Pod::default`.
abbrev pub no_pod : Pod Text
no_pod = record {
  metadata = record { namespace = none; name = none; managed_fields = none; annotations = none };
  spec = none;
  status = none;
}
