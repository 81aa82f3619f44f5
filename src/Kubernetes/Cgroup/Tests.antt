-- ===== src/Kubernetes/Cgroup/Tests.antt =====
-- Cgroup files as kubernetes.rs tests with, and the theorems on container ids applied to them.
use ebpf_oom_watcher.Prelude.{◌≡◌, List, [], ◌∷◌, ◌++◌, Option, none, some, Text, codes, In, ◌↔◌}
use ebpf_oom_watcher.Kubernetes.Cgroup.{extract_container_id, is_delimiter}
use ebpf_oom_watcher.Kubernetes.Cgroup.Sample.{splitting_engine, search}
use ebpf_oom_watcher.Kubernetes.Cgroup.Scan.{scan, extract_container_id-scan}

abbrev id : Text
id = codes "3b2f1c8e9d4a5b6c7e8f9a0b1c2d3e4f5a6b7c8d9e0f1a2b3c4d5e6f7a8b9c0d"

abbrev docker : Text
docker = codes "/docker/" ++ id

extract_container_id-scan_example :
    ((found : Text) → extract_container_id search docker ≡ some found → In found (scan docker))
    × ((extract_container_id search docker ≡ none) ↔ (scan docker ≡ []))
extract_container_id-scan_example = extract_container_id-scan splitting_engine docker
