-- ===== src/Kubernetes.antt =====
-- oom-watcher/src/kubernetes.rs: container ids resolved against a mirror of the pods on the node.
pub mod Pods
pub mod Cgroup
pub mod Cache
pub mod Deletions
mod Tests
