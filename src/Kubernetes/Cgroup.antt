-- ===== src/Kubernetes/Cgroup.antt =====
-- oom-watcher/src/kubernetes.rs: the container id in a cgroup file. The patterns are syntax trees;
pub mod Engine
pub mod Extract
pub mod Scan
pub mod Sample
mod Tests
-- the `regex` crate, which searches for them, is a parameter.
use ebpf_oom_watcher.Prelude.{
  ℕ, Bool, ◌&&◌, ◌||◌, not, List, [], ◌∷◌, Option, Text, codes, leb, ◌==◌, nat_eq, find_map,
}
use ebpf_oom_watcher.Kubernetes.Pods.{and_then}

-- The constructs that the patterns use. `run n p` is a class repeated `n` times, `lazy_run p` one
-- repeated any number of times, the fewest first.
infixr 5 ◌⋅◌
pub data Regex : Type 0 where
  literal : Text → Regex
  class : (ℕ → Bool) → Regex
  run : ℕ → (ℕ → Bool) → Regex
  lazy_run : (ℕ → Bool) → Regex
  at_end : Regex
  group : Regex → Regex
  ◌⋅◌ : Regex → Regex → Regex
  alternative : Regex → Regex → Regex

abbrev pub is_hex : ℕ → Bool
is_hex c = (leb b'0' c && leb c b'9') || (leb b'a' c && leb c b'f')

abbrev pub is_delimiter : ℕ → Bool
is_delimiter c = (c == b'-') || (c == b'/')

-- `.`: anything but a line feed.
abbrev pub is_dot : ℕ → Bool
is_dot c = not (c == b'\n')

-- `([0-9a-f]{64})(?:[^0-9a-f]|$)`
abbrev pub id_and_boundary : Regex
id_and_boundary = group (run 64 is_hex) ⋅ alternative (class (λ c. not (is_hex c))) at_end

-- `(?:cri-containerd|crio|docker|libpod)`
abbrev pub runtime : Regex
runtime = alternative (literal (codes "cri-containerd")) (
    alternative (literal (codes "crio"))
      (alternative (literal (codes "docker")) (literal (codes "libpod"))))

abbrev pub runtime_pattern : Regex
runtime_pattern = runtime ⋅ (class is_delimiter ⋅ id_and_boundary)

abbrev pub kubepods_pattern : Regex
kubepods_pattern =
    literal (codes "/kubepods") ⋅ (lazy_run is_dot ⋅ (literal (codes "/") ⋅ id_and_boundary))

abbrev pub catch_all_pattern : Regex
catch_all_pattern = class is_delimiter ⋅ id_and_boundary

unfoldable pub container_id_patterns : List Regex
container_id_patterns = runtime_pattern ∷ kubepods_pattern ∷ catch_all_pattern ∷ []

-- `Regex::captures`, for the one group that a pattern has: none if the pattern is found nowhere,
-- else what the group took part with.
module _ (captures : Regex → Text → Option (Option Text)) where
  unfoldable pub extract_container_id : Text → Option Text
  unfolding container_id_patterns find_map
  extract_container_id cgroup =
      find_map (λ re. and_then (captures re cgroup) (λ first. first)) container_id_patterns
