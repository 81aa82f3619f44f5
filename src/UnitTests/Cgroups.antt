-- ===== src/UnitTests/Cgroups.antt =====
-- The tests of oom-watcher/src/kubernetes.rs on cgroup files, under any engine for its patterns.
use ebpf_oom_watcher.Prelude.{
  ◌≡◌, refl, inl, inr, [], ◌∷◌, ◌++◌, Option, none, some, Text, codes, replicate, In, list_eq,
  nat_eq,
}
use ebpf_oom_watcher.Kubernetes.Cgroup.{extract_container_id}
use ebpf_oom_watcher.Kubernetes.Cgroup.Engine.{RegexEngine}
use ebpf_oom_watcher.Kubernetes.Cgroup.Scan.{
  scan, extract_container_id-scan, extract_container_id_only,
}

abbrev id : Text
id = codes "3b2f1c8e9d4a5b6c7e8f9a0b1c2d3e4f5a6b7c8d9e0f1a2b3c4d5e6f7a8b9c0d"

abbrev Extracts : Text → Option Text → Type 0
Extracts cgroup expected =
    (engine : RegexEngine) → extract_container_id engine.captures cgroup ≡ expected

only_id : (cgroup : Text) → scan cgroup ≡ id ∷ [] → Extracts cgroup (some id)
only_id cgroup h engine =
    extract_container_id_only engine cgroup id (rw h (inl refl)) (λ other m. only other (rw h at m))
  where
    only : (other : Text) → In other (id ∷ []) → other ≡ id
    only other (inl e) = e
    only other (inr m) = elim m [ ]

same_ids : (cgroup : Text) → scan cgroup ≡ id ∷ id ∷ [] → Extracts cgroup (some id)
same_ids cgroup h engine =
    extract_container_id_only engine cgroup id (rw h (inl refl)) (λ other m. only other (rw h at m))
  where
    only : (other : Text) → In other (id ∷ id ∷ []) → other ≡ id
    only other (inl e) = e
    only other (inr (inl e)) = e
    only other (inr (inr m)) = elim m [ ]

no_ids : (cgroup : Text) → scan cgroup ≡ [] → Extracts cgroup none
no_ids cgroup h engine = (extract_container_id-scan engine cgroup).1.1 h

-- A line that ends in the id, with what follows it.
abbrev Layout : Text → Text → Type 0
Layout before after = Extracts (before ++ (id ++ after)) (some id)

abbrev ExtractsTheContainerIdFromEverySupportedLayout : Type 0
ExtractsTheContainerIdFromEverySupportedLayout =
    Layout
      (codes
        "0::/kubepods.slice/kubepods-burstable.slice/kubepods-burstable-poda1b2.slice/cri-containerd-")
      (codes ".scope")
    × Layout
        (codes
          "0::/kubepods.slice/kubepods-besteffort.slice/kubepods-besteffort-poda1b2.slice/crio-")
        (codes ".scope")
    × Layout
        (codes
          "0::/kubepods.slice/kubepods-burstable.slice/kubepods-burstable-poda1b2.slice/docker-")
        (codes ".scope")
    × Layout (codes "11:memory:/docker/") []
    × Layout (codes "11:memory:/kubepods/burstable/poda1b2-c3d4/") []
    × Layout (codes "11:memory:/kubepods/poda1b2-c3d4/") []

extracts_the_container_id_from_every_supported_layout :
    ExtractsTheContainerIdFromEverySupportedLayout
unfolding scan
extracts_the_container_id_from_every_supported_layout = (
  λ engine. only_id _ refl engine,
  λ engine. only_id _ refl engine,
  λ engine. only_id _ refl engine,
  λ engine. only_id _ refl engine,
  λ engine. only_id _ refl engine,
  λ engine. only_id _ refl engine,
)

abbrev ExtractsFromAMultiLineCgroupV1File : Type 0
ExtractsFromAMultiLineCgroupV1File =
    Extracts
      (codes "12:pids:/kubepods/burstable/poda1b2/"
        ++ (id ++ (codes "\n11:memory:/kubepods/burstable/poda1b2/" ++ (id ++ codes "\n0::/\n"))))
      (some id)

extracts_from_a_multi_line_cgroup_v1_file : ExtractsFromAMultiLineCgroupV1File
unfolding scan
extracts_from_a_multi_line_cgroup_v1_file engine = same_ids _ refl engine

abbrev FindsNothingForAProcessOutsideAContainer : Type 0
FindsNothingForAProcessOutsideAContainer =
    Extracts (codes "0::/system.slice/sshd.service\n") none × Extracts (codes "0::/\n") none

finds_nothing_for_a_process_outside_a_container : FindsNothingForAProcessOutsideAContainer
unfolding scan
finds_nothing_for_a_process_outside_a_container =
    (λ engine. no_ids _ refl engine, λ engine. no_ids _ refl engine)

abbrev IgnoresHexRunsThatAreNotContainerIds : Type 0
IgnoresHexRunsThatAreNotContainerIds =
    Extracts (codes "0::/kubepods.slice/cri-containerd-" ++ (replicate 63 b'a' ++ codes ".scope"))
      none
    × Extracts (codes "0::/kubepods.slice/cri-containerd-" ++ (replicate 65 b'a' ++ codes ".scope"))
        none

ignores_hex_runs_that_are_not_container_ids : IgnoresHexRunsThatAreNotContainerIds
unfolding scan
ignores_hex_runs_that_are_not_container_ids =
    (λ engine. no_ids _ refl engine, λ engine. no_ids _ refl engine)
