-- ===== src/BuildScript/Tests.antt =====
-- A build in a checkout at /w: the theorem on build.rs applied to it.
use ebpf_oom_watcher.Prelude.{
  ◌≡◌, ◌≢◌, refl, ◌↔◌, List, [], ◌∷◌, Option, none, some, Bool, true, false, Text, codes, ◌==◌,
  list_eq, nat_eq, if◌then◌else◌, ends_with,
}
use ebpf_oom_watcher.BuildScript.{Host, copied, Command, main}
use ebpf_oom_watcher.BuildScript.Copied.{IsPlaced, IsProbeBuild, main-copied_iff}

abbrev vars : Text → Option Text
vars name =
    if name == codes "CARGO_FEATURE_EBPF"
    then some (codes "1")
    else if name == codes "OUT_DIR"
    then some (codes "/o")
    else if name == codes "CARGO_MANIFEST_DIR"
    then some (codes "/w/oom-watcher")
    else none

abbrev host : Host
host = record {
  var = vars;
  parent = λ path. some (codes "/w");
  output = λ command. some true;
  exists = ends_with (codes "oom-watcher-ebpf");
  copy = λ from to. true;
}

abbrev from_path : Text
from_path = codes "/w/target/ebpf-subbuild/bpfel-unknown-none/release/oom-watcher-ebpf"

abbrev to_path : Text
to_path = codes "/o/oom-watcher-ebpf-object"

copies : main host ≡ copied from_path to_path
unfolding main ends_with ebpf_oom_watcher.Prelude.starts_with
copies = refl

main-copied_iff_example : (main host ≡ copied from_path to_path) ↔ (
    (feature : Text) × (out_dir : Text) × (manifest_dir : Text) × (workspace_root : Text)
    × (command : Command) × (host.var (codes "OOM_WATCHER_SKIP_EBPF") ≢ some (codes "1"))
    × (host.var (codes "CARGO_FEATURE_EBPF") ≡ some feature)
    × (host.var (codes "OUT_DIR") ≡ some out_dir)
    × (host.var (codes "CARGO_MANIFEST_DIR") ≡ some manifest_dir)
    × (host.parent manifest_dir ≡ some workspace_root)
    × IsProbeBuild workspace_root command
    × (host.output command ≡ some true)
    × IsPlaced host out_dir workspace_root from_path to_path)
main-copied_iff_example = main-copied_iff host from_path to_path
