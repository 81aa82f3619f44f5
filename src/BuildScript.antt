-- ===== src/BuildScript.antt =====
-- oom-watcher/build.rs: the build script that compiles the probe and puts its object where a
-- release build of the program embeds it from. The environment, cargo and the file system are parameters.
pub mod Copied
mod Tests
use ebpf_oom_watcher.Prelude.{
  List, [], ◌∷◌, ◌++◌, Option, none, some, Bool, true, false, Text, codes, if◌then◌else◌, ◌==◌,
  list_eq, nat_eq, starts_with, ends_with, ◌||◌,
}

-- `PathBuf::join`.
unfoldable pub join : Text → Text → Text
join dir path =
    if starts_with (codes "/") path
    then path
    else if ends_with (codes "/") dir || dir == []
    then dir ++ path
    else dir ++ (codes "/" ++ path)

pub record Command : Type 0 where
  pub program : Text
  pub env_removed : List Text
  pub args : List Text
  pub current_dir : Text

-- What the script asks for. `parent` is `Path::parent`; `output` is none if the command could not be
-- run, and else says whether it was a success; `exists` and `copy` see the files as the command has
-- left them.
pub record Host : Type 0 where
  pub var : Text → Option Text
  pub parent : Text → Option Text
  pub output : Command → Option Bool
  pub exists : Text → Bool
  pub copy : Text → Text → Bool

pub data Panic : Type 0 where
  no_out_dir no_manifest_dir no_parent not_executed build_failed not_found : Panic
  copy_failed : Text → Text → Panic

-- How the script ends: without a build, with the object copied, or in a panic.
pub data Ended : Type 0 where
  skipped disabled : Ended
  copied : Text → Text → Ended
  panicked : Panic → Ended

abbrev object : Text
object = codes "bpfel-unknown-none/release/oom-watcher-ebpf"

unfoldable pub possible_paths : Text → List Text
unfolding join
possible_paths ebpf_target_dir =
    join ebpf_target_dir object
    ∷ codes "../target/ebpf-subbuild/bpfel-unknown-none/release/oom-watcher-ebpf"
    ∷ codes "target/ebpf-subbuild/bpfel-unknown-none/release/oom-watcher-ebpf"
    ∷ []

unfoldable pub first_existing : (Text → Bool) → List Text → Option Text
first_existing exists [] = none
first_existing exists (path ∷ paths) =
    let rest = first_existing exists paths in if exists path then some path else rest

abbrev pub build_command : Text → Command
build_command workspace_root = record {
  program = codes "cargo";
  env_removed = codes "LD_LIBRARY_PATH" ∷ codes "RUSTC" ∷ codes "RUSTUP_TOOLCHAIN" ∷ [];
  args =
      codes "+nightly"
      ∷ codes "build"
      ∷ codes "--release"
      ∷ codes "--package"
      ∷ codes "oom-watcher-ebpf"
      ∷ codes "--target"
      ∷ codes "bpfel-unknown-none"
      ∷ codes "--target-dir"
      ∷ join workspace_root (codes "target/ebpf-subbuild")
      ∷ codes "-Z"
      ∷ codes "build-std=core"
      ∷ [];
  current_dir = workspace_root;
}

abbrev pub copied_or_failed : Bool → Text → Text → Ended
copied_or_failed true from to = copied from to
copied_or_failed false from to = panicked (copy_failed from to)

abbrev pub copy_found : Host → Text → Option Text → Ended
copy_found host out_dir none = panicked not_found
copy_found host out_dir (some ebpf_path) =
    let target_path = join out_dir (codes "oom-watcher-ebpf-object") in
    copied_or_failed (host.copy ebpf_path target_path) ebpf_path target_path

abbrev pub after_build : Host → Text → Text → Option Bool → Ended
after_build host out_dir workspace_root none = panicked not_executed
after_build host out_dir workspace_root (some false) = panicked build_failed
after_build host out_dir workspace_root (some true) = copy_found host out_dir (
    first_existing host.exists
      (possible_paths (join workspace_root (codes "target/ebpf-subbuild"))))

-- A value that the script cannot do without.
abbrev pub or_end : Option Text → Ended → (Text → Ended) → Ended
or_end none ended next = ended
or_end (some text) ended next = next text

abbrev pub build_in : Host → Text → Text → Ended
build_in host out_dir workspace_root =
    after_build host out_dir workspace_root (host.output (build_command workspace_root))

abbrev pub with_manifest_dir : Host → Text → Text → Ended
with_manifest_dir host out_dir manifest_dir =
    or_end (host.parent manifest_dir) (panicked no_parent) (build_in host out_dir)

abbrev pub with_out_dir : Host → Text → Ended
with_out_dir host out_dir =
    or_end (host.var (codes "CARGO_MANIFEST_DIR")) (panicked no_manifest_dir)
      (with_manifest_dir host out_dir)

abbrev pub enabled : Host → Text → Ended
enabled host feature = or_end (host.var (codes "OUT_DIR")) (panicked no_out_dir) (with_out_dir host)

-- `== Some("1")`.
abbrev pub is_one : Option Text → Bool
is_one none = false
is_one (some text) = text == codes "1"

unfoldable pub main : Host → Ended
unfolding join first_existing possible_paths
main host =
    if is_one (host.var (codes "OOM_WATCHER_SKIP_EBPF"))
    then skipped
    else or_end (host.var (codes "CARGO_FEATURE_EBPF")) disabled (enabled host)
