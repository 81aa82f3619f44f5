-- ===== src/BuildScript/Copied.antt =====
-- oom-watcher/build.rs: when an object is copied to where a release build embeds it from.
use ebpf_oom_watcher.Prelude.{
  ◌≡◌, ◌≢◌, refl, ap, sym, ◌∙◌, ◌↔◌, inl, inr, List, [], ◌∷◌, ◌++◌, Option, none, some, Bool, true,
  false, Text, codes, list_eq, nat_eq, All, Bool-cases, arith, if◌then◌else◌, Eq-cases,
}
use ebpf_oom_watcher.BuildScript.{
  join, Host, Ended, skipped, disabled, copied, panicked, first_existing, possible_paths, Command,
  build_command, copied_or_failed, copy_found, after_build, or_end, build_in, with_manifest_dir,
  with_out_dir, enabled, is_one, main, no_out_dir, no_manifest_dir, no_parent,
}

-- The path exists and none before it does.
abbrev IsFirst : (Text → Bool) → Text → List Text → Type 0
IsFirst exists path paths =
    (before : List Text) × (after : List Text) × (paths ≡ before ++ (path ∷ after))
    × All (λ p. exists p ≡ false) before
    × (exists path ≡ true)

first_existing-IsFirst :
    (exists : Text → Bool) (paths : List Text) (path : Text)
    → first_existing exists paths ≡ some path
    → IsFirst exists path paths
unfolding first_existing
first_existing-IsFirst exists [] path h = absurd (cc)
first_existing-IsFirst exists (p ∷ ps) path h = elim (Bool-cases (exists p)) [
  | inl e ↦ ([], ps, ap (λ w. w ∷ ps) (ground arith), tt, ground arith)
  | inr e ↦
      let (before, after, same, absent, there) =
        first_existing-IsFirst exists ps path (ground arith) in
      (p ∷ before, after, ap (λ xs. p ∷ xs) same, (e, absent), there)
]

IsFirst-first_existing :
    (exists : Text → Bool) (path : Text) (before after : List Text)
    → All (λ p. exists p ≡ false) before
    → exists path ≡ true
    → first_existing exists (before ++ (path ∷ after)) ≡ some path
unfolding first_existing
IsFirst-first_existing exists path [] after h there = rw there refl
IsFirst-first_existing exists path (p ∷ before) after (e, h) there =
    rw e (IsFirst-first_existing exists path before after h there)

-- What comes of the candidates once cargo has succeeded: the first of the three places that exists is
-- copied to the object in OUT_DIR.
abbrev pub IsPlaced : Host → Text → Text → Text → Text → Type 0
IsPlaced host out_dir workspace_root from to =
    IsFirst host.exists from (
      join (join workspace_root (codes "target/ebpf-subbuild"))
        (codes "bpfel-unknown-none/release/oom-watcher-ebpf")
      ∷ codes "../target/ebpf-subbuild/bpfel-unknown-none/release/oom-watcher-ebpf"
      ∷ codes "target/ebpf-subbuild/bpfel-unknown-none/release/oom-watcher-ebpf"
      ∷ [])
    × (to ≡ join out_dir (codes "oom-watcher-ebpf-object"))
    × (host.copy from to ≡ true)

-- A release build of the probe's package for the BPF target, by a nightly cargo in the workspace, into
-- a target directory of its own and without what the outer build has set for its compiler.
abbrev pub IsProbeBuild : Text → Command → Type 0
IsProbeBuild workspace_root command =
    (command.program ≡ codes "cargo")
    × (command.current_dir ≡ workspace_root)
    × (command.env_removed
        ≡ codes "LD_LIBRARY_PATH" ∷ codes "RUSTC" ∷ codes "RUSTUP_TOOLCHAIN" ∷ [])
    × (command.args
        ≡ codes "+nightly"
          ∷ codes "build"
          ∷ codes "--release"
          ∷ codes "--package"
          ∷ codes "oom-watcher-ebpf"
          ∷ codes "--target"
          ∷ codes "bpfel-unknown-none"
          ∷ codes "--target-dir"
          ∷ join workspace_root (codes "target/ebpf-subbuild")
          ∷ codes "-Z"
          ∷ codes "build-std=core"
          ∷ [])

build_command-only :
    (workspace_root : Text) (command : Command)
    → IsProbeBuild workspace_root command
    → command ≡ build_command workspace_root
build_command-only workspace_root command (program, dir, removed, args) =
    λ i. record { program = program i; env_removed = removed i; args = args i; current_dir = dir i }

is_one_iff : (o : Option Text) → (is_one o ≡ false) ↔ (o ≢ some (codes "1"))
is_one_iff none = (λ h e. absurd (cc), λ h. refl)
is_one_iff (some text) = elim (Eq-cases text (codes "1")) [
  | inl (p, h) ↦ (λ q. absurd (cc), λ other. absurd (other (ap some p)))
  | inr (n, h) ↦ (λ q e. n (ground arith), λ other. h)
]

copied_or_failed_iff :
    (b : Bool) (x y from to : Text)
    → (copied_or_failed b x y ≡ copied from to) ↔ ((b ≡ true) × (x ≡ from) × (y ≡ to))
copied_or_failed_iff true x y from to = ground arith
copied_or_failed_iff false x y from to = ground arith

copy_found_iff :
    (host : Host) (out_dir : Text) (found : Option Text) (from to : Text)
    → (copy_found host out_dir found ≡ copied from to) ↔ (
        (found ≡ some from)
        × (to ≡ join out_dir (codes "oom-watcher-ebpf-object"))
        × (host.copy from to ≡ true))
copy_found_iff host out_dir none from to = ground arith
copy_found_iff host out_dir (some path) from to =
    let target = join out_dir (codes "oom-watcher-ebpf-object") in
    let (f, g) = copied_or_failed_iff (host.copy path target) path target from to in
    (
      λ h.
          let (c, e, t) = f h in
          (
            ap some e,
            sym t,
            ap (host.copy from) (sym t) ∙ ap (λ p. host.copy p target) (sym e) ∙ c,
          ),
      λ (e, t, c).
          let same : path ≡ from = ground arith in
          g (ap (λ p. host.copy p target) same ∙ ap (host.copy from) (sym t) ∙ c, same, sym t),
    )

after_build-copied_iff :
    (host : Host) (out_dir root : Text) (output : Option Bool) (from to : Text)
    → (after_build host out_dir root output ≡ copied from to)
      ↔ ((output ≡ some true) × IsPlaced host out_dir root from to)
unfolding possible_paths
after_build-copied_iff host out_dir root none from to = (λ h. absurd (cc), λ (h, p). absurd (cc))
after_build-copied_iff host out_dir root (some false) from to =
    (λ h. absurd (cc), λ (h, p). absurd (ground arith))
after_build-copied_iff host out_dir root (some true) from to =
    let paths = possible_paths (join root (codes "target/ebpf-subbuild")) in
    let (f, g) = copy_found_iff host out_dir (first_existing host.exists paths) from to in
    (
      λ h.
          let (found, at, done) = f h in
          (refl, (first_existing-IsFirst host.exists paths from found, at, done)),
      λ (h, placed).
          let ((before, after, same, absent, there), at, done) = placed in
          g (
            ap (first_existing host.exists) same
                ∙ IsFirst-first_existing host.exists from before after absent there,
            at,
            done,
          ),
    )

or_end_iff :
    (o : Option Text) (ended : Ended) (next : Text → Ended) (from to : Text)
    → ended ≢ copied from to
    → (or_end o ended next ≡ copied from to)
      ↔ ((x : Text) × (o ≡ some x) × (next x ≡ copied from to))
or_end_iff none ended next from to other = (λ h. absurd (other h), λ (x, e, h). absurd (cc))
or_end_iff (some y) ended next from to other =
    (λ h. (y, refl, h), λ (x, e, h). let same : y ≡ x = ground arith in ap next same ∙ h)

unless_skipped_iff :
    (skip : Bool) (rest : Ended) (from to : Text)
    → ((if skip then skipped else rest) ≡ copied from to)
      ↔ ((skip ≡ false) × (rest ≡ copied from to))
unless_skipped_iff true rest from to = (λ h. absurd (cc), λ (e, h). absurd (cc))
unless_skipped_iff false rest from to = (λ h. (refl, h), λ (e, h). h)

-- The script copies an object into OUT_DIR exactly if the build is not to be skipped, has the feature,
-- names its directories, and a nightly cargo, run in the workspace without the variables of the outer
-- build, has built the release of the package oom-watcher-ebpf for bpfel-unknown-none into
-- target/ebpf-subbuild; the object is then the first of the three candidates that exists, and the
-- copy of it to oom-watcher-ebpf-object has succeeded.
pub main-copied_iff :
    (host : Host) (from to : Text)
    → (main host ≡ copied from to) ↔ (
        (feature : Text) × (out_dir : Text) × (manifest_dir : Text) × (workspace_root : Text)
        × (command : Command) × (host.var (codes "OOM_WATCHER_SKIP_EBPF") ≢ some (codes "1"))
        × (host.var (codes "CARGO_FEATURE_EBPF") ≡ some feature)
        × (host.var (codes "OUT_DIR") ≡ some out_dir)
        × (host.var (codes "CARGO_MANIFEST_DIR") ≡ some manifest_dir)
        × (host.parent manifest_dir ≡ some workspace_root)
        × IsProbeBuild workspace_root command
        × (host.output command ≡ some true)
        × IsPlaced host out_dir workspace_root from to)
unfolding main
main-copied_iff host from to =
    let skip = host.var (codes "OOM_WATCHER_SKIP_EBPF") in
    let feature = host.var (codes "CARGO_FEATURE_EBPF") in
    let out = host.var (codes "OUT_DIR") in
    let manifest = host.var (codes "CARGO_MANIFEST_DIR") in
    let whole = or_end feature disabled (enabled host) in
    let (a, a_of) = unless_skipped_iff (is_one skip) whole from to in
    let (b, b_of) = or_end_iff feature disabled (enabled host) from to (λ h. absurd (cc)) in
    let (c, c_of) =
      or_end_iff out (panicked no_out_dir) (with_out_dir host) from to (λ h. absurd (cc)) in
    (
      λ h.
          let (unskipped, on) = a h in
          let (f, feature_is, then_out) = b on in
          let (o, out_is, then_manifest) = c then_out in
          let (m, manifest_is, then_parent) =
            (or_end_iff manifest (panicked no_manifest_dir) (with_manifest_dir host o) from to
                (λ h. absurd (cc))).0
              then_manifest in
          let (r, root_is, then_build) =
            (or_end_iff (host.parent m) (panicked no_parent) (build_in host o) from to
                (λ h. absurd (cc))).0
              then_parent in
          let (success, placed) =
            (after_build-copied_iff host o r (host.output (build_command r)) from to).0
              then_build in
          (
            f,
            o,
            m,
            r,
            build_command r,
            (is_one_iff skip).0 unskipped,
            feature_is,
            out_is,
            manifest_is,
            root_is,
            (refl, refl, refl, refl),
            success,
            placed,
          ),
      λ (f, o, m, r, k, other, feature_is, out_is, manifest_is, root_is, probe, output, placed).
          let unskipped = (is_one_iff skip).1 other in
          let success = ap host.output (sym (build_command-only r k probe)) ∙ output in
          let built =
            (after_build-copied_iff host o r (host.output (build_command r)) from to).1
              (success, placed) in
          let in_parent =
            (or_end_iff (host.parent m) (panicked no_parent) (build_in host o) from to
                (λ h. absurd (cc))).1
              (r, root_is, built) in
          let in_manifest =
            (or_end_iff manifest (panicked no_manifest_dir) (with_manifest_dir host o) from to
                (λ h. absurd (cc))).1
              (m, manifest_is, in_parent) in
          a_of (unskipped, b_of (f, feature_is, c_of (o, out_is, in_manifest))),
    )
