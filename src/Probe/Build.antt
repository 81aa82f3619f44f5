-- ===== src/Probe/Build.antt =====
-- oom-watcher-ebpf/build.rs: the build script of the probe. The `which` crate, the environment and
-- the file system are parameters.
use ebpf_oom_watcher.Prelude.{
  ◌≡◌, refl, inl, inr, List, [], ◌∷◌, ◌++◌, Option, none, some, Bool, true, false, Text, codes,
  arith, Option-cases, Bool-cases, In,
}
use ebpf_oom_watcher.BuildScript.{join}

-- `which` gives a path, and `to_str` its text if it is UTF-8; `write` says whether it succeeded.
pub record Host (Found : Type 0) : Type 0 where
  pub which : Text → Option Found
  pub to_str : Found → Option Text
  pub var : Text → Option Text
  pub write : Text → Text → Bool

pub data Panic : Type 0 where
  not_utf8 no_out_dir : Panic
  write_failed : Text → Panic

-- What the script has printed for cargo when it ends, and how it ends: with a file written, or in a
-- panic.
pub data Ended : Type 0 where
  written : (printed : List Text) → (path : Text) → (contents : Text) → Ended
  panicked : (printed : List Text) → Panic → Ended

abbrev rerun_if_changed : Text → Text
rerun_if_changed path = codes "cargo:rerun-if-changed=" ++ path

abbrev bindings : Text
bindings = codes "// no bindings required\n"

abbrev written_or_failed : List Text → Text → Bool → Ended
written_or_failed printed path true = written printed path bindings
written_or_failed printed path false = panicked printed (write_failed path)

panicked-ne-written :
    (printed : List Text) (path contents : Text)
    → ¬ (panicked [] not_utf8 ≡ written printed path contents)
panicked-ne-written printed path contents h = cc

module _ {Found : Type 0} (host : Host Found) where
  abbrev write_bindings : List Text → Option Text → Ended
  write_bindings printed none = panicked printed no_out_dir
  write_bindings printed (some out_path) =
      let path = join out_path (codes "bindings.rs") in
      written_or_failed printed path (host.write path bindings)

  abbrev after_linker : List Text → Ended
  after_linker printed =
      write_bindings (printed ++ (rerun_if_changed (codes "minimal_oom.h") ∷ []))
        (host.var (codes "OUT_DIR"))

  abbrev print_linker : Option Text → Ended
  print_linker none = panicked [] not_utf8
  print_linker (some path) = after_linker (rerun_if_changed path ∷ [])

  abbrev with_linker : Option Found → Ended
  with_linker none = after_linker []
  with_linker (some bpf_linker) = print_linker (host.to_str bpf_linker)

  unfoldable pub main : Ended
  unfolding join
  main = with_linker (host.which (codes "bpf-linker"))

  write_bindings-written :
      (printed lines : List Text) (path contents : Text) (out : Option Text)
      → write_bindings printed out ≡ written lines path contents
      → (lines ≡ printed) × (contents ≡ bindings) × (host.write path contents ≡ true)
  write_bindings-written printed lines path contents none h = absurd (cc)
  write_bindings-written printed lines path contents (some out_path) h =
      elim (Bool-cases (host.write (join out_path (codes "bindings.rs")) bindings)) [
        | inl e ↦ ground arith
        | inr e ↦ absurd (ground arith)
      ]

  -- A script that ends without a panic has written the comment, and has cargo run it again when the
  -- header changes, and when the linker changes that it found.
  main-written :
      (printed : List Text) (path contents : Text)
      → main ≡ written printed path contents
      → (contents ≡ bindings)
        × (host.write path contents ≡ true)
        × In (rerun_if_changed (codes "minimal_oom.h")) printed
        × ((p : Found)
            → host.which (codes "bpf-linker") ≡ some p
            → (linker : Text) × (host.to_str p ≡ some linker)
              × In (rerun_if_changed linker) printed)
  unfolding main
  main-written printed path contents h = go (host.which (codes "bpf-linker")) refl h
    where
      go :
          (found : Option Found)
          → host.which (codes "bpf-linker") ≡ found
          → with_linker found ≡ written printed path contents
          → (contents ≡ bindings)
            × (host.write path contents ≡ true)
            × In (rerun_if_changed (codes "minimal_oom.h")) printed
            × ((p : Found)
                → found ≡ some p
                → (linker : Text) × (host.to_str p ≡ some linker)
                  × In (rerun_if_changed linker) printed)
      go none e h =
          let (lines, text, done) =
            write_bindings-written (rerun_if_changed (codes "minimal_oom.h") ∷ []) printed path
              contents (host.var (codes "OUT_DIR")) h in
          (text, done, rw lines (inl refl), λ p e. absurd (cc))
      go (some p) e h = elim (Option-cases (host.to_str p)) [
        | inl no_text ↦ absurd (panicked-ne-written printed path contents (rw no_text at h))
        | inr (linker, is_text) ↦
            let (lines, text, done) =
              write_bindings-written
                (rerun_if_changed linker ∷ rerun_if_changed (codes "minimal_oom.h") ∷ []) printed
                path contents (host.var (codes "OUT_DIR")) (rw is_text at h) in
            (
              text,
              done,
              rw lines (inr (inl refl)),
              λ q same. (linker, ground arith, rw lines (inl refl)),
            )
      ]
