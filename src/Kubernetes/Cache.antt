-- ===== src/Kubernetes/Cache.antt =====
-- oom-watcher/src/kubernetes.rs, `PodCache` and `KubernetesClient`: lookups in the mirrored pods.
use ebpf_oom_watcher.Prelude.{
  ℕ, ◌≡◌, ◌⊎◌, inl, inr, List, ◌++◌, Option, none, some, Text, Option-cases, codes, refl,
}
use ebpf_oom_watcher.Prelude.Decimal.{show}
use ebpf_oom_watcher.Common.{ContainerIdentity}
use ebpf_oom_watcher.Resolve.{
  Error, cgroup_unreadable, cache_stopped, cache_unsynced, ResolutionOutcome, ContainerResolver,
}
use ebpf_oom_watcher.Kubernetes.Pods.Matching.{IsIdentity, identity_from_pods-IsIdentity}
use ebpf_oom_watcher.Kubernetes.Cgroup.{Regex, extract_container_id}
use ebpf_oom_watcher.Kubernetes.Pods.{Pod, identity_from_pods}

-- Events of `kube::runtime::watcher`.
pub data Event (P : Type 0) : Type 0 where
  apply : P → Event P
  delete : P → Event P
  init : Event P
  init_apply : P → Event P
  init_done : Event P

-- One poll of `store.wait_until_ready()`.
pub data Latch : Type 0 where
  ready : Latch
  writer_dropped : Text → Latch
  pending : Latch

-- `kube::runtime::reflector::Store`, which the program only calls: its pods, and its latch.
pub record Store (P S : Type 0) : Type 0 where
  pub state : S → List P
  pub latch : S → Latch

-- `std::fs::read_to_string` of a path under `/proc`: its text, or the error's kind.
pub data Read : Type 0 where
  content : Text → Read
  missing : Read
  refused : Text → Read

pub data Result {ℓ} (A : Type ℓ) : Type ℓ where
  ok : A → Result A
  err : Error → Result A

infixl 5 ◌>>=◌ ◌>>◌
abbrev pub ◌>>=◌ {ℓ κ} : {A : Type ℓ} {B : Type κ} → Result A → (A → Result B) → Result B
err e >>= f = err e
ok a >>= f = f a

abbrev pub ◌>>◌ {ℓ} : {B : Type ℓ} → Result (Unit {0}) → Result B → Result B
first >> rest = first >>= λ _. rest

-- What a lookup reads: the file system and the store.
pub record World (S : Type 0) : Type 0 where
  pub read_to_string : Text → Read
  pub store : S

unfoldable pub cgroup_path : ℕ → Text
cgroup_path pid = codes "/proc/" ++ (show pid ++ codes "/cgroup")

-- The arms of `resolve`.
abbrev outcome_of : Result (Option ContainerIdentity) → ResolutionOutcome
outcome_of (ok (some identity)) = ResolutionOutcome.found identity
outcome_of (ok none) = ResolutionOutcome.not_found
outcome_of (err e) = ResolutionOutcome.failed e

-- Where the kernel has the cgroups of a process.
abbrev pub cgroup_of : ℕ → Text
cgroup_of pid = codes "/proc/" ++ (show pid ++ codes "/cgroup")

module _ {Opaque S : Type 0} (store : Store (Pod Opaque) S)
    (captures : Regex → Text → Option (Option Text)) where
  abbrev latch_result : Latch → Result (Unit {0})
  latch_result ready = ok tt
  latch_result (writer_dropped e) = err (cache_stopped e)
  latch_result pending = err cache_unsynced

  unfoldable pub ensure_synced : S → Result (Unit {0})
  ensure_synced s = latch_result (store.latch s)

  -- `PodCache::identity_of`, without its log line.
  unfoldable pub identity_of : S → Text → Result (Option ContainerIdentity)
  unfolding ensure_synced
  identity_of s container_id = do
    ensure_synced s
    ok (identity_from_pods (store.state s) container_id)

  abbrev id_of_read : Read → Result (Option Text)
  id_of_read (content text) = ok (extract_container_id captures text)
  id_of_read missing = ok none
  id_of_read (refused e) = err (cgroup_unreadable e)

  unfoldable pub get_container_id_from_pid : World S → ℕ → Result (Option Text)
  get_container_id_from_pid w pid = id_of_read (w.read_to_string (cgroup_path pid))

  abbrev lookup_id : S → Option Text → Result (Option ContainerIdentity)
  lookup_id s none = ok none
  lookup_id s (some container_id) = identity_of s container_id

  unfoldable pub get_container_info : World S → ℕ → Result (Option ContainerIdentity)
  unfolding get_container_id_from_pid identity_of
  get_container_info w pid = do
    container_id ← get_container_id_from_pid w pid
    lookup_id w.store container_id

  -- `impl ContainerResolver for KubernetesClient`.
  unfoldable pub resolve : World S → ℕ → ResolutionOutcome
  unfolding get_container_info
  resolve w pid = outcome_of (get_container_info w pid)

  abbrev pub kubernetes_client : Text → ContainerResolver (World S)
  kubernetes_client node_name = record { node_name = node_name; resolve = resolve }

  -- What each outcome says of the world.
  abbrev pub IsResolved : World S → ℕ → ResolutionOutcome → Type 0
  IsResolved w pid (ResolutionOutcome.found identity) =
      (text : Text) × (id : Text) × (w.read_to_string (cgroup_of pid) ≡ content text)
      × (extract_container_id captures text ≡ some id)
      × (store.latch w.store ≡ ready)
      × (identity_from_pods (store.state w.store) id ≡ some identity)
      × IsIdentity (store.state w.store) id (some identity)
  IsResolved w pid ResolutionOutcome.not_found =
      (w.read_to_string (cgroup_of pid) ≡ missing)
      ⊎ ((text : Text) × (w.read_to_string (cgroup_of pid) ≡ content text)
          × (extract_container_id captures text ≡ none))
      ⊎ ((text : Text) × (id : Text) × (w.read_to_string (cgroup_of pid) ≡ content text)
          × (extract_container_id captures text ≡ some id)
          × (store.latch w.store ≡ ready)
          × (identity_from_pods (store.state w.store) id ≡ none)
          × IsIdentity (store.state w.store) id none)
  IsResolved w pid (ResolutionOutcome.failed e) =
      ((why : Text) × (w.read_to_string (cgroup_of pid) ≡ refused why)
        × (e ≡ cgroup_unreadable why))
      ⊎ ((store.latch w.store ≡ pending) × (e ≡ cache_unsynced))
      ⊎ ((why : Text) × (store.latch w.store ≡ writer_dropped why) × (e ≡ cache_stopped why))

  resolve-content :
      (w : World S) (pid : ℕ) (text : Text) (latch : Latch) (id : Option Text)
      → w.read_to_string (cgroup_path pid) ≡ content text
      → extract_container_id captures text ≡ id
      → store.latch w.store ≡ latch
      → IsResolved w pid (resolve w pid)
  unfolding resolve cgroup_path
  resolve-content w pid text latch none read extracted l =
      rw (read, extracted) (inr (inl (text, read, extracted)))
  resolve-content w pid text pending (some id) read extracted l =
      rw (read, extracted, l) (inr (inl (l, refl)))
  resolve-content w pid text (writer_dropped why) (some id) read extracted l =
      rw (read, extracted, l) (inr (inr (why, l, refl)))
  resolve-content w pid text ready (some id) read extracted l =
      elim (Option-cases (identity_from_pods (store.state w.store) id)) [
        | inl absent ↦
            rw (read, extracted, l, absent)
              (inr (
                inr (
                  text,
                  id,
                  read,
                  extracted,
                  l,
                  absent,
                  rw absent at (identity_from_pods-IsIdentity (store.state w.store) id),
                )))
        | inr (found, there) ↦
            rw (read, extracted, l, there)
              (
                text,
                id,
                read,
                extracted,
                l,
                there,
                rw there at (identity_from_pods-IsIdentity (store.state w.store) id),
              )
      ]

  resolve-read :
      (w : World S) (pid : ℕ) (read : Read)
      → w.read_to_string (cgroup_path pid) ≡ read
      → IsResolved w pid (resolve w pid)
  unfolding resolve cgroup_path
  resolve-read w pid (content text) e =
      resolve-content w pid text (store.latch w.store) (extract_container_id captures text) e refl
        refl
  resolve-read w pid missing e = rw e (inl e)
  resolve-read w pid (refused why) e = rw e (inl (why, e, refl))

  -- Every answer says what the world was. `Found` is the identity that the synced cache has for the
  -- id in the process' cgroup file, read off a container that runs under the id, or, if none does,
  -- off one that terminated last under it. `NotFound` is only ever the benign case: no cgroup file,
  -- none with an id, or a synced cache where no container has the id. An unreadable cgroup file, a cache
  -- that has not synced and one that is no longer fed are `Failed`, each with its own error.
  pub resolve-IsResolved : (w : World S) (pid : ℕ) → IsResolved w pid (resolve w pid)
  unfolding cgroup_path
  resolve-IsResolved w pid = resolve-read w pid (w.read_to_string (cgroup_path pid)) refl
