-- ===== src/Kubernetes/Pods/Matching.antt =====
-- oom-watcher/src/kubernetes.rs, `identity_from_pods`: what it finds, and when it finds nothing.
use ebpf_oom_watcher.Prelude.{
  ◌≡◌, refl, ◌↔◌, ◌⊎◌, inl, inr, true, List, [], ◌∷◌, ◌++◌, Option, none, some, arith, Text, codes,
  find_map, ends_with-contains, contains-append, contains-eq-true, In, find_map-eq-some,
  find_map-eq-none, Option-cases, map,
}
use ebpf_oom_watcher.Common.{ContainerIdentity}
use ebpf_oom_watcher.Kubernetes.Pods.{
  ContainerStatus, Pod, running_container_id, terminated_container_id, names_container,
  match_status, identity_of_match, match_pod, match_container, identity_from_pods, prune_for_cache,
  and_then, unwrap_or,
}

-- A reported id names the container exactly if it holds the bare id somewhere; that it may end
-- with it adds nothing.
names_container_iff :
    (reported id : Text)
    → (names_container reported id ≡ true) ↔ ((a : Text) × (b : Text) × (reported ≡ a ++ (id ++ b)))
unfolding names_container
names_container_iff reported id = (
  λ h. contains-eq-true id reported (ground (arith, ends_with-contains id reported)),
  λ (a, b, e). rw e (ground (arith, contains-append id a b)),
)

match_status-eq-some :
    (id : Text) (candidate : ContainerStatus → Option Text) (s : ContainerStatus)
    (hit : ContainerStatus × Text)
    → match_status id candidate s ≡ some hit
    → (s ≡ hit.0) × (candidate s ≡ some hit.1) × (names_container hit.1 id ≡ true)
unfolding match_status
match_status-eq-some id candidate s (t, full) h = ground arith

-- The id under which a container runs, and the one under which it terminated last.
abbrev pub runs_as : ContainerStatus → Option Text
runs_as status = status.container_id

abbrev pub ended_as : ContainerStatus → Option Text
ended_as status = and_then status.last_state (λ state. and_then state (λ terminated. terminated))

module _ {Opaque : Type 0} where
  -- A status of a listed pod whose candidate id holds the bare id somewhere, and the identity that is
  -- read off the two, the candidate id carried verbatim.
  pub record IsMatch (candidate : ContainerStatus → Option Text) (pods : List (Pod Opaque))
      (id : Text) (found : ContainerIdentity) : Type 0 where
    pub pod : Pod Opaque
    pub statuses : List ContainerStatus
    pub status : ContainerStatus
    pub full : Text
    pub listed : In pod pods
    pub reported : pod.status ≡ some (some statuses)
    pub held : In status statuses
    pub candidate_id : candidate status ≡ some full
    pub around : (a : Text) × (b : Text) × (full ≡ a ++ (id ++ b))
    pub identity : found ≡ record {
      namespace = unwrap_or pod.metadata.namespace (codes "default");
      pod_name = unwrap_or pod.metadata.name (codes "unknown");
      container_name = status.name;
      container_id = full;
      image_id = status.image_id;
    }

  match_pod-IsMatch :
      (pods : List (Pod Opaque)) (pod : Pod Opaque) (id : Text)
      (candidate : ContainerStatus → Option Text) (found : ContainerIdentity)
      → In pod pods
      → match_pod id candidate pod ≡ some found
      → IsMatch candidate pods id found
  unfolding match_pod identity_of_match
  match_pod-IsMatch pods pod id candidate found listed h = elim (Option-cases pod.status) [
    | inl e ↦ absurd (ground arith)
    | inr (st, e) ↦ elim (Option-cases st) [
      | inl g ↦ absurd (ground arith)
      | inr (statuses, g) ↦ elim (Option-cases (find_map (match_status id candidate) statuses)) [
        | inl q ↦ absurd (ground arith)
        | inr (hit, q) ↦
            let (status, held, m) = find_map-eq-some (match_status id candidate) statuses hit q in
            let (same, full, names) = match_status-eq-some id candidate status hit m in
            record {
              pod = pod;
              statuses = statuses;
              status = status;
              full = hit.1;
              listed = listed;
              reported = ground arith;
              held = held;
              candidate_id = full;
              around = (names_container_iff hit.1 id).0 names;
              identity = ground arith;
            }
      ]
    ]
  ]

  match_container-IsMatch :
      (pods : List (Pod Opaque)) (id : Text) (candidate : ContainerStatus → Option Text)
      (found : ContainerIdentity)
      → match_container pods id candidate ≡ some found
      → IsMatch candidate pods id found
  unfolding match_container
  match_container-IsMatch pods id candidate found h =
      let (pod, listed, e) = find_map-eq-some (match_pod id candidate) pods found h in
      match_pod-IsMatch pods pod id candidate found listed e

  -- A pass that finds nothing has no match to find.
  match_container-none :
      (pods : List (Pod Opaque)) (id : Text) (candidate : ContainerStatus → Option Text)
      (found : ContainerIdentity)
      → match_container pods id candidate ≡ none
      → ¬ IsMatch candidate pods id found
  unfolding match_container match_pod match_status
  match_container-none pods id candidate found h m =
      let nothing = find_map-eq-none (match_pod id candidate) pods m.pod h m.listed in
      let searched : find_map (match_status id candidate) m.statuses ≡ none =
        elim (Option-cases (find_map (match_status id candidate) m.statuses)) [
          | inl q ↦ q
          | inr (hit, q) ↦ absurd (ground (arith, m.reported))
        ] in
      let missed =
        find_map-eq-none (match_status id candidate) m.statuses m.status searched m.held in
      let named = (names_container_iff m.full id).1 m.around in
      ground (arith, m.candidate_id, named)

  -- The running container wins: if the running id of some container on the node names the bare id,
  -- the identity that is found is that of such a container.
  identity_from_pods-running :
      (pods : List (Pod Opaque)) (id : Text) (other found : ContainerIdentity)
      → IsMatch running_container_id pods id other
      → identity_from_pods pods id ≡ some found
      → IsMatch running_container_id pods id found
  unfolding identity_from_pods
  identity_from_pods-running pods id other found m h =
      elim (Option-cases (match_container pods id running_container_id)) [
        | inl e ↦ absurd (match_container-none pods id running_container_id other e m)
        | inr (x, e) ↦ match_container-IsMatch pods id running_container_id found (ground arith)
      ]

  -- An identity is only ever read off one status of one pod on the node: its running or its last
  -- terminated id names the bare id, and is carried verbatim.
  identity_from_pods_sound :
      (pods : List (Pod Opaque)) (id : Text) (found : ContainerIdentity)
      → identity_from_pods pods id ≡ some found
      → IsMatch running_container_id pods id found ⊎ IsMatch terminated_container_id pods id found
  unfolding identity_from_pods
  identity_from_pods_sound pods id found h =
      elim (Option-cases (match_container pods id running_container_id)) [
        | inl e ↦ inr (match_container-IsMatch pods id terminated_container_id found (ground arith))
        | inr (x, e) ↦
            inl (match_container-IsMatch pods id running_container_id found (ground arith))
      ]

  -- What a search for a bare id owes: a container that runs under it; if none does, one whose last
  -- termination was under it; nothing if there is neither.
  abbrev pub IsIdentity : List (Pod Opaque) → Text → Option ContainerIdentity → Type 0
  IsIdentity pods id none =
      (other : ContainerIdentity)
      → ¬ (IsMatch runs_as pods id other ⊎ IsMatch ended_as pods id other)
  IsIdentity pods id (some found) =
      IsMatch runs_as pods id found
      ⊎ (IsMatch ended_as pods id found
          × ((other : ContainerIdentity) → ¬ (IsMatch runs_as pods id other)))

  identity_from_pods-preferred :
      (pods : List (Pod Opaque)) (id : Text) (found : ContainerIdentity)
      → identity_from_pods pods id ≡ some found
      → IsIdentity pods id (some found)
  unfolding identity_from_pods running_container_id terminated_container_id
  identity_from_pods-preferred pods id found h =
      elim (Option-cases (match_container pods id running_container_id)) [
        | inl e ↦ inr (
          match_container-IsMatch pods id terminated_container_id found (ground arith),
          λ other. match_container-none pods id running_container_id other e,
        )
        | inr (x, e) ↦
            inl (match_container-IsMatch pods id running_container_id found (ground arith))
      ]

  -- Nothing is found only if no status of any pod on the node, running or terminated, names the id.
  identity_from_pods_complete :
      (pods : List (Pod Opaque)) (id : Text) (found : ContainerIdentity)
      → identity_from_pods pods id ≡ none
      → ¬ (
          IsMatch running_container_id pods id found
          ⊎ IsMatch terminated_container_id pods id found)
  unfolding identity_from_pods
  identity_from_pods_complete pods id found h (inl m) =
      match_container-none pods id running_container_id found (ground arith) m
  identity_from_pods_complete pods id found h (inr m) =
      match_container-none pods id terminated_container_id found (ground arith) m

  -- The answer is read off one status of one pod on the node whose id holds the bare id: its namespace,
  -- pod and container name and image, and that id, carried verbatim; of a container that runs under the
  -- bare id if there is one, and only else of one that terminated last under it. Nothing is found only
  -- if no status holds it, running or terminated.
  pub identity_from_pods-IsIdentity :
      (pods : List (Pod Opaque)) (id : Text) → IsIdentity pods id (identity_from_pods pods id)
  unfolding running_container_id terminated_container_id
  identity_from_pods-IsIdentity pods id = elim (Option-cases (identity_from_pods pods id)) [
    | inl e ↦ rw e (λ other. identity_from_pods_complete pods id other e)
    | inr (found, e) ↦ rw e (identity_from_pods-preferred pods id found e)
  ]

  match_pod-prune :
      (id : Text) (candidate : ContainerStatus → Option Text) (pod : Pod Opaque)
      → match_pod id candidate (prune_for_cache pod) ≡ match_pod id candidate pod
  unfolding match_pod prune_for_cache identity_of_match
  match_pod-prune id candidate pod = refl

  match_container-prune :
      (pods : List (Pod Opaque)) (id : Text) (candidate : ContainerStatus → Option Text)
      → match_container (map prune_for_cache pods) id candidate ≡ match_container pods id candidate
  unfolding match_container find_map
  match_container-prune [] id candidate = refl
  match_container-prune (pod ∷ pods) id candidate =
      rw (match_pod-prune id candidate pod, match_container-prune pods id candidate)

  -- The memory trim is invisible to resolution: pruned pods give the identity that full ones do.
  pub identity_from_pods-prune :
      (pods : List (Pod Opaque)) (id : Text)
      → identity_from_pods (map prune_for_cache pods) id ≡ identity_from_pods pods id
  unfolding identity_from_pods
  identity_from_pods-prune pods id = rw (
    match_container-prune pods id running_container_id,
    match_container-prune pods id terminated_container_id,
  )
