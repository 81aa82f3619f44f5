-- ===== src/Kubernetes/Deletions.antt =====
-- oom-watcher/src/kubernetes.rs, the stream of `PodCache::spawn`, with the callback that main.rs
-- hands to it: deleted pods reach the collector. The list/watch and the store are kube's.
use ebpf_oom_watcher.Prelude.{
  ℕ, ◌≡◌, refl, ap, ◌∙◌, List, [], ◌∷◌, Option, none, some, Text, if◌then◌else◌, ◌==◌, nat_eq,
  list_eq, pair_eq,
}
use ebpf_oom_watcher.Prelude.HashMap.{get, get-insert}
use ebpf_oom_watcher.Prometheus.{MetricVec}
use ebpf_oom_watcher.Metrics.Collector.{
  MetricsCollector, note_pod_deleted, saturating_add, deleted_pod_grace_seconds,
}
use ebpf_oom_watcher.Kubernetes.Pods.{Pod, prune_for_cache}
use ebpf_oom_watcher.Kubernetes.Cache.{Event, apply, delete, init, init_apply, init_done}

-- What the stream yields: an event that the store has applied, or a watch error.
pub data Item (P : Type 0) : Type 0 where
  event : Event P → Item P
  watch_error : Text → Item P

-- `if let (Some(namespace), Some(name)) = …`
abbrev pub with_names {ℓ} : {R : Type ℓ} → Option Text → Option Text → (Text → Text → R) → R → R
with_names (some namespace) (some name) f other = f namespace name
with_names namespace name f other = other

module _ {Opaque : Type 0} where
  -- `modify(prune_for_cache)`: every pod in the stream is trimmed.
  abbrev pub trim : Item (Pod Opaque) → Item (Pod Opaque)
  trim (event (apply pod)) = event (apply (prune_for_cache pod))
  trim (event (delete pod)) = event (delete (prune_for_cache pod))
  trim (event (init_apply pod)) = event (init_apply (prune_for_cache pod))
  trim (event init) = event init
  trim (event init_done) = event init_done
  trim (watch_error e) = watch_error e

  -- The closure of `for_each`, without its log lines.
  unfoldable pub for_each : {R : Type 0} → (Text → Text → R → R) → Item (Pod Opaque) → R → R
  for_each on_pod_deleted (event (delete pod)) r =
      with_names pod.metadata.namespace pod.metadata.name
        (λ namespace name. on_pod_deleted namespace name r) r
  for_each on_pod_deleted (event (apply pod)) r = r
  for_each on_pod_deleted (event init) r = r
  for_each on_pod_deleted (event (init_apply pod)) r = r
  for_each on_pod_deleted (event init_done) r = r
  for_each on_pod_deleted (watch_error e) r = r

  module _ (vec : MetricVec) where
    open vec use {Family}

    -- The items with the clock's reading when each is handled.
    unfoldable pub watch_pods :
        List (ℕ × Item (Pod Opaque)) → MetricsCollector Family → MetricsCollector Family
    watch_pods [] c = c
    watch_pods ((now, item) ∷ items) c =
        watch_pods items
          (for_each (λ namespace name. note_pod_deleted vec namespace name now) (trim item) c)

    -- When the pod's series may go: 120 seconds after its last deletion in the stream.
    abbrev one_deadline : Text × Text → ℕ → Item (Pod Opaque) → Option ℕ → Option ℕ
    one_deadline key now (event (delete pod)) before =
        with_names pod.metadata.namespace pod.metadata.name
          (λ namespace name.
            if (namespace, name) == key
            then some (saturating_add now deleted_pod_grace_seconds)
            else before)
          before
    one_deadline key now item before = before

    abbrev pub deadline : Text × Text → List (ℕ × Item (Pod Opaque)) → Option ℕ → Option ℕ
    deadline key [] before = before
    deadline key ((now, item) ∷ items) before =
        deadline key items (one_deadline key now item before)

    for_each-one_deadline :
        (key : Text × Text) (now : ℕ) (item : Item (Pod Opaque)) (c : MetricsCollector Family)
        → get key
            (for_each
              (λ namespace name. note_pod_deleted vec namespace name now)
              (trim item)
              c).deleted_after
          ≡ one_deadline key now item (get key c.deleted_after)
    unfolding for_each prune_for_cache note_pod_deleted
    for_each-one_deadline key now (event (delete pod)) c =
        noted pod.metadata.namespace pod.metadata.name
      where
        noted :
            (namespace name : Option Text)
            → get key
                (with_names namespace name (λ n p. note_pod_deleted vec n p now c) c).deleted_after
              ≡ with_names namespace name
                  (λ n p.
                    if (n, p) == key
                    then some (saturating_add now deleted_pod_grace_seconds)
                    else get key c.deleted_after)
                  (get key c.deleted_after)
        noted (some n) (some p) =
            get-insert (n, p) key (saturating_add now deleted_pod_grace_seconds) c.deleted_after
        noted none name = refl
        noted (some n) none = refl
    for_each-one_deadline key now (event (apply pod)) c = refl
    for_each-one_deadline key now (event init) c = refl
    for_each-one_deadline key now (event (init_apply pod)) c = refl
    for_each-one_deadline key now (event init_done) c = refl
    for_each-one_deadline key now (watch_error e) c = refl

    -- After any stretch of the stream, relists and watch errors included, the collector has for a pod
    -- the deadline of its last deletion there, or the one it had if there is none; the trimming of
    -- the pods does not hide a name.
    pub watch_pods-deadline :
        (key : Text × Text) (items : List (ℕ × Item (Pod Opaque))) (c : MetricsCollector Family)
        → get key (watch_pods items c).deleted_after ≡ deadline key items (get key c.deleted_after)
    unfolding watch_pods
    watch_pods-deadline key [] c = refl
    watch_pods-deadline key ((now, item) ∷ items) c =
        let d =
          for_each (λ namespace name. note_pod_deleted vec namespace name now) (trim item) c in
        watch_pods-deadline key items d
        ∙ ap (deadline key items) (for_each-one_deadline key now item c)
