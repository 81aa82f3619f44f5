-- ===== src/Program/Together/Attribution.antt =====
-- oom-watcher/src/main.rs with the client of oom-watcher/src/kubernetes.rs: a container is counted for
-- only if it was resolved to.
use ebpf_oom_watcher.Prelude.{
  ℕ, ◌≡◌, refl, ap, sym, ◌∙◌, inl, inr, List, [], ◌∷◌, Option, none, some, Text, arith, In, foldl,
  ◌==◌, Bool-cases,
}
use ebpf_oom_watcher.Resolve.{ResolutionOutcome, ContainerResolver, identity}
use ebpf_oom_watcher.Prometheus.{MetricVec}
use ebpf_oom_watcher.Metrics.Key.{SeriesKey, key_eq, labels}
use ebpf_oom_watcher.Metrics.Collector.{MetricsCollector, new}
use ebpf_oom_watcher.Metrics.Invariant.{new-IsTracked}
use ebpf_oom_watcher.Metrics.Life.{Life, sweep_life, life_of}
use ebpf_oom_watcher.Kubernetes.Pods.{Pod}
use ebpf_oom_watcher.Kubernetes.Cgroup.{Regex}
use ebpf_oom_watcher.Kubernetes.Cache.{
  Store, World, resolve, kubernetes_client, IsResolved, resolve-IsResolved,
}
use ebpf_oom_watcher.Watch.{OomEventSource, Loop}
use ebpf_oom_watcher.Watch.Spec.{Taken}
use ebpf_oom_watcher.Program.Together.{
  Act, Happening, took, swept, deleted, key_for, names, happenings, live_through, run_acts,
}
use ebpf_oom_watcher.Program.Together.Lives.{run_acts-life}

module _ {W : Type 0} (ttl : ℕ) (resolver : Option (ContainerResolver W)) (k : SeriesKey) where
  -- A counter that is there at the end, and was not at the start, has been made by a kill.
  kills-took :
      (hs : List (Happening W)) (l : Life) (n : ℕ)
      → l.kills ≡ none
      → (foldl (live_through ttl resolver k) l hs).kills ≡ some n
      → (t : Taken W) × In (took t) hs × (names resolver t.world t.raw ≡ k)
  kills-took [] l n absent shown = absurd (ground arith)
  kills-took (took t ∷ hs) l n absent shown =
      elim (Bool-cases (names resolver t.world t.raw == k)) [
        | inl e ↦ (t, inl refl, (key_eq.eq_iff (names resolver t.world t.raw) k).0 e)
        | inr e ↦
            let (u, m, named) = kills-took hs l n absent (rw (e, foldl) at shown) in
            (u, inr m, named)
      ]
  kills-took (swept now ∷ hs) l n absent shown =
      let (t, m, named) = kills-took hs (sweep_life now ttl l) n (ground arith) shown in
      (t, inr m, named)
  kills-took (deleted namespace pod now ∷ hs) l n absent shown =
      let (t, m, named) =
        kills-took hs (live_through ttl resolver k l (deleted namespace pod now)) n (ground arith)
          shown in
      (t, inr m, named)

-- The resolver of a program that runs in a cluster.
abbrev pub in_cluster :
    {P S : Type 0}
    → Store (Pod P) S
    → (Regex → Text → Option (Option Text))
    → Text
    → Option (ContainerResolver (World S))
in_cluster store captures node = some (kubernetes_client store captures node)

module _ {P S Q B : Type 0} (vec : MetricVec) (ttl : ℕ) (source : OomEventSource Q)
    (store : Store (Pod P) S) (captures : Regex → Text → Option (Option Text)) (node : Text)
    (heartbeat : ℕ → B → B) where
  open vec use {value}

  -- From a new collector, whatever the order in which the three tasks get to it, a scrape shows a kill
  -- counter only if the loop has taken a kill whose labels, on the node of the client, are those of
  -- what the resolution of the process answered in the world of its turn: the container that the
  -- synced cache had for the id in the process' cgroup file, or `unknown` for each if the answer was
  -- that there is none, or an error; and the answer is true of that world.
  pub run_acts-IsResolved :
      (acts : List (Act (World S) P)) (s : Q) (b : B) (k : SeriesKey) (n : ℕ)
      → value
          (run_acts vec ttl source
            (in_cluster store captures node)
            heartbeat
            acts
            (record { source = s; recorder = new vec; pulse = b })).recorder.oom_kills_total
          (labels k)
        ≡ some n
      → (t : Taken (World S)) × (o : ResolutionOutcome) × In (took t) (happenings source acts s)
        × IsResolved store captures t.world t.raw.pid o
        × (k ≡ key_for node (identity o))
  unfolding new
  run_acts-IsResolved acts s b k n shown =
      let resolver = in_cluster store captures node in
      let start : Loop Q (MetricsCollector vec.Family) B = record {
        source = s;
        recorder = new vec;
        pulse = b;
      } in
      let lived =
        run_acts-life vec ttl source resolver heartbeat k acts start (new-IsTracked vec) in
      let (t, m, named) =
        kills-took ttl resolver k (happenings source acts s) (life_of vec k (new vec)) n
          (vec.value-create _ _ (labels k)) (sym (ap (λ (l : Life). l.kills) lived) ∙ shown) in
      (
        t,
        resolve store captures t.world t.raw.pid,
        m,
        resolve-IsResolved store captures t.world t.raw.pid,
        sym named,
      )
