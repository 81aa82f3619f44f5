-- ===== src/UnitTests/Caches.antt =====
-- The tests of oom-watcher/src/kubernetes.rs that drive the cache, under any reflector that behaves as
-- documented, and its wait.
mod Reflectors
use ebpf_oom_watcher.Prelude.{
  ℕ, ◌≤◌, ap, arith, ◌≡◌, refl, ◌∙◌, List, [], ◌∷◌, Option, none, some, Text, if◌then◌else◌, ◌==◌,
  list_eq, nat_eq, eq_self,
}
use ebpf_oom_watcher.Common.{ContainerIdentity}
use ebpf_oom_watcher.Resolve.{Error, cache_unsynced}
use ebpf_oom_watcher.Kubernetes.Pods.{Pod, identity_from_pods, unwrap_or}
use ebpf_oom_watcher.Kubernetes.Cache.{
  Event, apply, delete, init, init_apply, init_done, Latch, ready, pending, Result, ok, err,
  identity_of,
}
use ebpf_oom_watcher.Program.Watching.{wait_until_synced, wait_until_synced-lands}
use ebpf_oom_watcher.UnitTests.Resolution.{id, victim_pod, lookup}
use ebpf_oom_watcher.UnitTests.Caches.Reflectors.{Reflector, landing, landing-before, landing-after}

module _ (reflector : Reflector) where
  open reflector use {
    State, store, empty, apply_watcher_event, latch-empty, latch-synced, latch-listing, latch-apply,
    latch-delete, state-one, state-none, state-apply, state-delete,
  }

  abbrev sync_all : List (Pod Text) → State → State
  sync_all [] s = s
  sync_all (p ∷ ps) s = sync_all ps (apply_watcher_event (init_apply p) s)

  abbrev sync : List (Pod Text) → State → State
  sync pods s = apply_watcher_event init_done (sync_all pods (apply_watcher_event init s))

  abbrev cached : State → Result (Option ContainerIdentity)
  cached s = identity_of store (λ re text. none) s id

  of_ready :
      (s : State) (pods : List (Pod Text))
      → store.latch s ≡ ready
      → store.state s ≡ pods
      → cached s ≡ ok (identity_from_pods pods id)
  unfolding identity_of
  of_ready s pods l e = rw (l, e) refl

  of_pending : (s : State) → store.latch s ≡ pending → cached s ≡ err cache_unsynced
  unfolding identity_of
  of_pending s l = rw l refl

  abbrev Finds : State → Type 0
  Finds s = (identity : ContainerIdentity) × (cached s ≡ ok (some identity))

  holds_victim : (s : State) → store.latch s ≡ ready → store.state s ≡ victim_pod ∷ [] → Finds s
  unfolding lookup
  holds_victim s l e = (_, of_ready s (victim_pod ∷ []) l e)

  misses : (s : State) → store.latch s ≡ ready → store.state s ≡ [] → cached s ≡ ok none
  unfolding lookup
  misses s l e = of_ready s [] l e

  abbrev ALookupStartsWorkingOnceALateCacheSyncs : Type 0
  ALookupStartsWorkingOnceALateCacheSyncs =
      ((e : Error) × (cached empty ≡ err e)) × Finds (sync (victim_pod ∷ []) empty)

  a_lookup_starts_working_once_a_late_cache_syncs : ALookupStartsWorkingOnceALateCacheSyncs
  a_lookup_starts_working_once_a_late_cache_syncs = (
    (cache_unsynced, of_pending empty latch-empty),
    holds_victim (sync (victim_pod ∷ []) empty) (latch-synced _) (state-one victim_pod empty),
  )

  abbrev AContainerThatStartsAfterTheInitialListResolves : Type 0
  AContainerThatStartsAfterTheInitialListResolves =
      let synced = sync [] empty in
      (cached synced ≡ ok none) × Finds (apply_watcher_event (apply victim_pod) synced)

  a_container_that_starts_after_the_initial_list_resolves :
      AContainerThatStartsAfterTheInitialListResolves
  a_container_that_starts_after_the_initial_list_resolves =
      let synced = sync [] empty in
      (
        misses synced (latch-synced _) (state-none empty),
        holds_victim (apply_watcher_event (apply victim_pod) synced)
            (latch-apply victim_pod synced ∙ latch-synced _)
            (state-apply victim_pod synced (state-none empty)),
      )

  abbrev ADeletedPodStopsResolving : Type 0
  ADeletedPodStopsResolving =
      cached (apply_watcher_event (delete victim_pod) (sync (victim_pod ∷ []) empty)) ≡ ok none

  a_deleted_pod_stops_resolving : ADeletedPodStopsResolving
  a_deleted_pod_stops_resolving =
      let synced = sync (victim_pod ∷ []) empty in
      misses (apply_watcher_event (delete victim_pod) synced)
        (latch-delete victim_pod synced ∙ latch-synced _)
        (state-delete victim_pod synced (state-one victim_pod empty))

  -- The second half of the test: in the middle of the initial list.
  abbrev AnUnfinishedListIsAnError : Type 0
  AnUnfinishedListIsAnError =
      (e : Error) × (cached
          (apply_watcher_event (init_apply victim_pod) (apply_watcher_event init empty))
        ≡ err e)

  an_unfinished_list_is_an_error : AnUnfinishedListIsAnError
  an_unfinished_list_is_an_error = (cache_unsynced, of_pending _ (latch-listing victim_pod))

  -- The latch of this state, from now on.
  abbrev WaitingReturnsAtOnceWhenTheCacheIsAlreadySynced : Type 0
  WaitingReturnsAtOnceWhenTheCacheIsAlreadySynced =
      let synced = sync (victim_pod ∷ []) empty in
      (wait_until_synced 30 (λ i. store.latch synced) ≡ 0) × Finds synced

  waiting_returns_at_once_when_the_cache_is_already_synced :
      WaitingReturnsAtOnceWhenTheCacheIsAlreadySynced
  unfolding wait_until_synced
  waiting_returns_at_once_when_the_cache_is_already_synced =
      let synced = sync (victim_pod ∷ []) empty in
      (
        rw (latch-synced (sync_all (victim_pod ∷ []) (apply_watcher_event init empty))) refl,
        holds_victim synced (latch-synced _) (state-one victim_pod empty),
      )

  -- The list lands in any second of the wait.
  abbrev WaitingReturnsOnlyAfterTheListLands : Type 0
  WaitingReturnsOnlyAfterTheListLands =
      let synced = sync (victim_pod ∷ []) empty in
      (n : ℕ)
      → n ≤ 30
      → (wait_until_synced 30 (λ i. store.latch (landing n empty synced i)) ≡ n) × Finds synced

  waiting_returns_only_after_the_list_lands : WaitingReturnsOnlyAfterTheListLands
  waiting_returns_only_after_the_list_lands n h =
      let synced = sync (victim_pod ∷ []) empty in
      (
        wait_until_synced-lands 30 n (λ i. store.latch (landing n empty synced i))
            (λ i m. ap store.latch (landing-before i n empty synced m) ∙ latch-empty)
            (ap store.latch (landing-after n empty synced) ∙ latch-synced _) h,
        holds_victim synced (latch-synced _) (state-one victim_pod empty),
      )

  -- With the timeout as one step of the wait.
  abbrev WaitingGivesUpRatherThanBlockingTheWatchLoopForever : Type 0
  WaitingGivesUpRatherThanBlockingTheWatchLoopForever =
      (wait_until_synced 1 (λ i. store.latch empty) ≡ 1) × ((e : Error) × (cached empty ≡ err e))

  waiting_gives_up_rather_than_blocking_the_watch_loop_forever :
      WaitingGivesUpRatherThanBlockingTheWatchLoopForever
  unfolding wait_until_synced
  waiting_gives_up_rather_than_blocking_the_watch_loop_forever =
      (rw latch-empty refl, (cache_unsynced, of_pending empty latch-empty))

-- A reflector over lists, which behaves as documented: its latch, the pods in force, and those of a
-- list under way.
abbrev Mirror : Type 0
Mirror = Latch × List (Pod Text) × List (Pod Text)

abbrev name_of : Pod Text → Text
name_of pod = unwrap_or pod.metadata.name []

abbrev without : Text → List (Pod Text) → List (Pod Text)
without name [] = []
without name (p ∷ ps) = if name_of p == name then without name ps else p ∷ without name ps

abbrev mirrored : Event (Pod Text) → Mirror → Mirror
mirrored (apply p) (latch, pods, listed) = (latch, p ∷ without (name_of p) pods, listed)
mirrored (delete p) (latch, pods, listed) = (latch, without (name_of p) pods, listed)
mirrored init (latch, pods, listed) = (latch, pods, [])
mirrored (init_apply p) (latch, pods, listed) = (latch, pods, p ∷ listed)
mirrored init_done (latch, pods, listed) = (ready, listed, [])

list_reflector : Reflector
list_reflector = record {
  State = Mirror;
  store = record { state = λ s. s.1; latch = λ s. s.0 };
  empty = (pending, [], []);
  apply_watcher_event = mirrored;
  latch-empty = refl;
  latch-listing = λ p. refl;
  latch-synced = λ s. refl;
  state-one = λ p s. refl;
  state-none = λ s. refl;
  latch-apply = λ p s. refl;
  latch-delete = λ p s. refl;
  state-apply = λ p s e. rw e refl;
  state-delete = λ p s e. rw (e, eq_self (name_of p)) refl;
}
