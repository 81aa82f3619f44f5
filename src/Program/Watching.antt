-- ===== src/Program/Watching.antt =====
-- oom-watcher/src/main.rs, the event processor: the wait for the pod cache, the start of the heartbeat
-- and the watch loop; and what `/healthz` answers meanwhile.
use ebpf_oom_watcher.Prelude.{
  All, length, replicate, ℕ, zero, suc, ◌+◌, ◌≤◌, ◌<◌, ◌≡◌, ap, if◌then◌else◌, refl, ◌∙◌, ◌↔◌, ◌⊎◌,
  inl, inr, List, [], ◌∷◌, Option, none, some, Bool, true, false, Bool-cases, arith,
}
use ebpf_oom_watcher.Resolve.{ContainerResolver}
use ebpf_oom_watcher.Recorder.{MetricsRecorder}
use ebpf_oom_watcher.Health.{Health, new, mark_started, beat}
use ebpf_oom_watcher.Http.{health_handler, health_handler_iff}
use ebpf_oom_watcher.Kubernetes.Cache.{Latch, ready, writer_dropped, pending}
use ebpf_oom_watcher.Watch.{OomEventSource, Turn, Loop, run}
use ebpf_oom_watcher.Watch.Spec.{stamps, beat_all, run-reports}

abbrev cache_sync_timeout_seconds : ℕ
cache_sync_timeout_seconds = 10

-- `PodCache::wait_until_synced`, on the latch as it is in each second from now on: the seconds that it
-- takes. It logs what it has seen and returns nothing.
abbrev settled : Latch → Bool
settled ready = true
settled (writer_dropped e) = true
settled pending = false

unfoldable pub wait_until_synced : ℕ → (ℕ → Latch) → ℕ
wait_until_synced zero latch = 0
wait_until_synced (suc timeout) latch =
    let later = wait_until_synced timeout (λ i. latch (suc i)) in
    if settled (latch 0) then 0 else suc later

-- Without a client there is nothing to wait for.
abbrev pub wait_of : {World : Type 0} → Option (ContainerResolver World) → (ℕ → Latch) → ℕ
wait_of none latch = 0
wait_of (some client) latch = wait_until_synced cache_sync_timeout_seconds latch

-- The wait ends within the timeout: at it, or with the latch settled.
wait_until_synced-le :
    (timeout : ℕ) (latch : ℕ → Latch)
    → (wait_until_synced timeout latch ≤ timeout)
      × ((wait_until_synced timeout latch ≡ timeout)
          ⊎ (settled (latch (wait_until_synced timeout latch)) ≡ true))
unfolding wait_until_synced
wait_until_synced-le zero latch = (omega arith, inl refl)
wait_until_synced-le (suc timeout) latch =
    let (a, b) = wait_until_synced-le timeout (λ i. latch (suc i)) in
    elim (Bool-cases (settled (latch 0))) [ inl e ↦ ground arith | inr e ↦ ground arith ]

-- The wait ends with the list that lands within the timeout, and not before.
pub wait_until_synced-lands :
    (timeout n : ℕ) (latch : ℕ → Latch)
    → ((i : ℕ) → i < n → latch i ≡ pending)
    → latch n ≡ ready
    → n ≤ timeout
    → wait_until_synced timeout latch ≡ n
unfolding wait_until_synced
wait_until_synced-lands zero n latch parked landed h = omega arith
wait_until_synced-lands (suc timeout) zero latch parked landed h = rw landed refl
wait_until_synced-lands (suc timeout) (suc n) latch parked landed h = rw (parked 0 (omega arith)) (
    ap suc (
      wait_until_synced-lands timeout n (λ i. latch (suc i)) (λ i m. parked (suc i) (omega arith))
        landed (omega arith)))

wait_of-le :
    {World : Type 0} (resolver : Option (ContainerResolver World)) (latch : ℕ → Latch)
    → wait_of resolver latch ≤ 10
wait_of-le none latch = omega arith
wait_of-le (some client) latch = (wait_until_synced-le 10 latch).0

-- The last of the stamps, or the first beat.
abbrev last_stamp : ℕ → List ℕ → ℕ
last_stamp first [] = first
last_stamp first (t ∷ ts) = last_stamp t ts

beat_all-beat :
    (ts : List ℕ) (at : ℕ) (h : Health)
    → beat_all beat ts (mark_started at h) ≡ mark_started (last_stamp at ts) h
unfolding beat mark_started
beat_all-beat [] at h = refl
beat_all-beat (t ∷ ts) at h = beat_all-beat ts t h

new-unhealthy : (now : ℕ) → (health_handler new now).0 ≡ 503
unfolding new
new-unhealthy now = let (f, g) = (health_handler_iff new now).0 in g (inl refl)

marked-healthy :
    (at now : ℕ) → ((health_handler (mark_started at new) now).0 ≡ 200) ↔ (now ≤ at + 90)
unfolding mark_started
marked-healthy at now =
    let (f, g) = (health_handler_iff (mark_started at new) now).1 in
    (λ h. (f h).1, λ h. g (refl, h))

-- What becomes of the task: the heartbeat in each second of its wait, and what its loop ends with.
pub record Processed (S R : Type 0) : Type 0 where
  pub waiting : List Health
  pub ended : Bool × Loop S R Health

length-replicate : {A : Type 0} (n : ℕ) (a : A) → length (replicate n a) ≡ n
length-replicate zero a = refl
length-replicate (suc n) a = ap suc (length-replicate n a)

All-replicate : {A : Type 0} (P : A → Type 0) (n : ℕ) (a : A) → P a → All P (replicate n a)
All-replicate P zero a p = tt
All-replicate P (suc n) a p = (p, All-replicate P n a p)

module _ {World S R : Type 0} (source : OomEventSource S)
    (resolver : Option (ContainerResolver World)) (recorder : MetricsRecorder R) where
  -- The task, spawned at a time, over the turns of its loop. It waits, marks the start, and runs.
  unfoldable pub event_processor :
      ℕ → (ℕ → Latch) → List (Turn World) → S → R → Health → Processed S R
  event_processor spawned latch turns s r health =
      let seconds = wait_of resolver latch in
      record {
        waiting = replicate seconds health;
        ended =
            run source resolver recorder beat turns (record {
              source = s;
              recorder = r;
              pulse = mark_started (spawned + seconds) health;
            });
      }

  -- From the heartbeat that `main` makes, `/healthz` answers 503 in each second in which the event
  -- processor waits for the pod cache, and these are ten at most; from then on it answers 200 exactly
  -- for 90 seconds after the start of the loop and after each of its turns.
  pub event_processor-healthy :
      (spawned : ℕ) (latch : ℕ → Latch) (turns : List (Turn World)) (s : S) (r : R) (now : ℕ)
      → (length (event_processor spawned latch turns s r new).waiting ≤ 10)
        × All
            (λ h. (health_handler h now).0 ≡ 503)
            (event_processor spawned latch turns s r new).waiting
        × (((health_handler (event_processor spawned latch turns s r new).ended.1.pulse now).0
              ≡ 200)
            ↔ (now
                ≤ last_stamp
                    (spawned + length (event_processor spawned latch turns s r new).waiting)
                    (stamps source turns s)
                  + 90))
  unfolding event_processor
  event_processor-healthy spawned latch turns s r now =
      let wait = wait_of resolver latch in
      let first : Health = mark_started (spawned + wait) new in
      let pulse =
        (run-reports source resolver recorder beat turns
          (record { source = s; recorder = r; pulse = first })).1
        ∙ beat_all-beat (stamps source turns s) (spawned + wait) new in
      let counted = length-replicate wait new in
      (
        rw counted (wait_of-le resolver latch),
        All-replicate (λ h. (health_handler h now).0 ≡ 503) wait new (new-unhealthy now),
        rw (pulse, counted) (marked-healthy _ now),
      )
