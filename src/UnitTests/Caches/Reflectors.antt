-- ===== src/UnitTests/Caches/Reflectors.antt =====
-- The reflector that the tests of oom-watcher/src/kubernetes.rs drive, as documented.
use ebpf_oom_watcher.Prelude.{
  ℕ, ◌<◌, ltb, arith, ◌≡◌, [], ◌∷◌, Text, if◌then◌else◌, list_eq, nat_eq,
}
use ebpf_oom_watcher.Kubernetes.Pods.{Pod}
use ebpf_oom_watcher.Kubernetes.Cache.{
  Event, apply, delete, init, init_apply, init_done, Store, ready, pending,
}

-- `reflector::store()`, `Writer::apply_watcher_event` and the store that the writer feeds: a list is
-- in force from its end, and the store is ready from then on.
pub record Reflector : Type 1 where
  pub State : Type 0
  pub store : Store (Pod Text) State
  pub empty : State
  pub apply_watcher_event : Event (Pod Text) → State → State
  pub latch-empty : store.latch empty ≡ pending
  pub latch-listing :
      (p : Pod Text)
      → store.latch (apply_watcher_event (init_apply p) (apply_watcher_event init empty)) ≡ pending
  pub latch-synced : (s : State) → store.latch (apply_watcher_event init_done s) ≡ ready
  pub state-one :
      (p : Pod Text) (s : State)
      → store.state (
          apply_watcher_event init_done
            (apply_watcher_event (init_apply p) (apply_watcher_event init s)))
        ≡ p ∷ []
  pub state-none :
      (s : State) → store.state (apply_watcher_event init_done (apply_watcher_event init s)) ≡ []
  pub latch-apply :
      (p : Pod Text) (s : State) → store.latch (apply_watcher_event (apply p) s) ≡ store.latch s
  pub latch-delete :
      (p : Pod Text) (s : State) → store.latch (apply_watcher_event (delete p) s) ≡ store.latch s
  pub state-apply :
      (p : Pod Text) (s : State)
      → store.state s ≡ []
      → store.state (apply_watcher_event (apply p) s) ≡ p ∷ []
  pub state-delete :
      (p : Pod Text) (s : State)
      → store.state s ≡ p ∷ []
      → store.state (apply_watcher_event (delete p) s) ≡ []

-- The state in second `i` of a wait, if the list lands in second `n`.
abbrev pub landing : {S : Type 0} → ℕ → S → S → ℕ → S
landing n before after i = if ltb i n then before else after

pub landing-before :
    {S : Type 0} (i n : ℕ) (before after : S) → i < n → landing n before after i ≡ before
landing-before i n before after h = ground arith

pub landing-after : {S : Type 0} (n : ℕ) (before after : S) → landing n before after n ≡ after
landing-after n before after = ground arith
