-- ===== src/Health/Probe.antt =====
-- oom-watcher/src/health.rs: the probe's two loads, interleaved with the stores of the watch loop, in
-- a memory of messages: an atomic is the list of its stores, and an acquiring load of a released one
-- takes over what its writer had stored by then.
use ebpf_oom_watcher.Prelude.{
  ℕ, suc, ◌+◌, ◌≤◌, ◌<◌, ◌≡◌, refl, inl, inr, true, false, List, [], ◌∷◌, ◌++◌, Option, none, some,
  length, arith, In,
}
use ebpf_oom_watcher.Health.{Health, stale, liveness}

-- Where the task that stores stands: `mark_started` stores the seed, then publishes the flag; the
-- loop then beats.
pub data Writer : Type 0 where
  idle seeded running : Writer

-- The writer, its stores to `last_beat_seconds`, newest first, and how many values of that atomic, the
-- one it was built with included, the release of the flag has published, once there is one.
pub record Memory : Type 0 where
  pub writer : Writer
  pub stores : List ℕ
  pub published : Option ℕ

abbrev pub built : Memory
built = record { writer = idle; stores = []; published = none }

-- A clock may read anything.
pub data Step : Memory → Memory → Type 0 where
  seed : (s : ℕ) → Step built (record { writer = seeded; stores = s ∷ []; published = none })
  publish :
      (stores : List ℕ)
      → Step
          (record { writer = seeded; stores = stores; published = none })
          (record { writer = running; stores = stores; published = some (suc (length stores)) })
  beats :
      (t : ℕ) (stores : List ℕ) (view : Option ℕ)
      → Step
          (record { writer = running; stores = stores; published = view })
          (record { writer = running; stores = t ∷ stores; published = view })

pub data Reach : Memory → Type 0 where
  here : Reach built
  next : {m n : Memory} → Reach m → Step m n → Reach n

-- The values of `last_beat_seconds`, newest first: it is built with 0.
abbrev pub values : Memory → List ℕ
values m = m.stores ++ (0 ∷ [])

-- What the two loads of one probe may return. The flag may be read late, and the beat is then not
-- loaded. An acquiring load of the flag that sees it set takes over its view; the load of the beat may
-- then return any value that is not overwritten in that view, however late.
pub data Observes (m : Memory) : Health → Type 0 where
  before : (v : ℕ) → Observes m (record { started = false; last_beat_seconds = v })
  after :
      (v view : ℕ) (newer older : List ℕ)
      → m.published ≡ some view
      → values m ≡ newer ++ (v ∷ older)
      → view ≤ suc (length older)
      → Observes m (record { started = true; last_beat_seconds = v })

-- The seed is stored before the flag is published.
abbrev IsSeeded : Memory → Type 0
IsSeeded m = (view : ℕ) → m.published ≡ some view → 2 ≤ view

abbrev HasSeed : Memory → Type 0
HasSeed m = m.writer ≡ seeded → 1 ≤ length m.stores

Reach-HasSeed : {m : Memory} → Reach m → HasSeed m × IsSeeded m
Reach-HasSeed here = (λ e. absurd (cc), λ view e. absurd (cc))
Reach-HasSeed (next r (seed s)) = (λ e. omega arith, λ view e. absurd (cc))
Reach-HasSeed (next r (publish stores)) =
    let (has, kept) = Reach-HasSeed r in
    let some_stored = has refl in (λ e. absurd (cc), λ view e. ground arith)
Reach-HasSeed (next r (beats t stores view)) =
    let (has, kept) = Reach-HasSeed r in (λ e. absurd (cc), kept)

-- Only the value that an atomic was built with has none behind it.
In-values :
    (stores newer older : List ℕ) (v o : ℕ)
    → stores ++ (0 ∷ []) ≡ newer ++ (v ∷ (o ∷ older))
    → In v stores
In-values [] [] older v o e = absurd (ground arith)
In-values [] (n ∷ []) older v o e = absurd (ground arith)
In-values [] (n ∷ (k ∷ newer)) older v o e = absurd (ground arith)
In-values (x ∷ stores) [] older v o e = inl (ground arith)
In-values (x ∷ stores) (n ∷ newer) older v o e =
    inr (In-values stores newer older v o (ground arith))

-- Whatever the probe's loads return, in any interleaving with the stores and whatever the clock reads:
-- if it answers `stale`, then with the age of a beat that the task has stored, the seed or one of the
-- loop's, which is more than three intervals old; never with that of the 0 that the heartbeat was
-- built with.
pub Observes-stale :
    {m : Memory} {h : Health} (now age : ℕ)
    → Reach m
    → Observes m h
    → liveness h now ≡ stale age
    → (v : ℕ) × In v m.stores × (v + 90 < now) × (age + v ≡ now)
unfolding liveness
Observes-stale now age r (before v) e = absurd (ground arith)
Observes-stale {m} now age r (after v view newer [] released at seen) e =
    absurd (omega (arith, (Reach-HasSeed r).1 view released, seen))
Observes-stale {m} now age r (after v view newer (o ∷ older) released at seen) e =
    (v, In-values m.stores newer older v o at, ground arith, ground arith)
