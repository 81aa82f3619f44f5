-- ===== src/Program/Sweeping.antt =====
-- oom-watcher/src/main.rs, the series sweeper, among the calls of the other tasks.
use ebpf_oom_watcher.Prelude.{
  ℕ, ◌+◌, ◌≤◌, ◌<◌, ◌≡◌, refl, ap, sym, subst, ◌∙◌, foldl-append, ◌⊎◌, inl, inr, List, [], ◌∷◌,
  ◌++◌, Option, none, some, false, Text, arith, foldl, leb, ◌==◌, list_eq, nat_eq, Bool-cases, In,
}
use ebpf_oom_watcher.Prelude.HashMap.{get}
use ebpf_oom_watcher.Prometheus.{MetricVec}
use ebpf_oom_watcher.Metrics.Key.{SeriesKey, key_eq, key_of}
use ebpf_oom_watcher.Metrics.Collector.{MetricsCollector}
use ebpf_oom_watcher.Metrics.Invariant.{IsTracked}
use ebpf_oom_watcher.Metrics.History.{Call, outcome, event, dropped, pod_deleted, evict, run_calls}
use ebpf_oom_watcher.Metrics.Life.{Life, sweep_life, live_on, life_of, run_calls-life}
use ebpf_oom_watcher.Config.{series_ttl, sweep_interval}

abbrev sweeps : ℕ → List ℕ → List Call
sweeps ttl [] = []
sweeps ttl (now ∷ later) = evict now ttl ∷ sweeps ttl later

-- The sweeper's calls, by what the clock reads after each tick. The first tick is not used.
unfoldable pub series_sweeper : ℕ → List ℕ → List Call
series_sweeper ttl [] = []
series_sweeper ttl (first ∷ later) = sweeps ttl later

-- The calls of two tasks in an order that each of them agrees with.
pub data Interleaved : List Call → List Call → List Call → Type 0 where
  done : Interleaved [] [] []
  left :
      {xs ys zs : List Call} → (x : Call) → Interleaved xs ys zs → Interleaved (x ∷ xs) ys (x ∷ zs)
  right :
      {xs ys zs : List Call} → (y : Call) → Interleaved xs ys zs → Interleaved xs (y ∷ ys) (y ∷ zs)

-- The call is not a kill of the container.
abbrev Spares : SeriesKey → Call → Type 0
Spares k (event e) = (key_of e == k) ≡ false
Spares k call = Unit

abbrev AllSpare : SeriesKey → List Call → Type 0
AllSpare k [] = Unit
AllSpare k (call ∷ calls) = Spares k call × AllSpare k calls

-- Each tick reads at most an interval after the one before.
abbrev Every : ℕ → ℕ → List ℕ → Type 0
Every interval first [] = Unit
Every interval first (now ∷ later) = (now ≤ first + interval) × Every interval now later

-- Some reading is at the bound or above.
abbrev Reaches : ℕ → List ℕ → Type 0
Reaches bound [] = ⊥
Reaches bound (now ∷ later) = (bound ≤ now) ⊎ Reaches bound later

abbrev pub HasEnded : Life → Type 0
HasEnded l = (l.kills ≡ none) × (l.stamp ≡ none) × (l.seen ≡ none)

-- Last killed at a time, or ended since.
abbrev IsAging : ℕ → Life → Type 0
IsAging at l = (l.seen ≡ some at) ⊎ HasEnded l

HasEnded-live_on :
    (k : SeriesKey) (call : Call) (l : Life)
    → Spares k call
    → HasEnded l
    → HasEnded (live_on k l call)
HasEnded-live_on k (outcome node o) l s h = h
HasEnded-live_on k (event e) l s h = rw s h
HasEnded-live_on k (dropped node total) l s h = h
HasEnded-live_on k (pod_deleted namespace pod now) l s h = ground arith
HasEnded-live_on k (evict now ttl) l s h = ground arith

IsAging-live_on :
    (k : SeriesKey) (at : ℕ) (call : Call) (l : Life)
    → Spares k call
    → IsAging at l
    → IsAging at (live_on k l call)
IsAging-live_on k at (outcome node o) l s h = h
IsAging-live_on k at (event e) l s h = rw s h
IsAging-live_on k at (dropped node total) l s h = h
IsAging-live_on k at (pod_deleted namespace pod now) l s h = ground arith
IsAging-live_on k at (evict now ttl) l s h = ground arith

HasEnded-foldl :
    (k : SeriesKey) (calls : List Call) (l : Life)
    → AllSpare k calls
    → HasEnded l
    → HasEnded (foldl (live_on k) l calls)
HasEnded-foldl k [] l s h = h
HasEnded-foldl k (call ∷ calls) l (s, more) h =
    HasEnded-foldl k calls (live_on k l call) more (HasEnded-live_on k call l s h)

IsAging-foldl :
    (k : SeriesKey) (at : ℕ) (calls : List Call) (l : Life)
    → AllSpare k calls
    → IsAging at l
    → IsAging at (foldl (live_on k) l calls)
IsAging-foldl k at [] l s h = h
IsAging-foldl k at (call ∷ calls) l (s, more) h =
    IsAging-foldl k at calls (live_on k l call) more (IsAging-live_on k at call l s h)

IsAging-sweep_life :
    (at now ttl : ℕ) (l : Life) → at + ttl ≤ now → IsAging at l → HasEnded (sweep_life now ttl l)
IsAging-sweep_life at now ttl l due (inl e) = ground arith
IsAging-sweep_life at now ttl l due (inr h) = ground arith

AllSpare-Interleaved :
    (k : SeriesKey) {xs ys zs : List Call}
    → Interleaved xs ys zs
    → AllSpare k xs
    → AllSpare k ys
    → AllSpare k zs
AllSpare-Interleaved k done s t = tt
AllSpare-Interleaved k (left x i) (s, more) t = (s, AllSpare-Interleaved k i more t)
AllSpare-Interleaved k (right y i) s (t, more) = (t, AllSpare-Interleaved k i s more)

AllSpare-sweeps : (k : SeriesKey) (ttl : ℕ) (later : List ℕ) → AllSpare k (sweeps ttl later)
AllSpare-sweeps k ttl [] = tt
AllSpare-sweeps k ttl (now ∷ later) = (tt, AllSpare-sweeps k ttl later)

-- The first sweep that finds the bound reached comes before an interval has passed since.
first_due :
    (bound interval ttl first : ℕ) (later : List ℕ)
    → first < bound
    → Every interval first later
    → Reaches bound later
    → (now : ℕ) × (bound ≤ now) × (now < bound + interval) × In (evict now ttl) (sweeps ttl later)
first_due bound interval ttl first [] early every h = absurd h
first_due bound interval ttl first (now ∷ later) early (step, every) h =
    elim (Bool-cases (leb bound now)) [
      | inl e ↦ (now, ground arith, omega arith, inl refl)
      | inr e ↦
          let (x, reached, soon, m) =
            first_due bound interval ttl now later (ground arith) every (ground arith) in
          (x, reached, soon, inr m)
    ]

In-Interleaved : {xs ys zs : List Call} (y : Call) → Interleaved xs ys zs → In y ys → In y zs
In-Interleaved y done m = m
In-Interleaved y (left x i) m = inr (In-Interleaved y i m)
In-Interleaved y (right x i) (inl e) = inl e
In-Interleaved y (right x i) (inr m) = inr (In-Interleaved y i m)

-- The list at an element that it has.
cut :
    (k : SeriesKey) (y : Call) (zs : List Call)
    → In y zs
    → AllSpare k zs
    → (before : List Call) × (after : List Call) × (zs ≡ before ++ (y ∷ after))
      × AllSpare k before
      × AllSpare k after
cut k y [] m s = absurd m
cut k y (z ∷ zs) (inl e) (s, more) = ([], zs, ap (λ w. w ∷ zs) (sym e), tt, more)
cut k y (z ∷ zs) (inr m) (s, more) =
    let (before, after, e, s1, s2) = cut k y zs m more in
    (z ∷ before, after, ap (λ ws. z ∷ ws) e, (s, s1), s2)

module _ (vec : MetricVec) where
  open vec use {Family}

  -- Whatever the settings and however the calls of the other tasks fall between the sweeper's, a
  -- tracked container that was last killed at a time, and is not killed again, is swept before a TTL
  -- and an interval have passed since then: at that sweep its counter, its timestamp and its entry go,
  -- and at the end of the history they are still gone. This takes a clock whose readings at the ticks
  -- are at most an interval apart, begin before the time of the kill plus the TTL, and reach it.
  pub series_sweeper-HasEnded :
      (var : Text → Option Text) (k : SeriesKey) (c : MetricsCollector Family) (at first : ℕ)
      (later : List ℕ) (others history : List Call)
      → IsTracked vec c
      → get k c.last_seen ≡ some at
      → AllSpare k others
      → Interleaved others (series_sweeper (series_ttl var) (first ∷ later)) history
      → first < at + series_ttl var
      → Every (sweep_interval var) first later
      → Reaches (at + series_ttl var) later
      → (now : ℕ) × (before : List Call) × (after : List Call) × (history
          ≡ before ++ (evict now (series_ttl var) ∷ after))
        × (now < at + series_ttl var + sweep_interval var)
        × HasEnded (life_of vec k (run_calls vec (before ++ (evict now (series_ttl var) ∷ [])) c))
        × HasEnded (life_of vec k (run_calls vec history c))
  unfolding series_sweeper
  series_sweeper-HasEnded var k c at first later others history v seen spared i early every due =
      let ttl = series_ttl var in
      let (now, reached, soon, m) =
        first_due (at + ttl) (sweep_interval var) ttl first later early every due in
      let (before, after, e, s1, s2) =
        cut k (evict now ttl) history (In-Interleaved (evict now ttl) i m)
          (AllSpare-Interleaved k i spared (AllSpare-sweeps k ttl later)) in
      let start = life_of vec k c in
      let swept : HasEnded (sweep_life now ttl (foldl (live_on k) start before)) =
        IsAging-sweep_life at now ttl (foldl (live_on k) start before) reached
          (IsAging-foldl k at before start s1 (inl seen)) in
      (
        now,
        before,
        after,
        e,
        soon,
        ended_at (before ++ (evict now ttl ∷ [])) (evict now ttl) before [] refl tt swept,
        ended_at history (evict now ttl) before after e s2 swept,
      )
    where
      ended_at :
          (calls : List Call) (y : Call) (before after : List Call)
          → calls ≡ before ++ (y ∷ after)
          → AllSpare k after
          → HasEnded (live_on k (foldl (live_on k) (life_of vec k c) before) y)
          → HasEnded (life_of vec k (run_calls vec calls c))
      ended_at calls y before after e s h =
          subst HasEnded
            (sym (
              run_calls-life vec k calls c v
              ∙ ap (foldl (live_on k) (life_of vec k c)) e
              ∙ foldl-append (live_on k) (life_of vec k c) before (y ∷ after)))
            (HasEnded-foldl k after (live_on k (foldl (live_on k) (life_of vec k c) before) y) s h)
