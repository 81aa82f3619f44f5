-- ===== src/Metrics/Order/Swept.antt =====
-- oom-watcher/src/metrics.rs, `evict_stale`: what a sweep leaves of a series depends on which keys are
-- stale and on how many, and not on their order.
use ebpf_oom_watcher.Prelude.{
  ℕ, zero, suc, ◌≡◌, refl, ap, sym, ◌∙◌, List, [], ◌∷◌, Option, none, some, Bool, ◌&&◌, Text,
  if◌then◌else◌, ◌==◌, list_eq, list_beq_iff, pair_eq, nat_eq, true, false, ◌+◌, any, length, arith,
}
use ebpf_oom_watcher.Prelude.Float.{f64_add}
use ebpf_oom_watcher.Prelude.HashMap.{HashMap, keys}
use ebpf_oom_watcher.Prelude.SameMap.{count}
use ebpf_oom_watcher.Prometheus.{MetricVec, or_zero}
use ebpf_oom_watcher.Metrics.Key.{SeriesKey, key_eq, labels, memory_labels}
use ebpf_oom_watcher.Metrics.Collector.{MetricsCollector, memory_types}
use ebpf_oom_watcher.Metrics.Evict.{is_orphaned, remove_memory, remove_series, remove_stale}

-- A counter, none if there is no series, that is advanced again and again.
abbrev pub bumped : ℕ → Option ℕ → Option ℕ
bumped zero o = o
bumped (suc n) o = bumped n (some (f64_add (or_zero o) 1))

bumped_step :
    (b : Bool) (n : ℕ) (o : Option ℕ)
    → bumped ((if b then 1 else 0) + n) o ≡ bumped n (if b then some (f64_add (or_zero o) 1) else o)
bumped_step true n o = let more : 1 + n ≡ suc n = omega arith in ap (λ k. bumped k o) more
bumped_step false n o = let same : 0 + n ≡ n = omega arith in ap (λ k. bumped k o) same

-- The key's memory series with these labels goes with it.
abbrev pub takes_memory : HashMap SeriesKey ℕ → List Text → SeriesKey → Bool
takes_memory live l s = is_orphaned live s && any (λ t. memory_labels s t == l) memory_types

pub any-ext :
    {A : Type 0} (p q : A → Bool) (xs : List A) → ((x : A) → p x ≡ q x) → any p xs ≡ any q xs
any-ext p q [] h = refl
any-ext p q (x ∷ xs) h = rw (h x, any-ext p q xs h) refl

pub count-length : {A B : Type 0} (m : HashMap A B) → count (λ k. true) (keys m) ≡ length (keys m)
count-length [] = refl
count-length ((k, v) ∷ m) = omega (arith, count-length m)

module _ (vec : MetricVec) where
  open vec use {Family, value, inc_by, remove, value-remove, value-inc_by}

  value-remove_memory-any :
      (s : SeriesKey) (ts : List Text) (m : Family) (l : List Text)
      → value (remove_memory vec s ts m) l
        ≡ (if any (λ t. memory_labels s t == l) ts then none else value m l)
  unfolding remove_memory
  value-remove_memory-any s [] m l = refl
  value-remove_memory-any s (t ∷ ts) m l = ground (
    arith,
    value-remove_memory-any s ts (remove (memory_labels s t) m) l,
    value-remove (memory_labels s t) l m,
  )

  module _ (live : HashMap SeriesKey ℕ) (l : List Text) where
    pub stale-kills :
        (stale : List SeriesKey) (c : MetricsCollector Family)
        → value (remove_stale vec live stale c).oom_kills_total l
          ≡ (if any (λ s. labels s == l) stale then none else value c.oom_kills_total l)
    unfolding remove_stale remove_series
    stale-kills [] c = refl
    stale-kills (s ∷ stale) c = ground (
      arith,
      stale-kills stale (remove_series vec s (is_orphaned live s) c),
      value-remove (labels s) l c.oom_kills_total,
    )

    pub stale-timestamps :
        (stale : List SeriesKey) (c : MetricsCollector Family)
        → value (remove_stale vec live stale c).oom_last_timestamp l
          ≡ (if any (λ s. labels s == l) stale then none else value c.oom_last_timestamp l)
    unfolding remove_stale remove_series
    stale-timestamps [] c = refl
    stale-timestamps (s ∷ stale) c = ground (
      arith,
      stale-timestamps stale (remove_series vec s (is_orphaned live s) c),
      value-remove (labels s) l c.oom_last_timestamp,
    )

    pub stale-memory :
        (stale : List SeriesKey) (c : MetricsCollector Family)
        → value (remove_stale vec live stale c).oom_memory_usage_bytes l
          ≡ (if any (takes_memory live l) stale then none else value c.oom_memory_usage_bytes l)
    unfolding remove_stale remove_series
    stale-memory [] c = refl
    stale-memory (s ∷ stale) c = ground (
      arith,
      stale-memory stale (remove_series vec s (is_orphaned live s) c),
      value-remove_memory-any s memory_types c.oom_memory_usage_bytes l,
    )

    pub stale-evicted :
        (stale : List SeriesKey) (c : MetricsCollector Family)
        → value (remove_stale vec live stale c).oom_series_evicted_total l
          ≡ bumped
              (count (λ (s : SeriesKey). (s.node ∷ []) == l) stale)
              (value c.oom_series_evicted_total l)
    unfolding remove_stale remove_series
    stale-evicted [] c = refl
    stale-evicted (s ∷ stale) c =
        let n = count (λ (k : SeriesKey). (k.node ∷ []) == l) stale in
        let one : value (inc_by (s.node ∷ []) 1 c.oom_series_evicted_total) l ≡ (
            if (s.node ∷ []) == l
            then some (f64_add (or_zero (value c.oom_series_evicted_total l)) 1)
            else value c.oom_series_evicted_total l) =
          ground (
            arith,
            value-inc_by (s.node ∷ []) l 1 c.oom_series_evicted_total,
            list_beq_iff (s.node ∷ []) l,
          ) in
        stale-evicted stale (remove_series vec s (is_orphaned live s) c)
        ∙ ap (bumped n) one
        ∙ sym (bumped_step ((s.node ∷ []) == l) n (value c.oom_series_evicted_total l))

  -- The rest of the collector stays.
  pub stale-frame :
      (live : HashMap SeriesKey ℕ) (stale : List SeriesKey) (c : MetricsCollector Family)
      → ((remove_stale vec live stale c).oom_kills_per_node_total ≡ c.oom_kills_per_node_total)
        × ((remove_stale vec live stale c).oom_resolution_failures_total
            ≡ c.oom_resolution_failures_total)
        × ((remove_stale vec live stale c).oom_events_dropped_total ≡ c.oom_events_dropped_total)
        × ((remove_stale vec live stale c).last_dropped_total ≡ c.last_dropped_total)
        × ((remove_stale vec live stale c).last_seen ≡ c.last_seen)
        × ((remove_stale vec live stale c).deleted_after ≡ c.deleted_after)
  unfolding remove_stale remove_series
  stale-frame live [] c = (refl, refl, refl, refl, refl, refl)
  stale-frame live (s ∷ stale) c =
      stale-frame live stale (remove_series vec s (is_orphaned live s) c)
