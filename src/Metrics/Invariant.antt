-- ===== src/Metrics/Invariant.antt =====
-- oom-watcher/src/metrics.rs: the bookkeeping invariant of the collector. `last_seen` names
-- exactly the per-container series that a scrape shows.
use ebpf_oom_watcher.Prelude.{
  ◌≡◌, refl, Bool, true, false, ◌&&◌, [], ◌∷◌, Option, none, arith, Text, ◌==◌, list_eq, pair_eq,
  list_beq_iff, nat_eq, any, is_some, ℕ,
}
use ebpf_oom_watcher.Prelude.HashMap.{HashMap, keys, get, Distinct}
use ebpf_oom_watcher.Prometheus.{MetricVec}
use ebpf_oom_watcher.Metrics.Key.{
  SeriesKey, key_eq, labels, memory_labels, shares_memory_series_with,
}
use ebpf_oom_watcher.Metrics.Collector.{MetricsCollector, memory_types, new}

-- Some tracked key writes the memory series of `k`.
abbrev pub has_sharer : SeriesKey → HashMap SeriesKey ℕ → Bool
has_sharer k m = any (λ j. shares_memory_series_with j k) (keys m)

-- A scrape shows a per-container series exactly if `last_seen` has its key, and the four memory
-- series exactly if it has a key that shares them.
pub record IsTracked (vec : MetricVec) (c : MetricsCollector vec.Family) : Type 0 where
  pub distinct : Distinct c.last_seen
  pub pods_distinct : Distinct c.deleted_after
  pub kills :
      (k : SeriesKey)
      → is_some (vec.value c.oom_kills_total (labels k)) ≡ is_some (get k c.last_seen)
  pub timestamps :
      (k : SeriesKey)
      → is_some (vec.value c.oom_last_timestamp (labels k)) ≡ is_some (get k c.last_seen)
  pub memory :
      (k : SeriesKey) (t : Text)
      → is_some (vec.value c.oom_memory_usage_bytes (memory_labels k t))
        ≡ (any (λ s. s == t) memory_types && has_sharer k c.last_seen)

pub new-IsTracked : (vec : MetricVec) → IsTracked vec (new vec)
unfolding new get
new-IsTracked vec = record {
  distinct = tt;
  pods_distinct = tt;
  kills = λ k. ap_none (vec.value-create _ _ (labels k));
  timestamps = λ k. ap_none (vec.value-create _ _ (labels k));
  memory =
      λ k t. and_none (vec.value-create _ _ (memory_labels k t)) (any (λ s. s == t) memory_types);
}
  where
    ap_none : {o : Option ℕ} → o ≡ none → is_some o ≡ false
    ap_none h = ground arith

    and_none : {o : Option ℕ} → o ≡ none → (b : Bool) → is_some o ≡ (b && false)
    and_none h b = ground arith

-- A key that shares with `k` has the sharers of `k`.
shares_trans :
    (j a b : SeriesKey)
    → shares_memory_series_with a b ≡ true
    → shares_memory_series_with j a ≡ shares_memory_series_with j b
unfolding shares_memory_series_with
shares_trans j a b h = ground (
  arith,
  list_beq_iff a.node b.node,
  list_beq_iff a.namespace b.namespace,
  list_beq_iff a.pod b.pod,
  list_beq_iff a.container b.container,
)

pub has_sharer_trans :
    (a b : SeriesKey) (m : HashMap SeriesKey ℕ)
    → shares_memory_series_with a b ≡ true
    → has_sharer a m ≡ has_sharer b m
has_sharer_trans a b [] h = refl
has_sharer_trans a b ((j, v) ∷ m) h = ground (arith, shares_trans j a b h, has_sharer_trans a b m h)
