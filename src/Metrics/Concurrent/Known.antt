-- ===== src/Metrics/Concurrent/Known.antt =====
-- oom-watcher/src/metrics.rs: what the three tasks know of the series that a scrape shows.
use ebpf_oom_watcher.Prelude.{
  ℕ, ◌≡◌, refl, inl, ◌||◌, List, [], ◌∷◌, Bool, true, Text, ◌==◌, list_eq, pair_eq, nat_eq, any, In,
  is_some,
}
use ebpf_oom_watcher.Prelude.HashMap.{keys}
use ebpf_oom_watcher.Common.{EnrichedOomEvent}
use ebpf_oom_watcher.Prometheus.{MetricVec}
use ebpf_oom_watcher.Metrics.Key.{
  SeriesKey, key_eq, key_of, labels, memory_labels, shares_memory_series_with,
}
use ebpf_oom_watcher.Metrics.Collector.{MetricsCollector, memory_types, memory_values}
use ebpf_oom_watcher.Metrics.Concurrent.{
  Access, count_kill, count_on_node, raise_peak, stamp, see, peaks_of, accesses_of, Sweeper,
  removing,
}

-- The keys that the recorder is about to enter, and those that the sweeper is about to remove.
abbrev pub seen_keys : List Access → List SeriesKey
seen_keys [] = []
seen_keys (see k at ∷ rest) = k ∷ seen_keys rest
seen_keys (a ∷ rest) = seen_keys rest

abbrev pub stale_of : Sweeper → List SeriesKey
stale_of (removing stale) = stale
stale_of w = []

-- Some task still knows of a key that passes.
abbrev is_known :
    {F : Type 0} → (SeriesKey → Bool) → MetricsCollector F → List Access → Sweeper → Bool
is_known p c pending w = any p (keys c.last_seen) || any p (seen_keys pending) || any p (stale_of w)

-- Each write of the recorder to a container's series comes before the entry of its key.
abbrev Ahead : List Access → Type 0
Ahead [] = Unit
Ahead (count_kill k ∷ rest) = In k (seen_keys rest) × Ahead rest
Ahead (raise_peak k t kb ∷ rest) = In k (seen_keys rest) × Ahead rest
Ahead (stamp k at ∷ rest) = In k (seen_keys rest) × Ahead rest
Ahead (count_on_node node ∷ rest) = Ahead rest
Ahead (see k at ∷ rest) = Ahead rest

seen_keys-peaks_of :
    (k : SeriesKey) (ts : List Text) (kbs : List ℕ) (rest : List Access)
    → seen_keys (peaks_of k ts kbs rest) ≡ seen_keys rest
seen_keys-peaks_of k [] kbs rest = refl
seen_keys-peaks_of k (t ∷ ts) [] rest = refl
seen_keys-peaks_of k (t ∷ ts) (kb ∷ kbs) rest = seen_keys-peaks_of k ts kbs rest

peaks_of-Ahead :
    (k : SeriesKey) (ts : List Text) (kbs : List ℕ) (rest : List Access)
    → In k (seen_keys rest)
    → Ahead rest
    → Ahead (peaks_of k ts kbs rest)
peaks_of-Ahead k [] kbs rest m a = a
peaks_of-Ahead k (t ∷ ts) [] rest m a = a
peaks_of-Ahead k (t ∷ ts) (kb ∷ kbs) rest m a =
    (rw (seen_keys-peaks_of k ts kbs rest) m, peaks_of-Ahead k ts kbs rest m a)

pub accesses_of-Ahead : (e : EnrichedOomEvent) → Ahead (accesses_of e)
unfolding accesses_of
accesses_of-Ahead e =
    let k = key_of e in
    let tail = stamp k e.timestamp ∷ see k e.timestamp ∷ [] in
    let known =
      peaks_of-Ahead k memory_types (memory_values e.raw_event) tail (inl refl) (inl refl, tt) in
    (rw (seen_keys-peaks_of k memory_types (memory_values e.raw_event) tail) (inl refl), known)

module _ (vec : MetricVec) where
  open vec use {
    Family, value, set, touch, value-create, value-inc_by, value-set, value-touch, value-remove,
  }

  pub record NoLeak (c : MetricsCollector Family) (pending : List Access) (w : Sweeper)
      : Type 0 where
    pub ahead : Ahead pending
    pub kills :
        (k : SeriesKey)
        → is_some (value c.oom_kills_total (labels k)) ≡ true
        → is_known (λ j. j == k) c pending w ≡ true
    pub timestamps :
        (k : SeriesKey)
        → is_some (value c.oom_last_timestamp (labels k)) ≡ true
        → is_known (λ j. j == k) c pending w ≡ true
    pub memory :
        (k : SeriesKey) (t : Text)
        → any (λ u. u == t) memory_types ≡ true
        → is_some (value c.oom_memory_usage_bytes (memory_labels k t)) ≡ true
        → is_known (λ j. shares_memory_series_with j k) c pending w ≡ true

  -- A step that leaves the three families alone and forgets no key.
  pub NoLeak-frame :
      (c d : MetricsCollector Family) (p q : List Access) (w x : Sweeper)
      → Ahead q
      → d.oom_kills_total ≡ c.oom_kills_total
      → d.oom_last_timestamp ≡ c.oom_last_timestamp
      → d.oom_memory_usage_bytes ≡ c.oom_memory_usage_bytes
      → ((test : SeriesKey → Bool) → is_known test c p w ≡ true → is_known test d q x ≡ true)
      → NoLeak c p w
      → NoLeak d q x
  NoLeak-frame c d p q w x ahead same_kills same_stamps same_memory known v = record {
    ahead = ahead;
    kills = λ k h. known (λ j. j == k) (v.kills k (rw same_kills at h));
    timestamps = λ k h. known (λ j. j == k) (v.timestamps k (rw same_stamps at h));
    memory = λ k t m h.
        known (λ j. shares_memory_series_with j k) (v.memory k t m (rw same_memory at h));
  }
