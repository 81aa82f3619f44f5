-- ===== src/Metrics/Peak.antt =====
-- oom-watcher/src/metrics.rs, `oom_memory_usage_bytes`: each kind of memory holds its own peak.
use ebpf_oom_watcher.Prelude.{
  ℕ, ◌≡◌, refl, ap, ◌∙◌, List, [], ◌∷◌, arith, Text, codes, if◌then◌else◌, ◌==◌, list_eq, nat_eq,
  max,
}
use ebpf_oom_watcher.Common.{OomKillEvent, EnrichedOomEvent}
use ebpf_oom_watcher.Resolve.{ResolutionOutcome}
use ebpf_oom_watcher.Prometheus.{MetricVec, or_zero}
use ebpf_oom_watcher.Metrics.Key.{
  SeriesKey, key_of, memory_labels, shares_memory_series_with, memory_labels_beq,
}
use ebpf_oom_watcher.Metrics.Collector.{
  MetricsCollector, memory_types, memory_values, bytes_of, record_peak, record_peaks, record_series,
  record_seen, record_oom_event, record_resolution_outcome, record_dropped_total, note_pod_deleted,
}
use ebpf_oom_watcher.Metrics.History.{
  Call, outcome, event, dropped, pod_deleted, evict, apply, run_calls,
}

-- The figure of an event for one kind of memory, in bytes.
abbrev figure : Text → OomKillEvent → ℕ
figure s raw =
    if codes "total_vm" == s
    then bytes_of raw.total_vm
    else if codes "anon_rss" == s
    then bytes_of raw.anon_rss
    else if codes "file_rss" == s
    then bytes_of raw.file_rss
    else if codes "shmem_rss" == s
    then bytes_of raw.shmem_rss
    else 0

-- The specification: the largest figure of the events of containers that share the series of `k`.
abbrev peak_of : SeriesKey → Text → List Call → ℕ → ℕ
peak_of k s [] old = old
peak_of k s (event e ∷ calls) old =
    peak_of k s calls
      (if shares_memory_series_with (key_of e) k then max old (figure s e.raw_event) else old)
peak_of k s (_ ∷ calls) old = peak_of k s calls old

-- No sweep among the calls.
abbrev HasNoSweep : List Call → Type 0
HasNoSweep [] = Unit
HasNoSweep (evict now ttl ∷ calls) = ⊥
HasNoSweep (_ ∷ calls) = HasNoSweep calls

module _ (vec : MetricVec) where
  open vec use {Family, value, touch, value-touch, value-set}

  value-record_peak :
      (k : SeriesKey) (t : Text) (kb : ℕ) (m : Family) (l : List Text)
      → or_zero (value (record_peak vec k t kb m) l) ≡ (
          if memory_labels k t == l
          then max (or_zero (value m l)) (bytes_of kb)
          else or_zero (value m l))
  unfolding record_peak
  value-record_peak k t kb m l = ground (
    arith,
    value-touch (memory_labels k t) l m,
    value-touch (memory_labels k t) (memory_labels k t) m,
    value-set (memory_labels k t) l (bytes_of kb) (touch (memory_labels k t) m),
    (list_eq {A = Text}).eq_iff (memory_labels k t) l,
    (list_eq {A = Text}).eq_iff (memory_labels k t) (memory_labels k t),
  )

  -- The largest figure that the loop has for the kind `s`.
  loop_figure : Text → List Text → List ℕ → ℕ
  loop_figure s (t ∷ ts) (kb ∷ kbs) = max (if t == s then bytes_of kb else 0) (loop_figure s ts kbs)
  loop_figure s _ _ = 0

  value-record_peaks :
      (k j : SeriesKey) (s : Text) (ts : List Text) (kbs : List ℕ) (m : Family)
      → or_zero (value (record_peaks vec k ts kbs m) (memory_labels j s)) ≡ (
          if shares_memory_series_with k j
          then max (or_zero (value m (memory_labels j s))) (loop_figure s ts kbs)
          else or_zero (value m (memory_labels j s)))
  unfolding record_peaks loop_figure
  value-record_peaks k j s [] kbs m = ground arith
  value-record_peaks k j s (t ∷ ts) [] m = ground arith
  value-record_peaks k j s (t ∷ ts) (kb ∷ kbs) m = ground (
    arith,
    value-record_peaks k j s ts kbs (record_peak vec k t kb m),
    value-record_peak k t kb m (memory_labels j s),
    memory_labels_beq k j t s,
  )

  loop_figure-figure :
      (s : Text) (raw : OomKillEvent)
      → loop_figure s memory_types (memory_values raw) ≡ figure s raw
  unfolding loop_figure memory_values
  loop_figure-figure s raw = ground (
    arith,
    (list_eq {A = ℕ}).eq_iff (codes "total_vm") s,
    (list_eq {A = ℕ}).eq_iff (codes "anon_rss") s,
    (list_eq {A = ℕ}).eq_iff (codes "file_rss") s,
    (list_eq {A = ℕ}).eq_iff (codes "shmem_rss") s,
  )

  value-record_oom_event :
      (e : EnrichedOomEvent) (c : MetricsCollector Family) (k : SeriesKey) (s : Text)
      → or_zero (value (record_oom_event vec e c).oom_memory_usage_bytes (memory_labels k s)) ≡ (
          if shares_memory_series_with (key_of e) k
          then max
              (or_zero (value c.oom_memory_usage_bytes (memory_labels k s)))
              (figure s e.raw_event)
          else or_zero (value c.oom_memory_usage_bytes (memory_labels k s)))
  unfolding record_oom_event record_seen record_series
  value-record_oom_event e c k s = ground (
    arith,
    value-record_peaks (key_of e) k s memory_types (memory_values e.raw_event)
        c.oom_memory_usage_bytes,
    loop_figure-figure s e.raw_event,
  )

  outcome_frame :
      (node : Text) (o : ResolutionOutcome) (c : MetricsCollector Family)
      → (record_resolution_outcome vec node o c).oom_memory_usage_bytes ≡ c.oom_memory_usage_bytes
  unfolding record_resolution_outcome
  outcome_frame node (ResolutionOutcome.found id) c = refl
  outcome_frame node _ c = refl

  dropped_frame :
      (node : Text) (total : ℕ) (c : MetricsCollector Family)
      → (record_dropped_total vec node total c).oom_memory_usage_bytes ≡ c.oom_memory_usage_bytes
  unfolding record_dropped_total
  dropped_frame node total c = ground arith

  -- Between two sweeps each memory series of a container holds the largest figure of its kind among
  -- the events of that container, or what it held before if that is larger. Nothing else writes it.
  pub peak_history :
      (k : SeriesKey) (s : Text) (calls : List Call) (c : MetricsCollector Family)
      → HasNoSweep calls
      → or_zero (value (run_calls vec calls c).oom_memory_usage_bytes (memory_labels k s))
        ≡ peak_of k s calls (or_zero (value c.oom_memory_usage_bytes (memory_labels k s)))
  unfolding run_calls apply note_pod_deleted
  peak_history k s [] c h = refl
  peak_history k s (outcome node o ∷ calls) c h =
      peak_history k s calls (record_resolution_outcome vec node o c) h
      ∙ ap (λ m. peak_of k s calls (or_zero (value m (memory_labels k s)))) (outcome_frame node o c)
  peak_history k s (event e ∷ calls) c h =
      peak_history k s calls (record_oom_event vec e c) h
      ∙ ap (peak_of k s calls) (value-record_oom_event e c k s)
  peak_history k s (dropped node total ∷ calls) c h =
      peak_history k s calls (record_dropped_total vec node total c) h
      ∙ ap (λ m. peak_of k s calls (or_zero (value m (memory_labels k s))))
          (dropped_frame node total c)
  peak_history k s (pod_deleted namespace pod now ∷ calls) c h =
      peak_history k s calls (note_pod_deleted vec namespace pod now c) h
  peak_history k s (evict now ttl ∷ calls) c h = elim h [ ]
