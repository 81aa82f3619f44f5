-- ===== src/Metrics/Concurrent/Whole.antt =====
-- oom-watcher/src/metrics.rs: the steps of the interleavings, taken without a break, are the calls.
use ebpf_oom_watcher.Prelude.{ℕ, ◌≡◌, refl, List, [], ◌∷◌, Text}
use ebpf_oom_watcher.Prelude.HashMap.{drain_lem}
use ebpf_oom_watcher.Common.{EnrichedOomEvent}
use ebpf_oom_watcher.Prometheus.{MetricVec}
use ebpf_oom_watcher.Metrics.Key.{SeriesKey, key_of, or_unknown}
use ebpf_oom_watcher.Metrics.Collector.{
  MetricsCollector, memory_types, memory_values, record_peaks, record_series, record_seen,
  record_oom_event,
}
use ebpf_oom_watcher.Metrics.Evict.{
  is_stale, remove_series, remove_stale, take_due, sweep, evict_stale,
}
use ebpf_oom_watcher.Metrics.Concurrent.{
  Access, count_kill, count_on_node, raise_peak, stamp, see, peaks_of, accesses_of, perform,
  perform_all, scan, remove_one, remove_each,
}

module _ (vec : MetricVec) where
  open vec use {Family}

  perform_all-peaks_of :
      (k : SeriesKey) (ts : List Text) (kbs : List ℕ) (rest : List Access)
      (c : MetricsCollector Family)
      → perform_all vec (peaks_of k ts kbs rest) c
        ≡ perform_all vec rest (record c {
          oom_memory_usage_bytes = record_peaks vec k ts kbs c.oom_memory_usage_bytes;
        })
  unfolding perform_all record_peaks
  perform_all-peaks_of k [] kbs rest c = refl
  perform_all-peaks_of k (t ∷ ts) [] rest c = refl
  perform_all-peaks_of k (t ∷ ts) (kb ∷ kbs) rest c =
      perform_all-peaks_of k ts kbs rest (perform vec (raise_peak k t kb) c)

  perform_all-accesses_of :
      (e : EnrichedOomEvent) (c : MetricsCollector Family)
      → perform_all vec (accesses_of e) c ≡ record_oom_event vec e c
  unfolding perform_all accesses_of record_oom_event record_seen record_series
  perform_all-accesses_of e c =
      perform_all-peaks_of (key_of e) memory_types (memory_values e.raw_event)
        (stamp (key_of e) e.timestamp ∷ see (key_of e) e.timestamp ∷ [])
        (perform vec (count_on_node (or_unknown e.node_name))
          (perform vec (count_kill (key_of e)) c))

  remove_each-remove_stale :
      (stale : List SeriesKey) (c : MetricsCollector Family)
      → remove_each vec stale c ≡ remove_stale vec c.last_seen stale c
  unfolding remove_each remove_stale remove_series
  remove_each-remove_stale [] c = refl
  remove_each-remove_stale (key ∷ stale) c = remove_each-remove_stale stale (remove_one vec key c)

  scan-sweep :
      (now ttl : ℕ) (due : List (Text × Text)) (c : MetricsCollector Family)
      → remove_each vec (scan vec now ttl due c).0 (scan vec now ttl due c).1
        ≡ (sweep vec now ttl due c).1
  unfolding sweep scan
  scan-sweep now ttl due c =
      rw (drain_lem (is_stale now ttl due) c.last_seen)
        (remove_each-remove_stale (scan vec now ttl due c).0 (scan vec now ttl due c).1)

  abbrev pub sweep_alone : ℕ → ℕ → MetricsCollector Family → MetricsCollector Family
  sweep_alone now ttl c =
      let (due, drained) = take_due vec now c in
      let (stale, scanned) = scan vec now ttl due drained in remove_each vec stale scanned

  -- What the recorder's accesses do one after another is what `record_oom_event` does, and what the
  -- sweeper's steps do one after another is what `evict_stale` does.
  steps_are_calls :
      (e : EnrichedOomEvent) (now ttl : ℕ) (c : MetricsCollector Family)
      → (perform_all vec (accesses_of e) c ≡ record_oom_event vec e c)
        × (sweep_alone now ttl c ≡ (evict_stale vec now ttl c).1)
  unfolding evict_stale
  steps_are_calls e now ttl c = (
    perform_all-accesses_of e c,
    scan-sweep now ttl (take_due vec now c).0 (take_due vec now c).1,
  )
