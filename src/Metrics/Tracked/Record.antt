-- ===== src/Metrics/Tracked/Record.antt =====
-- oom-watcher/src/metrics.rs, `record_oom_event`: recording keeps the bookkeeping invariant.
use ebpf_oom_watcher.Prelude.{
  ℕ, ◌≤◌, ◌≡◌, refl, ◌&&◌, ◌||◌, List, [], ◌∷◌, arith, Text, ◌==◌, list_eq, nat_eq, any, is_some,
  length,
}
use ebpf_oom_watcher.Prelude.HashMap.{get-insert, insert-Distinct, any-keys-insert}
use ebpf_oom_watcher.Prelude.Float.{to_f64}
use ebpf_oom_watcher.Common.{EnrichedOomEvent}
use ebpf_oom_watcher.Prometheus.{MetricVec}
use ebpf_oom_watcher.Metrics.Key.{
  SeriesKey, key_eq, labels, memory_labels, shares_memory_series_with, key_of, labels_beq,
  memory_labels_beq,
}
use ebpf_oom_watcher.Metrics.Collector.{
  MetricsCollector, memory_types, memory_values, bytes_of, record_peak, record_peaks, record_series,
  record_seen, record_oom_event,
}
use ebpf_oom_watcher.Metrics.Invariant.{IsTracked}

module _ (vec : MetricVec) where
  open vec use {Family, value, touch, set, value-touch, value-set, value-inc_by}

  -- One round makes the series it names and no other.
  pub is_some-record_peak :
      (k : SeriesKey) (t : Text) (kb : ℕ) (m : Family) (l : List Text)
      → is_some (value (record_peak vec k t kb m) l)
        ≡ (memory_labels k t == l || is_some (value m l))
  unfolding record_peak
  is_some-record_peak k t kb m l = ground (
    arith,
    value-touch (memory_labels k t) l m,
    value-touch (memory_labels k t) (memory_labels k t) m,
    value-set (memory_labels k t) l (bytes_of kb) (touch (memory_labels k t) m),
  )

  is_some-record_peaks :
      (k j : SeriesKey) (s : Text) (ts : List Text) (kbs : List ℕ) (m : Family)
      → length ts ≤ length kbs
      → is_some (value (record_peaks vec k ts kbs m) (memory_labels j s)) ≡ (
          (any (λ t. t == s) ts && shares_memory_series_with k j)
          || is_some (value m (memory_labels j s)))
  unfolding record_peaks
  is_some-record_peaks k j s [] kbs m h = refl
  is_some-record_peaks k j s (t ∷ ts) [] m h = absurd (omega arith)
  is_some-record_peaks k j s (t ∷ ts) (kb ∷ kbs) m h = ground (
    arith,
    is_some-record_peaks k j s ts kbs (record_peak vec k t kb m),
    is_some-record_peak k t kb m (memory_labels j s),
    memory_labels_beq k j t s,
  )

  record_series-kills :
      (e : EnrichedOomEvent) (c : MetricsCollector Family) (k : SeriesKey)
      → is_some (value (record_series vec e c).oom_kills_total (labels k))
        ≡ (key_of e == k || is_some (value c.oom_kills_total (labels k)))
  unfolding record_series
  record_series-kills e c k = ground (
    arith,
    value-inc_by (labels (key_of e)) (labels k) 1 c.oom_kills_total,
    labels_beq (key_of e) k,
  )

  record_series-timestamps :
      (e : EnrichedOomEvent) (c : MetricsCollector Family) (k : SeriesKey)
      → is_some (value (record_series vec e c).oom_last_timestamp (labels k))
        ≡ (key_of e == k || is_some (value c.oom_last_timestamp (labels k)))
  unfolding record_series
  record_series-timestamps e c k = ground (
    arith,
    value-set (labels (key_of e)) (labels k) (to_f64 e.timestamp)
        (touch (labels (key_of e)) c.oom_last_timestamp),
    value-touch (labels (key_of e)) (labels k) c.oom_last_timestamp,
    labels_beq (key_of e) k,
  )

  -- An event adds its own key to the tracked ones, and its series to the shown ones.
  pub record_oom_event-IsTracked :
      (e : EnrichedOomEvent) (c : MetricsCollector Family)
      → IsTracked vec c
      → IsTracked vec (record_oom_event vec e c)
  unfolding record_oom_event record_seen record_series memory_values
  record_oom_event-IsTracked e c v = record {
    distinct = insert-Distinct (key_of e) e.timestamp c.last_seen v.distinct;
    pods_distinct = v.pods_distinct;
    kills = λ k. ground (
      arith,
      record_series-kills e c k,
      get-insert (key_of e) k e.timestamp c.last_seen,
      v.kills k,
    );
    timestamps = λ k. ground (
      arith,
      record_series-timestamps e c k,
      get-insert (key_of e) k e.timestamp c.last_seen,
      v.timestamps k,
    );
    memory = λ k t. ground (
      arith,
      is_some-record_peaks (key_of e) k t memory_types (memory_values e.raw_event)
          c.oom_memory_usage_bytes,
      any-keys-insert (λ j. shares_memory_series_with j k) (key_of e) e.timestamp c.last_seen,
      v.memory k t,
    );
  }
