-- ===== src/Metrics/Drops.antt =====
-- oom-watcher/src/metrics.rs, `record_dropped_total`: a counter driven by absolute readings.
use ebpf_oom_watcher.Prelude.{
  ℕ, ◌+◌, ◌-◌, ◌≤◌, ◌<◌, ◌≡◌, ◌∙◌, List, [], ◌∷◌, arith, Text, list_eq, nat_eq, eq_self,
}
use ebpf_oom_watcher.Prelude.Float.{f64_add_exact, to_f64, to_f64_exact, exact_below}
use ebpf_oom_watcher.Prometheus.{MetricVec, or_zero}
use ebpf_oom_watcher.Metrics.Collector.{MetricsCollector, record_dropped_total}

-- The rises between consecutive readings, summed; a fall adds nothing.
abbrev pub gains : ℕ → List ℕ → ℕ
gains previous [] = 0
gains previous (total ∷ totals) = (total - previous) + gains total totals

-- Readings that never fall.
abbrev pub IsRising : ℕ → List ℕ → Type 0
IsRising previous [] = Unit
IsRising previous (total ∷ totals) = (previous ≤ total) × IsRising total totals

abbrev pub last_reading : ℕ → List ℕ → ℕ
last_reading previous [] = previous
last_reading previous (total ∷ totals) = last_reading total totals

gains-IsRising :
    (previous : ℕ) (totals : List ℕ)
    → IsRising previous totals
    → (previous + gains previous totals ≡ last_reading previous totals)
gains-IsRising previous [] h = omega arith
gains-IsRising previous (total ∷ totals) (h, r) = omega (arith, gains-IsRising total totals r)

module _ (vec : MetricVec) (node : Text) where
  open vec use {Family, value, value-inc_by}

  abbrev pub drop_total : MetricsCollector Family → ℕ
  drop_total c = or_zero (value c.oom_events_dropped_total (node ∷ []))

  -- The readings of one source, in order.
  unfoldable pub read_totals : List ℕ → MetricsCollector Family → MetricsCollector Family
  read_totals [] c = c
  read_totals (total ∷ totals) c = read_totals totals (record_dropped_total vec node total c)

  record_dropped_total-gain :
      (total : ℕ) (c : MetricsCollector Family)
      → drop_total c + (total - c.last_dropped_total) < exact_below
      → (drop_total (record_dropped_total vec node total c)
          ≡ drop_total c + (total - c.last_dropped_total))
        × ((record_dropped_total vec node total c).last_dropped_total ≡ total)
  unfolding record_dropped_total
  record_dropped_total-gain total c h = ground (
    arith,
    value-inc_by (node ∷ []) (node ∷ []) (to_f64 (total - c.last_dropped_total))
        c.oom_events_dropped_total,
    eq_self (node ∷ []),
    to_f64_exact (total - c.last_dropped_total),
    f64_add_exact (drop_total c) (total - c.last_dropped_total),
  )

  -- The counter grows by the sum of the rises between readings, and never falls.
  read_totals-gains :
      (totals : List ℕ) (c : MetricsCollector Family)
      → drop_total c + gains c.last_dropped_total totals < exact_below
      → drop_total (read_totals totals c) ≡ drop_total c + gains c.last_dropped_total totals
  unfolding read_totals
  read_totals-gains [] c h = omega arith
  read_totals-gains (total ∷ totals) c h =
      let step = record_dropped_total-gain total c (omega arith) in
      let rest =
        read_totals-gains totals (record_dropped_total vec node total c)
          (rw step.1 (omega arith)) in
      rest ∙ rw step.1 (omega arith)

  -- With readings that never fall, the counter has grown by exactly what the source's total has,
  -- however the growth was split over the readings.
  pub read_totals-IsRising :
      (totals : List ℕ) (c : MetricsCollector Family)
      → IsRising c.last_dropped_total totals
      → drop_total c + gains c.last_dropped_total totals < exact_below
      → drop_total (read_totals totals c) + c.last_dropped_total
        ≡ drop_total c + last_reading c.last_dropped_total totals
  read_totals-IsRising totals c r h =
      omega (arith, read_totals-gains totals c h, gains-IsRising c.last_dropped_total totals r)

  -- A reading that falls and then recovers is counted again: the counter rises by the depth of the
  -- dip, though the source's total has not risen.
  pub read_totals-dip :
      (low : ℕ) (c : MetricsCollector Family)
      → low ≤ c.last_dropped_total
      → drop_total c + c.last_dropped_total < exact_below
      → drop_total (read_totals (low ∷ c.last_dropped_total ∷ []) c)
        ≡ drop_total c + (c.last_dropped_total - low)
  read_totals-dip low c h g =
      read_totals-gains (low ∷ c.last_dropped_total ∷ []) c (omega arith) ∙ omega arith
