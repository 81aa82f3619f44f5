-- ===== src/Recorder.antt =====
-- oom-watcher/src/metrics.rs, the trait `MetricsRecorder`: how the watch loop reports.
use ebpf_oom_watcher.Prelude.{ℕ, List, [], ◌∷◌, Text}
use ebpf_oom_watcher.Common.{EnrichedOomEvent}
use ebpf_oom_watcher.Resolve.{ResolutionOutcome}
use ebpf_oom_watcher.Prometheus.{MetricVec}
use ebpf_oom_watcher.Metrics.Collector
use ebpf_oom_watcher.Metrics.Collector.{MetricsCollector}

-- A recorder over its own state; `&self` methods change that state.
pub record MetricsRecorder (R : Type 0) : Type 0 where
  pub record_resolution_outcome : Text → ResolutionOutcome → R → R
  pub record_oom_event : EnrichedOomEvent → R → R
  pub record_dropped_total : Text → ℕ → R → R

-- The Prometheus adapter.
abbrev pub prometheus : (vec : MetricVec) → MetricsRecorder (MetricsCollector vec.Family)
prometheus vec = record {
  record_resolution_outcome = Collector.record_resolution_outcome vec;
  record_oom_event = Collector.record_oom_event vec;
  record_dropped_total = Collector.record_dropped_total vec;
}

-- One report, as the recording spy of the tests keeps it.
pub data Report : Type 0 where
  outcome : Text → ResolutionOutcome → Report
  event : EnrichedOomEvent → Report
  dropped : Text → ℕ → Report

module _ {R : Type 0} (recorder : MetricsRecorder R) where
  abbrev pub deliver : Report → R → R
  deliver (outcome node o) r = recorder.record_resolution_outcome node o r
  deliver (event e) r = recorder.record_oom_event e r
  deliver (dropped node total) r = recorder.record_dropped_total node total r

  -- A list of reports made in order.
  abbrev pub replay : List Report → R → R
  replay [] r = r
  replay (report ∷ reports) r = replay reports (deliver report r)
