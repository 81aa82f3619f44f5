-- ===== src/Program/Together/Drops/Counter.antt =====
-- oom-watcher/src/main.rs: what each call that the tasks make does to the drop counter.
use ebpf_oom_watcher.Prelude.{
  ℕ, ◌-◌, ◌≡◌, refl, ap, ◌∙◌, List, [], ◌∷◌, Option, none, some, Text, arith, foldl, ltb,
  if◌then◌else◌, push_some,
}
use ebpf_oom_watcher.Prelude.Float.{to_f64}
use ebpf_oom_watcher.Common.{EnrichedOomEvent}
use ebpf_oom_watcher.Enrich.{enrich}
use ebpf_oom_watcher.Resolve.{ResolutionOutcome, ContainerResolver, identity}
use ebpf_oom_watcher.Recorder.{prometheus, replay}
use ebpf_oom_watcher.Prometheus.{MetricVec}
use ebpf_oom_watcher.Metrics.Key.{SeriesKey}
use ebpf_oom_watcher.Metrics.Collector.{
  MetricsCollector, record_dropped_total, record_oom_event, record_seen, record_series,
  record_resolution_outcome,
}
use ebpf_oom_watcher.Metrics.Evict.{
  evict_stale, take_due, sweep, remove_stale, remove_series, is_orphaned,
}
use ebpf_oom_watcher.Prelude.HashMap.{HashMap}
use ebpf_oom_watcher.Metrics.Drops.{read_totals}
use ebpf_oom_watcher.Watch.{node_label, unknown}
use ebpf_oom_watcher.Watch.Spec.{Taken, reports_of}

module _ (vec : MetricVec) (node : Text) where
  open vec use {Family, inc_by}

  -- What `record_dropped_total` reads and writes.
  abbrev pub drops_of : MetricsCollector Family → Family × ℕ
  drops_of c = (c.oom_events_dropped_total, c.last_dropped_total)

  abbrev pub advance : Family × ℕ → ℕ → Family × ℕ
  advance (family, last) total = (
    if ltb total last
        then family
        else if ltb 0 (total - last)
        then inc_by (node ∷ []) (to_f64 (total - last)) family
        else family,
    total,
  )

  drops_of-record_dropped_total :
      (total : ℕ) (c : MetricsCollector Family)
      → drops_of (record_dropped_total vec node total c) ≡ advance (drops_of c) total
  unfolding record_dropped_total
  drops_of-record_dropped_total total c = ground arith

  pub drops_of-read_totals :
      (totals : List ℕ) (c : MetricsCollector Family)
      → drops_of (read_totals vec node totals c) ≡ foldl advance (drops_of c) totals
  unfolding read_totals
  drops_of-read_totals [] c = refl
  drops_of-read_totals (total ∷ totals) c =
      drops_of-read_totals totals (record_dropped_total vec node total c)
      ∙ ap (λ d. foldl advance d totals) (drops_of-record_dropped_total total c)

  drops_of-outcome :
      (on : Text) (o : ResolutionOutcome) (c : MetricsCollector Family)
      → drops_of (record_resolution_outcome vec on o c) ≡ drops_of c
  unfolding record_resolution_outcome
  drops_of-outcome on (ResolutionOutcome.found id) c = refl
  drops_of-outcome on ResolutionOutcome.not_found c = refl
  drops_of-outcome on (ResolutionOutcome.failed e) c = refl

  drops_of-event :
      (e : EnrichedOomEvent) (c : MetricsCollector Family)
      → drops_of (record_oom_event vec e c) ≡ drops_of c
  unfolding record_oom_event record_seen record_series
  drops_of-event e c = refl

  drops_of-remove_stale :
      (live : HashMap SeriesKey ℕ) (stale : List SeriesKey) (c : MetricsCollector Family)
      → drops_of (remove_stale vec live stale c) ≡ drops_of c
  unfolding remove_stale remove_series
  drops_of-remove_stale live [] c = refl
  drops_of-remove_stale live (s ∷ stale) c =
      drops_of-remove_stale live stale (remove_series vec s (is_orphaned live s) c)

  pub drops_of-evict_stale :
      (now ttl : ℕ) (c : MetricsCollector Family)
      → drops_of (evict_stale vec now ttl c).1 ≡ drops_of c
  unfolding evict_stale sweep take_due
  drops_of-evict_stale now ttl c = drops_of-remove_stale _ _ _

resolved :
    {World : Type 0} (vec : MetricVec) (client : ContainerResolver World) (t : Taken World)
    (c : MetricsCollector vec.Family)
    → let o = client.resolve t.world t.raw.pid in
      drops_of vec client.node_name (
        record_oom_event vec
          (enrich t.raw (some client.node_name) (identity o) t.at)
          (record_resolution_outcome vec client.node_name o c))
      ≡ drops_of vec client.node_name c
resolved vec client t c =
    let o = client.resolve t.world t.raw.pid in
    drops_of-event vec client.node_name (enrich t.raw (some client.node_name) (identity o) t.at)
      (record_resolution_outcome vec client.node_name o c)
    ∙ drops_of-outcome vec client.node_name client.node_name o c

-- The reports of one event bear on the drop counter by the total alone.
pub drops_of-reports_of :
    {World : Type 0} (vec : MetricVec) (resolver : Option (ContainerResolver World))
    (t : Taken World) (total : Option ℕ) (c : MetricsCollector vec.Family)
    → drops_of vec
        (node_label resolver)
        (replay (prometheus vec) (reports_of resolver t.world t.raw t.at total) c)
      ≡ foldl
          (advance vec (node_label resolver))
          (drops_of vec (node_label resolver) c)
          (push_some total [])
drops_of-reports_of vec none t none c = drops_of-event vec unknown (enrich t.raw none none t.at) c
drops_of-reports_of vec none t (some total) c =
    let e = enrich t.raw none none t.at in
    drops_of-record_dropped_total vec unknown total (record_oom_event vec e c)
    ∙ ap (λ d. advance vec unknown d total) (drops_of-event vec unknown e c)
drops_of-reports_of vec (some client) t none c = resolved vec client t c
drops_of-reports_of vec (some client) t (some total) c =
    let o = client.resolve t.world t.raw.pid in
    let e = enrich t.raw (some client.node_name) (identity o) t.at in
    drops_of-record_dropped_total vec client.node_name total
      (record_oom_event vec e (record_resolution_outcome vec client.node_name o c))
    ∙ ap (λ d. advance vec client.node_name d total) (resolved vec client t c)
