-- ===== src/UnitTests/Loops.antt =====
-- The tests of oom-watcher/src/watch.rs: the loop, from a list of events to the recording spy.
use ebpf_oom_watcher.Prelude.{
  ℕ, ◌≡◌, refl, List, [], ◌∷◌, ◌++◌, Option, none, some, Text, codes, replicate, map, length,
}
use ebpf_oom_watcher.Common.{OomKillEvent, EnrichedOomEvent}
use ebpf_oom_watcher.Enrich.{enrich}
use ebpf_oom_watcher.Resolve.{identity, ContainerResolver, Behavior, fake}
use ebpf_oom_watcher.Watch.{
  OomEventSource, Turn, source_wins, ticker_wins, Loop, VecSource, vec_source, run, process_event,
  report_drops, select, handle,
}
use ebpf_oom_watcher.Watch.Spy.{SpyRecorder, spy, no_calls, reason}
use ebpf_oom_watcher.UnitTests.{prod_identity}

abbrev raw : ℕ → OomKillEvent
raw pid = record {
  pid = pid;
  comm = codes "target" ++ replicate 10 0;
  total_vm = 100;
  anon_rss = 50;
  file_rss = 10;
  shmem_rss = 5;
  uid = 1000;
  pgtables = 2;
  oom_score_adj = 0;
}

abbrev clock : ℕ
clock = 1717000000

abbrev source : List OomKillEvent → VecSource
source events = record { events = events; drops = none }

abbrev source_reporting_drops : List OomKillEvent → ℕ → VecSource
source_reporting_drops events drops = record { events = events; drops = some drops }

-- A source that is always ready: its arm wins for each event and for the end.
abbrev turns_for : List OomKillEvent → List (Turn Unit)
turns_for [] = source_wins tt clock clock ∷ []
turns_for (e ∷ es) = source_wins tt clock clock ∷ turns_for es

abbrev push : ℕ → List ℕ → List ℕ
push at beats = beats ++ (at ∷ [])

abbrev start : {S : Type 0} → S → Loop S SpyRecorder (List ℕ)
start s = record { source = s; recorder = no_calls; pulse = [] }

-- The loop run to the end of the source.
abbrev after : Option (ContainerResolver Unit) → VecSource → Loop VecSource SpyRecorder (List ℕ)
after resolver s = (run vec_source resolver spy push (turns_for s.events) (start s)).1

abbrev on : Text → Behavior → Option (ContainerResolver Unit)
on node behavior = some (fake (record { node = node; behavior = behavior }))

-- The first event that the spy holds.
abbrev First : (EnrichedOomEvent → Type 0) → List EnrichedOomEvent → Type 0
First P [] = ⊥
First P (e ∷ es) = P e

abbrev EnrichesAndRecordsAResolvedEvent : Type 0
EnrichesAndRecordsAResolvedEvent =
    let s =
      (after (on (codes "node-1") (Behavior.found prod_identity))
        (source (raw 1234 ∷ []))).recorder in
    (length s.events ≡ 1)
    × First
        (λ e.
          (e.node_name ≡ some (codes "node-1"))
          × (e.namespace ≡ some (codes "prod"))
          × (e.pod_name ≡ some (codes "api-7d9"))
          × (e.container_name ≡ some (codes "api"))
          × (e.raw_event.pid ≡ 1234)
          × (e.timestamp ≡ clock))
        s.events
    × (s.outcomes ≡ (codes "node-1", codes "found") ∷ [])

enriches_and_records_a_resolved_event : EnrichesAndRecordsAResolvedEvent
unfolding run select handle process_event report_drops identity enrich reason
enriches_and_records_a_resolved_event = (refl, (refl, refl, refl, refl, refl, refl), refl)

abbrev KeepsNodeButNoIdentityWhenNotFound : Type 0
KeepsNodeButNoIdentityWhenNotFound =
    let s = (after (on (codes "node-1") Behavior.not_found) (source (raw 1 ∷ []))).recorder in
    First
      (λ e. (e.node_name ≡ some (codes "node-1")) × (e.namespace ≡ none) × (e.container_id ≡ none))
      s.events
    × (s.outcomes ≡ (codes "node-1", codes "not_found") ∷ [])

keeps_node_but_no_identity_when_not_found : KeepsNodeButNoIdentityWhenNotFound
unfolding run select handle process_event report_drops identity enrich reason
keeps_node_but_no_identity_when_not_found = ((refl, refl, refl), refl)

abbrev RecordsFailureOutcomeAndKeepsNode : Type 0
RecordsFailureOutcomeAndKeepsNode =
    let s = (after (on (codes "node-1") Behavior.fail) (source (raw 1 ∷ []))).recorder in
    First (λ e. (e.node_name ≡ some (codes "node-1")) × (e.namespace ≡ none)) s.events
    × (s.outcomes ≡ (codes "node-1", codes "error") ∷ [])

records_failure_outcome_and_keeps_node : RecordsFailureOutcomeAndKeepsNode
unfolding run select handle process_event report_drops identity enrich reason
records_failure_outcome_and_keeps_node = ((refl, refl), refl)

abbrev StandaloneModeHasNoNodeAndRecordsNoOutcome : Type 0
StandaloneModeHasNoNodeAndRecordsNoOutcome =
    let s = (after none (source (raw 1 ∷ []))).recorder in
    First (λ e. e.node_name ≡ none) s.events × (s.outcomes ≡ [])

standalone_mode_has_no_node_and_records_no_outcome : StandaloneModeHasNoNodeAndRecordsNoOutcome
unfolding run select handle process_event report_drops enrich
standalone_mode_has_no_node_and_records_no_outcome = (refl, refl)

abbrev ReportsTheSourcesDropTotalAlongsideEachEvent : Type 0
ReportsTheSourcesDropTotalAlongsideEachEvent =
    (after (on (codes "node-1") Behavior.not_found)
      (source_reporting_drops (raw 1 ∷ raw 2 ∷ []) 4)).recorder.drops
    ≡ (codes "node-1", 4) ∷ (codes "node-1", 4) ∷ []

reports_the_sources_drop_total_alongside_each_event : ReportsTheSourcesDropTotalAlongsideEachEvent
unfolding run select handle process_event report_drops
reports_the_sources_drop_total_alongside_each_event = refl

abbrev ReportsNoDropsWhenTheSourceCannotObserveThem : Type 0
ReportsNoDropsWhenTheSourceCannotObserveThem =
    (after (on (codes "node-1") Behavior.not_found) (source (raw 1 ∷ []))).recorder.drops ≡ []

reports_no_drops_when_the_source_cannot_observe_them : ReportsNoDropsWhenTheSourceCannotObserveThem
unfolding run select handle process_event report_drops
reports_no_drops_when_the_source_cannot_observe_them = refl

abbrev LabelsDropsUnknownInStandaloneMode : Type 0
LabelsDropsUnknownInStandaloneMode =
    (after none (source_reporting_drops (raw 1 ∷ []) 2)).recorder.drops ≡ (codes "unknown", 2) ∷ []

labels_drops_unknown_in_standalone_mode : LabelsDropsUnknownInStandaloneMode
unfolding run select handle process_event report_drops
labels_drops_unknown_in_standalone_mode = refl

abbrev StampsAHeartbeatAfterEveryEvent : Type 0
StampsAHeartbeatAfterEveryEvent =
    (after (on (codes "n") Behavior.not_found) (source (raw 1 ∷ raw 2 ∷ raw 3 ∷ []))).pulse
    ≡ clock ∷ clock ∷ clock ∷ []

stamps_a_heartbeat_after_every_event : StampsAHeartbeatAfterEveryEvent
unfolding run select handle process_event report_drops
stamps_a_heartbeat_after_every_event = refl

-- `NeverSource` never yields, so that its arm never wins: what its `next` would return does not
-- matter. Three ticks fall within the time that the test allows.
abbrev StampsAHeartbeatWhileNoEventsArrive : Type 1
StampsAHeartbeatWhileNoEventsArrive =
    (S : Type 0) (never_source : OomEventSource S) (s : S)
    → let ticks : List (Turn Unit) = replicate 3 (ticker_wins clock) in
      let l = (run never_source none spy push ticks (start s)).1 in
      (length l.pulse ≡ 3) × (l.recorder.events ≡ [])

stamps_a_heartbeat_while_no_events_arrive : StampsAHeartbeatWhileNoEventsArrive
unfolding run select handle
stamps_a_heartbeat_while_no_events_arrive S never_source s = (refl, refl)

abbrev DrainsEveryEventInOrder : Type 0
DrainsEveryEventInOrder =
    map (λ (e : EnrichedOomEvent). e.raw_event.pid)
      (after (on (codes "n") Behavior.not_found)
        (source (raw 1 ∷ raw 2 ∷ raw 3 ∷ []))).recorder.events
    ≡ 1 ∷ 2 ∷ 3 ∷ []

drains_every_event_in_order : DrainsEveryEventInOrder
unfolding run select handle process_event report_drops enrich identity
drains_every_event_in_order = refl
