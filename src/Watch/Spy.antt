-- ===== src/Watch/Spy.antt =====
-- oom-watcher/src/watch.rs, the adapters of the loop's tests: the recording spy, and what it holds
-- after a run.
use ebpf_oom_watcher.Prelude.{
  ℕ, ◌≡◌, refl, ap, sym, ◌∙◌, List, [], ◌∷◌, ◌++◌, Option, none, some, Text, codes, map,
  append_assoc, append-nil,
}
use ebpf_oom_watcher.Common.{EnrichedOomEvent}
use ebpf_oom_watcher.Enrich.{enrich}
use ebpf_oom_watcher.Resolve.{
  ResolutionOutcome, found, not_found, failed, identity, ContainerResolver,
}
use ebpf_oom_watcher.Recorder.{MetricsRecorder, Report, outcome, event, dropped, deliver, replay}
use ebpf_oom_watcher.Watch.{OomEventSource, Turn, node_label, run}
use ebpf_oom_watcher.Watch.Spec.{Taken, taken, reports, reports_of, run-reports, replay-append}

-- The `RefCell`s, each with what was pushed to it.
pub record SpyRecorder : Type 0 where
  pub outcomes : List (Text × Text)
  pub events : List EnrichedOomEvent
  pub drops : List (Text × ℕ)

-- `SpyRecorder::default`.
abbrev pub no_calls : SpyRecorder
no_calls = record { outcomes = []; events = []; drops = [] }

unfoldable pub reason : ResolutionOutcome → Text
reason (found id) = codes "found"
reason not_found = codes "not_found"
reason (failed e) = codes "error"

abbrev pub spy : MetricsRecorder SpyRecorder
spy = record {
  record_resolution_outcome =
      λ node outcome s. record s { outcomes = s.outcomes ++ ((node, reason outcome) ∷ []) };
  record_oom_event = λ event s. record s { events = s.events ++ (event ∷ []) };
  record_dropped_total = λ node total s. record s { drops = s.drops ++ ((node, total) ∷ []) };
}

-- What the spy ought to hold of the events taken.
module _ {World : Type 0} (resolver : Option (ContainerResolver World)) where
  abbrev outcomes_of : List (Taken World) → List (Text × Text)
  outcomes_of ts = elim resolver [
    | none ↦ []
    | some client ↦ map (λ t. (client.node_name, reason (client.resolve t.world t.raw.pid))) ts
  ]

  abbrev enriched : Taken World → EnrichedOomEvent
  enriched t = elim resolver [
    | none ↦ enrich t.raw none none t.at
    | some client ↦
        enrich t.raw (some client.node_name) (identity (client.resolve t.world t.raw.pid)) t.at
  ]

  abbrev totals_of : List (Taken World) → List (Text × ℕ)
  totals_of [] = []
  totals_of (t ∷ ts) = elim t.total [
    | none ↦ totals_of ts
    | some total ↦ (node_label resolver, total) ∷ totals_of ts
  ]

  abbrev pub held : List (Taken World) → SpyRecorder
  held ts = record { outcomes = outcomes_of ts; events = map enriched ts; drops = totals_of ts }

-- One log after the other.
abbrev plus : SpyRecorder → SpyRecorder → SpyRecorder
plus a b = record {
  outcomes = a.outcomes ++ b.outcomes;
  events = a.events ++ b.events;
  drops = a.drops ++ b.drops;
}

spy_eq :
    {a b : SpyRecorder} → a.outcomes ≡ b.outcomes → a.events ≡ b.events → a.drops ≡ b.drops → a ≡ b
spy_eq o e d i = record { outcomes = o i; events = e i; drops = d i }

deliver-plus : (r : Report) (s : SpyRecorder) → deliver spy r s ≡ plus s (deliver spy r no_calls)
deliver-plus (outcome node o) s = spy_eq refl (sym (append-nil _)) (sym (append-nil _))
deliver-plus (event e) s = spy_eq (sym (append-nil _)) refl (sym (append-nil _))
deliver-plus (dropped node n) s = spy_eq (sym (append-nil _)) (sym (append-nil _)) refl

plus_assoc : (a b c : SpyRecorder) → plus (plus a b) c ≡ plus a (plus b c)
plus_assoc a b c =
    spy_eq (append_assoc a.outcomes b.outcomes c.outcomes) (append_assoc a.events b.events c.events)
      (append_assoc a.drops b.drops c.drops)

replay-plus :
    (rs : List Report) (s : SpyRecorder) → replay spy rs s ≡ plus s (replay spy rs no_calls)
replay-plus [] s = spy_eq (sym (append-nil _)) (sym (append-nil _)) (sym (append-nil _))
replay-plus (r ∷ rs) s =
    replay-plus rs (deliver spy r s)
    ∙ ap (λ d. plus d (replay spy rs no_calls)) (deliver-plus r s)
    ∙ plus_assoc s (deliver spy r no_calls) (replay spy rs no_calls)
    ∙ ap (plus s) (sym (replay-plus rs (deliver spy r no_calls)))

module _ {World : Type 0} where
  replay-reports_of :
      (resolver : Option (ContainerResolver World)) (t : Taken World) (ts : List (Taken World))
      (total : Option ℕ)
      → t.total ≡ total
      → plus
          (replay spy (reports_of resolver t.world t.raw t.at t.total) no_calls)
          (held resolver ts)
        ≡ held resolver (t ∷ ts)
  replay-reports_of none t ts none e = rw e refl
  replay-reports_of none t ts (some n) e = rw e refl
  replay-reports_of (some client) t ts none e = rw e refl
  replay-reports_of (some client) t ts (some n) e = rw e refl

  replay-reports :
      (resolver : Option (ContainerResolver World)) (ts : List (Taken World))
      → replay spy (reports resolver ts) no_calls ≡ held resolver ts
  replay-reports none [] = refl
  replay-reports (some client) [] = refl
  replay-reports resolver (t ∷ ts) =
      let rs = reports_of resolver t.world t.raw t.at t.total in
      replay-append spy rs (reports resolver ts) no_calls
      ∙ replay-plus (reports resolver ts) (replay spy rs no_calls)
      ∙ ap (plus (replay spy rs no_calls)) (replay-reports resolver ts)
      ∙ replay-reports_of resolver t ts t.total refl

module _ {World S B : Type 0} (source : OomEventSource S)
    (resolver : Option (ContainerResolver World)) (heartbeat : ℕ → B → B) where
  -- Over any turns and on any source, a spy that starts empty ends up with one enriched event for
  -- each event taken, in their order, with the node and the identity that its resolution gave, and
  -- the node alone if it failed; with the reason of each resolution, and none without a resolver; and
  -- with each total of lost events that the source knew, under the node or `unknown`.
  run-held :
      (turns : List (Turn World)) (s : S) (b : B)
      → (run source resolver spy heartbeat turns
          (record { source = s; recorder = no_calls; pulse = b })).1.recorder
        ≡ held resolver (taken source turns s)
  run-held turns s b =
      (run-reports source resolver spy heartbeat turns
        (record { source = s; recorder = no_calls; pulse = b })).0
      ∙ replay-reports resolver (taken source turns s)
