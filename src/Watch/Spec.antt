-- ===== src/Watch/Spec.antt =====
-- oom-watcher/src/watch.rs: what the loop reports, as a list that depends on no recorder.
use ebpf_oom_watcher.Prelude.{
  ℕ, suc, ◌≡◌, refl, ap, ◌∙◌, List, [], ◌∷◌, ◌++◌, Option, none, some, Text, arith, length,
  Option-cases, inl, inr, take, ltb, true, false,
}
use ebpf_oom_watcher.Common.{OomKillEvent}
use ebpf_oom_watcher.Enrich.{enrich}
use ebpf_oom_watcher.Resolve.{identity, ContainerResolver}
use ebpf_oom_watcher.Recorder.{MetricsRecorder, Report, outcome, event, dropped, deliver, replay}
use ebpf_oom_watcher.Watch.{
  OomEventSource, Turn, source_wins, ticker_wins, Loop, node_label, VecSource, vec_source,
  process_event, report_drops, select, handle, run,
}

abbrev drop_reports : Text → Option ℕ → List Report
drop_reports node none = []
drop_reports node (some total) = dropped node total ∷ []

-- The reports of one event: the outcome of its resolution, if there is a resolver, then the
-- enriched event, then the source's drop total, if it knows one.
abbrev pub reports_of :
    {World : Type 0}
    → Option (ContainerResolver World)
    → World
    → OomKillEvent
    → ℕ
    → Option ℕ
    → List Report
reports_of none world e at total =
    event (enrich e none none at) ∷ drop_reports (node_label {World = Unit {0}} none) total
reports_of (some client) world e at total =
    outcome client.node_name (client.resolve world e.pid)
    ∷ event (enrich e (some client.node_name) (identity (client.resolve world e.pid)) at)
    ∷ drop_reports client.node_name total

-- An event that the loop takes, with what it meets in its turn.
pub record Taken (World : Type 0) : Type 0 where
  pub world : World
  pub raw : OomKillEvent
  pub at : ℕ
  pub total : Option ℕ

abbrev take_one :
    {World : Type 0}
    → World
    → ℕ
    → Option OomKillEvent
    → Option ℕ
    → List (Taken World)
    → List (Taken World)
take_one world at none total more = []
take_one world at (some e) total more =
    record { world = world; raw = e; at = at; total = total } ∷ more

-- The events that the loop takes, up to the end of the source.
unfoldable pub taken :
    {World S : Type 0} → OomEventSource S → List (Turn World) → S → List (Taken World)
taken source [] s = []
taken source (ticker_wins stamp ∷ turns) s = taken source turns s
taken source (source_wins world at stamp ∷ turns) s =
    take_one world at (source.next s).0 (source.dropped_total (source.next s).1)
      (taken source turns (source.next s).1)

abbrev stamp_one : ℕ → Option OomKillEvent → List ℕ → List ℕ
stamp_one stamp none more = []
stamp_one stamp (some e) more = stamp ∷ more

-- A heartbeat for each turn, up to the end of the source.
unfoldable pub stamps : {World S : Type 0} → OomEventSource S → List (Turn World) → S → List ℕ
stamps source [] s = []
stamps source (ticker_wins stamp ∷ turns) s = stamp ∷ stamps source turns s
stamps source (source_wins world at stamp ∷ turns) s =
    stamp_one stamp (source.next s).0 (stamps source turns (source.next s).1)

abbrev pub reports :
    {World : Type 0} → Option (ContainerResolver World) → List (Taken World) → List Report
reports resolver [] = []
reports resolver (t ∷ ts) = reports_of resolver t.world t.raw t.at t.total ++ reports resolver ts

abbrev pub beat_all : {B : Type 0} → (ℕ → B → B) → List ℕ → B → B
beat_all heartbeat [] b = b
beat_all heartbeat (t ∷ ts) b = beat_all heartbeat ts (heartbeat t b)

pub replay-append :
    {R : Type 0} (recorder : MetricsRecorder R) (xs ys : List Report) (r : R)
    → replay recorder (xs ++ ys) r ≡ replay recorder ys (replay recorder xs r)
replay-append recorder [] ys r = refl
replay-append recorder (x ∷ xs) ys r = replay-append recorder xs ys (deliver recorder x r)

module _ {World S R B : Type 0} (source : OomEventSource S)
    (resolver : Option (ContainerResolver World)) (recorder : MetricsRecorder R)
    (heartbeat : ℕ → B → B) where
  process-reports_of :
      (world : World) (e : OomKillEvent) (at : ℕ) (total : Option ℕ) (r : R)
      → report_drops source resolver recorder heartbeat total
          (process_event source resolver recorder heartbeat world e at r)
        ≡ replay recorder (reports_of resolver world e at total) r
  unfolding report_drops process_event
  process-reports_of world e at total r = ground arith

  -- Over any turns, on any source and with or without a resolver, what the loop leaves in the
  -- recorder is what the reports of the events taken leave there, made in order, and what it leaves
  -- in the heartbeat is one stamp for each turn up to the end of the source.
  pub run-reports :
      (turns : List (Turn World)) (l : Loop S R B)
      → ((run source resolver recorder heartbeat turns l).1.recorder
          ≡ replay recorder (reports resolver (taken source turns l.source)) l.recorder)
        × ((run source resolver recorder heartbeat turns l).1.pulse
            ≡ beat_all heartbeat (stamps source turns l.source) l.pulse)
  unfolding run select handle taken stamps
  run-reports [] l = (refl, refl)
  run-reports (ticker_wins stamp ∷ turns) l =
      run-reports turns (record l { pulse = heartbeat stamp l.pulse })
  run-reports (source_wins world at stamp ∷ turns) l =
      elim (Option-cases (source.next l.source).0) [
        | inl e ↦ ground arith
        | inr (raw, e) ↦
            let total = source.dropped_total (source.next l.source).1 in
            let done = process-reports_of world raw at total l.recorder in
            let more = run-reports turns (record {
              source = (source.next l.source).1;
              recorder = replay recorder (reports_of resolver world raw at total) l.recorder;
              pulse = heartbeat stamp l.pulse;
            }) in
            let joined =
              replay-append recorder (reports_of resolver world raw at total)
                (reports resolver (taken source turns (source.next l.source).1)) l.recorder in
            ground arith
      ]

  -- One turn of the ticker, one in which the source has an event, and one in which it ends.
  pub run-ticked :
      (stamp : ℕ) (l : Loop S R B)
      → run source resolver recorder heartbeat (ticker_wins stamp ∷ []) l
        ≡ (false, record l { pulse = heartbeat stamp l.pulse })
  unfolding run select handle
  run-ticked stamp l = refl

  pub run-taken :
      (world : World) (at stamp : ℕ) (raw : OomKillEvent) (l : Loop S R B)
      → (source.next l.source).0 ≡ some raw
      → run source resolver recorder heartbeat (source_wins world at stamp ∷ []) l ≡ (
        false,
        record {
          source = (source.next l.source).1;
          recorder =
              replay recorder
                (reports_of resolver world raw at (source.dropped_total (source.next l.source).1))
                l.recorder;
          pulse = heartbeat stamp l.pulse;
        },
      )
  unfolding run select handle
  run-taken world at stamp raw l e =
      let done =
        process-reports_of world raw at (source.dropped_total (source.next l.source).1)
          l.recorder in
      ground arith

  pub run-ended :
      (world : World) (at stamp : ℕ) (l : Loop S R B)
      → (source.next l.source).0 ≡ none
      → run source resolver recorder heartbeat (source_wins world at stamp ∷ []) l
        ≡ (true, record l { source = (source.next l.source).1 })
  unfolding run select handle
  run-ended world at stamp l e = ground arith

-- The turns in which the source's arm wins.
abbrev source_turns : {World : Type 0} → List (Turn World) → ℕ
source_turns [] = 0
source_turns (ticker_wins stamp ∷ turns) = source_turns turns
source_turns (source_wins world at stamp ∷ turns) = suc (source_turns turns)

abbrev pub raws : {World : Type 0} → List (Taken World) → List OomKillEvent
raws [] = []
raws (t ∷ ts) = t.raw ∷ raws ts

module _ {World R B : Type 0} (resolver : Option (ContainerResolver World))
    (recorder : MetricsRecorder R) (heartbeat : ℕ → B → B) where
  run-events :
      (turns : List (Turn World)) (events : List OomKillEvent) (drops : Option ℕ) (r : R) (b : B)
      → let s : VecSource = record { events = events; drops = drops } in
        let l : Loop VecSource R B = record { source = s; recorder = r; pulse = b } in
        (raws (taken vec_source turns s) ≡ take (source_turns turns) events)
        × ((run vec_source resolver recorder heartbeat turns l).0
            ≡ ltb (length events) (source_turns turns))
  unfolding run select handle taken
  run-events [] events drops r b = (refl, ground arith)
  run-events (ticker_wins stamp ∷ turns) events drops r b =
      run-events turns events drops r (heartbeat stamp b)
  run-events (source_wins world at stamp ∷ turns) [] drops r b = (refl, ground arith)
  run-events (source_wins world at stamp ∷ turns) (e ∷ events) drops r b =
      let next =
        run-events turns events drops
          (report_drops vec_source resolver recorder heartbeat drops
            (process_event vec_source resolver recorder heartbeat world e at r))
          (heartbeat stamp b) in
      (ap (◌∷◌ e) next.0, next.1 ∙ ground arith)

  -- From a finite source the loop takes the events in order, one for each turn that the source
  -- wins, whatever the ticker does in between, and breaks out exactly when there is such a turn
  -- after the last event.
  pub run-vec_source :
      (turns : List (Turn World)) (l : Loop VecSource R B)
      → (raws (taken vec_source turns l.source) ≡ take (source_turns turns) l.source.events)
        × ((run vec_source resolver recorder heartbeat turns l).0
            ≡ ltb (length l.source.events) (source_turns turns))
  run-vec_source turns l = run-events turns l.source.events l.source.drops l.recorder l.pulse
