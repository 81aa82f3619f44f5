-- ===== src/Watch.antt =====
-- oom-watcher/src/watch.rs: the watch loop.
pub mod Spec
pub mod Delivery
pub mod Spy
pub mod Log
pub mod Parked
mod Tests
use ebpf_oom_watcher.Prelude.{ℕ, List, [], ◌∷◌, Option, none, some, Bool, true, false, Text, codes}
use ebpf_oom_watcher.Common.{OomKillEvent, ContainerIdentity}
use ebpf_oom_watcher.Enrich.{enrich}
use ebpf_oom_watcher.Resolve.{identity, ContainerResolver}
use ebpf_oom_watcher.Recorder.{MetricsRecorder}

-- The trait `OomEventSource`. `next` is what the future yields when it is polled to its end.
pub record OomEventSource (S : Type 0) : Type 0 where
  pub next : S → Option OomKillEvent × S
  pub dropped_total : S → Option ℕ

-- Why the loop woke.
pub data Wake : Type 0 where
  event : OomKillEvent → Wake
  ended : Wake
  beat : Wake

-- What one round of the loop meets: which arm of the `select!` wins, the world that the resolver
-- sees, and the readings of the clock.
pub data Turn (World : Type 0) : Type 0 where
  source_wins : World → ℕ → ℕ → Turn World
  ticker_wins : ℕ → Turn World

-- The source, the recorder and what the heartbeat writes.
pub record Loop (S R B : Type 0) : Type 0 where
  pub source : S
  pub recorder : R
  pub pulse : B

abbrev pub unknown : Text
unknown = codes "unknown"

-- `node_label`.
abbrev pub node_label : {World : Type 0} → Option (ContainerResolver World) → Text
node_label none = unknown
node_label (some resolver) = resolver.node_name

-- The adapters of the loop's tests: a list of events, with the total that the source claims to
-- have dropped.
pub record VecSource : Type 0 where
  pub events : List OomKillEvent
  pub drops : Option ℕ

abbrev pop_front : VecSource → List OomKillEvent → Option OomKillEvent × VecSource
pop_front s [] = (none, s)
pop_front s (e ∷ es) = (some e, record s { events = es })

abbrev pub vec_source : OomEventSource VecSource
vec_source = record { next = λ s. pop_front s s.events; dropped_total = λ s. s.drops }

module _ {World S R B : Type 0} (source : OomEventSource S)
    (resolver : Option (ContainerResolver World)) (recorder : MetricsRecorder R)
    (heartbeat : ℕ → B → B) where
  record_enriched : OomKillEvent → Option Text → Option ContainerIdentity → ℕ → R → R
  record_enriched raw_event node_name id timestamp r =
      recorder.record_oom_event (enrich raw_event node_name id timestamp) r

  -- `process_event`, without its log lines.
  unfoldable pub process_event : World → OomKillEvent → ℕ → R → R
  unfolding record_enriched
  process_event world raw_event timestamp r = elim resolver [
    | none ↦ record_enriched raw_event none none timestamp r
    | some client ↦
        let outcome = client.resolve world raw_event.pid in
        let counted = recorder.record_resolution_outcome client.node_name outcome r in
        record_enriched raw_event (some client.node_name) (identity outcome) timestamp counted
  ]

  -- `if let Some(total) = source.dropped_total()`
  unfoldable pub report_drops : Option ℕ → R → R
  report_drops none r = r
  report_drops (some total) r = recorder.record_dropped_total (node_label resolver) total r

  abbrev woken : Option OomKillEvent → Wake
  woken none = ended
  woken (some e) = event e

  -- The `select!`: its outcome and the source after it.
  unfoldable pub select : Turn World → S → Wake × S
  select (source_wins world at stamp) s = let (e, s') = source.next s in (woken e, s')
  select (ticker_wins stamp) s = (beat, s)

  abbrev stamp_of : Turn World → ℕ
  stamp_of (source_wins world at stamp) = stamp
  stamp_of (ticker_wins stamp) = stamp

  -- The body of the `match`; `none` is `break`. A beat has no clock reading of its own, and an
  -- event comes only with the source's arm.
  unfoldable pub handle : Turn World → Wake → S → R → Option R
  handle turn ended s r = none
  handle turn beat s r = some r
  handle (source_wins world at stamp) (event e) s r =
      some (report_drops (source.dropped_total s) (process_event world e at r))
  handle (ticker_wins stamp) (event e) s r = some r

  -- The loop, over the turns that the environment grants; `true` if it broke out.
  unfoldable pub run : List (Turn World) → Loop S R B → Bool × Loop S R B
  run [] l = (false, l)
  run (turn ∷ turns) l =
      let woke = select turn l.source in
      elim (handle turn woke.0 woke.1 l.recorder) [
        | none ↦ (true, record l { source = woke.1 })
        | some r ↦
            run turns
              (record { source = woke.1; recorder = r; pulse = heartbeat (stamp_of turn) l.pulse })
      ]
