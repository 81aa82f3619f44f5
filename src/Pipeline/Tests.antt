-- ===== src/Pipeline/Tests.antt =====
-- One kill on its way: the theorem on the whole of it applied to it.
use ebpf_oom_watcher.Prelude.{
  ℕ, ◌+◌, ◌≡◌, refl, ap, ◌≤◌, filter_map, length-append, List, [], ◌∷◌, ◌++◌, Option, none, some,
  Text, codes, length, replicate, arith,
}
use ebpf_oom_watcher.Common.{OomKillEvent}
use ebpf_oom_watcher.Resolve.{ContainerResolver, Behavior, fake}
use ebpf_oom_watcher.Prometheus.Sample.{sample_vec}
use ebpf_oom_watcher.Metrics.Collector.{MetricsCollector, new}
use ebpf_oom_watcher.Metrics.Counts.{node_total}
use ebpf_oom_watcher.Watch.{source_wins, Loop, VecSource, vec_source}
use ebpf_oom_watcher.Watch.Spec.{taken, raws}
use ebpf_oom_watcher.Source.{Edge, readable}
use ebpf_oom_watcher.Source.Delivery.{
  event_in, Op, arrive, poll_with, arrivals, run_ops, held, run_ops-held,
}
use ebpf_oom_watcher.Probe.{
  RingBuf, Firing, Maps, event_of_args, args_of, event_bytes, mark_victim, run_probe,
}
use ebpf_oom_watcher.Probe.Conservation.{total}
use ebpf_oom_watcher.Program.Together.{Act, turn, tick, run_acts}
use ebpf_oom_watcher.Program.Together.Pulse.{turns_of}
use ebpf_oom_watcher.Pipeline.{fresh, kills_accounted}

some-output :
    (bytes : List ℕ) (r s : List (List ℕ))
    → some (r ++ (bytes ∷ [])) ≡ some s
    → s ≡ r ++ (bytes ∷ [])
some-output bytes r s h = ground arith

-- A ring that is never full.
abbrev wide_ring : RingBuf
wide_ring = record {
  Ring = List (List ℕ);
  stored = λ r. r;
  output = λ bytes r. some (r ++ (bytes ∷ []));
  stored-output = some-output;
}

abbrev killed : Firing
killed = record { entry = some (replicate 68 7); read_str = λ offset buffer. buffer; cpu = 0 }

abbrev unread : Firing
unread = record { entry = none; read_str = λ offset buffer. buffer; cpu = 0 }

abbrev start : Maps wide_ring.Ring
start = record { events = []; dropped = 0 ∷ [] }

abbrev pad : ℕ → List ℕ
pad n = replicate n 0

abbrev kill_record : List ℕ
kill_record =
    event_bytes wide_ring (pad 4) (pad 4) (pad 6) (event_of_args killed (args_of (replicate 68 7)))

abbrev ops : List Op
ops = arrive kill_record ∷ poll_with (readable ∷ []) ∷ []

-- Sweeps before and after the turn.
abbrev acts : List (Act Text Text)
acts = tick 900 ∷ turn (source_wins [] 1000 1001) ∷ tick 5000 ∷ []

abbrev loop : Loop VecSource (MetricsCollector sample_vec.Family) ℕ
loop = record {
  source = record { events = (run_ops ops (fresh none)).0; drops = none };
  recorder = new sample_vec;
  pulse = 0;
}

abbrev resolver : Option (ContainerResolver Text)
resolver = some (fake (record { node = codes "n1"; behavior = Behavior.not_found }))

carried :
    arrivals ops
    ≡ wide_ring.stored
        (run_probe wide_ring (pad 4) (pad 4) (pad 6) (killed ∷ unread ∷ []) start).events
unfolding run_probe mark_victim
carried = refl

one_at_most : (bytes : List ℕ) → length (filter_map event_in (bytes ∷ [])) ≤ 1
unfolding filter_map
one_at_most bytes = ground arith

handed_at_most :
    (record_bytes : List ℕ) (edges : List Edge)
    → length (run_ops (arrive record_bytes ∷ poll_with edges ∷ []) (fresh none)).0 ≤ 1
unfolding filter_map
handed_at_most record_bytes edges =
    let ops : List Op = arrive record_bytes ∷ poll_with edges ∷ [] in
    let all_of = ap length (run_ops-held ops (fresh none)) in
    omega (
      arith,
      all_of,
      length-append (run_ops ops (fresh none)).0 (held (run_ops ops (fresh none)).1),
      one_at_most record_bytes,
    )

takes_all :
    (events : List OomKillEvent)
    → length events ≤ 1
    → raws (taken vec_source (turns_of acts) (record { events = events; drops = none })) ≡ events
unfolding taken
takes_all [] h = refl
takes_all (e ∷ []) h = refl
takes_all (e ∷ f ∷ es) h = absurd (omega arith)

kills_accounted_example :
    node_total sample_vec
        (codes "n1")
        (run_acts sample_vec 3600 vec_source resolver (λ at b. at) acts loop).recorder
      + length (held (run_ops ops (fresh none)).1)
      + total (run_probe wide_ring (pad 4) (pad 4) (pad 6) (killed ∷ unread ∷ []) start).dropped
    ≡ 1
unfolding new
kills_accounted_example =
    kills_accounted wide_ring (pad 4) (pad 4) (pad 6) sample_vec 3600 vec_source resolver
      (λ at b. at) (killed ∷ unread ∷ []) start ops none acts loop refl refl refl
      ((omega arith, λ offset. refl), ((omega arith, λ offset. refl), tt)) refl (omega arith)
      carried (takes_all (run_ops ops (fresh none)).0 (handed_at_most kill_record (readable ∷ [])))
      (omega arith)
