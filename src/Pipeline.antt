-- ===== src/Pipeline.antt =====
-- The way of a kill through the program: from the probe (oom-watcher-ebpf/src/main.rs) through the
-- ring buffer and its source (oom-watcher/src/source.rs) and the watch loop (watch.rs) to the kill
-- counter (metrics.rs), among the other tasks of oom-watcher/src/main.rs.
mod Tests
use ebpf_oom_watcher.Prelude.{
  ℕ, suc, ◌+◌, ◌%◌, ◌<◌, ◌≤◌, ◌≡◌, refl, ap, sym, ◌∙◌, List, [], ◌∷◌, ◌++◌, length, length-append,
  Option, none, some, replicate, All, filter_map, arith,
}
use ebpf_oom_watcher.Resolve.{ContainerResolver}
use ebpf_oom_watcher.Prometheus.{MetricVec}
use ebpf_oom_watcher.Prelude.Float.{exact_below}
use ebpf_oom_watcher.Metrics.Collector.{MetricsCollector}
use ebpf_oom_watcher.Metrics.Counts.{node_total}
use ebpf_oom_watcher.Watch.{OomEventSource, Loop, node_label}
use ebpf_oom_watcher.Watch.Spec.{Taken, taken, raws}
use ebpf_oom_watcher.Program.Together.{Act, run_acts}
use ebpf_oom_watcher.Program.Together.Pulse.{turns_of}
use ebpf_oom_watcher.Program.Together.Kills.{run_acts-node_total}
use ebpf_oom_watcher.Source.{RingBufSource, decode}
use ebpf_oom_watcher.Source.Layout.{length-fields}
use ebpf_oom_watcher.Source.Delivery.{
  event_in, filter_map-same, Op, arrivals, run_ops, held, run_ops-held,
}
use ebpf_oom_watcher.Probe.{
  RingBuf, Firing, Maps, u64_mod, event_of_args, args_of, event_bytes, queue_or_count, fire,
  mark_victim, run_probe,
}
use ebpf_oom_watcher.Probe.Conservation.{total, readable, run_probe-accounted}

-- The source as it is made, with whatever the counters read.
abbrev pub fresh : Option (List ℕ) → RingBufSource
fresh dropped = record { ring = []; pending = []; dropped = dropped }

-- The CPU has its slot, and the helper fills the buffer that it is given.
abbrev IsFiring : ℕ → Firing → Type 0
IsFiring cpus firing =
    (firing.cpu < cpus) × ((offset : ℕ) → length (firing.read_str offset (replicate 16 0)) ≡ 16)

-- A record that the source does not take for too short.
abbrev IsWhole : List ℕ → Type 0
IsWhole bytes = 80 ≤ length bytes

length-decoded :
    (records : List (List ℕ))
    → All IsWhole records
    → length (filter_map decode records) ≡ length records
unfolding filter_map decode
length-decoded [] h = refl
length-decoded (bytes ∷ records) (long, h) = let ih = length-decoded records h in ground arith

length-raws : {World : Type 0} (ts : List (Taken World)) → length (raws ts) ≡ length ts
length-raws [] = refl
length-raws (t ∷ ts) = ap suc (length-raws ts)

All-snoc :
    (records : List (List ℕ)) (bytes : List ℕ)
    → All IsWhole records
    → IsWhole bytes
    → All IsWhole (records ++ (bytes ∷ []))
All-snoc [] bytes h long = (long, tt)
All-snoc (r ∷ records) bytes (e, h) long = (e, All-snoc records bytes h long)

module _ (ring_buf : RingBuf) (pad_comm pad_uid pad_end : List ℕ) where
  open ring_buf use {Ring, stored, output, stored-output}

  queue_or_count-IsWhole :
      (cpu : ℕ) (bytes : List ℕ) (queued : Option Ring) (maps : Maps Ring)
      → output bytes maps.events ≡ queued
      → IsWhole bytes
      → All IsWhole (stored maps.events)
      → All IsWhole
          (stored (queue_or_count ring_buf pad_comm pad_uid pad_end cpu queued maps).events)
  queue_or_count-IsWhole cpu bytes none maps e long h = h
  queue_or_count-IsWhole cpu bytes (some ring) maps e long h =
      rw (stored-output bytes maps.events ring e) (All-snoc (stored maps.events) bytes h long)

  fire-IsWhole :
      (cpus : ℕ) (firing : Firing) (entry : Option (List ℕ)) (maps : Maps Ring)
      → length pad_comm ≡ 4
      → length pad_uid ≡ 4
      → length pad_end ≡ 6
      → IsFiring cpus firing
      → All IsWhole (stored maps.events)
      → All IsWhole (stored (fire ring_buf pad_comm pad_uid pad_end firing entry maps).events)
  unfolding event_bytes event_of_args
  fire-IsWhole cpus firing none maps c u d on h = h
  fire-IsWhole cpus firing (some entry) maps c u d (on, fills) h =
      let event = event_of_args firing (args_of entry) in
      let bytes = event_bytes ring_buf pad_comm pad_uid pad_end event in
      let size =
        length-fields event pad_comm pad_uid pad_end []
          (fills ((args_of entry).comm_data_loc % 65536)) c u d in
      queue_or_count-IsWhole firing.cpu bytes (output bytes maps.events) maps refl
        (omega (arith, size)) h

  run_probe-IsWhole :
      (cpus : ℕ) (firings : List Firing) (maps : Maps Ring)
      → length pad_comm ≡ 4
      → length pad_uid ≡ 4
      → length pad_end ≡ 6
      → All (IsFiring cpus) firings
      → All IsWhole (stored maps.events)
      → All IsWhole (stored (run_probe ring_buf pad_comm pad_uid pad_end firings maps).events)
  unfolding run_probe mark_victim
  run_probe-IsWhole cpus [] maps c u d on h = h
  run_probe-IsWhole cpus (firing ∷ firings) maps c u d (one, on) h =
      run_probe-IsWhole cpus firings (mark_victim ring_buf pad_comm pad_uid pad_end firing maps) c u
        d on (fire-IsWhole cpus firing firing.entry maps c u d one h)

  on_cpus :
      (cpus : ℕ) (firings : List Firing)
      → All (IsFiring cpus) firings
      → All (λ (firing : Firing). firing.cpu < cpus) firings
  on_cpus cpus [] h = tt
  on_cpus cpus (firing ∷ firings) ((on, fills), h) = (on, on_cpus cpus firings h)

  -- From an empty ring and a fresh source, every kill whose trace entry the probe can read is counted
  -- on the node, or still waits in the source, or has been counted as dropped on its CPU, once: as
  -- long as no counter reaches its limit, whatever the resolver says, and however sweeps and pod
  -- events fall between the turns of the loop. The ring hands to the source what the probe has
  -- stored, in order, however its arrivals fall between the polls; the loop takes what the source has
  -- handed out.
  pub kills_accounted :
      {World Opaque S B : Type 0} (vec : MetricVec) (ttl : ℕ) (source : OomEventSource S)
      (resolver : Option (ContainerResolver World)) (heartbeat : ℕ → B → B) (firings : List Firing)
      (maps : Maps Ring) (ops : List Op) (drops : Option (List ℕ)) (acts : List (Act World Opaque))
      (l : Loop S (MetricsCollector vec.Family) B)
      → length pad_comm ≡ 4
      → length pad_uid ≡ 4
      → length pad_end ≡ 6
      → All (IsFiring (length maps.dropped)) firings
      → stored maps.events ≡ []
      → total maps.dropped + readable firings < u64_mod
      → arrivals ops ≡ stored (run_probe ring_buf pad_comm pad_uid pad_end firings maps).events
      → raws (taken source (turns_of acts) l.source) ≡ (run_ops ops (fresh drops)).0
      → node_total vec (node_label resolver) l.recorder + readable firings + total maps.dropped
        < exact_below
      → node_total vec
            (node_label resolver)
            (run_acts vec ttl source resolver heartbeat acts l).recorder
          + length (held (run_ops ops (fresh drops)).1)
          + total (run_probe ring_buf pad_comm pad_uid pad_end firings maps).dropped
        ≡ node_total vec (node_label resolver) l.recorder + readable firings + total maps.dropped
  unfolding filter_map
  kills_accounted vec ttl source resolver heartbeat firings maps ops drops acts l c u d on none_yet
        small carried handed exact =
      let after = run_probe ring_buf pad_comm pad_uid pad_end firings maps in
      let out = (run_ops ops (fresh drops)).0 in
      let left = held (run_ops ops (fresh drops)).1 in
      let empty : length (stored maps.events) ≡ 0 = ap length none_yet in
      let counted =
        run_probe-accounted ring_buf pad_comm pad_uid pad_end firings maps
          (on_cpus (length maps.dropped) firings on) (omega (arith, empty, small)) in
      let whole = run_probe-IsWhole (length maps.dropped) firings maps c u d on (rw none_yet tt) in
      let passed : length out + length left ≡ length (stored after.events) =
        sym (length-append out left)
        ∙ ap length (run_ops-held ops (fresh drops))
        ∙ ap (λ records. length (filter_map event_in records)) carried
        ∙ ap length (sym (filter_map-same (stored after.events)))
        ∙ length-decoded (stored after.events) whole in
      let seen : length (taken source (turns_of acts) l.source) ≡ length out =
        sym (length-raws (taken source (turns_of acts) l.source)) ∙ ap length handed in
      let grown =
        run_acts-node_total vec ttl source resolver heartbeat acts l
          (omega (arith, seen, passed, counted, empty, exact)) in
      omega (arith, grown, seen, passed, counted, empty)
