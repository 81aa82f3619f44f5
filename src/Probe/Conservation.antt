-- ===== src/Probe/Conservation.antt =====
-- oom-watcher-ebpf/src/main.rs: no kill is lost without a trace.
use ebpf_oom_watcher.Prelude.{
  ℕ, zero, suc, ◌+◌, ◌<◌, ◌≡◌, refl, ◌∙◌, inl, inr, List, [], ◌∷◌, length, length-append, is_some,
  if◌then◌else◌, All, Option-cases, arith,
}
use ebpf_oom_watcher.Probe.{
  RingBuf, Firing, Maps, u64_mod, bump, event_of_args, args_of, event_bytes, mark_victim, run_probe,
}

abbrev pub total : List ℕ → ℕ
total [] = 0
total (n ∷ ns) = n + total ns

-- The firings whose entry could be read.
abbrev pub readable : List Firing → ℕ
readable [] = 0
readable (firing ∷ firings) = (if is_some firing.entry then 1 else 0) + readable firings

length-bump : (cpu : ℕ) (slots : List ℕ) → length (bump cpu slots) ≡ length slots
unfolding bump
length-bump cpu [] = refl
length-bump zero (n ∷ ns) = refl
length-bump (suc cpu) (n ∷ ns) = omega (arith, length-bump cpu ns)

total-bump :
    (cpu : ℕ) (slots : List ℕ)
    → cpu < length slots
    → total slots + 1 < u64_mod
    → total (bump cpu slots) ≡ total slots + 1
unfolding bump
total-bump cpu [] h g = absurd (omega arith)
total-bump zero (n ∷ ns) h g = omega arith
total-bump (suc cpu) (n ∷ ns) h g = omega (arith, total-bump cpu ns (omega arith) (omega arith))

module _ (ring_buf : RingBuf) (pad_comm pad_uid pad_end : List ℕ) where
  open ring_buf use {Ring, stored, output, stored-output}

  abbrev accounted : Maps Ring → ℕ
  accounted maps = length (stored maps.events) + total maps.dropped

  mark_victim-accounted :
      (firing : Firing) (maps : Maps Ring)
      → firing.cpu < length maps.dropped
      → total maps.dropped + (if is_some firing.entry then 1 else 0) < u64_mod
      → (accounted (mark_victim ring_buf pad_comm pad_uid pad_end firing maps)
          ≡ accounted maps + (if is_some firing.entry then 1 else 0))
        × (length (mark_victim ring_buf pad_comm pad_uid pad_end firing maps).dropped
            ≡ length maps.dropped)
  unfolding mark_victim
  mark_victim-accounted firing maps on small = elim (Option-cases firing.entry) [
    | inl e ↦ ground arith
    | inr (entry, e) ↦
        let bytes =
          event_bytes ring_buf pad_comm pad_uid pad_end (event_of_args firing (args_of entry)) in
        elim (Option-cases (output bytes maps.events)) [
          | inl full ↦ ground (
            arith,
            total-bump firing.cpu maps.dropped on (ground arith),
            length-bump firing.cpu maps.dropped,
          )
          | inr (ring, queued) ↦ ground (
            arith,
            stored-output bytes maps.events ring queued,
            length-append (stored maps.events) (bytes ∷ []),
          )
        ]
  ]

  accounted_on :
      (n : ℕ) (firings : List Firing) (maps : Maps Ring)
      → length maps.dropped ≡ n
      → All (λ (firing : Firing). firing.cpu < n) firings
      → accounted maps + readable firings < u64_mod
      → accounted (run_probe ring_buf pad_comm pad_uid pad_end firings maps)
        ≡ accounted maps + readable firings
  unfolding run_probe
  accounted_on n [] maps slots on small = omega arith
  accounted_on n (firing ∷ firings) maps slots (on, rest) small =
      let (one, kept) = mark_victim-accounted firing maps (omega arith) (omega arith) in
      let after = mark_victim ring_buf pad_comm pad_uid pad_end firing maps in
      omega (arith, one, accounted_on n firings after (kept ∙ slots) rest (omega (arith, one)))

  -- Each firing whose entry can be read either puts its record into the ring or counts a dropped
  -- event on its CPU, as long as the counters do not wrap around: the records stored and the events
  -- counted together grow by the number of such firings.
  pub run_probe-accounted :
      (firings : List Firing) (maps : Maps Ring)
      → All (λ (firing : Firing). firing.cpu < length maps.dropped) firings
      → accounted maps + readable firings < u64_mod
      → accounted (run_probe ring_buf pad_comm pad_uid pad_end firings maps)
        ≡ accounted maps + readable firings
  run_probe-accounted firings maps on small =
      accounted_on (length maps.dropped) firings maps refl on small
