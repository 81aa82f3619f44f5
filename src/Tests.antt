-- ===== src/Tests.antt =====
-- The liveness probe at a concrete time: the theorem on health.rs applied to it.
use ebpf_oom_watcher.Prelude.{ℕ, ◌+◌, ◌<◌, ◌≡◌, refl, [], ◌∷◌, some, In, arith}
use ebpf_oom_watcher.Health.{liveness}
use ebpf_oom_watcher.Health.Probe.{
  Memory, running, seed, publish, beats, Reach, here, next, after, Observes-stale,
}

-- Seeded at 1000, published, and a beat at 800, after the clock was set back; the probe still reads
-- the seed.
abbrev one_beat : Memory
one_beat = record { writer = running; stores = 800 ∷ 1000 ∷ []; published = some 2 }

one_beat-Reach : Reach one_beat
one_beat-Reach =
    next (next (next here (seed 1000)) (publish (1000 ∷ []))) (beats 800 (1000 ∷ []) (some 2))

Observes-stale_example : (v : ℕ) × In v (800 ∷ 1000 ∷ []) × (v + 90 < 1091) × (91 + v ≡ 1091)
unfolding liveness
Observes-stale_example =
    Observes-stale {m = one_beat} 1091 91 one_beat-Reach
      (after 1000 2 (800 ∷ []) (0 ∷ []) refl refl (omega arith)) refl
