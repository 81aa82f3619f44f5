-- ===== src/UnitTests/Peaks.antt =====
-- The tests of oom-watcher/src/metrics.rs: the memory gauge keeps a peak.
use ebpf_oom_watcher.Prelude.{ℕ, ◌+◌, ◌*◌, ◌≡◌, refl, some, codes, list_eq, nat_eq}
use ebpf_oom_watcher.Prelude.HashMap.{get}
use ebpf_oom_watcher.UnitTests.Fixture.{t0, ttl, event_using, memory_of, empty, killed, swept}

abbrev kib : ℕ
kib = 1024

abbrev ASmallerLaterKillDoesNotOverwriteThePeak : Type 0
ASmallerLaterKillDoesNotOverwriteThePeak =
    let after =
      killed (event_using (codes "api-7d9") (t0 + 1) 4000 0 828 0)
        (killed (event_using (codes "api-7d9") t0 70000 64260 0 0) empty) in
    (get (memory_of (codes "anon_rss")) after.oom_memory_usage_bytes ≡ some (64260 * kib))
    × (get (memory_of (codes "total_vm")) after.oom_memory_usage_bytes ≡ some (70000 * kib))

a_smaller_later_kill_does_not_overwrite_the_peak : ASmallerLaterKillDoesNotOverwriteThePeak
unfolding empty killed
a_smaller_later_kill_does_not_overwrite_the_peak = (refl, refl)

abbrev ALargerLaterKillRaisesThePeak : Type 0
ALargerLaterKillRaisesThePeak =
    let after =
      killed (event_using (codes "api-7d9") (t0 + 1) 70000 64260 0 0)
        (killed (event_using (codes "api-7d9") t0 4000 0 828 0) empty) in
    get (memory_of (codes "anon_rss")) after.oom_memory_usage_bytes ≡ some (64260 * kib)

a_larger_later_kill_raises_the_peak : ALargerLaterKillRaisesThePeak
unfolding empty killed
a_larger_later_kill_raises_the_peak = refl

abbrev EachMemoryTypePeaksIndependently : Type 0
EachMemoryTypePeaksIndependently =
    let after =
      killed (event_using (codes "api-7d9") (t0 + 1) 0 0 828 0)
        (killed (event_using (codes "api-7d9") t0 0 64260 0 0) empty) in
    (get (memory_of (codes "anon_rss")) after.oom_memory_usage_bytes ≡ some (64260 * kib))
    × (get (memory_of (codes "file_rss")) after.oom_memory_usage_bytes ≡ some (828 * kib))

each_memory_type_peaks_independently : EachMemoryTypePeaksIndependently
unfolding empty killed
each_memory_type_peaks_independently = (refl, refl)

abbrev EvictionResetsThePeak : Type 0
EvictionResetsThePeak =
    let evicted =
      (swept (t0 + ttl) (killed (event_using (codes "api-7d9") t0 70000 64260 0 0) empty)).1 in
    let after = killed (event_using (codes "api-7d9") (t0 + ttl) 4000 1024 0 0) evicted in
    get (memory_of (codes "anon_rss")) after.oom_memory_usage_bytes ≡ some (1024 * kib)

eviction_resets_the_peak : EvictionResetsThePeak
unfolding empty killed swept
eviction_resets_the_peak = refl
