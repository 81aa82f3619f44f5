-- ===== src/Source.antt =====
-- oom-watcher/src/source.rs, `RingBufSource`: bytes of the ring buffer decoded into events, and the
-- poll loop. Loading and attaching the probe, and the reactor, are aya's and tokio's.
pub mod Layout
pub mod Delivery
mod Tests
use ebpf_oom_watcher.Prelude.{
  ℕ, ◌+◌, ◌*◌, ◌%◌, zero, suc, List, [], ◌∷◌, ◌++◌, Option, none, some, take, drop, length, ltb,
  if◌then◌else◌, filter_map,
}
use ebpf_oom_watcher.Common.{OomKillEvent}

-- An integer from its bytes, the lowest first.
unfoldable pub le : List ℕ → ℕ
le [] = 0
le (b ∷ bs) = b + 256 * le bs

-- The fields of the `#[repr(C)]` struct, padding included: `pid`, `comm`, 4 bytes, the four memory
-- figures, `uid`, 4 bytes, `pgtables`, `oom_score_adj`, 6 bytes.
abbrev pub event_widths : List ℕ
event_widths = 4 ∷ 16 ∷ 4 ∷ 8 ∷ 8 ∷ 8 ∷ 8 ∷ 4 ∷ 4 ∷ 8 ∷ 2 ∷ 6 ∷ []

abbrev event_size : ℕ
event_size = 80

unfoldable pub fields_of : List ℕ → List ℕ → List (List ℕ)
fields_of [] bytes = []
fields_of (w ∷ ws) bytes = take w bytes ∷ fields_of ws (drop w bytes)

abbrev field_at : ℕ → List (List ℕ) → List ℕ
field_at i [] = []
field_at zero (f ∷ fs) = f
field_at (suc i) (f ∷ fs) = field_at i fs

abbrev pub event_of : List (List ℕ) → OomKillEvent
event_of fs = record {
  pid = le (field_at 0 fs);
  comm = field_at 1 fs;
  total_vm = le (field_at 3 fs);
  anon_rss = le (field_at 4 fs);
  file_rss = le (field_at 5 fs);
  shmem_rss = le (field_at 6 fs);
  uid = le (field_at 7 fs);
  pgtables = le (field_at 9 fs);
  oom_score_adj = le (field_at 10 fs);
}

-- `ptr.read_unaligned()`.
unfoldable pub read_unaligned : List ℕ → OomKillEvent
unfolding fields_of le
read_unaligned bytes = event_of (fields_of event_widths bytes)

-- The body of the loop over the ring: a short record is only warned of.
unfoldable pub decode : List ℕ → Option OomKillEvent
unfolding read_unaligned
decode bytes = if ltb (length bytes) event_size then none else some (read_unaligned bytes)

-- The records in the ring, the decoded events not yet handed out, and the per-CPU counters, none if
-- they cannot be read.
pub record RingBufSource : Type 0 where
  pub ring : List (List ℕ)
  pub pending : List OomKillEvent
  pub dropped : Option (List ℕ)

-- What `readable_mut().await` comes to: the ring may be read, or the reactor failed.
pub data Edge : Type 0 where
  readable : Edge
  failed : Edge

-- What a call of `next` comes to: it yields, or it is parked when a tick of the heartbeat drops it.
pub data Poll : Type 0 where
  yields : Option OomKillEvent → Poll
  parked : Poll

-- The ring is drained to the end before the readiness is cleared.
unfoldable pub drain_ring : RingBufSource → RingBufSource
unfolding filter_map decode
drain_ring s = record s { ring = []; pending = s.pending ++ filter_map decode s.ring }

-- `next`, over the edges that come while it waits.
unfoldable pub next : List Edge → List OomKillEvent → RingBufSource → Poll × RingBufSource
unfolding drain_ring
next edges (e ∷ es) s = (yields (some e), record s { pending = es })
next [] [] s = (parked, s)
next (failed ∷ edges) [] s = (yields none, s)
next (readable ∷ edges) [] s = let t = drain_ring s in next edges t.pending t

unfoldable pub poll : List Edge → RingBufSource → Poll × RingBufSource
unfolding next
poll edges s = next edges s.pending s

abbrev u64_mod : ℕ
u64_mod = 18446744073709551616

unfoldable pub sum : List ℕ → ℕ
sum [] = 0
sum (n ∷ ns) = (n + sum ns) % u64_mod

abbrev sum_read : Option (List ℕ) → Option ℕ
sum_read none = none
sum_read (some per_cpu) = some (sum per_cpu)

unfoldable pub dropped_total : RingBufSource → Option ℕ
unfolding sum
dropped_total s = sum_read s.dropped
