-- ===== src/Probe.antt =====
-- oom-watcher-ebpf/src/main.rs: the probe on `oom:mark_victim`. The kernel's helpers are parameters.
pub mod Conservation
pub mod Decode
pub mod Build
mod Tests
use ebpf_oom_watcher.Prelude.{
  ℕ, zero, suc, ◌+◌, ◌%◌, ◌≡◌, List, [], ◌∷◌, ◌++◌, Option, none, some, replicate, take, drop,
}
use ebpf_oom_watcher.Common.{OomKillEvent}
use ebpf_oom_watcher.Source.{le}
use ebpf_oom_watcher.Source.Layout.{concat, fields}

-- The trace entry; the common header is not read. Signed fields are their bit patterns.
pub record MarkVictimArgs : Type 0 where
  pub pid : ℕ
  pub comm_data_loc : ℕ
  pub total_vm : ℕ
  pub anon_rss : ℕ
  pub file_rss : ℕ
  pub shmem_rss : ℕ
  pub uid : ℕ
  pub pgtables : ℕ
  pub oom_score_adj : ℕ

-- A ring buffer map: `output` appends a record, or fails and leaves the buffer.
pub record RingBuf : Type 1 where
  pub Ring : Type 0
  pub stored : Ring → List (List ℕ)
  pub output : List ℕ → Ring → Option Ring
  pub stored-output :
      (bytes : List ℕ) (r s : Ring) → output bytes r ≡ some s → stored s ≡ stored r ++ (bytes ∷ [])

-- Bytes of the trace entry, and the little-endian integer in them.
abbrev pub slice : ℕ → ℕ → List ℕ → List ℕ
slice offset size entry = take size (drop offset entry)

-- The entry read as the `#[repr(C)]` struct: the header of 8 bytes, then the fields at the offsets
-- that their sizes and alignments give.
unfoldable pub args_of : List ℕ → MarkVictimArgs
args_of entry = record {
  pid = le (slice 8 4 entry);
  comm_data_loc = le (slice 12 4 entry);
  total_vm = le (slice 16 8 entry);
  anon_rss = le (slice 24 8 entry);
  file_rss = le (slice 32 8 entry);
  shmem_rss = le (slice 40 8 entry);
  uid = le (slice 48 4 entry);
  pgtables = le (slice 56 8 entry);
  oom_score_adj = le (slice 64 2 entry);
}

-- One firing: the bytes that `bpf_probe_read_kernel` reads at the context, none if it fails, what
-- `bpf_probe_read_kernel_str_bytes` leaves in a buffer for an offset into the entry, and the CPU.
pub record Firing : Type 0 where
  pub entry : Option (List ℕ)
  pub read_str : ℕ → List ℕ → List ℕ
  pub cpu : ℕ

-- The two maps. `DROPPED` has one slot for each CPU.
pub record Maps (Ring : Type 0) : Type 0 where
  pub events : Ring
  pub dropped : List ℕ

abbrev pub u64_mod : ℕ
u64_mod = 18446744073709551616

-- `if let Some(dropped) = DROPPED.get_ptr_mut(0) { *dropped += 1 }`
unfoldable pub bump : ℕ → List ℕ → List ℕ
bump cpu [] = []
bump zero (n ∷ ns) = (n + 1) % u64_mod ∷ ns
bump (suc cpu) (n ∷ ns) = n ∷ bump cpu ns

unfoldable pub event_of_args : Firing → MarkVictimArgs → OomKillEvent
event_of_args firing args = record {
  pid = args.pid;
  comm = firing.read_str (args.comm_data_loc % 65536) (replicate 16 0);
  total_vm = args.total_vm;
  anon_rss = args.anon_rss;
  file_rss = args.file_rss;
  shmem_rss = args.shmem_rss;
  uid = args.uid;
  pgtables = args.pgtables;
  oom_score_adj = args.oom_score_adj;
}

-- What is in the padding of the event is the compiler's.
module _ (ring_buf : RingBuf) (pad_comm pad_uid pad_end : List ℕ) where
  open ring_buf use {Ring, output}

  unfoldable pub event_bytes : OomKillEvent → List ℕ
  event_bytes event = concat (fields pad_comm pad_uid pad_end event) []

  abbrev pub queue_or_count : ℕ → Option Ring → Maps Ring → Maps Ring
  queue_or_count cpu none maps = record maps { dropped = bump cpu maps.dropped }
  queue_or_count cpu (some ring) maps = record maps { events = ring }

  abbrev pub fire : Firing → Option (List ℕ) → Maps Ring → Maps Ring
  fire firing none maps = maps
  fire firing (some entry) maps =
      queue_or_count firing.cpu
        (output (event_bytes (event_of_args firing (args_of entry))) maps.events) maps

  unfoldable pub mark_victim : Firing → Maps Ring → Maps Ring
  mark_victim firing maps = fire firing firing.entry maps

  unfoldable pub run_probe : List Firing → Maps Ring → Maps Ring
  run_probe [] maps = maps
  run_probe (firing ∷ firings) maps = run_probe firings (mark_victim firing maps)
