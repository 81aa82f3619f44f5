-- ===== src/Source/Tests.antt =====
-- One kill from the probe to the daemon: the theorems on source.rs applied to its record.
use ebpf_oom_watcher.Prelude.{ℕ, ◌≡◌, refl, List, [], ◌∷◌, ◌++◌, some, replicate, arith, filter_map}
use ebpf_oom_watcher.Common.{OomKillEvent}
use ebpf_oom_watcher.Source.{RingBufSource, readable, decode}
use ebpf_oom_watcher.Source.Layout.{IsEvent, fields, concat, decode-fields}
use ebpf_oom_watcher.Source.Delivery.{Op, arrive, poll_with, run_ops, held, run_ops-held}

abbrev kill : OomKillEvent
kill = record {
  pid = 4711;
  comm = replicate 16 97;
  total_vm = 900;
  anon_rss = 800;
  file_rss = 5;
  shmem_rss = 0;
  uid = 1000;
  pgtables = 2;
  oom_score_adj = 65000;
}

kill-IsEvent : IsEvent kill
kill-IsEvent = record {
  pid = omega arith;
  comm = refl;
  total_vm = omega arith;
  anon_rss = omega arith;
  file_rss = omega arith;
  shmem_rss = omega arith;
  uid = omega arith;
  pgtables = omega arith;
  oom_score_adj = omega arith;
}

abbrev kill_bytes : List ℕ
kill_bytes = concat (fields (replicate 4 0) (replicate 4 0) (replicate 6 9) kill) []

decode-fields_example : decode kill_bytes ≡ some kill
decode-fields_example =
    decode-fields kill (replicate 4 0) (replicate 4 0) (replicate 6 9) [] kill-IsEvent refl refl
      refl

abbrev empty : RingBufSource
empty = record { ring = []; pending = []; dropped = some [] }

-- A poll that a tick cancels, a short record, the record, and a poll that drains the ring.
abbrev ops : List Op
ops = poll_with [] ∷ arrive (1 ∷ []) ∷ arrive kill_bytes ∷ poll_with (readable ∷ []) ∷ []

run_ops-held_example : (run_ops ops empty).0 ++ held (run_ops ops empty).1 ≡ kill ∷ []
unfolding filter_map ebpf_oom_watcher.Source.Delivery.event_in fields
    ebpf_oom_watcher.Source.Layout.to_le ebpf_oom_watcher.Source.le
run_ops-held_example = run_ops-held ops empty
