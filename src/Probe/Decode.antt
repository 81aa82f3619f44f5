-- ===== src/Probe/Decode.antt =====
-- oom-watcher-ebpf/src/main.rs under the check of oom-watcher/src/tracepoint.rs: on a kernel that
-- passes, the probe reads what the kernel wrote.
use ebpf_oom_watcher.Prelude.{ℕ, ◌≡◌, refl, List, Option, none, some, Text, codes}
use ebpf_oom_watcher.Source.{le}
use ebpf_oom_watcher.Tracepoint.Format.{Field, parse_format}
use ebpf_oom_watcher.Tracepoint.Layout.{
  find, field, required_fields, Read, read_format, format, verify_kernel_layout, accepted,
}
use ebpf_oom_watcher.Tracepoint.Verdict.{
  HasField, HasField-find_iff, verify_kernel_layout_iff, read_format_iff,
}
use ebpf_oom_watcher.Probe.{slice, args_of}

abbrev read_field : List ℕ → Option Field → Option ℕ
read_field entry none = none
read_field entry (some f) = some (le (slice f.offset f.size entry))

-- The kernel's own reading of an entry: the integer at the place that its `format` file gives to the
-- field of that name.
abbrev kernel_field : Text → List ℕ → Text → Option ℕ
kernel_field text entry name = read_field entry (find name (parse_format text))

-- What the probe has read is what the kernel's layout says.
pub record IsDecoded (text : Text) (entry : List ℕ) : Type 0 where
  pub pid : kernel_field text entry (codes "pid") ≡ some (args_of entry).pid
  pub comm : kernel_field text entry (codes "comm") ≡ some (args_of entry).comm_data_loc
  pub total_vm : kernel_field text entry (codes "total_vm") ≡ some (args_of entry).total_vm
  pub anon_rss : kernel_field text entry (codes "anon_rss") ≡ some (args_of entry).anon_rss
  pub file_rss : kernel_field text entry (codes "file_rss") ≡ some (args_of entry).file_rss
  pub shmem_rss : kernel_field text entry (codes "shmem_rss") ≡ some (args_of entry).shmem_rss
  pub uid : kernel_field text entry (codes "uid") ≡ some (args_of entry).uid
  pub pgtables : kernel_field text entry (codes "pgtables") ≡ some (args_of entry).pgtables
  pub oom_score_adj :
      kernel_field text entry (codes "oom_score_adj") ≡ some (args_of entry).oom_score_adj

HasField-read :
    (found : List Field) (entry : List ℕ) (want : Field)
    → HasField found want
    → read_field entry (find want.name found) ≡ some (le (slice want.offset want.size entry))
HasField-read found entry want has =
    let (f, there, offset, size) = (HasField-find_iff found want).0 has in
    rw (there, offset, size) refl

-- If the check at startup passes, then in the `format` file that it read each field that the probe
-- takes from a trace entry is, for every entry, the integer that the kernel's own layout has there.
pub verify_kernel_layout-IsDecoded :
    (read_to_string : Text → Read) (entry : List ℕ)
    → verify_kernel_layout read_to_string ≡ accepted
    → (text : Text) × (read_format read_to_string ≡ format text) × IsDecoded text entry
unfolding required_fields args_of
verify_kernel_layout-IsDecoded read_to_string entry h =
    let (text, read, (a, (b, (c, (d, (e, (f, (g, (i, (j, end_)))))))))) =
      (verify_kernel_layout_iff read_to_string).0 h in
    let found = parse_format text in
    (
      text,
      (read_format_iff read_to_string text).1 read,
      record {
        pid = HasField-read found entry (field (codes "pid") 8 4) a;
        comm = HasField-read found entry (field (codes "comm") 12 4) b;
        total_vm = HasField-read found entry (field (codes "total_vm") 16 8) c;
        anon_rss = HasField-read found entry (field (codes "anon_rss") 24 8) d;
        file_rss = HasField-read found entry (field (codes "file_rss") 32 8) e;
        shmem_rss = HasField-read found entry (field (codes "shmem_rss") 40 8) f;
        uid = HasField-read found entry (field (codes "uid") 48 4) g;
        pgtables = HasField-read found entry (field (codes "pgtables") 56 8) i;
        oom_score_adj = HasField-read found entry (field (codes "oom_score_adj") 64 2) j;
      },
    )
