-- ===== src/Probe/Tests.antt =====
-- A trace entry and the `format` file that describes it: the theorem on the probe applied to them.
use ebpf_oom_watcher.Prelude.{
  ℕ, ◌≡◌, refl, List, [], ◌∷◌, ◌++◌, Option, none, some, replicate, arith,
}
use ebpf_oom_watcher.Prelude.{Text, codes}
use ebpf_oom_watcher.Tracepoint.Layout.{Read, content, read_format, format, verify_kernel_layout}
use ebpf_oom_watcher.Probe.Decode.{IsDecoded, verify_kernel_layout-IsDecoded}

-- The entry of pid 4711 with its figures all 7.
abbrev victim : List ℕ
victim = replicate 8 0 ++ (103 ∷ 18 ∷ 0 ∷ 0 ∷ []) ++ (72 ∷ 0 ∷ 16 ∷ 0 ∷ []) ++ replicate 56 7

-- The `format` file of a kernel whose layout is the one that the probe decodes.
abbrev modern : Text
modern =
    codes
      "\tfield:int pid;\toffset:8;\tsize:4;\tsigned:1;\n\tfield:__data_loc char[] comm;\toffset:12;\tsize:4;\tsigned:1;\n\tfield:unsigned long total_vm;\toffset:16;\tsize:8;\tsigned:0;\n\tfield:unsigned long anon_rss;\toffset:24;\tsize:8;\tsigned:0;\n\tfield:unsigned long file_rss;\toffset:32;\tsize:8;\tsigned:0;\n\tfield:unsigned long shmem_rss;\toffset:40;\tsize:8;\tsigned:0;\n\tfield:unsigned int uid;\toffset:48;\tsize:4;\tsigned:0;\n\tfield:unsigned long pgtables;\toffset:56;\tsize:8;\tsigned:0;\n\tfield:short oom_score_adj;\toffset:64;\tsize:2;\tsigned:1;\n"

verify_kernel_layout-IsDecoded_example :
    (text : Text) × (read_format (λ path. content modern) ≡ format text) × IsDecoded text victim
unfolding verify_kernel_layout ebpf_oom_watcher.Tracepoint.Layout.find
    ebpf_oom_watcher.Prelude.list_beq
verify_kernel_layout-IsDecoded_example =
    verify_kernel_layout-IsDecoded (λ path. content modern) victim refl
