-- ===== src/Tracepoint/Tests.antt =====
-- Runs of the layout check on the `format` files that tracepoint.rs tests with.
use ebpf_oom_watcher.Prelude.{
  ◌≡◌, refl, List, [], ◌∷◌, ◌++◌, Text, codes, length, ◌==◌, list_eq, nat_eq, if◌then◌else◌, ◌↔◌,
  All, In, inl, inr, some, true, contains, ◌||◌, arith,
}
use ebpf_oom_watcher.Tracepoint.Format.{Field, parse_format, is_space}
use ebpf_oom_watcher.Tracepoint.Strings.{is, any-Lacks}
use ebpf_oom_watcher.Tracepoint.Declared.{Declared, IsDeclared, is_special}
use ebpf_oom_watcher.Tracepoint.RoundTrip.{
  Line, IsLine, other, declared, render, parse_format-render,
}
use ebpf_oom_watcher.Tracepoint.Layout.{
  check_layout, Mismatch, missing, Read, content, io_error, verify_kernel_layout, accepted,
  read_format, format, debug_path, required_fields,
}
use ebpf_oom_watcher.Tracepoint.Refusal.{HoldsLine, message, verify_kernel_layout-names}
use ebpf_oom_watcher.Tracepoint.Verdict.{
  IsFormat, HasField, HasField-find_iff, verify_kernel_layout_iff,
}

abbrev header : Text
header =
    codes
      "name: mark_victim\nID: 1442\nformat:\n\tfield:unsigned short common_type;\toffset:0;\tsize:2;\tsigned:0;\n\tfield:int common_pid;\toffset:4;\tsize:4;\tsigned:1;\n\n\tfield:int pid;\toffset:8;\tsize:4;\tsigned:1;\n"

abbrev extended : Text
extended =
    codes
      "\tfield:__data_loc char[] comm;\toffset:12;\tsize:4;\tsigned:1;\n\tfield:unsigned long total_vm;\toffset:16;\tsize:8;\tsigned:0;\n\tfield:unsigned long anon_rss;\toffset:24;\tsize:8;\tsigned:0;\n\tfield:unsigned long file_rss;\toffset:32;\tsize:8;\tsigned:0;\n\tfield:unsigned long shmem_rss;\toffset:40;\tsize:8;\tsigned:0;\n\tfield:unsigned int uid;\toffset:48;\tsize:4;\tsigned:0;\n\tfield:unsigned long pgtables;\toffset:56;\tsize:8;\tsigned:0;\n\tfield:short oom_score_adj;\toffset:64;\tsize:2;\tsigned:1;\n"

accepts_modern : check_layout (header ++ extended) ≡ []
unfolding check_layout ebpf_oom_watcher.Tracepoint.Layout.find ebpf_oom_watcher.Prelude.list_beq
accepts_modern = refl

pre_6_9 : length (check_layout header) ≡ 8
unfolding check_layout ebpf_oom_watcher.Tracepoint.Layout.find ebpf_oom_watcher.Prelude.list_beq
pre_6_9 = refl

-- tracefs is not mounted; debugfs has the file.
abbrev debug_only : Text → Read
debug_only path =
    if path == debug_path then content (header ++ extended) else io_error (codes "no such file")

verify_kernel_layout_iff_example : (verify_kernel_layout debug_only ≡ accepted) ↔ (
    (text : Text) × IsFormat debug_only text × All (HasField (parse_format text)) required_fields)
verify_kernel_layout_iff_example = verify_kernel_layout_iff debug_only

abbrev old_kernel : Text → Read
old_kernel path = content header

abbrev decoded_comm : Field
decoded_comm = record { name = codes "comm"; offset = 12; size = 4 }

lacks_comm : ¬ HasField (parse_format header) decoded_comm
unfolding parse_format ebpf_oom_watcher.Tracepoint.Layout.find ebpf_oom_watcher.Prelude.list_beq
lacks_comm has =
    let (f, e, o, s) = (HasField-find_iff (parse_format header) decoded_comm).0 has in cc

verify_kernel_layout-names_example :
    (error : Text) × (message (verify_kernel_layout old_kernel) ≡ some error)
    × HoldsLine (parse_format header) decoded_comm error
unfolding required_fields
verify_kernel_layout-names_example =
    verify_kernel_layout-names old_kernel header decoded_comm (inl refl) (inr (inl refl)) lacks_comm

abbrev total_vm : Declared
total_vm = record {
  type_name = codes "unsigned long";
  name = codes "total_vm";
  suffix = [];
  offset = 16;
  size = 8;
  signed = 0;
}

abbrev comm : Declared
comm = record {
  type_name = codes "char";
  name = codes "comm";
  suffix = codes "[16]";
  offset = 24;
  size = 16;
  signed = 1;
}

total_vm-IsDeclared : IsDeclared total_vm
unfolding is_space
total_vm-IsDeclared = record {
  type_name = any-Lacks (λ c. c == b';' || c == b'\n') (codes "unsigned long") refl;
  name = any-Lacks is_special (codes "total_vm") refl;
  suffix = tt;
  suffix_ends = tt;
  offset = omega arith;
  size = omega arith;
}

comm-IsDeclared : IsDeclared comm
unfolding is_space
comm-IsDeclared = record {
  type_name = any-Lacks (λ c. c == b';' || c == b'\n') (codes "char") refl;
  name = any-Lacks is_special (codes "comm") refl;
  suffix = (refl, any-Lacks is_space (codes "[16]") refl);
  suffix_ends = any-Lacks (is b';') (codes "[16]") refl;
  offset = omega arith;
  size = omega arith;
}

abbrev mark_victim_lines : List Line
mark_victim_lines = other (codes "format:") ∷ declared total_vm ∷ other [] ∷ declared comm ∷ []

mark_victim_lines-IsLine : All IsLine mark_victim_lines
unfolding is_space ebpf_oom_watcher.Prelude.starts_with ebpf_oom_watcher.Tracepoint.Format.trim
mark_victim_lines-IsLine = (
  (any-Lacks (is b'\n') (codes "format:") refl, refl),
  (total_vm-IsDeclared, ((tt, refl), (comm-IsDeclared, tt))),
)

parse_format-render_example :
    parse_format (render mark_victim_lines)
    ≡ record { name = codes "total_vm"; offset = 16; size = 8 }
      ∷ record { name = codes "comm"; offset = 24; size = 16 }
      ∷ []
parse_format-render_example = parse_format-render mark_victim_lines mark_victim_lines-IsLine
