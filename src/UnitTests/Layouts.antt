-- ===== src/UnitTests/Layouts.antt =====
-- The tests of oom-watcher/src/tracepoint.rs, on the same `format` files.
use ebpf_oom_watcher.Prelude.{
  ℕ, ◌≡◌, refl, Bool, true, false, any, ◌==◌, List, [], ◌∷◌, ◌++◌, Text, codes, length, all, In,
  inl, inr, nat_eq, list_eq,
}
use ebpf_oom_watcher.Tracepoint.Format.{parse_format}
use ebpf_oom_watcher.Tracepoint.Layout.{
  field, find, check_layout, Mismatch, missing, moved, is_missing,
}

abbrev common_lines : Text
common_lines =
    codes
      "\tfield:unsigned short common_type;\toffset:0;\tsize:2;\tsigned:0;\n\tfield:unsigned char common_flags;\toffset:2;\tsize:1;\tsigned:0;\n\tfield:unsigned char common_preempt_count;\toffset:3;\tsize:1;\tsigned:0;\n\tfield:int common_pid;\toffset:4;\tsize:4;\tsigned:1;\n\n\tfield:int pid;\toffset:8;\tsize:4;\tsigned:1;\n"

abbrev up_to_uid : Text
up_to_uid =
    codes
      "\tfield:__data_loc char[] comm;\toffset:12;\tsize:4;\tsigned:1;\n\tfield:unsigned long total_vm;\toffset:16;\tsize:8;\tsigned:0;\n\tfield:unsigned long anon_rss;\toffset:24;\tsize:8;\tsigned:0;\n\tfield:unsigned long file_rss;\toffset:32;\tsize:8;\tsigned:0;\n\tfield:unsigned long shmem_rss;\toffset:40;\tsize:8;\tsigned:0;\n\tfield:unsigned int uid;\toffset:48;\tsize:4;\tsigned:0;\n"

abbrev from_pgtables : Text
from_pgtables =
    codes
      "\tsigned:0;\n\tfield:short oom_score_adj;\toffset:64;\tsize:2;\tsigned:1;\n\nprint fmt: \"pid=%d comm=%s total-vm=%lukB\", REC->pid, __get_str(comm), REC->total_vm\n"

abbrev modern_with : Text → Text
modern_with pgtables =
    codes "name: mark_victim\nID: 1442\nformat:\n"
    ++ (common_lines ++ (up_to_uid ++ (codes "\t" ++ (pgtables ++ from_pgtables))))

abbrev modern : Text
modern = modern_with (codes "field:unsigned long pgtables;\toffset:56;\tsize:8;")

abbrev pre_6_9 : Text
pre_6_9 =
    codes "name: mark_victim\nID: 1189\nformat:\n"
    ++ (common_lines ++ codes "\nprint fmt: \"pid=%d\", REC->pid\n")

abbrev ParsesEveryFieldLine : Type 0
ParsesEveryFieldLine =
    let fields = parse_format modern in
    (length fields ≡ 13)
    × In (field (codes "total_vm") 16 8) fields
    × In (field (codes "oom_score_adj") 64 2) fields

parses_every_field_line : ParsesEveryFieldLine
unfolding parse_format
parses_every_field_line = (
  refl,
  inr (inr (inr (inr (inr (inr (inl refl)))))),
  inr (inr (inr (inr (inr (inr (inr (inr (inr (inr (inr (inr (inl refl)))))))))))),
)

abbrev ReducesDataLocDeclarationToTheBareName : Type 0
ReducesDataLocDeclarationToTheBareName = In (field (codes "comm") 12 4) (parse_format modern)

reduces_data_loc_declaration_to_the_bare_name : ReducesDataLocDeclarationToTheBareName
unfolding parse_format
reduces_data_loc_declaration_to_the_bare_name = inr (inr (inr (inr (inr (inl refl)))))

abbrev StripsArraySuffixFromFieldName : Type 0
StripsArraySuffixFromFieldName =
    parse_format (codes "\tfield:char comm[16];\toffset:12;\tsize:16;\tsigned:1;")
    ≡ field (codes "comm") 12 16 ∷ []

strips_array_suffix_from_field_name : StripsArraySuffixFromFieldName
unfolding parse_format
strips_array_suffix_from_field_name = refl

abbrev AcceptsTheLayoutTheProbeDecodes : Type 0
AcceptsTheLayoutTheProbeDecodes = check_layout modern ≡ []

accepts_the_layout_the_probe_decodes : AcceptsTheLayoutTheProbeDecodes
unfolding check_layout find ebpf_oom_watcher.Prelude.list_beq
accepts_the_layout_the_probe_decodes = refl

-- Whether a mismatch is the absence of this field.
abbrev lacks_field : Text → Mismatch → Bool
lacks_field name (missing other) = other == name
lacks_field name (moved other expected found) = false

abbrev ReportsEveryFieldThePre69TracepointLacks : Type 0
ReportsEveryFieldThePre69TracepointLacks =
    let mismatches = check_layout pre_6_9 in
    (length mismatches ≡ 8)
    × (all is_missing mismatches ≡ true)
    × (any (lacks_field (codes "total_vm")) mismatches ≡ true)
    × (any (lacks_field (codes "pid")) mismatches ≡ false)

reports_every_field_the_pre_6_9_tracepoint_lacks : ReportsEveryFieldThePre69TracepointLacks
unfolding check_layout find ebpf_oom_watcher.Prelude.list_beq
reports_every_field_the_pre_6_9_tracepoint_lacks = (refl, refl, refl, refl)

abbrev ReportsAFieldThatMovedRatherThanVanished : Type 0
ReportsAFieldThatMovedRatherThanVanished =
    let shifted = modern_with (codes "field:unsigned long pgtables;\toffset:60;\tsize:8;") in
    check_layout shifted ≡ moved (codes "pgtables") (56, 8) (60, 8) ∷ []

reports_a_field_that_moved_rather_than_vanished : ReportsAFieldThatMovedRatherThanVanished
unfolding check_layout find ebpf_oom_watcher.Prelude.list_beq
reports_a_field_that_moved_rather_than_vanished = refl

abbrev IgnoresNonFieldLines : Type 0
IgnoresNonFieldLines = parse_format (codes "name: mark_victim\nID: 1442\nformat:\n") ≡ []

ignores_non_field_lines : IgnoresNonFieldLines
unfolding parse_format
ignores_non_field_lines = refl
