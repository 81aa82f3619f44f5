-- ===== src/Tracepoint/Layout.antt =====
-- oom-watcher/src/tracepoint.rs, `check_layout` and `verify_kernel_layout`: the required fields held
-- against those of the running kernel. Tracepoint.Refusal has their texts.
use ebpf_oom_watcher.Prelude.{
  ℕ, Bool, true, false, ◌&&◌, List, [], ◌∷◌, Option, none, some, Text, codes, if◌then◌else◌, ◌==◌,
  nat_eq, list_eq, all, filter_map, find_map,
}
use ebpf_oom_watcher.Tracepoint.Format.{Field, parse_format}

abbrev pub field : Text → ℕ → ℕ → Field
field name offset size = record { name = name; offset = offset; size = size }

unfoldable pub required_fields : List Field
required_fields =
    field (codes "pid") 8 4
    ∷ field (codes "comm") 12 4
    ∷ field (codes "total_vm") 16 8
    ∷ field (codes "anon_rss") 24 8
    ∷ field (codes "file_rss") 32 8
    ∷ field (codes "shmem_rss") 40 8
    ∷ field (codes "uid") 48 4
    ∷ field (codes "pgtables") 56 8
    ∷ field (codes "oom_score_adj") 64 2
    ∷ []

pub data Mismatch : Type 0 where
  missing : (name : Text) → Mismatch
  moved : (name : Text) → (expected : ℕ × ℕ) → (found : ℕ × ℕ) → Mismatch

-- `found.iter().find(…)`.
abbrev pub named : Text → Field → Option Field
named name f = if f.name == name then some f else none

unfoldable pub find : Text → List Field → Option Field
unfolding find_map
find name found = find_map (named name) found

-- The arms of the match on what was found.
abbrev pub mismatch : Field → Option Field → Option Mismatch
mismatch want none = some (missing want.name)
mismatch want (some f) =
    if (f.offset == want.offset) && (f.size == want.size)
    then none
    else some (moved want.name (want.offset, want.size) (f.offset, f.size))

abbrev pub compare_field : List Field → Field → Option Mismatch
compare_field found want = mismatch want (find want.name found)

unfoldable pub check_layout : Text → List Mismatch
unfolding parse_format filter_map required_fields
check_layout text = filter_map (compare_field (parse_format text)) required_fields

-- `fs::read_to_string`: the text of a file, or an error.
pub data Read : Type 0 where
  content : Text → Read
  io_error : Text → Read

abbrev pub tracing_path : Text
tracing_path = codes "/sys/kernel/tracing/events/oom/mark_victim/format"

abbrev pub debug_path : Text
debug_path = codes "/sys/kernel/debug/tracing/events/oom/mark_victim/format"

-- The outcomes of `verify_kernel_layout`: the error holds the path and the cause of the last read,
-- or every mismatch with whether all of them are missing fields.
pub data Verdict : Type 0 where
  accepted : Verdict
  unreadable : (path : Text) → (cause : Text) → Verdict
  rejected : (mismatches : List Mismatch) → (all_missing : Bool) → Verdict

pub data Format : Type 0 where
  format : Text → Format
  no_format : (path : Text) → (cause : Text) → Format

abbrev pub read_debug : Read → Format
read_debug (content text) = format text
read_debug (io_error cause) = no_format debug_path cause

abbrev pub read_tracing : Read → Read → Format
read_tracing (content text) other = format text
read_tracing (io_error cause) other = read_debug other

unfoldable pub read_format : (Text → Read) → Format
read_format read_to_string = read_tracing (read_to_string tracing_path) (read_to_string debug_path)

abbrev pub is_missing : Mismatch → Bool
is_missing (missing name) = true
is_missing (moved name expected found) = false

abbrev pub verdict_of : List Mismatch → Verdict
verdict_of [] = accepted
verdict_of (m ∷ ms) = rejected (m ∷ ms) (all is_missing (m ∷ ms))

abbrev pub verdict : Format → Verdict
verdict (format text) = verdict_of (check_layout text)
verdict (no_format path cause) = unreadable path cause

unfoldable pub verify_kernel_layout : (Text → Read) → Verdict
unfolding read_format check_layout
verify_kernel_layout read_to_string = verdict (read_format read_to_string)
