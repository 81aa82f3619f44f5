-- ===== src/Tracepoint/Declared.antt =====
-- oom-watcher/src/tracepoint.rs, `parse_format`, on one line that declares a field as the kernel does.
mod Lines
use ebpf_oom_watcher.Prelude.{
  ℕ, ◌<◌, ◌≡◌, refl, ap, ◌∙◌, ◌||◌, [], ◌∷◌, ◌++◌, some, Text, codes, ◌==◌, nat_eq, list_eq,
  find_map, arith,
}
use ebpf_oom_watcher.Prelude.Decimal.{show}
use ebpf_oom_watcher.Tracepoint.Format.{
  is_space, trim_start, trim, split, trim_start_matches, usize_mod, attr_part, attr, parse_line,
}
use ebpf_oom_watcher.Tracepoint.Strings.{
  Lacks, is, any-Lacks, split_once-append, split-append, trim_end-EndsPlain, append-EndsPlain,
  All-append, Lacks-less, find_map_here, find_map_later,
}
use ebpf_oom_watcher.Tracepoint.Declared.Lines.{
  attr_part-show, attr_part_other, parse_line-trim, next_back-decl, before-suffix,
  trim_start_matches-IsName, shown_whole,
}
pub use ebpf_oom_watcher.Tracepoint.Declared.Lines.{
  Declared, is_special, IsDeclared, attrs_of, decl_of, render_line, name-Lacks, suffix_plain,
}

-- The pieces of the attributes.
abbrev offset_part : ℕ → Text
offset_part n = b'\t' ∷ (codes "offset:" ++ show n)

abbrev size_part : ℕ → Text
size_part n = b'\t' ∷ (codes "size:" ++ show n)

abbrev signed_part : ℕ → Text
signed_part n = b'\t' ∷ (codes "signed:" ++ show n)

split-offset_part :
    (n : ℕ) (rest : Text)
    → split b';' (offset_part n ++ (b';' ∷ rest)) ≡ offset_part n ∷ split b';' rest
split-offset_part n rest = split-append b';' (offset_part n) rest (
    All-append (is b';') (codes "\toffset:") (show n) (any-Lacks (is b';') (codes "\toffset:") refl)
      (shown_whole n))

split-size_part :
    (n : ℕ) (rest : Text)
    → split b';' (size_part n ++ (b';' ∷ rest)) ≡ size_part n ∷ split b';' rest
split-size_part n rest = split-append b';' (size_part n) rest (
    All-append (is b';') (codes "\tsize:") (show n) (any-Lacks (is b';') (codes "\tsize:") refl)
      (shown_whole n))

abbrev pub after_size : Declared → Text
after_size d = signed_part d.signed ++ (b';' ∷ [])

abbrev pub after_offset : Declared → Text
after_offset d = size_part d.size ++ (b';' ∷ after_size d)

attr-offset :
    (d : Declared) → d.offset < usize_mod → attr (attrs_of d) (codes "offset") ≡ some d.offset
unfolding attr
attr-offset d h =
    ap (find_map (attr_part (codes "offset"))) (split-offset_part d.offset (after_offset d))
    ∙ find_map_here (attr_part (codes "offset")) (offset_part d.offset)
        (split b';' (after_offset d)) d.offset
        (attr_part-show (codes "offset") d.offset (any-Lacks is_space (codes "offset") refl) h)

attr-size : (d : Declared) → d.size < usize_mod → attr (attrs_of d) (codes "size") ≡ some d.size
unfolding attr
attr-size d h =
    ap (find_map (attr_part (codes "size"))) (split-offset_part d.offset (after_offset d))
    ∙ find_map_later (attr_part (codes "size")) (offset_part d.offset) (split b';' (after_offset d))
        (attr_part_other d.offset)
    ∙ ap (find_map (attr_part (codes "size"))) (split-size_part d.size (after_size d))
    ∙ find_map_here (attr_part (codes "size")) (size_part d.size) (split b';' (after_size d)) d.size
        (attr_part-show (codes "size") d.size (any-Lacks is_space (codes "size") refl) h)

decl-Lacks : (d : Declared) → IsDeclared d → Lacks (is b';') (decl_of d)
decl-Lacks d v =
    All-append (is b';') d.type_name (b' ' ∷ (d.name ++ d.suffix))
      (Lacks-less (λ c. c == b';' || c == b'\n') (is b';') (λ c h. ground arith) d.type_name
        v.type_name)
      (
        refl,
        All-append (is b';') d.name d.suffix
            (name-Lacks (is b';') (λ c h. ground arith) d.name v.name) v.suffix_ends,
      )

trim-render_line :
    (d : Declared) → trim (render_line d) ≡ codes "field:" ++ (decl_of d ++ (b';' ∷ attrs_of d))
unfolding trim trim_start is_space
trim-render_line d = trim_end-EndsPlain (codes "field:" ++ (decl_of d ++ (b';' ∷ attrs_of d))) (
    append-EndsPlain (codes "field:") (decl_of d ++ (b';' ∷ attrs_of d)) (
      append-EndsPlain (decl_of d) (b';' ∷ attrs_of d) (
        append-EndsPlain (codes ";\toffset:") (show d.offset ++ (b';' ∷ after_offset d)) (
          append-EndsPlain (show d.offset) (b';' ∷ after_offset d) (
            append-EndsPlain (codes ";\tsize:") (show d.size ++ (b';' ∷ after_size d)) (
              append-EndsPlain (show d.size) (b';' ∷ after_size d) (
                append-EndsPlain (codes ";\tsigned:") (show d.signed ++ (b';' ∷ []))
                  (append-EndsPlain (show d.signed) (b';' ∷ []) refl))))))))

pub parse_line-render_line :
    (d : Declared)
    → IsDeclared d
    → parse_line (render_line d) ≡ some (record { name = d.name; offset = d.offset; size = d.size })
parse_line-render_line d v =
    parse_line-trim (render_line d) (decl_of d ++ (b';' ∷ attrs_of d)) (decl_of d) (attrs_of d)
      (d.name ++ d.suffix) d.name d.offset d.size v.name (trim-render_line d)
      (split_once-append b';' (decl_of d) (attrs_of d) (decl-Lacks d v))
      (next_back-decl d.type_name d.name d.suffix v.name v.suffix)
      (ap (trim_start_matches b'*') (
          before-suffix d.name d.suffix (name-Lacks (is b'[') (λ c h. ground arith) d.name v.name)
            v.suffix)
        ∙ trim_start_matches-IsName d.name v.name)
      (attr-offset d v.offset) (attr-size d v.size)
