-- ===== src/Tracepoint/RoundTrip.antt =====
-- oom-watcher/src/tracepoint.rs, `parse_format`, on the text that the kernel prints.
use ebpf_oom_watcher.Prelude.{
  ℕ, ◌≡◌, refl, ap, ◌∙◌, false, ◌||◌, List, [], ◌∷◌, ◌++◌, none, Text, codes, All, ◌==◌, nat_eq,
  list_eq, filter_map, starts_with, arith,
}
use ebpf_oom_watcher.Prelude.Decimal.{show}
use ebpf_oom_watcher.Tracepoint.Format.{
  drop_last_empty, is_space, trim, split, lines, Field, parse_line, parse_format,
}
use ebpf_oom_watcher.Tracepoint.Strings.{
  Lacks, is, any-Lacks, split-append, All-append, show-Lacks, Lacks-less, strip_prefix-none,
  filter_map_here, filter_map_past,
}
use ebpf_oom_watcher.Tracepoint.Declared.{
  Declared, IsDeclared, attrs_of, decl_of, render_line, name-Lacks, suffix_plain, after_size,
  after_offset, parse_line-render_line,
}

newline_of_digit : (n : ℕ) → Lacks (is b'\n') (show n)
newline_of_digit n = show-Lacks (is b'\n') (λ c low high. ground arith) n

render_line-Lacks : (d : Declared) → IsDeclared d → Lacks (is b'\n') (render_line d)
unfolding is_space
render_line-Lacks d v =
    let no_break = is b'\n' in
    let name = name-Lacks no_break (λ c h. ground arith) d.name v.name in
    let suffix =
      Lacks-less is_space no_break (λ c h. ground arith) d.suffix
        (suffix_plain d.suffix v.suffix) in
    let type_name =
      Lacks-less (λ c. c == b';' || c == b'\n') no_break (λ c h. ground arith) d.type_name
        v.type_name in
    let attrs =
      All-append no_break (codes "\toffset:") (show d.offset ++ (b';' ∷ after_offset d))
        (any-Lacks no_break (codes "\toffset:") refl)
        (All-append no_break (show d.offset) (b';' ∷ after_offset d) (newline_of_digit d.offset) (
          All-append no_break (codes ";\tsize:") (show d.size ++ (b';' ∷ after_size d))
            (any-Lacks no_break (codes ";\tsize:") refl)
            (All-append no_break (show d.size) (b';' ∷ after_size d) (newline_of_digit d.size) (
              All-append no_break (codes ";\tsigned:") (show d.signed ++ (b';' ∷ []))
                (any-Lacks no_break (codes ";\tsigned:") refl)
                (All-append no_break (show d.signed) (b';' ∷ []) (newline_of_digit d.signed)
                  (refl, tt)))))) in
    let decl =
      All-append no_break d.type_name (b' ' ∷ (d.name ++ d.suffix)) type_name
        (refl, All-append no_break d.name d.suffix name suffix) in
    All-append no_break (codes "\tfield:") (decl_of d ++ (b';' ∷ attrs_of d))
      (any-Lacks no_break (codes "\tfield:") refl)
      (All-append no_break (decl_of d) (b';' ∷ attrs_of d) decl (refl, attrs))

-- A line of a `format` file: a field, or anything else.
pub data Line : Type 0 where
  declared : Declared → Line
  other : Text → Line

abbrev pub IsLine : Line → Type 0
IsLine (declared d) = IsDeclared d
IsLine (other t) = Lacks (is b'\n') t × (starts_with (codes "field:") (trim t) ≡ false)

abbrev pub render : List Line → Text
render [] = []
render (declared d ∷ ls) = render_line d ++ (b'\n' ∷ render ls)
render (other t ∷ ls) = t ++ (b'\n' ∷ render ls)

abbrev pub fields_of : List Line → List Field
fields_of [] = []
fields_of (declared d ∷ ls) =
    record { name = d.name; offset = d.offset; size = d.size } ∷ fields_of ls
fields_of (other t ∷ ls) = fields_of ls

parse_line_other : (t : Text) → starts_with (codes "field:") (trim t) ≡ false → parse_line t ≡ none
unfolding parse_line
parse_line_other t h = rw (strip_prefix-none (codes "field:") (trim t) h) refl

-- An empty last line has no field.
filter_map-drop_last_empty :
    (ps : List Text) → filter_map parse_line (drop_last_empty ps) ≡ filter_map parse_line ps
unfolding filter_map parse_line
filter_map-drop_last_empty [] = refl
filter_map-drop_last_empty ([] ∷ []) = refl
filter_map-drop_last_empty ([] ∷ q ∷ ps) = filter_map-drop_last_empty (q ∷ ps)
filter_map-drop_last_empty ((c ∷ p) ∷ ps) = rw (filter_map-drop_last_empty ps) refl

no_line : filter_map parse_line (split b'\n' []) ≡ []
unfolding filter_map split parse_line
no_line = refl

filter_map-split :
    (ls : List Line)
    → All IsLine ls
    → filter_map parse_line (split b'\n' (render ls)) ≡ fields_of ls
filter_map-split [] h = no_line
filter_map-split (declared d ∷ ls) (v, h) =
    ap (filter_map parse_line)
      (split-append b'\n' (render_line d) (render ls) (render_line-Lacks d v))
    ∙ filter_map_here parse_line (render_line d) (split b'\n' (render ls)) _
        (parse_line-render_line d v)
    ∙ ap (λ fs. record { name = d.name; offset = d.offset; size = d.size } ∷ fs)
        (filter_map-split ls h)
filter_map-split (other t ∷ ls) ((whole, e), h) =
    ap (filter_map parse_line) (split-append b'\n' t (render ls) whole)
    ∙ filter_map_past parse_line t (split b'\n' (render ls)) (parse_line_other t e)
    ∙ filter_map-split ls h

-- The parser reads back, in order, the name, the offset and the size of every field of a `format`
-- file that is printed as the kernel prints it, a line `\tfield:<type> <name>[<n>];\toffset:<n>;
-- \tsize:<n>;\tsigned:<n>;` for each, among lines that do not begin with `field:`; the numbers are
-- those of a `usize`, and a name has no white space, `;`, `[` or `*`.
pub parse_format-render : (ls : List Line) → All IsLine ls → parse_format (render ls) ≡ fields_of ls
unfolding parse_format lines
parse_format-render ls h =
    filter_map-drop_last_empty (split b'\n' (render ls)) ∙ filter_map-split ls h
