-- ===== src/Tracepoint/Verdict.antt =====
-- What the layout check accepts, and that its report is true.
use ebpf_oom_watcher.Prelude.{
  ◌≡◌, ◌≢◌, refl, ◌↔◌, ◌⊎◌, inl, inr, List, [], ◌∷◌, ◌++◌, Eq-cases, Option, none, some, Text,
  codes, nat_eq, list_eq, filter_map, push_some, In, All, arith, ap, sym, ◌∙◌,
}
use ebpf_oom_watcher.Tracepoint.Format.{Field, parse_format}
use ebpf_oom_watcher.Tracepoint.Layout.{
  Mismatch, missing, moved, find, mismatch, compare_field, required_fields, check_layout, accepted,
  verify_kernel_layout, read_format, verdict, verdict_of, format, no_format, Format, Read, content,
  io_error, read_tracing,
}

-- The first of the fields found that has the name.
abbrev pub IsFirstNamed : Text → List Field → Field → Type 0
IsFirstNamed name found f =
    (before : List Field) × (after : List Field) × (found ≡ before ++ (f ∷ after))
    × All (λ g. g.name ≢ name) before
    × (f.name ≡ name)

pub find-eq-some :
    (name : Text) (found : List Field) (f : Field)
    → find name found ≡ some f
    → IsFirstNamed name found f
unfolding find ebpf_oom_watcher.Prelude.find_map
find-eq-some name [] f h = absurd (cc)
find-eq-some name (g ∷ found) f h = elim (Eq-cases g.name name) [
  | inl (same, b) ↦
      let e : g ≡ f = ground arith in ([], found, ap (λ k. k ∷ found) e, tt, ground arith)
  | inr (other, b) ↦
      let (before, after, cut, absent, named) = find-eq-some name found f (ground arith) in
      (g ∷ before, after, ap (λ gs. g ∷ gs) cut, (other, absent), named)
]

find-first :
    (name : Text) (f : Field) (before after : List Field)
    → All (λ g. g.name ≢ name) before
    → f.name ≡ name
    → find name (before ++ (f ∷ after)) ≡ some f
unfolding find ebpf_oom_watcher.Prelude.find_map
find-first name f [] after absent named = let same = list_eq.eq_iff f.name name in ground arith
find-first name f (g ∷ before) after (other, absent) named =
    let rest = find-first name f before after absent named in
    elim (Eq-cases g.name name) [ inl (same, b) ↦ absurd (other same) | inr (ne, b) ↦ rw b rest ]

pub find-eq-none :
    (name : Text) (found : List Field) → find name found ≡ none → All (λ g. g.name ≢ name) found
unfolding find ebpf_oom_watcher.Prelude.find_map
find-eq-none name [] h = tt
find-eq-none name (g ∷ found) h = elim (Eq-cases g.name name) [
  | inl (same, b) ↦ absurd (ground arith)
  | inr (other, b) ↦ (other, find-eq-none name found (ground arith))
]

-- The first line that names the field gives it the offset and the size that the probe decodes.
unfoldable pub HasField : List Field → Field → Type 0
HasField found want =
    (f : Field) × IsFirstNamed want.name found f × (f.offset ≡ want.offset) × (f.size ≡ want.size)

pub HasField-find_iff :
    (found : List Field) (want : Field)
    → HasField found want ↔ (
        (f : Field) × (find want.name found ≡ some f)
        × (f.offset ≡ want.offset)
        × (f.size ≡ want.size))
unfolding HasField
HasField-find_iff found want = (
  λ (f, (before, after, cut, absent, named), o, s).
      (f, ap (find want.name) cut ∙ find-first want.name f before after absent named, o, s),
  λ (f, e, o, s). (f, find-eq-some want.name found f e, o, s),
)

-- What a mismatch says of the fields found.
pub Describes : List Field → Field → Mismatch → Type 0
Describes found want (missing name) = (name ≡ want.name) × (find want.name found ≡ none)
Describes found want (moved name expected actual) =
    (f : Field) × (name ≡ want.name)
    × (expected ≡ (want.offset, want.size))
    × (find want.name found ≡ some f)
    × (actual ≡ (f.offset, f.size))
    × (actual ≢ expected)

pub mismatch-none_iff :
    (want : Field) (o : Option Field)
    → ((f : Field) × (o ≡ some f) × (f.offset ≡ want.offset) × (f.size ≡ want.size))
      ↔ (mismatch want o ≡ none)
mismatch-none_iff want none = (λ (f, e, o, s). absurd (ground arith), λ h. absurd (ground arith))
mismatch-none_iff want (some f) =
    (λ (g, e, o, s). ground arith, λ h. (f, refl, ground arith, ground arith))

pub mismatch-Describes :
    (found : List Field) (want : Field) (o : Option Field) (m : Mismatch)
    → find want.name found ≡ o
    → mismatch want o ≡ some m
    → Describes found want m
unfolding Describes
mismatch-Describes found want none (missing name) e h = (ground arith, e)
mismatch-Describes found want none (moved name expected actual) e h = absurd (ground arith)
mismatch-Describes found want (some f) (missing name) e h = absurd (ground arith)
mismatch-Describes found want (some f) (moved name expected actual) e h =
    (f, ground arith, ground arith, e, ground arith, λ p. ground arith)

module _ {A B : Type 0} (f : A → Option B) where
  filter_map_nil_iff : (xs : List A) → (filter_map f xs ≡ []) ↔ All (λ x. f x ≡ none) xs
  unfolding filter_map
  filter_map_nil_iff [] = (λ h. tt, λ h. refl)
  filter_map_nil_iff (x ∷ xs) = let ih = filter_map_nil_iff xs in ground arith

  In-filter_map :
      (xs : List A) (b : B) → In b (filter_map f xs) → (a : A) × In a xs × (f a ≡ some b)
  unfolding filter_map
  In-filter_map [] b m = elim m [ ]
  In-filter_map (x ∷ xs) b m = elim (pushed (f x) m) [
    | inl e ↦ (x, inl refl, e)
    | inr n ↦ let (a, l, t) = In-filter_map xs b n in (a, inr l, t)
  ]
    where
      pushed :
          (o : Option B)
          → In b (push_some o (filter_map f xs))
          → (o ≡ some b) ⊎ In b (filter_map f xs)
      pushed none n = inr n
      pushed (some c) (inl e) = inl (ap some (sym e))
      pushed (some c) (inr n) = inr n

All-iff :
    {A : Type 0} (P Q : A → Type 0) (xs : List A) → ((x : A) → P x ↔ Q x) → All P xs ↔ All Q xs
All-iff P Q [] h = (λ u. u, λ u. u)
All-iff P Q (x ∷ xs) h =
    let (f, g) = h x in
    let (fs, gs) = All-iff P Q xs h in (λ (p, ps). (f p, fs ps), λ (q, qs). (g q, gs qs))

check_layout_iff :
    (text : Text) → All (HasField (parse_format text)) required_fields ↔ (check_layout text ≡ [])
unfolding check_layout
check_layout_iff text =
    let found = parse_format text in
    let fields =
      All-iff (HasField found) (λ want. compare_field found want ≡ none) required_fields
        (λ want.
          let (f, g) = HasField-find_iff found want in
          let (p, q) = mismatch-none_iff want (find want.name found) in
          (λ h. p (f h), λ h. g (q h))) in
    let none_left = filter_map_nil_iff (compare_field found) required_fields in
    (λ h. none_left.1 (fields.0 h), λ h. fields.1 (none_left.0 h))

-- Every mismatch in the report is true: it is about a required field, and says either that no line
-- of the `format` file names the field, or at which other place or width the first such line has it.
check_layout-Describes :
    (text : Text) (m : Mismatch)
    → In m (check_layout text)
    → (want : Field) × In want required_fields × Describes (parse_format text) want m
unfolding check_layout
check_layout-Describes text m reported =
    let found = parse_format text in
    let (want, required, e) = In-filter_map (compare_field found) required_fields m reported in
    (want, required, mismatch-Describes found want (find want.name found) m refl e)

verdict_of_iff : (ms : List Mismatch) → (verdict_of ms ≡ accepted) ↔ (ms ≡ [])
verdict_of_iff [] = (λ h. refl, λ h. refl)
verdict_of_iff (m ∷ ms) = (λ h. absurd (cc), λ h. absurd (cc))

-- The text of the `format` file under the first of the two mounts where it can be read: tracefs, and
-- only if it cannot be read there, debugfs.
abbrev pub IsFormat : (Text → Read) → Text → Type 0
IsFormat read_to_string text =
    (read_to_string (codes "/sys/kernel/tracing/events/oom/mark_victim/format") ≡ content text)
    ⊎ ((cause : Text) × (read_to_string (codes "/sys/kernel/tracing/events/oom/mark_victim/format")
          ≡ io_error cause)
        × (read_to_string (codes "/sys/kernel/debug/tracing/events/oom/mark_victim/format")
            ≡ content text))

pub read_format_iff :
    (read_to_string : Text → Read) (text : Text)
    → (read_format read_to_string ≡ format text) ↔ IsFormat read_to_string text
unfolding read_format
read_format_iff read_to_string text =
    by_reads (read_to_string (codes "/sys/kernel/tracing/events/oom/mark_victim/format"))
      (read_to_string (codes "/sys/kernel/debug/tracing/events/oom/mark_victim/format"))
  where
    by_reads :
        (tracing debug : Read)
        → (read_tracing tracing debug ≡ format text) ↔ (
            (tracing ≡ content text)
            ⊎ ((cause : Text) × (tracing ≡ io_error cause) × (debug ≡ content text)))
    by_reads (content t) debug = (
      λ h. inl (ground arith),
      λ h. elim h [ inl e ↦ ground arith | inr (cause, e, d) ↦ absurd (cc) ],
    )
    by_reads (io_error c) (content t) = (
      λ h. inr (c, refl, ground arith),
      λ h. elim h [ inl e ↦ absurd (cc) | inr (cause, e, d) ↦ ground arith ],
    )
    by_reads (io_error c) (io_error d) =
        (λ h. absurd (cc), λ h. elim h [ inl e ↦ absurd (cc) | inr (cause, e, g) ↦ absurd (cc) ])

-- Startup goes on exactly if a `format` file can be read, under tracefs or, if not there, under debugfs,
-- and in it the first line that names each of the nine required fields gives that field the offset
-- and the size that the probe decodes.
pub verify_kernel_layout_iff :
    (read_to_string : Text → Read)
    → (verify_kernel_layout read_to_string ≡ accepted) ↔ (
        (text : Text) × IsFormat read_to_string text
        × All (HasField (parse_format text)) required_fields)
unfolding verify_kernel_layout
verify_kernel_layout_iff read_to_string =
    let (f, g) = go (read_format read_to_string) in
    (
      λ h. let (text, e, fields) = f h in (text, (read_format_iff read_to_string text).0 e, fields),
      λ (text, e, fields). g (text, (read_format_iff read_to_string text).1 e, fields),
    )
  where
    go :
        (found : Format)
        → (verdict found ≡ accepted) ↔ (
            (text : Text) × (found ≡ format text)
            × All (HasField (parse_format text)) required_fields)
    go (format text) = (
      λ h. (text, refl, (check_layout_iff text).1 ((verdict_of_iff (check_layout text)).0 h)),
      λ (other, e, fields).
          ap verdict e
          ∙ (verdict_of_iff (check_layout other)).1 ((check_layout_iff other).0 fields),
    )
    go (no_format path cause) = (λ h. absurd (cc), λ (text, e, fields). absurd (cc))
