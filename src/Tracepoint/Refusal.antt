-- ===== src/Tracepoint/Refusal.antt =====
-- oom-watcher/src/tracepoint.rs: the texts of the mismatches and of the errors of
-- `verify_kernel_layout`, and that the refusal to start names what is wrong.
use ebpf_oom_watcher.Prelude.{
  ◌⊎◌, ◌≢◌, All, ℕ, ◌≡◌, refl, ap, sym, ◌∙◌, inl, inr, Bool, true, false, List, [], ◌∷◌, ◌++◌,
  Option, none, some, Text, codes, map, filter_map, push_some, In, contains, contains-append,
  contains-eq-true, append_assoc, append-nil, Option-cases, nat_eq, list_eq, all, arith,
}
use ebpf_oom_watcher.Prelude.Decimal.{show}
use ebpf_oom_watcher.Tracepoint.Format.{Field, parse_format}
use ebpf_oom_watcher.Tracepoint.Layout.{
  Mismatch, missing, moved, find, compare_field, required_fields, check_layout, Verdict, accepted,
  unreadable, rejected, verify_kernel_layout, verdict, verdict_of, Read, is_missing, mismatch,
}
use ebpf_oom_watcher.Tracepoint.Verdict.{
  HasField, HasField-find_iff, IsFirstNamed, find-eq-some, find-eq-none, mismatch-none_iff,
  IsFormat, read_format_iff,
}

abbrev offset_and_size : ℕ × ℕ → Text
offset_and_size (offset, size) = codes "offset " ++ (show offset ++ (codes " size " ++ show size))

-- `Display` of a mismatch.
unfoldable pub display : Mismatch → Text
display (missing name) = codes "  " ++ (name ++ codes ": missing")
display (moved name expected found) =
    codes "  "
    ++ (name
        ++ (codes ": expected "
            ++ (offset_and_size expected ++ (codes ", found " ++ offset_and_size found))))

-- `[String]::join`.
unfoldable pub join : Text → List Text → Text
join separator [] = []
join separator (t ∷ []) = t
join separator (t ∷ u ∷ us) = t ++ (separator ++ join separator (u ∷ us))

abbrev advice : Bool → Text
advice true =
    codes
      "This is the pre-6.9 tracepoint, which carries only `pid`. The extended fields landed in Linux 6.9; this node needs a 6.9+ kernel."
advice false =
    codes
      "The tracepoint layout has changed. MarkVictimArgs in oom-watcher-ebpf and REQUIRED_FIELDS here both need updating for this kernel."

-- What stands around the mismatches.
abbrev before_detail : Text
before_detail =
    codes
      "the oom:mark_victim tracepoint on this kernel does not match the layout this probe decodes:\n"

abbrev after_detail : Bool → Text
after_detail all_missing =
    codes "\n\n"
    ++ (advice all_missing
        ++ codes
            "\nRefusing to start: attaching anyway would report correct PIDs alongside meaningless memory figures.")

-- The error that a verdict returns, if it is one.
unfoldable pub message : Verdict → Option Text
unfolding display join
message accepted = none
message (unreadable path cause) = some (
    codes "could not read the oom:mark_victim tracepoint format ("
    ++ (path
        ++ (codes ": "
            ++ (cause
                ++ codes
                    ").\nMount tracefs and make it visible to this container — the DaemonSet mounts /sys and /sys/kernel/debug for exactly this."))))
message (rejected mismatches all_missing) =
    some (before_detail ++ (join (codes "\n") (map display mismatches) ++ after_detail all_missing))

-- What contains a text goes on to contain it inside another.
contains_within : (p s a b : Text) → contains p s ≡ true → contains p (a ++ (s ++ b)) ≡ true
contains_within p s a b h =
    let (x, y, e) = contains-eq-true p s h in
    ap (λ t. contains p (a ++ (t ++ b))) e
    ∙ ap (λ t. contains p (a ++ t)) (append_assoc x (p ++ y) b)
    ∙ ap (λ t. contains p (a ++ (x ++ t))) (append_assoc p y b)
    ∙ ap (contains p) (sym (append_assoc a x (p ++ (y ++ b))))
    ∙ contains-append p (a ++ x) (y ++ b)

contains-join :
    (separator : Text) (t : Text) (ts : List Text) → In t ts → contains t (join separator ts) ≡ true
unfolding join
contains-join separator t [] i = elim i [ ]
contains-join separator t (u ∷ []) (inl e) = ap (contains t) (sym e) ∙ contains_self t
  where
    contains_self : (p : Text) → contains p p ≡ true
    contains_self p = ap (contains p) (sym (append-nil p)) ∙ contains-append p [] []
contains-join separator t (u ∷ []) (inr i) = elim i [ ]
contains-join separator t (u ∷ v ∷ vs) (inl e) =
    ap (λ w. contains t (w ++ (separator ++ join separator (v ∷ vs)))) (sym e)
    ∙ contains-append t [] (separator ++ join separator (v ∷ vs))
contains-join separator t (u ∷ v ∷ vs) (inr i) =
    let rest = join separator (v ∷ vs) in
    ap (λ w. contains t (u ++ (separator ++ w))) (sym (append-nil rest))
    ∙ ap (contains t) (sym (append_assoc u separator (rest ++ [])))
    ∙ contains_within t rest (u ++ separator) [] (contains-join separator t (v ∷ vs) i)

In-map : {A B : Type 0} (f : A → B) (a : A) (xs : List A) → In a xs → In (f a) (map f xs)
In-map f a [] i = elim i [ ]
In-map f a (x ∷ xs) (inl e) = inl (ap f e)
In-map f a (x ∷ xs) (inr i) = inr (In-map f a xs i)

In-push_some : {B : Type 0} (o : Option B) (b : B) (bs : List B) → In b bs → In b (push_some o bs)
In-push_some none b bs m = m
In-push_some (some c) b bs m = inr m

In-filter_map_of :
    {A B : Type 0} (f : A → Option B) (xs : List A) (a : A) (b : B)
    → In a xs
    → f a ≡ some b
    → In b (filter_map f xs)
unfolding filter_map
In-filter_map_of f [] a b i h = elim i [ ]
In-filter_map_of f (x ∷ xs) a b (inl e) h =
    let h' : f x ≡ some b = ap f (sym e) ∙ h in rw h' (inl refl)
In-filter_map_of f (x ∷ xs) a b (inr i) h =
    In-push_some (f x) b (filter_map f xs) (In-filter_map_of f xs a b i h)

-- A field that is not as decoded makes a mismatch.
mismatch_of :
    (found : List Field) (want : Field)
    → ¬ HasField found want
    → (m : Mismatch) × (compare_field found want ≡ some m)
mismatch_of found want lacks = elim (Option-cases (compare_field found want)) [
  | inl e ↦ absurd (
      lacks
        ((HasField-find_iff found want).1 ((mismatch-none_iff want (find want.name found)).1 e)))
  | inr (m, e) ↦ (m, e)
]

message-names :
    (ms : List Mismatch) (m : Mismatch)
    → In m ms
    → (text : Text) × (message (verdict_of ms) ≡ some text) × (contains (display m) text ≡ true)
unfolding message
message-names [] m i = elim i [ ]
message-names (n ∷ ns) m i =
    let named =
      contains-join (codes "\n") (display m) (map display (n ∷ ns)) (In-map display m (n ∷ ns) i) in
    (
      _,
      refl,
      contains_within (display m) (join (codes "\n") (map display (n ∷ ns))) before_detail
          (after_detail (all is_missing (n ∷ ns))) named,
    )

-- The lines about a required field: that it is missing, and that it is found elsewhere.
abbrev pub missing_line : Field → Text
missing_line want = codes "  " ++ (want.name ++ codes ": missing")

abbrev pub moved_line : Field → Field → Text
moved_line want f =
    codes "  "
    ++ (want.name
        ++ (codes ": expected "
            ++ ((codes "offset " ++ (show want.offset ++ (codes " size " ++ show want.size)))
                ++ (codes ", found "
                    ++ (codes "offset " ++ (show f.offset ++ (codes " size " ++ show f.size)))))))

-- What the error holds about a field, by the lines found.
abbrev pub HoldsLine : List Field → Field → Text → Type 0
HoldsLine found want error =
    (All (λ g. g.name ≢ want.name) found × (contains (missing_line want) error ≡ true))
    ⊎ ((f : Field) × IsFirstNamed want.name found f × (contains (moved_line want f) error ≡ true))

display-HoldsLine :
    (found : List Field) (want : Field) (o : Option Field) (m : Mismatch) (error : Text)
    → find want.name found ≡ o
    → mismatch want o ≡ some m
    → contains (display m) error ≡ true
    → HoldsLine found want error
unfolding display
display-HoldsLine found want none m error e h holds =
    let same : missing want.name ≡ m = ground arith in
    inl (find-eq-none want.name found e, ap (λ k. contains (display k) error) same ∙ holds)
display-HoldsLine found want (some f) m error e h holds =
    let same : moved want.name (want.offset, want.size) (f.offset, f.size) ≡ m = ground arith in
    inr (f, find-eq-some want.name found f e, ap (λ k. contains (display k) error) same ∙ holds)

-- If a `format` file can be read, under tracefs or, if not there, under debugfs, and its first line for
-- a required field, if it has one, does not give the field the offset and the size that the probe
-- decodes, the check returns an error whose text holds a line about the field: its name, and that it
-- is missing, if no line names it, and else the offset and the size expected and those found.
pub verify_kernel_layout-names :
    (read_to_string : Text → Read) (text : Text) (want : Field)
    → IsFormat read_to_string text
    → In want required_fields
    → ¬ HasField (parse_format text) want
    → (error : Text) × (message (verify_kernel_layout read_to_string) ≡ some error)
      × HoldsLine (parse_format text) want error
unfolding verify_kernel_layout check_layout
verify_kernel_layout-names read_to_string text want e required lacks =
    let found = parse_format text in
    let (m, h) = mismatch_of found want lacks in
    let reported = In-filter_map_of (compare_field found) required_fields want m required h in
    let (error, returned, names) = message-names (check_layout text) m reported in
    (
      error,
      ap (λ f. message (verdict f)) ((read_format_iff read_to_string text).1 e) ∙ returned,
      display-HoldsLine found want (find want.name found) m error refl h names,
    )
