-- ===== src/Tracepoint/Declared/Lines.antt =====
-- oom-watcher/src/tracepoint.rs, `parse_format`: a line of the file as it is declared, and its parts.
use ebpf_oom_watcher.Prelude.{
  ℕ, ◌<◌, ◌≡◌, refl, Bool, true, false, ◌||◌, [], ◌∷◌, ◌++◌, append-nil, none, some, Text, codes,
  ◌==◌, nat_eq, list_eq, strip_prefix, arith,
}
use ebpf_oom_watcher.Prelude.Decimal.{show, parse_uint-show}
use ebpf_oom_watcher.Tracepoint.Format.{
  is_space, trim, split_once, next_back, before, trim_start_matches, usize_mod, attr_part, attr,
  parse_line,
}
use ebpf_oom_watcher.Tracepoint.Strings.{
  Lacks, is, any-Lacks, trim_plain, tokens_back-append, before-append, before_whole, All-append,
  show-Lacks, strip_prefix-append, shown-space, colon_plain, trim_tab, Lacks-less,
}

-- A field as the kernel declares it, `signed` with its digit.
pub record Declared : Type 0 where
  pub type_name : Text
  pub name : Text
  pub suffix : Text
  pub offset : ℕ
  pub size : ℕ
  pub signed : ℕ

-- An array suffix, or none.
abbrev IsSuffix : Text → Type 0
IsSuffix [] = Unit
IsSuffix (c ∷ s) = (c ≡ b'[') × Lacks is_space (c ∷ s)

-- What no name has.
abbrev pub is_special : ℕ → Bool
is_special c = is_space c || c == b';' || c == b'[' || c == b'*'

abbrev IsName : Text → Type 0
IsName [] = ⊥
IsName (c ∷ s) = Lacks is_special (c ∷ s)

pub record IsDeclared (d : Declared) : Type 0 where
  pub type_name : Lacks (λ c. c == b';' || c == b'\n') d.type_name
  pub name : IsName d.name
  pub suffix : IsSuffix d.suffix
  pub suffix_ends : Lacks (is b';') d.suffix
  pub offset : d.offset < usize_mod
  pub size : d.size < usize_mod

abbrev pub attrs_of : Declared → Text
attrs_of d =
    codes "\toffset:"
    ++ (show d.offset
        ++ (b';'
            ∷ (codes "\tsize:"
                ++ (show d.size
                    ++ (b';' ∷ (codes "\tsigned:" ++ (show d.signed ++ (b';' ∷ []))))))))

abbrev pub decl_of : Declared → Text
decl_of d = d.type_name ++ (b' ' ∷ (d.name ++ d.suffix))

-- `\tfield:<type> <name>;\toffset:<n>;\tsize:<n>;\tsigned:<n>;`
abbrev pub render_line : Declared → Text
render_line d = b'\t' ∷ (codes "field:" ++ (decl_of d ++ (b';' ∷ attrs_of d)))

attr_part-trim :
    (key part : Text) (n : ℕ)
    → trim part ≡ key ++ (b':' ∷ show n)
    → n < usize_mod
    → attr_part key part ≡ some n
unfolding attr_part
attr_part-trim key part n e bound =
    rw (e, strip_prefix-append key (b':' ∷ show n), trim_plain (show n) (shown-space n))
      (parse_uint-show usize_mod n bound)

pub attr_part-show :
    (key : Text) (n : ℕ)
    → Lacks is_space key
    → n < usize_mod
    → attr_part key (b'\t' ∷ (key ++ (b':' ∷ show n))) ≡ some n
attr_part-show key n h bound =
    attr_part-trim key (b'\t' ∷ (key ++ (b':' ∷ show n))) n
      (trim_tab (key ++ (b':' ∷ show n))
        (All-append is_space key (b':' ∷ show n) h (colon_plain, shown-space n)))
      bound

-- The other key is not read.
pub attr_part_other :
    (n : ℕ) → attr_part (codes "size") (b'\t' ∷ (codes "offset:" ++ show n)) ≡ none
unfolding attr_part strip_prefix
attr_part_other n =
    rw
      (trim_tab (codes "offset:" ++ show n) (
        All-append is_space (codes "offset:") (show n) (any-Lacks is_space (codes "offset:") refl)
          (shown-space n)))
      refl

pub parse_line-trim :
    (line rest decl attrs token name : Text) (offset size : ℕ)
    → IsName name
    → trim line ≡ codes "field:" ++ rest
    → split_once b';' rest ≡ some (decl, attrs)
    → next_back decl ≡ some token
    → trim_start_matches b'*' (before b'[' token) ≡ name
    → attr attrs (codes "offset") ≡ some offset
    → attr attrs (codes "size") ≡ some size
    → parse_line line ≡ some (record { name = name; offset = offset; size = size })
unfolding parse_line
parse_line-trim line rest decl attrs token [] offset size n e f g h o z = absurd n
parse_line-trim line rest decl attrs token (c ∷ name) offset size n e f g h o z =
    rw (e, f, g, h, o, z) refl

pub name-Lacks :
    (q : ℕ → Bool)
    → ((c : ℕ) → is_special c ≡ false → q c ≡ false)
    → (name : Text) → IsName name
    → Lacks q name
name-Lacks q h [] n = absurd n
name-Lacks q h (c ∷ name) n = Lacks-less is_special q h (c ∷ name) n

pub suffix_plain : (s : Text) → IsSuffix s → Lacks is_space s
suffix_plain [] h = tt
suffix_plain (c ∷ s) (e, h) = h

pub next_back-decl :
    (type_name name suffix : Text)
    → IsName name
    → IsSuffix suffix
    → next_back (type_name ++ (b' ' ∷ (name ++ suffix))) ≡ some (name ++ suffix)
unfolding next_back
next_back-decl type_name [] suffix n s = absurd n
next_back-decl type_name (c ∷ name) suffix n s =
    tokens_back-append true type_name c (name ++ suffix) (
      All-append is_space (c ∷ name) suffix
        (Lacks-less is_special is_space (λ d h. ground arith) (c ∷ name) n) (suffix_plain suffix s))

pub before-suffix :
    (name suffix : Text)
    → Lacks (is b'[') name
    → IsSuffix suffix
    → before b'[' (name ++ suffix) ≡ name
before-suffix name [] n s = rw (append-nil name) (before_whole b'[' name n)
before-suffix name (c ∷ suffix) n (e, s) = rw e (before-append b'[' name suffix n)

pub trim_start_matches-IsName : (name : Text) → IsName name → trim_start_matches b'*' name ≡ name
unfolding trim_start_matches
trim_start_matches-IsName [] n = absurd n
trim_start_matches-IsName (c ∷ name) (e, n) = ground arith

pub shown_whole : (n : ℕ) → Lacks (is b';') (show n)
shown_whole n = show-Lacks (is b';') (λ c low high. ground arith) n
