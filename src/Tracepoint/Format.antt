-- ===== src/Tracepoint/Format.antt =====
-- oom-watcher/src/tracepoint.rs, `parse_format`, over the string functions of the standard library.
use ebpf_oom_watcher.Prelude.{
  ℕ, Bool, true, ◌||◌, ◌&&◌, not, List, [], ◌∷◌, Option, none, some, Text, codes, leb,
  if◌then◌else◌, ◌==◌, nat_eq, list_eq, filter_map, find_map, strip_prefix, ◌≡◌, refl,
}
use ebpf_oom_watcher.Prelude.Decimal.{parse_uint}

-- White space of a `format` file: the code points that `char::is_whitespace` has in ASCII.
unfoldable pub is_space : ℕ → Bool
is_space c = (leb 9 c && leb c 13) || c == b' '

unfoldable pub trim_start : Text → Text
unfolding is_space
trim_start [] = []
trim_start (c ∷ cs) = if is_space c then trim_start cs else c ∷ cs

-- Drops the white space at the end.
abbrev keep_end : ℕ → Text → Text
keep_end c [] = if is_space c then [] else c ∷ []
keep_end c (d ∷ ds) = c ∷ d ∷ ds

unfoldable pub trim_end : Text → Text
unfolding is_space
trim_end [] = []
trim_end (c ∷ cs) = keep_end c (trim_end cs)

unfoldable pub trim : Text → Text
unfolding trim_start trim_end
trim s = trim_end (trim_start s)

-- `str::split` on one character: the pieces, the first apart.
abbrev cons_to_head : ℕ → List Text → List Text
cons_to_head c [] = (c ∷ []) ∷ []
cons_to_head c (p ∷ ps) = (c ∷ p) ∷ ps

unfoldable pub split : ℕ → Text → List Text
split sep [] = [] ∷ []
split sep (c ∷ cs) = if c == sep then [] ∷ split sep cs else cons_to_head c (split sep cs)

-- `str::lines`: the pieces between line feeds, less an empty last one. (A carriage return before
-- the line feed is white space to all that follows.)
abbrev pub drop_last_empty : List Text → List Text
drop_last_empty [] = []
drop_last_empty ([] ∷ []) = []
drop_last_empty (p ∷ ps) = p ∷ drop_last_empty ps

unfoldable pub lines : Text → List Text
unfolding split
lines s = drop_last_empty (split b'\n' s)

-- `str::split_once` on one character.
abbrev on_first : ℕ → Option (Text × Text) → Option (Text × Text)
on_first c none = none
on_first c (some (a, b)) = some (c ∷ a, b)

unfoldable pub split_once : ℕ → Text → Option (Text × Text)
split_once sep [] = none
split_once sep (c ∷ cs) = if c == sep then some ([], cs) else on_first c (split_once sep cs)

-- `split_whitespace().next_back()`: the last run of other characters.
abbrev last_token : Text → Option Text → Option Text
last_token [] later = later
last_token (c ∷ cs) none = some (c ∷ cs)
last_token (c ∷ cs) (some t) = some t

unfoldable pub take_token : Text → Text
unfolding is_space
take_token [] = []
take_token (c ∷ cs) = if is_space c then [] else c ∷ take_token cs

-- Where a run begins there is no character before it, or a white one; the flag says which.
unfoldable pub tokens_back : Bool → Text → Option Text
unfolding is_space take_token
tokens_back fresh [] = none
tokens_back fresh (c ∷ cs) =
    let rest = tokens_back (is_space c) cs in
    if fresh && not (is_space c) then last_token (take_token (c ∷ cs)) rest else rest

unfoldable pub next_back : Text → Option Text
unfolding tokens_back
next_back s = tokens_back true s

-- `split('[').next()`: there is always a first piece.
unfoldable pub before : ℕ → Text → Text
before sep [] = []
before sep (c ∷ cs) = if c == sep then [] else c ∷ before sep cs

unfoldable pub trim_start_matches : ℕ → Text → Text
trim_start_matches p [] = []
trim_start_matches p (c ∷ cs) = if c == p then trim_start_matches p cs else c ∷ cs

infixl 5 ◌>>=◌
abbrev ◌>>=◌ {ℓ κ} : {A : Type ℓ} {B : Type κ} → Option A → (A → Option B) → Option B
none >>= f = none
some a >>= f = f a

abbrev pub usize_mod : ℕ
usize_mod = 18446744073709551616

-- The closure of `attr`.
unfoldable pub attr_part : Text → Text → Option ℕ
unfolding trim strip_prefix parse_uint
attr_part key part = do
  rest ← strip_prefix key (trim part)
  value ← strip_prefix (b':' ∷ []) rest
  parse_uint usize_mod (trim value)

unfoldable pub attr : Text → Text → Option ℕ
unfolding split find_map attr_part
attr attrs key = find_map (attr_part key) (split b';' attrs)

abbrev non_empty : Text → Option Text
non_empty [] = none
non_empty (c ∷ cs) = some (c ∷ cs)

pub record Field : Type 0 where
  pub name : Text
  pub offset : ℕ
  pub size : ℕ

-- The closure of `parse_format`: one line.
unfoldable pub parse_line : Text → Option Field
unfolding trim strip_prefix split_once next_back before trim_start_matches attr
parse_line line = do
  rest ← strip_prefix (codes "field:") (trim line)
  (decl, attrs) ← split_once b';' rest
  token ← next_back decl
  name ← non_empty (trim_start_matches b'*' (before b'[' token))
  offset ← attr attrs (codes "offset")
  size ← attr attrs (codes "size")
  some (record { name = name; offset = offset; size = size })

unfoldable pub parse_format : Text → List Field
unfolding lines filter_map parse_line
parse_format text = filter_map parse_line (lines text)

total_vm_line :
    parse_format
      (codes "format:\n\tfield:unsigned long total_vm;\toffset:16;\tsize:8;\tsigned:0;\n")
    ≡ record { name = codes "total_vm"; offset = 16; size = 8 } ∷ []
unfolding parse_format
total_vm_line = refl

array_line :
    parse_format (codes "\tfield:char comm[16];\toffset:12;\tsize:16;\tsigned:1;")
    ≡ record { name = codes "comm"; offset = 12; size = 16 } ∷ []
unfolding parse_format
array_line = refl
