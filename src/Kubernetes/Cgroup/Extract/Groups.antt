-- ===== src/Kubernetes/Cgroup/Extract/Groups.antt =====
-- oom-watcher/src/kubernetes.rs, `extract_container_id`: what its patterns capture.
use ebpf_oom_watcher.Prelude.{
  ℕ, ◌≡◌, refl, ap, sym, ◌∙◌, inl, inr, true, false, not, [], ◌∷◌, ◌++◌, append_assoc, Option, none,
  some, Text, codes, all, length, arith,
}
use ebpf_oom_watcher.Kubernetes.Cgroup.{
  Regex, literal, class, lazy_run, at_end, ◌⋅◌, alternative, is_hex, is_delimiter, is_dot,
  id_and_boundary, runtime, runtime_pattern, kubepods_pattern, catch_all_pattern,
}
use ebpf_oom_watcher.Kubernetes.Cgroup.Engine.{Match}

-- What may follow an id: nothing, or something that is no hexadecimal digit.
abbrev pub Ends : Text → Type 0
Ends [] = Unit
Ends (c ∷ cs) = is_hex c ≡ false

-- The text starts with an id of 64 digits, and with no longer run of digits.
pub record StartsWithId (s id : Text) : Type 0 where
  pub rest : Text
  pub text : s ≡ id ++ rest
  pub digits : all is_hex id ≡ true
  pub long : length id ≡ 64
  pub ends : Ends rest

-- Somewhere a delimiter stands before an id.
pub record HoldsId (s id : Text) : Type 0 where
  pub before : Text
  pub delimiter : ℕ
  pub rest : Text
  pub text : s ≡ before ++ (delimiter ∷ rest)
  pub delimits : is_delimiter delimiter ≡ true
  pub starts : StartsWithId rest id

pub HoldsId-append : (x s id : Text) → HoldsId s id → HoldsId (x ++ s) id
HoldsId-append x s id h = record {
  before = x ++ h.before;
  delimiter = h.delimiter;
  rest = h.rest;
  text = ap (λ t. x ++ t) h.text ∙ sym (append_assoc x h.before (h.delimiter ∷ h.rest));
  delimits = h.delimits;
  starts = h.starts;
}

id_and_boundary-StartsWithId :
    (u rest : Text) (g : Option Text)
    → Match id_and_boundary u rest g
    → (id : Text) × (g ≡ some id) × StartsWithId (u ++ rest) id
id_and_boundary-StartsWithId u rest g
      (v, w, g1, g2, split, (inner, (long, digits, e), taken), boundary, both) =
    (
      v,
      rw (both, taken) refl,
      record {
        rest = w ++ rest;
        text = rw split (append_assoc v w rest);
        digits = digits;
        long = long;
        ends = ends_of boundary;
      },
    )
  where
    ends_of : Match (alternative (class (λ c. not (is_hex c))) at_end) w rest g2 → Ends (w ++ rest)
    ends_of (inl (c, one, differs, e)) = rw one (ground arith)
    ends_of (inr (nil, at, e)) = rw (nil, at) tt

-- What a pattern promises of the text from its match on.
abbrev pub Captures : Regex → Type 0
Captures re =
    (u rest : Text) (g : Option Text)
    → Match re u rest g
    → (id : Text) × (g ≡ some id) × HoldsId (u ++ rest) id

abbrev HasNoGroup : Regex → Type 0
HasNoGroup re = (u rest : Text) (g : Option Text) → Match re u rest g → g ≡ none

after_prefix : (a b : Regex) → HasNoGroup a → Captures b → Captures (a ⋅ b)
after_prefix a b plain tail u rest g (v, w, g1, g2, split, m, n, both) =
    let (id, e, h) = tail w rest g2 n in
    (
      id,
      rw (both, plain v (w ++ rest) g1 m) e,
      rw (split, append_assoc v w rest) (HoldsId-append v (w ++ rest) id h),
    )

pub catch_all-Captures : Captures catch_all_pattern
catch_all-Captures u rest g (v, w, g1, g2, split, (c, one, delimits, e), n, both) =
    let (id, i, starts) = id_and_boundary-StartsWithId w rest g2 n in
    (
      id,
      rw (both, e) i,
      record {
        before = [];
        delimiter = c;
        rest = w ++ rest;
        text = rw (split, one) refl;
        delimits = delimits;
        starts = starts;
      },
    )

literal-HasNoGroup : (t : Text) → HasNoGroup (literal t)
literal-HasNoGroup t u rest g (e, plain) = plain

runtime-HasNoGroup : HasNoGroup runtime
runtime-HasNoGroup u rest g (inl (e, plain)) = plain
runtime-HasNoGroup u rest g (inr (inl (e, plain))) = plain
runtime-HasNoGroup u rest g (inr (inr (inl (e, plain)))) = plain
runtime-HasNoGroup u rest g (inr (inr (inr (e, plain)))) = plain

pub runtime-Captures : Captures runtime_pattern
runtime-Captures = after_prefix runtime catch_all_pattern runtime-HasNoGroup catch_all-Captures

-- The slash of this pattern is one of the delimiters.
slash-Captures : Captures (literal (codes "/") ⋅ id_and_boundary)
slash-Captures u rest g (v, w, g1, g2, split, (e, plain), n, both) =
    catch_all-Captures u rest g (v, w, g1, g2, split, (b'/', e, refl, plain), n, both)

pub kubepods-Captures : Captures kubepods_pattern
kubepods-Captures =
    after_prefix (literal (codes "/kubepods"))
      (lazy_run is_dot ⋅ (literal (codes "/") ⋅ id_and_boundary))
      (literal-HasNoGroup (codes "/kubepods"))
      (after_prefix (lazy_run is_dot) (literal (codes "/") ⋅ id_and_boundary) (λ u rest g m. m.1)
        slash-Captures)
