-- ===== src/Kubernetes/Cgroup/Scan.antt =====
-- oom-watcher/src/kubernetes.rs: a scanner for container ids without patterns, which
-- `extract_container_id` agrees with under any engine.
use ebpf_oom_watcher.Prelude.{
  ℕ, zero, suc, ◌≡◌, refl, ap, sym, subst, ◌∙◌, ◌↔◌, ◌⊎◌, inl, inr, Bool, true, ◌&&◌, not, List, [],
  ◌∷◌, ◌++◌, Option, none, some, Text, all, length, take, drop, push_some, In, ◌==◌, nat_eq,
  if◌then◌else◌, arith, Bool-cases, Option-cases,
}
use ebpf_oom_watcher.Kubernetes.Cgroup.{is_hex, is_delimiter, extract_container_id}
use ebpf_oom_watcher.Kubernetes.Cgroup.Engine.{RegexEngine}
use ebpf_oom_watcher.Kubernetes.Cgroup.Extract.{
  Ends, StartsWithId, HoldsId, extract_container_id-HoldsId, extract_container_id_complete,
}

abbrev ends : Text → Bool
ends [] = true
ends (c ∷ cs) = not (is_hex c)

abbrev checked : Text → Text → Option Text
checked id rest = if length id == 64 && all is_hex id && ends rest then some id else none

-- The id that the text starts with.
unfoldable starts_with_id : Text → Option Text
starts_with_id s = checked (take 64 s) (drop 64 s)

-- The ids that stand behind a delimiter, in order.
unfoldable pub scan : Text → List Text
unfolding starts_with_id
scan [] = []
scan (c ∷ cs) =
    let later = scan cs in if is_delimiter c then push_some (starts_with_id cs) later else later

ends-Ends : (s : Text) → ends s ≡ true → Ends s
ends-Ends [] h = tt
ends-Ends (c ∷ cs) h = ground arith

Ends-ends : (s : Text) → Ends s → ends s ≡ true
Ends-ends [] h = refl
Ends-ends (c ∷ cs) h = ground arith

take-drop : (n : ℕ) (s : Text) → s ≡ take n s ++ drop n s
take-drop zero s = refl
take-drop (suc n) [] = refl
take-drop (suc n) (c ∷ cs) = ap (◌∷◌ c) (take-drop n cs)

take_prefix : (n : ℕ) (id rest : Text) → length id ≡ n → take n (id ++ rest) ≡ id
take_prefix zero [] rest h = refl
take_prefix zero (c ∷ cs) rest h = absurd (omega arith)
take_prefix (suc n) [] rest h = absurd (omega arith)
take_prefix (suc n) (c ∷ cs) rest h = ap (◌∷◌ c) (take_prefix n cs rest (omega arith))

drop_prefix : (n : ℕ) (id rest : Text) → length id ≡ n → drop n (id ++ rest) ≡ rest
drop_prefix zero [] rest h = refl
drop_prefix zero (c ∷ cs) rest h = absurd (omega arith)
drop_prefix (suc n) [] rest h = absurd (omega arith)
drop_prefix (suc n) (c ∷ cs) rest h = drop_prefix n cs rest (omega arith)

checked-eq-some :
    (first rest id : Text)
    → checked first rest ≡ some id
    → (first ≡ id) × (all is_hex id ≡ true) × (length id ≡ 64) × (ends rest ≡ true)
checked-eq-some first rest id h = ground arith

starts_with_id-StartsWithId : (s id : Text) → starts_with_id s ≡ some id → StartsWithId s id
unfolding starts_with_id
starts_with_id-StartsWithId s id h =
    let (first, digits, long, ended) = checked-eq-some (take 64 s) (drop 64 s) id h in
    record {
      rest = drop 64 s;
      text = take-drop 64 s ∙ ap (λ t. t ++ drop 64 s) first;
      digits = digits;
      long = long;
      ends = ends-Ends (drop 64 s) ended;
    }

StartsWithId-starts_with_id : (s id : Text) → StartsWithId s id → starts_with_id s ≡ some id
unfolding starts_with_id
StartsWithId-starts_with_id s id h =
    let first : take 64 s ≡ id = ap (take 64) h.text ∙ take_prefix 64 id h.rest h.long in
    let rest : drop 64 s ≡ h.rest = ap (drop 64) h.text ∙ drop_prefix 64 id h.rest h.long in
    rw (first, rest, h.long, h.digits, Ends-ends h.rest h.ends) refl

In-push_some_iff :
    (o : Option Text) (t : Text) (ts : List Text) → In t (push_some o ts) ↔ ((o ≡ some t) ⊎ In t ts)
In-push_some_iff none t ts = (λ m. inr m, λ m. elim m [ inl e ↦ absurd (cc) | inr m ↦ m ])
In-push_some_iff (some u) t ts = (
  λ m. elim m [ inl e ↦ inl (ap some (sym e)) | inr m ↦ inr m ],
  λ m. elim m [ inl e ↦ inl (ground arith) | inr m ↦ inr m ],
)

HoldsId-scan :
    (before : Text) (delimiter : ℕ) (rest id : Text)
    → is_delimiter delimiter ≡ true
    → StartsWithId rest id
    → In id (scan (before ++ (delimiter ∷ rest)))
unfolding scan
HoldsId-scan [] d rest id h starts = rw h (
    (In-push_some_iff (starts_with_id rest) id (scan rest)).1
      (inl (StartsWithId-starts_with_id rest id starts)))
HoldsId-scan (c ∷ cs) d rest id h starts =
    let ih = HoldsId-scan cs d rest id h starts in
    elim (Bool-cases (is_delimiter c)) [
      | inl e ↦ rw e (
          (In-push_some_iff (starts_with_id (cs ++ (d ∷ rest))) id (scan (cs ++ (d ∷ rest)))).1
            (inr ih))
      | inr e ↦ rw e ih
    ]

HoldsId-cons : (c : ℕ) (s id : Text) → HoldsId s id → HoldsId (c ∷ s) id
HoldsId-cons c s id h = record {
  before = c ∷ h.before;
  delimiter = h.delimiter;
  rest = h.rest;
  text = ap (◌∷◌ c) h.text;
  delimits = h.delimits;
  starts = h.starts;
}

scan-HoldsId : (s id : Text) → In id (scan s) → HoldsId s id
unfolding scan
scan-HoldsId [] id m = elim m [ ]
scan-HoldsId (c ∷ cs) id m = elim (Bool-cases (is_delimiter c)) [
  | inl e ↦ elim ((In-push_some_iff (starts_with_id cs) id (scan cs)).0 (rw e at m)) [
    | inl here ↦ record {
      before = [];
      delimiter = c;
      rest = cs;
      text = refl;
      delimits = e;
      starts = starts_with_id-StartsWithId cs id here;
    }
    | inr later ↦ HoldsId-cons c cs id (scan-HoldsId cs id later)
  ]
  | inr e ↦ HoldsId-cons c cs id (scan-HoldsId cs id (rw e at m))
]

HoldsId-In : (s id : Text) → HoldsId s id → In id (scan s)
HoldsId-In s id h =
    subst (λ t. In id (scan t)) (sym h.text)
      (HoldsId-scan h.before h.delimiter h.rest id h.delimits h.starts)

nil_of : (ts : List Text) → ((t : Text) → ¬ In t ts) → ts ≡ []
nil_of [] h = refl
nil_of (t ∷ ts) h = absurd (h t (inl refl))

module _ (engine : RegexEngine) where
  -- Under any engine that keeps the documented behaviour, the id that is extracted from a file is one
  -- of those that the scanner lists, and nothing is extracted exactly if the scanner lists nothing.
  pub extract_container_id-scan :
      (s : Text)
      → ((id : Text) → extract_container_id engine.captures s ≡ some id → In id (scan s))
        × ((extract_container_id engine.captures s ≡ none) ↔ (scan s ≡ []))
  extract_container_id-scan s = (
    λ id h. HoldsId-In s id (extract_container_id-HoldsId engine s id h),
    (
      λ h.
          nil_of (scan s)
            (λ id m. extract_container_id_complete engine s id h (scan-HoldsId s id m)),
      λ h. elim (Option-cases (extract_container_id engine.captures s)) [
        | inl e ↦ e
        | inr (id, e) ↦
            let m = HoldsId-In s id (extract_container_id-HoldsId engine s id e) in
            elim (rw h at m) [ ]
      ],
    ),
  )

  -- A file in which every id behind a delimiter is the same one gives that id.
  pub extract_container_id_only :
      (s id : Text)
      → In id (scan s)
      → ((other : Text) → In other (scan s) → other ≡ id)
      → extract_container_id engine.captures s ≡ some id
  extract_container_id_only s id m only =
      let (listed, (nothing, nil)) = extract_container_id-scan s in
      elim (Option-cases (extract_container_id engine.captures s)) [
        | inl e ↦ elim (rw (nothing e) at m) [ ]
        | inr (found, e) ↦ e ∙ ap some (only found (listed found e))
      ]
