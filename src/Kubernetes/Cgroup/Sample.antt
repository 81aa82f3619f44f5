-- ===== src/Kubernetes/Cgroup/Sample.antt =====
-- An engine that tries every split of the haystack, which meets the interface.
use ebpf_oom_watcher.Prelude.{
  ℕ, ◌≡◌, ◌≢◌, refl, ap, inl, inr, Bool, ◌&&◌, List, [], ◌∷◌, ◌++◌, Option, none, some, Text, all,
  length, or_else, find_map, find_map-eq-some, find_map-eq-none, In, if◌then◌else◌, ◌==◌, list_eq,
  list_beq_iff, nat_eq, Option-cases, arith, ◌∙◌,
}
use ebpf_oom_watcher.Kubernetes.Cgroup.{
  Regex, literal, class, run, lazy_run, at_end, group, ◌⋅◌, alternative,
}
use ebpf_oom_watcher.Kubernetes.Cgroup.Engine.{Match, Found, RegexEngine}

abbrev consed : ℕ → List (Text × Text) → List (Text × Text)
consed c [] = []
consed c ((a, b) ∷ ps) = (c ∷ a, b) ∷ consed c ps

unfoldable pub splits : Text → List (Text × Text)
splits [] = ([], []) ∷ []
splits (c ∷ cs) = ([], c ∷ cs) ∷ consed c (splits cs)

In-consed :
    (c : ℕ) (a b : Text) (ps : List (Text × Text)) → In (a, b) ps → In (c ∷ a, b) (consed c ps)
In-consed c a b [] m = elim m [ ]
In-consed c a b ((x, y) ∷ ps) (inl e) = inl (ap (λ (p : Text × Text). (c ∷ p.0, p.1)) e)
In-consed c a b ((x, y) ∷ ps) (inr m) = inr (In-consed c a b ps m)

In-splits : (a b : Text) → In (a, b) (splits (a ++ b))
unfolding splits
In-splits [] [] = inl refl
In-splits [] (c ∷ cs) = inl refl
In-splits (c ∷ cs) b = inr (In-consed c cs b (splits (cs ++ b)) (In-splits cs b))

consed-In :
    (c : ℕ) (p : Text × Text) (ps : List (Text × Text))
    → In p (consed c ps)
    → (q : Text × Text) × In q ps × (p ≡ (c ∷ q.0, q.1))
consed-In c p [] m = elim m [ ]
consed-In c p ((x, y) ∷ ps) (inl e) = ((x, y), inl refl, e)
consed-In c p ((x, y) ∷ ps) (inr m) = let (q, l, e) = consed-In c p ps m in (q, inr l, e)

splits-append : (s : Text) (p : Text × Text) → In p (splits s) → s ≡ p.0 ++ p.1
unfolding splits
splits-append [] p (inl e) = rw e refl
splits-append [] p (inr m) = elim m [ ]
splits-append (c ∷ cs) p (inl e) = rw e refl
splits-append (c ∷ cs) p (inr m) =
    let (q, l, e) = consed-In c p (splits cs) m in rw e (ap (λ t. c ∷ t) (splits-append cs q l))

abbrev matches_class : (ℕ → Bool) → Text → Option (Option Text)
matches_class p [] = none
matches_class p (c ∷ []) = if p c then some none else none
matches_class p (c ∷ d ∷ ds) = none

abbrev matches_end : Text → Text → Option (Option Text)
matches_end [] [] = some none
matches_end u rest = none

abbrev grouped : Text → Option (Option Text) → Option (Option Text)
grouped u none = none
grouped u (some inner) = some (some u)

abbrev both_parts : Option (Option Text) → Option (Option Text) → Option (Option Text)
both_parts none y = none
both_parts (some g1) none = none
both_parts (some g1) (some g2) = some (or_else g1 g2)

both_parts-eq-some :
    (x y : Option (Option Text)) (g : Option Text)
    → both_parts x y ≡ some g
    → (g1 : Option Text) × (g2 : Option Text) × (x ≡ some g1) × (y ≡ some g2) × (g ≡ or_else g1 g2)
both_parts-eq-some none y g h = absurd (ground arith)
both_parts-eq-some (some g1) none g h = absurd (ground arith)
both_parts-eq-some (some g1) (some g2) g h = (g1, g2, refl, refl, ground arith)

both_parts-ne-none : (x y : Option (Option Text)) → x ≢ none → y ≢ none → both_parts x y ≢ none
both_parts-ne-none none y some_x some_y h = some_x refl
both_parts-ne-none (some g1) none some_x some_y h = some_y refl
both_parts-ne-none (some g1) (some g2) some_x some_y h = cc

-- The group of a match of the pattern with the whole text, if there is one.
unfoldable pub matches : Regex → Text → Text → Option (Option Text)
unfolding splits find_map
matches (literal t) u rest = if u == t then some none else none
matches (class p) u rest = matches_class p u
matches (run n p) u rest = if length u == n && all p u then some none else none
matches (lazy_run p) u rest = if all p u then some none else none
matches at_end u rest = matches_end u rest
matches (group re) u rest = grouped u (matches re u rest)
matches (a ⋅ b) u rest =
    find_map (λ (p : Text × Text). both_parts (matches a p.0 (p.1 ++ rest)) (matches b p.1 rest))
      (splits u)
matches (alternative a b) u rest = or_else (matches a u rest) (matches b u rest)

matches-Match :
    (re : Regex) (u rest : Text) (g : Option Text) → matches re u rest ≡ some g → Match re u rest g
unfolding matches
matches-Match (literal t) u rest g h = ground (arith, list_beq_iff u t)
matches-Match (class p) [] rest g h = absurd (ground arith)
matches-Match (class p) (c ∷ []) rest g h = (c, refl, ground arith, ground arith)
matches-Match (class p) (c ∷ d ∷ ds) rest g h = absurd (ground arith)
matches-Match (run n p) u rest g h = ground arith
matches-Match (lazy_run p) u rest g h = ground arith
matches-Match at_end [] [] g h = (refl, refl, ground arith)
matches-Match at_end [] (c ∷ cs) g h = absurd (ground arith)
matches-Match at_end (c ∷ cs) rest g h = absurd (ground arith)
matches-Match (group re) u rest g h = elim (Option-cases (matches re u rest)) [
  | inl e ↦ absurd (ground arith)
  | inr (inner, e) ↦ (inner, matches-Match re u rest inner e, ground arith)
]
matches-Match (a ⋅ b) u rest g h =
    let (p, l, e) =
      find_map-eq-some
        (λ (p : Text × Text). both_parts (matches a p.0 (p.1 ++ rest)) (matches b p.1 rest))
        (splits u) g h in
    let (g1, g2, x, y, both) =
      both_parts-eq-some (matches a p.0 (p.1 ++ rest)) (matches b p.1 rest) g e in
    (
      p.0,
      p.1,
      g1,
      g2,
      splits-append u p l,
      matches-Match a p.0 (p.1 ++ rest) g1 x,
      matches-Match b p.1 rest g2 y,
      both,
    )
matches-Match (alternative a b) u rest g h = elim (Option-cases (matches a u rest)) [
  | inl e ↦ inr (matches-Match b u rest g (ground arith))
  | inr (first, e) ↦ inl (matches-Match a u rest g (ground arith))
]

Match-matches :
    (re : Regex) (u rest : Text) (g : Option Text) → Match re u rest g → matches re u rest ≢ none
unfolding matches
Match-matches (literal t) u rest g (e, plain) h = ground (arith, list_beq_iff u t)
Match-matches (class p) u rest g (c, one, t, plain) h =
    let k : matches_class p (c ∷ []) ≡ none = rw one at h in ground arith
Match-matches (run n p) u rest g (long, t, plain) h = ground arith
Match-matches (lazy_run p) u rest g (t, plain) h = ground arith
Match-matches at_end u rest g (nil, at, plain) h =
    let k : matches_end [] [] ≡ none = rw (nil, at) at h in cc
Match-matches (group re) u rest g (inner, m, taken) h = elim (Option-cases (matches re u rest)) [
  | inl e ↦ Match-matches re u rest inner m e
  | inr (found, e) ↦ ground arith
]
Match-matches (a ⋅ b) u rest g (v, w, g1, g2, split, m, n, both) h =
    both_parts-ne-none (matches a v (w ++ rest)) (matches b w rest)
      (Match-matches a v (w ++ rest) g1 m) (Match-matches b w rest g2 n)
      (find_map-eq-none
        (λ (p : Text × Text). both_parts (matches a p.0 (p.1 ++ rest)) (matches b p.1 rest))
        (splits u) (v, w) h (rw split (In-splits v w)))
Match-matches (alternative a b) u rest g (inl m) h = elim (Option-cases (matches a u rest)) [
  | inl e ↦ Match-matches a u rest g m e
  | inr (found, e) ↦ ground arith
]
Match-matches (alternative a b) u rest g (inr m) h = elim (Option-cases (matches a u rest)) [
  | inl e ↦ Match-matches b u rest g m (ground arith)
  | inr (found, e) ↦ ground arith
]

-- The first match of the pattern at the start of the haystack, over all its ends.
abbrev from_start : Regex → Text → Option (Option Text)
from_start re s = find_map (λ (p : Text × Text). matches re p.0 p.1) (splits s)

unfoldable pub search : Regex → Text → Option (Option Text)
unfolding find_map splits matches
search re s = find_map (λ (p : Text × Text). from_start re p.1) (splits s)

pub search-Found : (re : Regex) (s : Text) (g : Option Text) → search re s ≡ some g → Found re s g
unfolding search
search-Found re s g h =
    let (p, l, e) = find_map-eq-some (λ (p : Text × Text). from_start re p.1) (splits s) g h in
    let (q, k, m) = find_map-eq-some (λ (q : Text × Text). matches re q.0 q.1) (splits p.1) g e in
    record {
      before = p.0;
      matched = q.0;
      after = q.1;
      place = splits-append s p l ∙ ap (λ t. p.0 ++ t) (splits-append p.1 q k);
      holds = matches-Match re q.0 q.1 g m;
    }

pub search_complete :
    (re : Regex) (s : Text) (g : Option Text) → search re s ≡ none → ¬ Found re s g
unfolding search
search_complete re s g h f =
    let tail = f.matched ++ f.after in
    let started : from_start re tail ≡ none =
      find_map-eq-none (λ (p : Text × Text). from_start re p.1) (splits s) (f.before, tail) h
        (rw f.place (In-splits f.before tail)) in
    Match-matches re f.matched f.after g f.holds (
      find_map-eq-none (λ (q : Text × Text). matches re q.0 q.1) (splits tail) (f.matched, f.after)
        started (In-splits f.matched f.after))

abbrev pub splitting_engine : RegexEngine
splitting_engine = record {
  captures = search;
  captures-some = search-Found;
  captures-none = search_complete;
}
