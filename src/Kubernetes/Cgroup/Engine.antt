-- ===== src/Kubernetes/Cgroup/Engine.antt =====
-- What the `regex` crate promises of `captures`, for the constructs that the patterns use.
use ebpf_oom_watcher.Prelude.{
  ℕ, ◌≡◌, ◌⊎◌, true, [], ◌∷◌, ◌++◌, Option, none, some, Text, all, length, or_else,
}
use ebpf_oom_watcher.Kubernetes.Cgroup.{
  Regex, literal, class, run, lazy_run, at_end, group, ◌⋅◌, alternative,
}

-- The pattern matches the text, which the given rest follows, and its group takes part with the
-- part of the text that the last argument holds.
abbrev pub Match : Regex → Text → Text → Option Text → Type 0
Match (literal t) u rest g = (u ≡ t) × (g ≡ none)
Match (class p) u rest g = (c : ℕ) × (u ≡ c ∷ []) × (p c ≡ true) × (g ≡ none)
Match (run n p) u rest g = (length u ≡ n) × (all p u ≡ true) × (g ≡ none)
Match (lazy_run p) u rest g = (all p u ≡ true) × (g ≡ none)
Match at_end u rest g = (u ≡ []) × (rest ≡ []) × (g ≡ none)
Match (group re) u rest g = (inner : Option Text) × Match re u rest inner × (g ≡ some u)
Match (a ⋅ b) u rest g =
    (v : Text) × (w : Text) × (g1 : Option Text) × (g2 : Option Text) × (u ≡ v ++ w)
    × Match a v (w ++ rest) g1
    × Match b w rest g2
    × (g ≡ or_else g1 g2)
Match (alternative a b) u rest g = Match a u rest g ⊎ Match b u rest g

-- Where in a haystack the pattern matches, and what its group took part with.
pub record Found (re : Regex) (haystack : Text) (g : Option Text) : Type 0 where
  pub before : Text
  pub matched : Text
  pub after : Text
  pub place : haystack ≡ before ++ (matched ++ after)
  pub holds : Match re matched after g

-- `Regex::captures`: what it returns is a match, and it returns none only if there is no match.
pub record RegexEngine : Type 0 where
  pub captures : Regex → Text → Option (Option Text)
  pub captures-some :
      (re : Regex) (s : Text) (g : Option Text) → captures re s ≡ some g → Found re s g
  pub captures-none :
      (re : Regex) (s : Text) (g : Option Text) → captures re s ≡ none → ¬ Found re s g
