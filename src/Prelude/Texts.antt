-- ===== src/Prelude/Texts.antt =====
-- Text as the list of its code points, which the program walks and compares.
use Prim.Native.Nat.{ℕ}
use Prim.Native.Char.{code}
use Prim.Native.String.{String}
use mathlib.Core.Path.{◌≡◌, refl, ap}
use mathlib.Core.Logic.{◌↔◌, inl, inr}
use mathlib.Core.Bool.{Bool, true, false, ◌&&◌, ◌||◌}
use mathlib.Core.List.{List, [], ◌∷◌, ◌++◌, append-nil}
use mathlib.Core.Option.{Option, none, some}
use native.Mathlib.Omega.{arith}
use ebpf_oom_watcher.Prelude.Tests.{Eq, ◌==◌, nat_eq, if◌then◌else◌, Bool-cases}

abbrev pub Text : Type 0
Text = List ℕ

-- The code points of a literal.
abbrev pub codes : String → Text
codes String.[] = []
codes (String.◌∷◌ c s) = code c ∷ codes s

unfoldable pub list_beq {ℓ} : {A : Type ℓ} ⦃e : Eq A⦄ → List A → List A → Bool
list_beq [] [] = true
list_beq (x ∷ xs) (y ∷ ys) = (x == y) && list_beq xs ys
list_beq [] (y ∷ ys) = false
list_beq (x ∷ xs) [] = false

pub list_beq_iff {ℓ} : {A : Type ℓ} ⦃e : Eq A⦄ (a b : List A) → (list_beq a b ≡ true) ↔ (a ≡ b)
unfolding list_beq
list_beq_iff [] [] = ground arith
list_beq_iff ⦃e⦄ (x ∷ xs) (y ∷ ys) = ground (arith, list_beq_iff xs ys, e.eq_iff x y)
list_beq_iff [] (y ∷ ys) = ground arith
list_beq_iff (x ∷ xs) [] = ground arith

instance abbrev pub list_eq {ℓ} : {A : Type ℓ} ⦃e : Eq A⦄ → Eq (List A)
list_eq = record { eq = list_beq; eq_iff = list_beq_iff }

-- `str::starts_with`, `str::contains` and `str::ends_with`, the pattern first.
unfoldable pub starts_with : Text → Text → Bool
starts_with [] s = true
starts_with (p ∷ ps) [] = false
starts_with (p ∷ ps) (c ∷ cs) = (p == c) && starts_with ps cs

unfoldable pub contains : Text → Text → Bool
unfolding starts_with
contains p [] = starts_with p []
contains p (c ∷ cs) = starts_with p (c ∷ cs) || contains p cs

unfoldable pub ends_with : Text → Text → Bool
unfolding list_beq
ends_with p [] = p == []
ends_with p (c ∷ cs) = (p == c ∷ cs) || ends_with p cs

-- `str::strip_prefix`.
unfoldable pub strip_prefix : Text → Text → Option Text
strip_prefix [] s = some s
strip_prefix (p ∷ ps) [] = none
strip_prefix (p ∷ ps) (c ∷ cs) = if p == c then strip_prefix ps cs else none

starts_with-append : (p b : Text) → starts_with p (p ++ b) ≡ true
unfolding starts_with
starts_with-append [] b = refl
starts_with-append (c ∷ p) b = ground (arith, starts_with-append p b)

starts_with-eq-true : (p s : Text) → starts_with p s ≡ true → (b : Text) × (s ≡ p ++ b)
unfolding starts_with
starts_with-eq-true [] s h = (s, refl)
starts_with-eq-true (p ∷ ps) [] h = absurd (cc)
starts_with-eq-true (p ∷ ps) (c ∷ cs) h =
    let (b, e) = starts_with-eq-true ps cs (ground arith) in (b, ground arith)

pub contains-append : (p a b : Text) → contains p (a ++ (p ++ b)) ≡ true
unfolding contains
contains-append p [] b = contains_here p (p ++ b) (starts_with-append p b)
  where
    contains_here : (p s : Text) → starts_with p s ≡ true → contains p s ≡ true
    contains_here p [] h = h
    contains_here p (c ∷ cs) h = rw h
contains-append p (c ∷ a) b = ground (arith, contains-append p a b)

pub contains-eq-true :
    (p s : Text) → contains p s ≡ true → (a : Text) × (b : Text) × (s ≡ a ++ (p ++ b))
unfolding contains
contains-eq-true p [] h = let (b, e) = starts_with-eq-true p [] h in ([], b, e)
contains-eq-true p (c ∷ cs) h = elim (Bool-cases (starts_with p (c ∷ cs))) [
  | inl here ↦ let (b, e) = starts_with-eq-true p (c ∷ cs) here in ([], b, e)
  | inr later ↦ let (a, b, e) = contains-eq-true p cs (rw later at h) in (c ∷ a, b, ap (◌∷◌ c) e)
]

pub ends_with-contains : (p s : Text) → ends_with p s ≡ true → contains p s ≡ true
unfolding ends_with contains
ends_with-contains p [] h = let e = (list_beq_iff p []).0 h in rw e
ends_with-contains p (c ∷ cs) h =
    ground (
      arith,
      list_beq_iff p (c ∷ cs),
      ends_with-contains p cs,
      starts_with-append p [],
      append-nil p,
    )
