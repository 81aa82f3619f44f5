-- ===== src/Prelude/Lists.antt =====
-- Lists measured by native numbers, predicates over them, and searches as `Iterator` has them.
use Prim.Native.Nat.{ℕ, zero, suc, ◌+◌}
use mathlib.Core.Path.{◌≡◌, refl}
use mathlib.Core.Logic.{◌⊎◌, inl, inr}
use mathlib.Core.Bool.{Bool, true, false, ◌&&◌, ◌||◌}
use mathlib.Core.List.{List, [], ◌∷◌, ◌++◌}
use mathlib.Core.Option.{Option, none, some}
use native.Mathlib.Omega.{arith}
use ebpf_oom_watcher.Prelude.Tests.{Bool-cases, Option-cases}

module _ {ℓ} {A : Type ℓ} where
  abbrev pub length : List A → ℕ
  length [] = 0
  length (x ∷ xs) = suc (length xs)

  pub length-append : (xs ys : List A) → length (xs ++ ys) ≡ length xs + length ys
  length-append [] ys = omega arith
  length-append (x ∷ xs) ys = omega (arith, length-append xs ys)

  abbrev pub take : ℕ → List A → List A
  take zero xs = []
  take (suc n) [] = []
  take (suc n) (x ∷ xs) = x ∷ take n xs

  abbrev pub drop : ℕ → List A → List A
  drop zero xs = xs
  drop (suc n) [] = []
  drop (suc n) (x ∷ xs) = drop n xs

  abbrev pub replicate : ℕ → A → List A
  replicate zero a = []
  replicate (suc n) a = a ∷ replicate n a

  -- `Iterator::any`.
  abbrev pub any : (A → Bool) → List A → Bool
  any p [] = false
  any p (x ∷ xs) = p x || any p xs

  -- `Iterator::all`.
  abbrev pub all : (A → Bool) → List A → Bool
  all p [] = true
  all p (x ∷ xs) = p x && all p xs

module _ {ℓ} {B : Type ℓ} where
  -- `Option::or_else`.
  abbrev pub or_else : Option B → Option B → Option B
  or_else none r = r
  or_else (some b) r = some b

  abbrev pub push_some : Option B → List B → List B
  push_some none r = r
  push_some (some b) r = b ∷ r

module _ {ℓ κ} {A : Type ℓ} {B : Type κ} (f : A → Option B) where
  -- `Iterator::find_map`: the first `some`.
  unfoldable pub find_map : List A → Option B
  find_map [] = none
  find_map (x ∷ xs) = or_else (f x) (find_map xs)

  -- `Iterator::filter_map`.
  unfoldable pub filter_map : List A → List B
  filter_map [] = []
  filter_map (x ∷ xs) = push_some (f x) (filter_map xs)

-- Membership by recursion, which the tactics read.
abbrev pub In : {A : Type 0} → A → List A → Type 0
In a [] = ⊥
In a (x ∷ xs) = (a ≡ x) ⊎ In a xs

module _ {A : Type 0} where
  In-append_left : (a : A) (xs ys : List A) → In a xs → In a (xs ++ ys)
  In-append_left a [] ys h = elim h [ ]
  In-append_left a (x ∷ xs) ys (inl e) = inl e
  In-append_left a (x ∷ xs) ys (inr h) = inr (In-append_left a xs ys h)

  In-append_right : (a : A) (xs ys : List A) → In a ys → In a (xs ++ ys)
  In-append_right a [] ys h = h
  In-append_right a (x ∷ xs) ys h = inr (In-append_right a xs ys h)

  any-eq-true : (p : A → Bool) (xs : List A) → any p xs ≡ true → (a : A) × In a xs × (p a ≡ true)
  any-eq-true p [] h = absurd (cc)
  any-eq-true p (x ∷ xs) h = elim (Bool-cases (p x)) [
    | inl t ↦ (x, inl refl, t)
    | inr f ↦ let (a, m, t) = any-eq-true p xs (ground arith) in (a, inr m, t)
  ]

  pub any_of_In : (p : A → Bool) (xs : List A) (a : A) → In a xs → p a ≡ true → any p xs ≡ true
  any_of_In p [] a h t = elim h [ ]
  any_of_In p (x ∷ xs) a (inl e) t = ground arith
  any_of_In p (x ∷ xs) a (inr m) t = let u = any_of_In p xs a m t in ground arith

  pub find_map-eq-some :
      {B : Type 0} (f : A → Option B) (xs : List A) (b : B)
      → find_map f xs ≡ some b
      → (a : A) × In a xs × (f a ≡ some b)
  unfolding find_map
  find_map-eq-some f [] b h = cc
  find_map-eq-some f (x ∷ xs) b h = elim (Option-cases (f x)) [
    | inl e ↦ let (a, m, t) = find_map-eq-some f xs b (ground arith) in (a, inr m, t)
    | inr (c, e) ↦ (x, inl refl, ground arith)
  ]

  pub find_map-eq-none :
      {B : Type 0} (f : A → Option B) (xs : List A) (a : A)
      → find_map f xs ≡ none
      → In a xs
      → f a ≡ none
  unfolding find_map
  find_map-eq-none f [] a h m = elim m [ ]
  find_map-eq-none f (x ∷ xs) a h (inl e) = ground arith
  find_map-eq-none f (x ∷ xs) a h (inr m) = find_map-eq-none f xs a (ground arith) m

  find_map-none_of :
      {B : Type 0} (f : A → Option B) (xs : List A)
      → ((a : A) → In a xs → f a ≡ none)
      → find_map f xs ≡ none
  unfolding find_map
  find_map-none_of f [] h = refl
  find_map-none_of f (x ∷ xs) h = rw (h x (inl refl)) (find_map-none_of f xs (λ a m. h a (inr m)))

-- A predicate of every element.
abbrev pub All {ℓ κ} : {A : Type ℓ} → (A → Type κ) → List A → Type κ
All P [] = Unit
All P (x ∷ xs) = P x × All P xs
