-- ===== src/Prelude/HashMap.antt =====
-- `std::collections::HashMap` as a list of entries, in an order that no caller relies on.
use mathlib.Core.Path.{◌≡◌, refl, ◌∙◌}
use mathlib.Core.Logic.{inl, inr}
use mathlib.Core.Bool.{Bool, not, ◌||◌}
use mathlib.Core.List.{List, [], ◌∷◌}
use mathlib.Core.Option.{Option, none, some}
use native.Mathlib.Omega.{arith}
use ebpf_oom_watcher.Prelude.Lists.{any}
use ebpf_oom_watcher.Prelude.Tests.{is_some, if◌then◌else◌, Eq, ◌==◌, Bool-cases, Eq-cases}

abbrev pub HashMap {ℓ κ} : Type ℓ → Type κ → Type (ℓ ⊔ κ)
HashMap K V = List (K × V)

-- Keeps a value that passes.
abbrev pub guard {ℓ} : {V : Type ℓ} → (V → Bool) → Option V → Option V
guard p none = none
guard p (some v) = if p v then some v else none

module _ {ℓ κ} {K : Type ℓ} {V : Type κ} where
  abbrev pub keys : HashMap K V → List K
  keys [] = []
  keys ((k, v) ∷ m) = k ∷ keys m

  -- `retain`: the entries that pass stay.
  unfoldable pub retain : (K → V → Bool) → HashMap K V → HashMap K V
  retain p [] = []
  retain p ((k, v) ∷ m) = if p k v then (k, v) ∷ retain p m else retain p m

  -- `retain` with a closure that pushes the keys that it drops: those, and what stays.
  unfoldable pub drain : (K → V → Bool) → HashMap K V → List K × HashMap K V
  drain drop [] = ([], [])
  drain drop ((k, v) ∷ m) =
      let (out, kept) = drain drop m in if drop k v then (k ∷ out, kept) else (out, (k, v) ∷ kept)

  pub drain_lem :
      (drop : K → V → Bool) (m : HashMap K V)
      → drain drop m ≡ (keys (retain drop m), retain (λ k v. not (drop k v)) m)
  unfolding drain retain
  drain_lem drop [] = refl
  drain_lem drop ((k, v) ∷ m) = ground (arith, drain_lem drop m)

module _ {ℓ κ} {K : Type ℓ} {V : Type κ} ⦃e : Eq K⦄ where
  unfoldable pub get : K → HashMap K V → Option V
  get k [] = none
  get k ((j, v) ∷ m) = if j == k then some v else get k m

  unfoldable pub insert : K → V → HashMap K V → HashMap K V
  insert k v [] = (k, v) ∷ []
  insert k v ((j, w) ∷ m) = if j == k then (k, v) ∷ m else (j, w) ∷ insert k v m

  pub get-insert :
      (k j : K) (v : V) (m : HashMap K V)
      → get j (insert k v m) ≡ (if k == j then some v else get j m)
  unfolding get insert
  get-insert k j v [] = refl
  get-insert k j v ((i, w) ∷ m) =
      ground (arith, e.eq_iff k j, e.eq_iff i k, e.eq_iff i j, get-insert k j v m)

  -- Each key stands in one entry.
  abbrev pub Distinct : HashMap K V → Type κ
  Distinct [] = Unit
  Distinct ((k, v) ∷ m) = (get k m ≡ none) × Distinct m

  pub insert-Distinct : (k : K) (v : V) (m : HashMap K V) → Distinct m → Distinct (insert k v m)
  unfolding get insert
  insert-Distinct k v [] d = (refl, tt)
  insert-Distinct k v ((i, w) ∷ m) (h, d) = elim (Eq-cases i k) [
    | inl (p, q) ↦ rw q (rw p at h, d)
    | inr (p, q) ↦
        rw q
          (get-insert k i v m ∙ ground (arith, e.eq_iff k i, e.eq_iff i k), insert-Distinct k v m d)
  ]

  get-retain-none :
      (k : K) (p : K → V → Bool) (m : HashMap K V) → get k m ≡ none → get k (retain p m) ≡ none
  unfolding get retain
  get-retain-none k p [] h = refl
  get-retain-none k p ((j, v) ∷ m) h = ground (arith, get-retain-none k p m)

  pub get-retain :
      (k : K) (p : K → V → Bool) (m : HashMap K V)
      → Distinct m
      → get k (retain p m) ≡ guard (p k) (get k m)
  unfolding get retain
  get-retain k p [] d = refl
  get-retain k p ((j, v) ∷ m) (h, d) =
      ground (arith, e.eq_iff j k, get-retain-none k p m, get-retain k p m d)

  pub retain-Distinct : (p : K → V → Bool) (m : HashMap K V) → Distinct m → Distinct (retain p m)
  unfolding retain
  retain-Distinct p [] d = tt
  retain-Distinct p ((j, v) ∷ m) (h, d) = elim (Bool-cases (p j v)) [
    | inl q ↦ rw q (get-retain-none j p m h, retain-Distinct p m d)
    | inr q ↦ rw q (retain-Distinct p m d)
  ]

  -- A property of some key, across the operations.
  pub any-keys-insert :
      (p : K → Bool) (k : K) (v : V) (m : HashMap K V)
      → any p (keys (insert k v m)) ≡ (p k || any p (keys m))
  unfolding insert
  any-keys-insert p k v [] = ground arith
  any-keys-insert p k v ((j, w) ∷ m) = ground (arith, e.eq_iff j k, any-keys-insert p k v m)

  pub any-keys-eq : (k : K) (m : HashMap K V) → any (λ j. j == k) (keys m) ≡ is_some (get k m)
  unfolding get
  any-keys-eq k [] = refl
  any-keys-eq k ((j, v) ∷ m) = ground (arith, any-keys-eq k m)

module _ {ℓ κ} {K : Type ℓ} {V : Type κ} where
  pub any-keys-retain :
      (p : K → Bool) (drop : K → V → Bool) (m : HashMap K V)
      → any p (keys m)
        ≡ (any p (keys (retain drop m)) || any p (keys (retain (λ k v. not (drop k v)) m)))
  unfolding retain
  any-keys-retain p drop [] = refl
  any-keys-retain p drop ((k, v) ∷ m) = ground (arith, any-keys-retain p drop m)
