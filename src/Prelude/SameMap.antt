-- ===== src/Prelude/SameMap.antt =====
-- Hash maps with the same entries, in whatever order: what does not tell them apart.
use mathlib.Core.Path.{◌≡◌, refl, sym, ap, ◌∙◌}
use mathlib.Core.Logic.{inl, inr}
use mathlib.Core.Bool.{Bool, true, false, not}
use mathlib.Core.List.{List, [], ◌∷◌}
use mathlib.Core.Option.{Option, none, some}
use Prim.Native.Nat.{ℕ, ◌+◌}
use native.Mathlib.Omega.{arith}
use ebpf_oom_watcher.Prelude.Lists.{any}
use ebpf_oom_watcher.Prelude.Tests.{is_some, if◌then◌else◌, Eq, ◌==◌, Bool-cases, Eq-cases}
use ebpf_oom_watcher.Prelude.HashMap.{
  HashMap, keys, get, insert, retain, guard, Distinct, get-insert, get-retain, retain-Distinct,
}

-- How many items of a list pass.
abbrev pub count {ℓ} : {A : Type ℓ} → (A → Bool) → List A → ℕ
count p [] = 0
count p (x ∷ xs) = (if p x then 1 else 0) + count p xs

guard-ext {ℓ} :
    {V : Type ℓ} (p q : V → Bool) (o : Option V) → ((v : V) → p v ≡ q v) → guard p o ≡ guard q o
guard-ext p q none h = refl
guard-ext p q (some v) h = rw (h v) refl

guard_const {ℓ} :
    {V : Type ℓ} (b : Bool) (o : Option V) → guard (λ v. b) o ≡ (if b then o else none)
guard_const b none = ground arith
guard_const b (some v) = refl

module _ {ℓ κ} {K : Type ℓ} {V : Type κ} ⦃e : Eq K⦄ where
  abbrev pub SameMap : HashMap K V → HashMap K V → Type (ℓ ⊔ κ)
  SameMap m n = (k : K) → get k m ≡ get k n

  -- Each key of the one is a key of the other.
  abbrev Within : HashMap K V → HashMap K V → Type ℓ
  Within m n = (k : K) → is_some (get k m) ≡ true → is_some (get k n) ≡ true

  any_of_get :
      (p : K → Bool) (k : K) (n : HashMap K V)
      → is_some (get k n) ≡ true
      → p k ≡ true
      → any p (keys n) ≡ true
  unfolding get
  any_of_get p k [] h t = absurd (cc)
  any_of_get p k ((j, v) ∷ n) h t = ground (arith, e.eq_iff j k, any_of_get p k n)

  any-Within :
      (p : K → Bool) (m n : HashMap K V)
      → Within m n
      → any p (keys m) ≡ true
      → any p (keys n) ≡ true
  unfolding get
  any-Within p [] n w h = absurd (cc)
  any-Within p ((j, v) ∷ m) n w h = elim (Bool-cases (p j)) [
    | inl t ↦ any_of_get p j n (w j (ground (arith, e.eq_iff j j))) t
    | inr f ↦ any-Within p m n (λ k g. w k (ground arith)) (ground arith)
  ]

  pub any-SameMap :
      (p : K → Bool) (m n : HashMap K V) → SameMap m n → any p (keys m) ≡ any p (keys n)
  any-SameMap p m n s =
      ground (arith, any-Within p m n (λ k h. rw (← s k) h), any-Within p n m (λ k h. rw (s k) h))

  pub swap-SameMap :
      (j k : K) (v w : V) (m : HashMap K V)
      → (j == k) ≡ false
      → SameMap ((j, v) ∷ (k, w) ∷ m) ((k, w) ∷ (j, v) ∷ m)
  unfolding get
  swap-SameMap j k v w m h i = ground (arith, e.eq_iff j k, e.eq_iff j i, e.eq_iff k i)

  pub insert-SameMap :
      (k : K) (v : V) (m n : HashMap K V) → SameMap m n → SameMap (insert k v m) (insert k v n)
  insert-SameMap k v m n s j =
      get-insert k j v m ∙ ap (λ o. if k == j then some v else o) (s j) ∙ sym (get-insert k j v n)

  pub retain-SameMap :
      (p q : K → V → Bool) (m n : HashMap K V)
      → Distinct m
      → Distinct n
      → ((k : K) (v : V) → p k v ≡ q k v)
      → SameMap m n
      → SameMap (retain p m) (retain q n)
  retain-SameMap p q m n d f h s k =
      get-retain k p m d
      ∙ guard-ext (p k) (q k) (get k m) (h k)
      ∙ ap (guard (q k)) (s k)
      ∙ sym (get-retain k q n f)

  -- The map without a key.
  abbrev erase : K → HashMap K V → HashMap K V
  erase k m = retain (λ j v. not (j == k)) m

  erase_absent :
      (p : K → Bool) (k : K) (m : HashMap K V)
      → get k m ≡ none
      → count p (keys (erase k m)) ≡ count p (keys m)
  unfolding get retain
  erase_absent p k [] h = refl
  erase_absent p k ((j, v) ∷ m) h = ground (arith, erase_absent p k m)

  count-erase :
      (p : K → Bool) (k : K) (m : HashMap K V)
      → Distinct m
      → is_some (get k m) ≡ true
      → count p (keys m) ≡ (if p k then 1 else 0) + count p (keys (erase k m))
  unfolding get retain
  count-erase p k [] d h = absurd (cc)
  count-erase p k ((j, v) ∷ m) (a, d) h = elim (Eq-cases j k) [
    | inl (b, same) ↦ ground (arith, erase_absent p k m (rw b at a), ap p b)
    | inr (b, other) ↦ ground (arith, count-erase p k m d)
  ]

  without :
      (k : K) (v : V) (m n : HashMap K V)
      → get k m ≡ none
      → Distinct n
      → SameMap ((k, v) ∷ m) n
      → SameMap m (erase k n)
  unfolding get
  without k v m n a f s j =
      let kept = get-retain j (λ i w. not (i == k)) n f ∙ guard_const (not (j == k)) (get j n) in
      elim (Eq-cases j k) [
        | inl (b, same) ↦ rw b a ∙ sym (rw same at kept)
        | inr (b, other) ↦ ground (arith, s j, e.eq_iff k j) ∙ sym (rw other at kept)
      ]

  pub count-SameMap :
      (p : K → Bool) (m n : HashMap K V)
      → Distinct m
      → Distinct n
      → SameMap m n
      → count p (keys m) ≡ count p (keys n)
  unfolding get
  count-SameMap p [] [] d f s = refl
  count-SameMap p [] ((j, w) ∷ n) d f s = let h = s j in absurd (ground (arith, e.eq_iff j j))
  count-SameMap p ((k, v) ∷ m) n (a, d) f s = ground (
    arith,
    s k,
    e.eq_iff k k,
    count-erase p k n f,
    count-SameMap p m (erase k n) d (retain-Distinct (λ j w. not (j == k)) n f)
        (without k v m n a f s),
  )
