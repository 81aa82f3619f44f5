-- ===== src/Tracepoint/Strings.antt =====
-- The string functions of oom-watcher/src/tracepoint.rs on texts put together from parts.
use ebpf_oom_watcher.Prelude.{
  ℕ, zero, suc, ◌+◌, ◌/◌, ◌%◌, ltb, inl, inr, ◌≤◌, ◌≡◌, refl, Bool, false, List, [], ◌∷◌, ◌++◌,
  Option, none, some, Text, All, ◌==◌, nat_eq, list_eq, filter_map, find_map, strip_prefix,
  starts_with, any, arith, Bool-cases,
}
use ebpf_oom_watcher.Prelude.Decimal.{show, show_from}
use ebpf_oom_watcher.Tracepoint.Format.{
  is_space, trim_start, trim_end, trim, split, split_once, take_token, tokens_back, before,
}

-- No character of the text passes.
abbrev pub Lacks : (ℕ → Bool) → Text → Type 0
Lacks p s = All (λ c. p c ≡ false) s

abbrev pub is : ℕ → ℕ → Bool
is d c = c == d

-- A literal is tested at once.
pub any-Lacks : (p : ℕ → Bool) (s : Text) → any p s ≡ false → Lacks p s
any-Lacks p [] h = tt
any-Lacks p (c ∷ s) h = (ground arith, any-Lacks p s (ground arith))

pub split_once-append :
    (sep : ℕ) (a b : Text) → Lacks (is sep) a → split_once sep (a ++ (sep ∷ b)) ≡ some (a, b)
unfolding split_once
split_once-append sep [] b h = ground arith
split_once-append sep (c ∷ a) b (e, h) = rw (e, split_once-append sep a b h) refl

pub split-append :
    (sep : ℕ) (a b : Text) → Lacks (is sep) a → split sep (a ++ (sep ∷ b)) ≡ a ∷ split sep b
unfolding split
split-append sep [] b h = ground arith
split-append sep (c ∷ a) b (e, h) = rw (e, split-append sep a b h) refl

-- The last character is there and not white.
abbrev EndsPlain : Text → Type 0
EndsPlain [] = ⊥
EndsPlain (c ∷ []) = is_space c ≡ false
EndsPlain (c ∷ d ∷ s) = EndsPlain (d ∷ s)

pub trim_end-EndsPlain : (s : Text) → EndsPlain s → trim_end s ≡ s
unfolding trim_end
trim_end-EndsPlain [] h = absurd h
trim_end-EndsPlain (c ∷ []) h = rw h refl
trim_end-EndsPlain (c ∷ d ∷ s) h = rw (trim_end-EndsPlain (d ∷ s) h) refl

pub append-EndsPlain : (a b : Text) → EndsPlain b → EndsPlain (a ++ b)
append-EndsPlain [] b h = h
append-EndsPlain (c ∷ []) [] h = absurd h
append-EndsPlain (c ∷ []) (d ∷ b) h = h
append-EndsPlain (c ∷ d ∷ a) b h = append-EndsPlain (d ∷ a) b h

trim_end_plain : (s : Text) → Lacks is_space s → trim_end s ≡ s
unfolding trim_end
trim_end_plain [] h = refl
trim_end_plain (c ∷ []) (e, h) = rw e refl
trim_end_plain (c ∷ d ∷ s) (e, h) = rw (trim_end_plain (d ∷ s) h) refl

pub trim_plain : (s : Text) → Lacks is_space s → trim s ≡ s
unfolding trim trim_start
trim_plain [] h = trim_end_plain [] tt
trim_plain (c ∷ s) (e, h) = rw e (trim_end_plain (c ∷ s) (e, h))

take_token_plain : (s : Text) → Lacks is_space s → take_token s ≡ s
unfolding take_token
take_token_plain [] h = refl
take_token_plain (c ∷ s) (e, h) = rw (e, take_token_plain s h) refl

tokens_back_within : (s : Text) → Lacks is_space s → tokens_back false s ≡ none
unfolding tokens_back
tokens_back_within [] h = refl
tokens_back_within (c ∷ s) (e, h) = rw e (tokens_back_within s h)

-- The last token is what stands after the last space.
pub tokens_back-append :
    (fresh : Bool) (s : Text) (d : ℕ) (token : Text)
    → Lacks is_space (d ∷ token)
    → tokens_back fresh (s ++ (b' ' ∷ d ∷ token)) ≡ some (d ∷ token)
unfolding tokens_back
tokens_back-append fresh [] d token (e, h) =
    rw (e, tokens_back_within token h, take_token_plain token h) (ground arith)
tokens_back-append fresh (c ∷ s) d token h =
    rw (tokens_back-append (is_space c) s d token h) (ground arith)

pub before-append : (sep : ℕ) (a b : Text) → Lacks (is sep) a → before sep (a ++ (sep ∷ b)) ≡ a
unfolding before
before-append sep [] b h = ground arith
before-append sep (c ∷ a) b (e, h) = rw (e, before-append sep a b h) refl

pub before_whole : (sep : ℕ) (a : Text) → Lacks (is sep) a → before sep a ≡ a
unfolding before
before_whole sep [] h = refl
before_whole sep (c ∷ a) (e, h) = rw (e, before_whole sep a h) refl

pub All-append : (p : ℕ → Bool) (a b : Text) → Lacks p a → Lacks p b → Lacks p (a ++ b)
All-append p [] b h g = g
All-append p (c ∷ a) b (e, h) g = (e, All-append p a b h g)

-- What holds of no digit holds nowhere in a shown number.
show_from-Lacks :
    (p : ℕ → Bool)
    → ((c : ℕ) → b'0' ≤ c → c ≤ b'9' → p c ≡ false)
    → (fuel n : ℕ) (rest : Text) → Lacks p rest
    → Lacks p (show_from fuel n rest)
unfolding show_from
show_from-Lacks p h zero n rest g = g
show_from-Lacks p h (suc fuel) n rest g = elim (Bool-cases (ltb n 10)) [
  | inl small ↦ rw small (h (b'0' + n) (omega arith) (ground arith), g)
  | inr large ↦ rw large (
      show_from-Lacks p h fuel (n / 10) ((b'0' + n % 10) ∷ rest)
        (h (b'0' + n % 10) (omega arith) (omega arith), g))
]

pub show-Lacks :
    (p : ℕ → Bool) → ((c : ℕ) → b'0' ≤ c → c ≤ b'9' → p c ≡ false) → (n : ℕ) → Lacks p (show n)
unfolding show
show-Lacks p h n = show_from-Lacks p h (suc n) n [] tt

pub strip_prefix-append : (p b : Text) → strip_prefix p (p ++ b) ≡ some b
unfolding strip_prefix
strip_prefix-append [] b = refl
strip_prefix-append (c ∷ p) b = ground (arith, strip_prefix-append p b)

pub shown-space : (n : ℕ) → Lacks is_space (show n)
unfolding is_space
shown-space n = show-Lacks is_space (λ c low high. ground arith) n

pub colon_plain : is_space b':' ≡ false
unfolding is_space
colon_plain = refl

pub trim_tab : (s : Text) → Lacks is_space s → trim (b'\t' ∷ s) ≡ s
unfolding trim trim_start is_space
trim_tab s h = trim_plain s h

pub Lacks-less :
    (p q : ℕ → Bool) → ((c : ℕ) → p c ≡ false → q c ≡ false) → (s : Text) → Lacks p s → Lacks q s
Lacks-less p q h [] g = tt
Lacks-less p q h (c ∷ s) (e, g) = (h c e, Lacks-less p q h s g)

pub find_map_here :
    {A B : Type 0} (f : A → Option B) (x : A) (xs : List A) (y : B)
    → f x ≡ some y
    → find_map f (x ∷ xs) ≡ some y
unfolding find_map
find_map_here f x xs y h = rw h refl

pub find_map_later :
    {A B : Type 0} (f : A → Option B) (x : A) (xs : List A)
    → f x ≡ none
    → find_map f (x ∷ xs) ≡ find_map f xs
unfolding find_map
find_map_later f x xs h = rw h refl

pub strip_prefix-none : (p s : Text) → starts_with p s ≡ false → strip_prefix p s ≡ none
unfolding strip_prefix starts_with
strip_prefix-none [] s h = absurd (cc)
strip_prefix-none (p ∷ ps) [] h = refl
strip_prefix-none (p ∷ ps) (c ∷ cs) h = ground (arith, strip_prefix-none ps cs)

pub filter_map_here :
    {A B : Type 0} (f : A → Option B) (x : A) (xs : List A) (y : B)
    → f x ≡ some y
    → filter_map f (x ∷ xs) ≡ y ∷ filter_map f xs
unfolding filter_map
filter_map_here f x xs y h = rw h refl

pub filter_map_past :
    {A B : Type 0} (f : A → Option B) (x : A) (xs : List A)
    → f x ≡ none
    → filter_map f (x ∷ xs) ≡ filter_map f xs
unfolding filter_map
filter_map_past f x xs h = rw h refl
