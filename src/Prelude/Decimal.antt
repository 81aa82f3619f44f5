-- ===== src/Prelude/Decimal.antt =====
-- `Display` and `FromStr` of an unsigned integer, from the standard library.
use Prim.Native.Nat.{ℕ, zero, suc, ◌+◌, ◌-◌, ◌*◌, ◌/◌, ◌%◌, ◌<◌, ◌≤◌}
use mathlib.Core.Path.{◌≡◌, refl, ◌∙◌}
use mathlib.Core.Logic.{inl, inr}
use mathlib.Core.Bool.{Bool, ◌&&◌}
use mathlib.Core.List.{[], ◌∷◌}
use mathlib.Core.Option.{Option, none, some}
use native.Mathlib.Omega.{arith}
use ebpf_oom_watcher.Prelude.Tests.{ltb, leb, nat_beq, if◌then◌else◌, Bool-cases}
use ebpf_oom_watcher.Prelude.Texts.{Text, codes}

-- The digits of `n` in front of `rest`; more fuel than `n` is enough.
unfoldable pub show_from : ℕ → ℕ → Text → Text
show_from zero n rest = rest
show_from (suc fuel) n rest =
    let more = show_from fuel (n / 10) ((b'0' + n % 10) ∷ rest) in
    if ltb n 10 then (b'0' + n) ∷ rest else more

-- `n.to_string()`.
unfoldable pub show : ℕ → Text
unfolding show_from
show n = show_from (suc n) n []

abbrev is_digit : ℕ → Bool
is_digit c = leb b'0' c && leb c b'9'

-- The loop with `checked_mul` and `checked_add`, on values below `limit`.
unfoldable pub parse_digits : ℕ → ℕ → Text → Option ℕ
parse_digits limit acc [] = some acc
parse_digits limit acc (c ∷ cs) =
    let rest = parse_digits limit (acc * 10 + (c - b'0')) cs in
    if is_digit c && ltb (acc * 10 + (c - b'0')) limit then rest else none

abbrev strip_plus : Text → Text
strip_plus [] = []
strip_plus (c ∷ cs) = if nat_beq c b'+' then cs else c ∷ cs

abbrev parse_some : ℕ → Text → Option ℕ
parse_some limit [] = none
parse_some limit (c ∷ cs) = parse_digits limit 0 (c ∷ cs)

-- `text.parse::<uN>().ok()`, with `limit` = 2 ^ N.
unfoldable pub parse_uint : ℕ → Text → Option ℕ
unfolding parse_digits
parse_uint limit text = parse_some limit (strip_plus text)

parse_digits-show_from :
    (limit fuel n : ℕ) (rest : Text)
    → n < fuel
    → n < limit
    → parse_digits limit 0 (show_from fuel n rest) ≡ parse_digits limit n rest
unfolding show_from parse_digits
parse_digits-show_from limit zero n rest h g = absurd (omega arith)
parse_digits-show_from limit (suc fuel) n rest h g = elim (Bool-cases (ltb n 10)) [
  | inl small ↦ rw small (ground arith)
  | inr large ↦ rw large (
      parse_digits-show_from limit fuel (n / 10) ((b'0' + n % 10) ∷ rest) (ground arith)
        (ground arith)
      ∙ ground arith)
]

-- A shown number begins with a digit.
show_from-head :
    (fuel n : ℕ) (rest : Text)
    → n < fuel
    → (d : ℕ) × (cs : Text) × (show_from fuel n rest ≡ d ∷ cs) × (b'0' ≤ d)
unfolding show_from
show_from-head zero n rest h = absurd (omega arith)
show_from-head (suc fuel) n rest h = elim (Bool-cases (ltb n 10)) [
  | inl small ↦ rw small (b'0' + n, rest, refl, omega arith)
  | inr large ↦ rw large (show_from-head fuel (n / 10) ((b'0' + n % 10) ∷ rest) (ground arith))
]

-- Printing and parsing give the number back, if it is in range.
pub parse_uint-show : (limit n : ℕ) → n < limit → parse_uint limit (show n) ≡ some n
unfolding show parse_uint
parse_uint-show limit n h =
    let (d, cs, e, low) = show_from-head (suc n) n [] (omega arith) in
    let parsed = parse_digits-show_from limit (suc n) n [] (omega arith) h in
    rw e (ground (arith, rw e at parsed))

show_test : show 18446744073709551615 ≡ codes "18446744073709551615"
unfolding show
show_test = refl
