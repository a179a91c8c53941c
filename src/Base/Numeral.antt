-- ===== src/Base/Numeral.antt =====
-- Decimal numerals, and the lines of a text.
use Prim.Native.Nat.{ℕ, zero, suc, ◌/◌, ◌%◌, ◌*◌, ◌+◌, ◌-◌, ◌<◌, ◌≤◌}
use mathlib.Core.Path.{◌≡◌, refl, ap, ◌∙◌}
use mathlib.Core.Bool.{◌&&◌}
use mathlib.Core.Logic.{inl, inr}
use mathlib.Core.Option.{Option, none, some}
use native.Mathlib.Omega.{arith}
use Prim.Native.Char.{Char, code}
use Prim.Native.String.{String}
use mathlib.Core.List.{List, [], ◌∷◌}
use codewatch.Base.Tests.{eqb, ltb, leb, or_else, Bool-cases, if◌then◌else◌}
use codewatch.Base.Lists.{get_elem?}
use codewatch.Base.Text.{push_front, glue}

abbrev digits : List String
digits = "0" ∷ ("1" ∷ ("2" ∷ ("3" ∷ ("4" ∷ ("5" ∷ ("6" ∷ ("7" ∷ ("8" ∷ ("9" ∷ [])))))))))

abbrev digit : ℕ → String
digit n = or_else (get_elem? digits n) ""

-- The decimal numeral, on fuel: `n` rounds are enough, since each divides by ten.
abbrev numeral_from : ℕ → ℕ → String
numeral_from zero n = digit (n % 10)
numeral_from (suc fuel) n =
    let front = numeral_from fuel (n / 10) in
    if ltb n 10 then digit n else glue front (digit (n % 10))

abbrev pub numeral : ℕ → String
numeral n = numeral_from n n

abbrev grow_line : Char → List String → List String
grow_line c [] = push_front c "" ∷ []
grow_line c (l ∷ ls) = push_front c l ∷ ls

-- `split("\n")`
unfoldable pub lines_of : String → List String
lines_of String.[] = "" ∷ []
lines_of (String.◌∷◌ c s) = if eqb (code c) 10 then "" ∷ lines_of s else grow_line c (lines_of s)

-- `Number(s)` of a text of digits; `none` where another character stands in it.
unfoldable pub read_digits : ℕ → String → Option ℕ
read_digits acc String.[] = some acc
read_digits acc (String.◌∷◌ c s) =
    let more = read_digits (acc * 10 + (code c - 48)) s in
    if leb 48 (code c) && leb (code c) 57 then more else none

read_after : Option ℕ → String → Option ℕ
read_after none t = none
read_after (some n) t = read_digits n t

read_digits-glue :
    (acc : ℕ) (s t : String) → read_digits acc (glue s t) ≡ read_after (read_digits acc s) t
unfolding read_digits read_after glue
read_digits-glue acc String.[] t = refl
read_digits-glue acc (String.◌∷◌ c s) t =
    ground (arith, read_digits-glue (acc * 10 + (code c - 48)) s t)

read_digits-digit : (acc d : ℕ) → d < 10 → read_digits acc (digit d) ≡ some (acc * 10 + d)
unfolding read_digits
read_digits-digit acc zero h = ap some (omega arith)
read_digits-digit acc (suc zero) h = ap some (omega arith)
read_digits-digit acc (suc (suc zero)) h = ap some (omega arith)
read_digits-digit acc (suc (suc (suc zero))) h = ap some (omega arith)
read_digits-digit acc (suc (suc (suc (suc zero)))) h = ap some (omega arith)
read_digits-digit acc (suc (suc (suc (suc (suc zero))))) h = ap some (omega arith)
read_digits-digit acc (suc (suc (suc (suc (suc (suc zero)))))) h = ap some (omega arith)
read_digits-digit acc (suc (suc (suc (suc (suc (suc (suc zero))))))) h = ap some (omega arith)
read_digits-digit acc (suc (suc (suc (suc (suc (suc (suc (suc zero)))))))) h = ap some (omega arith)
read_digits-digit acc (suc (suc (suc (suc (suc (suc (suc (suc (suc zero))))))))) h =
    ap some (omega arith)
read_digits-digit acc (suc (suc (suc (suc (suc (suc (suc (suc (suc (suc d)))))))))) h =
    absurd (omega arith)

read_digits-numeral_from : (fuel n : ℕ) → n ≤ fuel → read_digits 0 (numeral_from fuel n) ≡ some n
read_digits-numeral_from zero n h =
    rw (read_digits-digit 0 (n % 10) (omega arith)) (ap some (omega arith))
read_digits-numeral_from (suc fuel) n h = elim (Bool-cases (ltb n 10)) [
  | inl small ↦ rw (small, read_digits-digit 0 n (ground (arith, small))) (ap some (omega arith))
  | inr large ↦
      rw
        (
          large,
          read_digits-glue 0 (numeral_from fuel (n / 10)) (digit (n % 10)),
          read_digits-numeral_from fuel (n / 10) (ground (arith, large, h)),
        )
        (unfold read_after in
          read_digits-digit (n / 10) (n % 10) (omega arith) ∙ ap some (omega arith))
]

pub read_digits-numeral : (n : ℕ) → read_digits 0 (numeral n) ≡ some n
read_digits-numeral n = read_digits-numeral_from n n (omega arith)
