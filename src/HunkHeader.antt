-- ===== src/HunkHeader.antt =====
-- The header of a hunk in a unified diff, as the patterns of
-- packages/cli/src/commands/audit-changed.ts and packages/cli/src/eval/coding-localize.ts read it.
use Prim.Native.Char.{code}
use codewatch.Base.{
  push_front, ◌&&◌, leb, true, ◌-◌, ◌+◌, ◌*◌, if◌then◌else◌, none, strip_prefix, some, false, Bool,
  ℕ, String, Option,
}

infixl 5 ◌>>=◌
abbrev ◌>>=◌ {ℓ κ} : {A : Type ℓ} {B : Type κ} → Option A → (A → Option B) → Option B
some a >>= f = f a
none >>= f = none

-- A missing count is `none`.
pub record HunkHeader : Type 0 where
  pub old_start : ℕ
  pub old_count : Option ℕ
  pub new_start : ℕ
  pub new_count : Option ℕ

-- `\d+`, and what follows it.
abbrev more_number : ℕ → Bool → String → Option (ℕ × String)
more_number acc seen String.[] = if seen then some (acc, "") else none
more_number acc seen (String.◌∷◌ c s) =
    let more = more_number (acc * 10 + (code c - 48)) true s in
    if leb 48 (code c) && leb (code c) 57
    then more
    else if seen
    then some (acc, push_front c s)
    else none

unfoldable pub number : String → Option (ℕ × String)
number s = more_number 0 false s

abbrev counted : Option (ℕ × String) → Option (Option ℕ × String)
counted none = none
counted (some (n, rest)) = some (some n, rest)

-- `(?:,\d+)?`: a comma without a number fits nothing that may follow.
abbrev count_of : String → Option (Option ℕ × String)
count_of s = elim (strip_prefix "," s) [ none ↦ some (none, s) | some rest ↦ counted (number rest) ]

-- `^@@ -\d+(?:,\d+)? \+\d+(?:,\d+)? @@`
unfoldable pub hunk_header : String → Option HunkHeader
hunk_header line = do
  s ← strip_prefix "@@ -" line
  (old_start, s) ← number s
  (old_count, s) ← count_of s
  s ← strip_prefix " +" s
  (new_start, s) ← number s
  (new_count, s) ← count_of s
  s ← strip_prefix " @@" s
  some (record {
    old_start = old_start;
    old_count = old_count;
    new_start = new_start;
    new_count = new_count;
  })
