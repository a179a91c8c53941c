-- ===== src/Triage/Excerpt.antt =====
-- packages/cli/src/commands/triage-excerpt.ts and packUnits of triage-bundle.ts: the numbered lines
-- that a reader is shown, and how the excerpts of a file are packed under the token cap.
pub mod Lines
pub mod Packing
use Prim.Native.Char.{Char, code}
use codewatch.Base.{
  numeral, length, is_some, nat_eq, ◌||◌, keys, ◌&&◌, string_eq, true, leb, zero, ◌-◌, get_elem?,
  ◌/◌, lookup, eqb, ltb, add_all, false, if◌then◌else◌, or_else, map, sort_by, ◌+◌, insert, units,
  suc, ◌++◌, ◌%◌, Bool, glue, ℕ, String, ◌∷◌, List, JsMap, [], none, some,
}
use codewatch.Triage.Questions.{Finding}

-- Shown lines per path.
abbrev pub ShownLines : Type 0
ShownLines = JsMap String (List ℕ)

-- `Math.ceil(text.length / 4)`
abbrev pub estimate_tokens : String → ℕ
estimate_tokens text = (units text + 3) / 4

abbrev larger : ℕ → ℕ → ℕ
larger a b = if leb a b then b else a

abbrev smaller : ℕ → ℕ → ℕ
smaller a b = if leb a b then a else b

abbrev pub count_up : ℕ → ℕ → List ℕ
count_up zero n = []
count_up (suc k) n = n ∷ count_up k (n + 1)

-- A start below 1 and a start of 1 are the same.
unfoldable pub line_range : ℕ → ℕ → ℕ → List ℕ
line_range start stop max = count_up (smaller max stop + 1 - larger 1 start) (larger 1 start)

unfoldable pub merge_shown : ShownLines → ShownLines → ShownLines
merge_shown into [] = into
merge_shown into ((p, lines) ∷ from) =
    merge_shown (insert into p (add_all (or_else (lookup into p) []) lines)) from

abbrev pub copy_shown : ShownLines → ShownLines
copy_shown shown = merge_shown [] shown

abbrev spaces : ℕ → String
spaces zero = ""
spaces (suc n) = glue " " (spaces n)

abbrev pad_start : ℕ → String → String
pad_start width s = glue (spaces (width - units s)) s

abbrev last_number : ℕ → List ℕ → ℕ
last_number d [] = d
last_number d (n ∷ ns) = last_number n ns

abbrev pub line_at : List String → ℕ → String
line_at text zero = ""
line_at text (suc n) = or_else (get_elem? text n) ""

abbrev shown_line : ℕ → List String → ℕ → String
shown_line width text n = glue (pad_start width (numeral n)) (glue "| " (line_at text n))

-- The lines after one that was shown, with a marker where the numbers skip ahead.
abbrev rows_after : ℕ → List String → ℕ → List ℕ → List String
rows_after width text previous [] = []
rows_after width text previous (n ∷ ns) =
    let rest = rows_after width text n ns in
    if eqb n (previous + 1)
    then shown_line width text n ∷ rest
    else "     ..." ∷ (shown_line width text n ∷ rest)

abbrev rows : ℕ → List String → List ℕ → List String
rows width text [] = []
rows width text (n ∷ ns) = shown_line width text n ∷ rows_after width text n ns

abbrev pub join_with : String → List String → String
join_with sep [] = ""
join_with sep (x ∷ []) = x
join_with sep (x ∷ (y ∷ xs)) = glue x (glue sep (join_with sep (y ∷ xs)))

abbrev pub line_end : String
line_end = "\n"

abbrev render_path : String → List ℕ → List String → String
render_path p numbers text =
    join_with line_end (glue "=== " p ∷ rows (units (numeral (last_number 0 numbers))) text numbers)

-- The order of UTF-16 units: the characters from U+E000 on come after those of two units.
abbrev char_rank : Char → ℕ
char_rank c = if leb 57344 (code c) && ltb (code c) 65536 then code c + 2000000 else code c

unfoldable pub text_before : String → String → Bool
text_before String.[] String.[] = false
text_before String.[] (String.◌∷◌ d t) = true
text_before (String.◌∷◌ c s) String.[] = false
text_before (String.◌∷◌ c s) (String.◌∷◌ d t) =
    ltb (char_rank c) (char_rank d) || eqb (char_rank c) (char_rank d) && text_before s t

abbrev rising : ℕ → ℕ → Bool
rising a b = ltb a b

unfoldable pub render_shown : ShownLines → (String → List String) → String
render_shown shown text_of = join_with (glue line_end line_end) (
    map (λ p. render_path p (sort_by rising (or_else (lookup shown p) [])) (text_of p))
      (sort_by text_before (keys shown)))

-- First lines are counted from above the file, where the context of its first lines would start.
pub record ExcerptUnit : Type 0 where
  pub first_line : ℕ
  pub shown : ShownLines
  pub findings : List Finding

pub record Group : Type 0 where
  pub shown : ShownLines
  pub units : List ExcerptUnit

abbrev pub start_group : ExcerptUnit → Group
start_group u = record { shown = copy_shown u.shown; units = u ∷ [] }

abbrev pub by_line : ExcerptUnit → ExcerptUnit → Bool
by_line a b = ltb a.first_line b.first_line

module _ (text_of : String → List String) (cap : ℕ) where
  abbrev pub fits : ShownLines → Bool
  fits shown = leb (estimate_tokens (render_shown shown text_of)) cap

  -- The closed groups and the open one, which is the last.
  unfoldable pub pack_from : List Group → Group → List ExcerptUnit → List Group
  pack_from closed open_group [] = closed ++ open_group ∷ []
  pack_from closed open_group (u ∷ us) =
      let merged = merge_shown (copy_shown open_group.shown) u.shown in
      let joined =
        pack_from closed (record { shown = merged; units = open_group.units ++ u ∷ [] }) us in
      let apart = pack_from (closed ++ open_group ∷ []) (start_group u) us in
      if fits merged then joined else apart

  abbrev pack : List ExcerptUnit → List Group
  pack [] = []
  pack (u ∷ us) = pack_from [] (start_group u) us

  unfoldable pub pack_groups : List ExcerptUnit → List Group
  pack_groups excerpts = pack (sort_by by_line excerpts)

  unfoldable pub pack_units : List ExcerptUnit → List (List ExcerptUnit)
  pack_units excerpts = map (λ g. g.units) (pack_groups excerpts)

-- Without a last line, the first; the bound is `Number.MAX_SAFE_INTEGER`.
unfoldable pub flagged_lines : Finding → List ℕ
flagged_lines f = elim f.line_start [
  | none ↦ []
  | some n ↦
      if is_some f.symbol then n ∷ [] else line_range n (or_else f.line_end n) 9007199254740991
]

abbrev row_tokens : List String → ℕ → ℕ
row_tokens text n = estimate_tokens (glue (numeral n) (glue "| " (glue (line_at text n) "\n")))

-- `out` and `tokens` of the loop.
abbrev prefix_from : List String → ℕ → List ℕ → ℕ → List ℕ → List ℕ
prefix_from text cap out tokens [] = out
prefix_from text cap out tokens (n ∷ ns) =
    let after = tokens + row_tokens text n in
    let rest = prefix_from text cap (out ++ n ∷ []) after ns in
    if ltb cap after && ltb 0 (length out) then out else rest

unfoldable pub prefix_within : List ℕ → List String → ℕ → List ℕ
prefix_within numbers text cap = prefix_from text cap [] 0 numbers
