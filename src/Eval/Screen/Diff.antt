-- ===== src/Eval/Screen/Diff.antt =====
-- parseDiffHunks of packages/cli/src/eval/coding-screen.ts: the changed lines of a unified diff.
pub mod Printed
pub mod Roundtrip
use Prim.Native.Char.{code}
use codewatch.Eval.Hardness.Hunk.{HunkLines}
use codewatch.Base.{
  lookup, true, strip_prefix, or_else, ◌++◌, string_eq, false, is_some, eqb, some, Bool, lines_of,
  Option, none, if◌then◌else◌, ◌∷◌, insert, JsMap, String, [], List,
}

-- `current` is the path of the hunk lines that grow; they are the entry of `out` at that path.
pub record HunkState : Type 0 where
  pub out : JsMap String HunkLines
  pub current : Option String
  pub in_hunk : Bool

abbrev pub no_lines : HunkLines
no_lines = record { added = []; removed = [] }

abbrev pub push_line : HunkLines → String → HunkLines
push_line h String.[] = h
push_line h (String.◌∷◌ c s) =
    if eqb (code c) 43
    then record h { added = h.added ++ s ∷ [] }
    else if eqb (code c) 45
    then record h { removed = h.removed ++ s ∷ [] }
    else h

abbrev pub body_line : HunkState → String → HunkState
body_line st line = elim st.current [
  | none ↦ st
  | some path ↦
      if st.in_hunk
      then record st {
        out = insert st.out path (push_line (or_else (lookup st.out path) no_lines) line);
      }
      else st
]

abbrev pub new_file : HunkState → String → HunkState
new_file st path = record st { out = insert st.out path no_lines; current = some path }

abbrev pub after_file : HunkState → String → Option String → HunkState
after_file st line (some path) = new_file st path
after_file st line none =
    if is_some (strip_prefix "@@" line) then record st { in_hunk = true } else body_line st line

unfoldable pub hunk_line : HunkState → String → HunkState
hunk_line st line =
    if is_some (strip_prefix "diff --git " line)
    then record st { current = none; in_hunk = false }
    else after_file st line (if st.in_hunk then none else strip_prefix "+++ b/" line)

unfoldable pub hunk_lines : HunkState → List String → HunkState
hunk_lines st [] = st
hunk_lines st (l ∷ ls) = hunk_lines (hunk_line st l) ls

abbrev pub start : HunkState
start = record { out = []; current = none; in_hunk = false }

unfoldable pub parse_diff_hunks : String → JsMap String HunkLines
parse_diff_hunks diff = (hunk_lines start (lines_of diff)).out
