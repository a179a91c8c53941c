-- ===== src/Audit/Changed.antt =====
-- packages/cli/src/commands/audit-changed.ts: the lines that a diff changes. Running git is
-- not modelled.
pub mod Lines
use Prim.Native.Char.{Char, code}
use codewatch.HunkHeader.{HunkHeader, hunk_header}
use codewatch.Base.{
  insert, ◌==◌, push, lines_of, some, nat_eq, ◌||◌, strip_prefix, is_some, false, contains, none,
  ◌∷◌, string_eq, [], or_else, group_at, any, ◌-◌, List, ◌&&◌, ◌+◌, String, JsMap, eqb, leb, Bool,
  if◌then◌else◌, Option, ℕ,
}

pub record LineRange : Type 0 where
  pub start : ℕ
  pub end : ℕ

-- The new side of a hunk, from `@@ -_ +start,count @@`.
unfoldable pub hunk_range : ℕ → ℕ → LineRange
hunk_range start count =
    if eqb count 0
    then record { start = start; end = start }
    else record { start = start; end = start + count - 1 }

-- A character that `.` does not match.
abbrev is_line_end : Char → Bool
is_line_end c = contains (10 ∷ (13 ∷ (8232 ∷ (8233 ∷ [])))) (code c)

abbrev has_line_end : String → Bool
has_line_end String.[] = false
has_line_end (String.◌∷◌ c s) = is_line_end c || has_line_end s

-- `/^\+\+\+ b\/(.+)$/`
unfoldable pub new_file : String → Option String
new_file line = elim (strip_prefix "+++ b/" line) [
  | none ↦ none
  | some path ↦ if path == "" || has_line_end path then none else some path
]

-- `current` is the path of the list that grows; the list is the entry of `out` at that path.
pub record ChangedState : Type 0 where
  pub out : JsMap String (List LineRange)
  pub current : Option String

abbrev range_of : HunkHeader → LineRange
range_of h = hunk_range h.new_start (or_else h.new_count 1)

abbrev add_hunk : ChangedState → Option String → Option HunkHeader → ChangedState
add_hunk st (some path) (some h) = record st { out = push st.out path (range_of h) }
add_hunk st _ _ = st

abbrev without_file : ChangedState → String → ChangedState
without_file st line =
    if is_some (strip_prefix "+++ " line)
    then record st { current = none }
    else add_hunk st st.current (hunk_header line)

unfoldable pub changed_line : ChangedState → String → ChangedState
changed_line st line = elim (new_file line) [
  | none ↦ without_file st line
  | some path ↦ record { out = insert st.out path (group_at st.out path); current = some path }
]

unfoldable pub changed_lines : ChangedState → List String → ChangedState
changed_lines st [] = st
changed_lines st (l ∷ ls) = changed_lines (changed_line st l) ls

unfoldable pub parse_changed_lines : String → JsMap String (List LineRange)
parse_changed_lines diff = (changed_lines (record { out = []; current = none }) (lines_of diff)).out

abbrev pub meets : LineRange → LineRange → Bool
meets span r = leb r.start span.end && leb span.start r.end

-- A missing table is the empty one.
unfoldable pub touches : Option (JsMap String (List LineRange)) → String → LineRange → Bool
touches changed path span = any (meets span) (group_at (or_else changed []) path)
