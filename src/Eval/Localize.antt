-- ===== src/Eval/Localize.antt =====
-- packages/cli/src/eval/coding-localize.ts: where an agent edited against where the gold patch did.
-- The spans of a file's symbols are a parameter. A name in a header has no line end, and git writes
-- the count 0 as one digit.
use Prim.Native.Char.{code}
use codewatch.Triage.Questions.{Finding}
use codewatch.Audit.Score.{SymbolSpan, symbol_key, symbol_of}
use codewatch.HunkHeader.{HunkHeader, hunk_header}
use codewatch.Eval.Grader.{SetScore, grade_set}
use codewatch.Base.{
  ◌-◌, nat_eq, add, is_empty, numeral, string_eq, ◌&&◌, ◌+◌, lines_of, ltb, glue, flat_map, not,
  opt_beq, eqb, is_slash, ◌==◌, is_some, strip_prefix, false, map, push_front, keep, or_else, trim,
  ◌∷◌, sort_by, if◌then◌else◌, Bool, [], Option, ℕ, true, ◌++◌, String, none, some, List,
}

pub record DiffLocation : Type 0 where
  pub file : String
  pub parent_lines : List ℕ

pub record LocalizationScore : Type 0 where
  pub file : SetScore
  pub symbol : SetScore
  pub line : SetScore

pub record ParseState : Type 0 where
  pub locations : List DiffLocation
  pub current : Option (String × List ℕ)
  pub old_line : ℕ
  pub in_hunk : Bool

abbrev location : String × List ℕ → DiffLocation
location (file, lines) = record { file = file; parent_lines = sort_by ltb lines }

unfoldable pub flush : ParseState → ParseState
flush st = elim st.current [
  | none ↦ st
  | some c ↦ record st { locations = st.locations ++ location c ∷ []; current = none }
]

unfoldable pub start_file : ParseState → String → ParseState
start_file st file = record (flush st) { current = some (file, []); in_hunk = false }

-- A side without lines names the line after which the insertion lands.
abbrev first_old_line : HunkHeader → ℕ
first_old_line h = if opt_beq h.old_count (some 0) then h.old_start + 1 else h.old_start

unfoldable pub start_hunk : ParseState → HunkHeader → ParseState
start_hunk st h = record st { in_hunk = true; old_line = first_old_line h }

-- `/^[ab]\//`
unfoldable pub strip_side : String → String
strip_side p = or_else (strip_prefix "a/" p) (or_else (strip_prefix "b/" p) p)

abbrev renamed : Option (String × List ℕ) → String → Option (String × List ℕ)
renamed none name = none
renamed (some (file, lines)) name = some (name, lines)

unfoldable pub rename_file : ParseState → String → ParseState
rename_file st name = record st { current = renamed st.current name }

unfoldable pub old_side_file : ParseState → String → ParseState
old_side_file st rest =
    let p = trim rest in
    if p == "/dev/null" then st else record st { current = renamed st.current (strip_side p) }

abbrev if_unnamed : Option (String × List ℕ) → String → Option (String × List ℕ)
if_unnamed none name = none
if_unnamed (some (file, lines)) name = if file == "" then some (name, lines) else some (file, lines)

unfoldable pub new_side_file : ParseState → String → ParseState
new_side_file st rest =
    let p = trim rest in
    if p == "/dev/null" then st else record st { current = if_unnamed st.current (strip_side p) }

-- What stands before the last ` b/`.
unfoldable pub before_last_b : String → Option String
before_last_b String.[] = none
before_last_b (String.◌∷◌ c s) = elim (before_last_b s) [
  | some t ↦ some (push_front c t)
  | none ↦ if is_some (strip_prefix " b/" (push_front c s)) then some "" else none
]

-- `(.+) b/` takes at least one character.
abbrev old_name : String → Option String
old_name String.[] = none
old_name (String.◌∷◌ c s) = elim (before_last_b s) [ none ↦ none | some t ↦ some (push_front c t) ]

abbrev or_later : Option String → Option String → Option String
or_later (some x) o = some x
or_later none o = o

-- `/ a\/(.+) b\//`
unfoldable pub header_name : String → Option String
header_name String.[] = none
header_name (String.◌∷◌ c s) =
    let later = header_name s in
    elim (strip_prefix " a/" (push_front c s)) [
      | none ↦ later
      | some rest ↦ or_later (old_name rest) later
    ]

unfoldable pub diff_header : ParseState → String → ParseState
diff_header st line = start_file st (or_else (header_name line) "")

abbrev first_code : String → ℕ
first_code String.[] = 0
first_code (String.◌∷◌ c s) = code c

-- `old_line - 1` at an insertion: a hunk's first old line is at least 1.
abbrev body_of : ParseState → ℕ → String × List ℕ → ParseState
body_of st sign (file, lines) =
    if eqb sign 32
    then record st { old_line = st.old_line + 1 }
    else if eqb sign 45
    then record st { current = some (file, add lines st.old_line); old_line = st.old_line + 1 }
    else if eqb sign 43
    then record st { current = some (file, add lines (st.old_line - 1)) }
    else st

unfoldable pub hunk_body : ParseState → String → ParseState
hunk_body st line = elim st.current [ none ↦ st | some c ↦ body_of st (first_code line) c ]

abbrev hunk_or_body : ParseState → String → Option HunkHeader → ParseState
hunk_or_body st line none = hunk_body st line
hunk_or_body st line (some h) = start_hunk st h

abbrev handled : ParseState → String → Option String → Option String → Option String → ParseState
handled st line (some name) old new = rename_file st name
handled st line none (some rest) new = old_side_file st rest
handled st line none none (some rest) = new_side_file st rest
handled st line none none none = hunk_or_body st line (hunk_header line)

abbrev outside_hunk : ParseState → String → String → Option String
outside_hunk st prefix line = if st.in_hunk then none else strip_prefix prefix line

unfoldable pub parse_line : ParseState → String → ParseState
parse_line st line =
    if is_some (strip_prefix "diff --git " line)
    then diff_header st line
    else handled st line (outside_hunk st "rename from " line) (outside_hunk st "--- " line)
        (outside_hunk st "+++ " line)

unfoldable pub parse_lines : ParseState → List String → ParseState
parse_lines st [] = st
parse_lines st (l ∷ ls) = parse_lines (parse_line st l) ls

abbrev start : ParseState
start = record { locations = []; current = none; old_line = 0; in_hunk = false }

unfoldable pub parse_diff_locations : String → List DiffLocation
parse_diff_locations diff =
    keep (λ l. not (l.file == "")) (flush (parse_lines start (lines_of diff))).locations

abbrev line_probe : String → ℕ → Finding
line_probe path line = record {
  id = "";
  signal = "edit";
  path = path;
  tool = "localize";
  symbol = none;
  line_start = some line;
  line_end = none;
}

module _ (spans_for : String → List SymbolSpan) where
  abbrev symbols_at : String → List ℕ → List String
  symbols_at file [] = []
  symbols_at file (n ∷ ns) =
      or_else (symbol_of (line_probe file n) (spans_for file)) (symbol_key file "<module>")
      ∷ symbols_at file ns

  abbrev keys_at : String → List ℕ → List String
  keys_at file [] = symbol_key file "<module>" ∷ []
  keys_at file (n ∷ ns) = symbols_at file (n ∷ ns)

  unfoldable pub symbol_keys : DiffLocation → List String
  symbol_keys loc = keys_at loc.file loc.parent_lines

  abbrev line_keys : DiffLocation → List String
  line_keys loc = map (λ n. glue loc.file (glue ":" (numeral n))) loc.parent_lines

  unfoldable pub score_localization : String → String → LocalizationScore
  score_localization gold_diff agent_diff =
      let gold = parse_diff_locations gold_diff in
      let agent = parse_diff_locations agent_diff in
      record {
        file = grade_set (map (λ l. l.file) gold) (map (λ l. l.file) agent);
        symbol = grade_set (flat_map symbol_keys gold) (flat_map symbol_keys agent);
        line = grade_set (flat_map line_keys gold) (flat_map line_keys agent);
      }

abbrev drop_slashes : String → String
drop_slashes String.[] = ""
drop_slashes (String.◌∷◌ c s) =
    let rest = drop_slashes s in if is_slash c && is_empty rest then "" else push_front c rest

abbrev relative_to : String → String → String
relative_to root file =
    if root == "" then file else or_else (strip_prefix (glue (drop_slashes root) "/") file) file

unfoldable pub score_read_localization : String → List String → String → SetScore
score_read_localization gold_diff read_files root =
    grade_set (map (λ l. l.file) (parse_diff_locations gold_diff))
      (map (relative_to root) read_files)
