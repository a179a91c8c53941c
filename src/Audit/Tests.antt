-- ===== src/Audit/Tests.antt =====
-- Small cases of the audit's scores.
use codewatch.Base.{
  keep, Bool, ◌==◌, Memᴰ, group_at, ◌↔◌, true, JsMap, List, String, any, arith, false, glue, map,
  none, refl, some, ℕ, ◌≡◌, ◌∷◌, ◌⊎◌, [], string_eq, pair_eq, nat_eq,
}
use codewatch.Graph.{GraphEdge, WeightAttr}
use codewatch.Audit.GraphWalk.{callers_by_callee, reaching_tests}
use codewatch.Audit.GraphWalk.Calls.{CallPath, reaching_tests_lem}
use codewatch.Triage.Questions.{Finding}
use codewatch.Audit.Score.{SymbolSpan, contains_line, percentile_counts, symbol_key, symbol_of}
use codewatch.Audit.Score.Percentile.{below, percentile_counts_lem}
use codewatch.Audit.Score.Symbols.{IsFirstShortest, symbol_of-IsInnermost}
use codewatch.Audit.Changed.{LineRange, hunk_range, touches}
use codewatch.Audit.Changed.Lines.{holds, touches_lem, hunk_range-IsProper}

abbrev line_finding : Finding
line_finding = record {
  id = "f1";
  signal = "ERA001";
  path = "src/a.py";
  tool = "ruff";
  symbol = none;
  line_start = some 12;
  line_end = none;
}

abbrev span : String → ℕ → ℕ → SymbolSpan
span name start stop = record {
  path = "src/a.py";
  symbol = name;
  line_start = some start;
  line_end = some stop;
}

abbrev nested : List SymbolSpan
nested = span "outer" 1 40 ∷ (span "inner" 10 20 ∷ [])

-- The inner of two symbols that hold the line.
inner_found : symbol_of line_finding nested ≡ some "src/a.py#inner"
unfolding symbol_of glue
inner_found = refl

percentile_counts_lem_example :
    percentile_counts (7 ∷ (3 ∷ (7 ∷ [])))
    ≡ map (λ v. below v (7 ∷ (3 ∷ (7 ∷ [])))) (7 ∷ (3 ∷ (7 ∷ [])))
percentile_counts_lem_example = percentile_counts_lem (7 ∷ (3 ∷ (7 ∷ []))) (omega arith)

symbol_of-IsInnermost_example :
    ((symbol_of line_finding nested ≡ none) × (any (contains_line 12) nested ≡ false))
    ⊎ ((s : SymbolSpan) × (symbol_of line_finding nested ≡ some (symbol_key s.path s.symbol))
        × IsFirstShortest (keep (contains_line 12) nested) s)
symbol_of-IsInnermost_example = symbol_of-IsInnermost line_finding nested 12 refl refl

abbrev one_hunk : JsMap String (List LineRange)
one_hunk = ("src/a.py", hunk_range 5 3 ∷ []) ∷ []

touches_lem_example :
    (touches (some one_hunk) "src/a.py" (record { start = 7; end = 20 }) ≡ true) ↔ (
      (n : ℕ) × (holds n (record { start = 7; end = 20 }) ≡ true)
      × (any (holds n) (group_at one_hunk "src/a.py") ≡ true))
unfolding hunk_range
touches_lem_example =
    touches_lem one_hunk "src/a.py" (record { start = 7; end = 20 }) (omega arith)
      (hunk_range-IsProper 5 3, tt)

abbrev call_edge : String → String → GraphEdge ℕ
call_edge a b = record { src_id = a; dst_id = b; kind = "calls"; weight = WeightAttr.missing }

-- `t` tests `f`, which calls `g`, which calls itself.
abbrev calls : List (GraphEdge ℕ)
calls = call_edge "t" "f" ∷ (call_edge "f" "g" ∷ (call_edge "g" "g" ∷ []))

abbrev is_t : String → Bool
is_t id = id == "t"

reaching_tests_lem_example :
    Memᴰ "t" (reaching_tests 4 "g" (callers_by_callee [] calls) is_t)
    ↔ (CallPath calls "g" "t" × (is_t "t" ≡ true))
reaching_tests_lem_example = reaching_tests_lem calls "g" is_t 4 (omega arith) "t"
