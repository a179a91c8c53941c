-- ===== src/Audit/Score.antt =====
-- packages/cli/src/commands/audit-score.ts: files ranked by percentile, findings counted per symbol.
-- Ranks are in tenths of a percent; the qualitative signals of audit-rules.ts are a parameter.
pub mod Percentile
pub mod Symbols
use codewatch.Base.{
  false, zero, nat_arith, ◌&&◌, ◌||◌, ◌/◌, ◌*◌, map, get_elem?, ◌+◌, eqb, group_by, ltb, contains,
  leb, ◌-◌, [], sort_by, string_eq, ◌∷◌, group_at, suc, or_else, keep, if◌then◌else◌, glue, tally,
  Bool, length, List, Option, String, JsMap, ℕ, none, some,
}
use codewatch.Triage.Questions.{Finding}

pub record FileStats : Type 0 where
  pub path : String
  pub loc : ℕ
  pub cognitive_max : ℕ

pub record SymbolSpan : Type 0 where
  pub path : String
  pub symbol : String
  pub line_start : Option ℕ
  pub line_end : Option ℕ

pub record SymbolStats : Type 0 where
  pub span : SymbolSpan
  pub cognitive : ℕ
  pub cyclomatic : ℕ

pub record FileScore : Type 0 where
  pub stats : FileStats
  pub rank : ℕ
  pub findings : JsMap String ℕ
  pub total : ℕ

pub record SymbolScore : Type 0 where
  pub stats : SymbolStats
  pub findings : JsMap String ℕ
  pub total : ℕ

abbrev pub nth : List ℕ → ℕ → ℕ
nth xs i = or_else (get_elem? xs i) 0

-- The `while` loop, on fuel: `length sorted` is enough, since every round halves the gap.
unfoldable pub search_below : ℕ → List ℕ → ℕ → ℕ → ℕ → ℕ
search_below zero sorted v lo hi = lo
search_below (suc fuel) sorted v lo hi =
    let mid = (lo + hi) / 2 in
    let right = search_below fuel sorted v (mid + 1) hi in
    let left = search_below fuel sorted v lo mid in
    if ltb lo hi then (if ltb (nth sorted mid) v then right else left) else lo

abbrev pub count_below : List ℕ → ℕ → ℕ
count_below sorted v = search_below (length sorted) sorted v 0 (length sorted)

abbrev pub rising : ℕ → ℕ → Bool
rising a b = ltb a b

-- The numerators of the percentiles, over `length values - 1`.
unfoldable pub percentile_counts : List ℕ → List ℕ
percentile_counts values =
    if leb (length values) 1
    then map (λ v. 0) values
    else map (count_below (sort_by rising values)) values

abbrev pub count_signals : List Finding → JsMap String ℕ
count_signals = tally (λ f. some (f.signal, 1)) []

abbrev sum_counts : List String → JsMap String ℕ → ℕ
sum_counts qualitative [] = 0
sum_counts qualitative ((signal, n) ∷ counts) =
    if contains qualitative signal
    then sum_counts qualitative counts
    else n + sum_counts qualitative counts

-- `Math.round(((a + b) / 2) * 10)` for the percentiles `a * 100 / n` and `b * 100 / n`.
abbrev rank_of : ℕ → ℕ → ℕ → ℕ
rank_of a b n = if eqb n 0 then 0 else (1000 * (a + b) + n) / (2 * n)

abbrev score_file : List String → JsMap String (List Finding) → FileStats → ℕ → FileScore
score_file qualitative by_path file rank =
    let counts = count_signals (group_at by_path file.path) in
    record { stats = file; rank = rank; findings = counts; total = sum_counts qualitative counts }

abbrev score_each :
    List String
    → JsMap String (List Finding)
    → ℕ
    → List FileStats
    → List ℕ
    → List ℕ
    → List FileScore
score_each qualitative by_path n (file ∷ files) (a ∷ locs) (b ∷ cogs) =
    score_file qualitative by_path file (rank_of a b n)
    ∷ score_each qualitative by_path n files locs cogs
score_each qualitative by_path n _ _ _ = []

abbrev file_before : (String → String → Bool) → FileScore → FileScore → Bool
file_before locale_before a b =
    ltb b.rank a.rank || eqb a.rank b.rank && locale_before a.stats.path b.stats.path

unfoldable pub score_files :
    (String → String → Bool) → List String → List FileStats → List Finding → List FileScore
score_files locale_before qualitative files findings = sort_by (file_before locale_before) (
    score_each qualitative (group_by (λ f. some f.path) [] findings) (length files - 1) files
      (percentile_counts (map (λ f. f.loc) files))
      (percentile_counts (map (λ f. f.cognitive_max) files)))

abbrev pub symbol_key : String → String → String
symbol_key path symbol = glue path (glue "#" symbol)

abbrev holds : ℕ → Option ℕ → Option ℕ → Bool
holds line (some start) (some stop) = leb start line && leb line stop
holds line _ _ = false

abbrev pub contains_line : ℕ → SymbolSpan → Bool
contains_line line s = holds line s.line_start s.line_end

abbrev pub span_of : SymbolSpan → ℕ
span_of s = or_else s.line_end 0 - or_else s.line_start 0

-- `reduce((a, b) => (spanOf(b) < spanOf(a) ? b : a))`
abbrev pub innermost : SymbolSpan → List SymbolSpan → SymbolSpan
innermost a [] = a
innermost a (b ∷ bs) = innermost (if ltb (span_of b) (span_of a) then b else a) bs

abbrev pub innermost_of : List SymbolSpan → Option SymbolSpan
innermost_of [] = none
innermost_of (s ∷ ss) = some (innermost s ss)

abbrev key_of_span : Option SymbolSpan → Option String
key_of_span none = none
key_of_span (some s) = some (symbol_key s.path s.symbol)

abbrev at_line : List SymbolSpan → Option ℕ → Option String
at_line spans none = none
at_line spans (some line) = key_of_span (innermost_of (keep (contains_line line) spans))

abbrev named_or : String → Option String → Option String → Option String
named_or path (some symbol) found = some (symbol_key path symbol)
named_or path none found = found

unfoldable pub symbol_of : Finding → List SymbolSpan → Option String
symbol_of f spans = named_or f.path f.symbol (at_line spans f.line_start)

abbrev score_symbol : List String → JsMap String (List Finding) → SymbolStats → SymbolScore
score_symbol qualitative by_symbol s =
    let counts = count_signals (group_at by_symbol (symbol_key s.span.path s.span.symbol)) in
    record { stats = s; findings = counts; total = sum_counts qualitative counts }

abbrev symbol_before : (String → String → Bool) → SymbolScore → SymbolScore → Bool
symbol_before locale_before a b =
    ltb b.total a.total
    || eqb a.total b.total
      && (ltb b.stats.cognitive a.stats.cognitive
          || eqb a.stats.cognitive b.stats.cognitive
            && locale_before (symbol_key a.stats.span.path a.stats.span.symbol)
                (symbol_key b.stats.span.path b.stats.span.symbol))

unfoldable pub score_symbols :
    (String → String → Bool) → List String → List SymbolStats → List Finding → List SymbolScore
score_symbols locale_before qualitative symbols findings =
    let by_path = group_by (λ s. some s.span.path) [] symbols in
    let by_symbol =
      group_by (λ f. symbol_of f (map (λ s. s.span) (group_at by_path f.path))) [] findings in
    sort_by (symbol_before locale_before) (map (score_symbol qualitative by_symbol) symbols)
