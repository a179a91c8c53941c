-- ===== src/Triage/Select.antt =====
-- packages/cli/src/commands/triage-select.ts: the files and findings that a run asks about. Ranks
-- are rounded to one decimal by the audit, so they are counted in tenths here.
pub mod Laws
use codewatch.Base.{
  Bool, true, false, ◌&&◌, ◌||◌, not, Option, none, some, List, [], ◌∷◌, map, keep, length, String,
  ℕ, ◌+◌, ◌-◌, JsMap, lookup, insert, push, sort_by, or_else, is_some, if◌then◌else◌, ◌==◌,
  string_eq, contains, ltb, eqb,
}
use codewatch.Triage.Questions.{Finding, question_for}

pub data Exclusion : Type 0 where
  below_rank : Exclusion
  tests : Exclusion
  unscored : Exclusion

pub record Excluded : Type 0 where
  pub below_rank : ℕ
  pub tests : ℕ
  pub unscored : ℕ

pub record TriageSelectOptions : Type 0 where
  pub min_rank : ℕ
  pub include_tests : Bool

pub record SelectedFile : Type 0 where
  pub path : String
  pub rank : ℕ
  pub findings : List Finding

pub record TriageSelection : Type 0 where
  pub files : List SelectedFile
  pub excluded : Excluded
  pub ineligible : ℕ

abbrev every_row : Finding → Bool
every_row f = elim (question_for f.signal) [ none ↦ false | some q ↦ q.needs.every_row ]

abbrev test_roles : List String
test_roles = "test" ∷ "fixture" ∷ []

abbrev in_tests : Option String → Bool
in_tests none = false
in_tests (some role) = contains test_roles role

abbrev ranked : ℕ → Option String → TriageSelectOptions → Option Exclusion
ranked rank role options =
    if ltb rank options.min_rank
    then some Exclusion.below_rank
    else if not options.include_tests && in_tests role
    then some Exclusion.tests
    else none

abbrev scored : Option ℕ → Option String → TriageSelectOptions → Option Exclusion
scored none role options = some Exclusion.unscored
scored (some rank) role options = ranked rank role options

unfoldable pub exclusion_of :
    Finding → Option ℕ → Option String → TriageSelectOptions → Option Exclusion
exclusion_of f rank role options = if every_row f then none else scored rank role options

abbrev count : Excluded → Exclusion → Excluded
count e Exclusion.below_rank = record e { below_rank = e.below_rank + 1 }
count e Exclusion.tests = record e { tests = e.tests + 1 }
count e Exclusion.unscored = record e { unscored = e.unscored + 1 }

pub record Chosen : Type 0 where
  pub excluded : Excluded
  pub by_path : JsMap String (List Finding)

abbrev none_chosen : Chosen
none_chosen = record { excluded = record { below_rank = 0; tests = 0; unscored = 0 }; by_path = [] }

abbrev choose : Chosen → Finding → Option Exclusion → Chosen
choose s f (some reason) = record s { excluded = count s.excluded reason }
choose s f none = record s { by_path = push s.by_path f.path f }

-- `new Map(scores.files.map((f) => [f.path, f.rank]))`
abbrev pub rank_by_path : JsMap String ℕ → List (String × ℕ) → JsMap String ℕ
rank_by_path m [] = m
rank_by_path m ((p, r) ∷ files) = rank_by_path (insert m p r) files

abbrev pub is_eligible : Finding → Bool
is_eligible f = is_some (question_for f.signal)

module _ (ranks : JsMap String ℕ) (roles : JsMap String String)
    (options : TriageSelectOptions) where
  abbrev reason_of : Finding → Option Exclusion
  reason_of f = exclusion_of f (lookup ranks f.path) (lookup roles f.path) options

  abbrev choose_all : Chosen → List Finding → Chosen
  choose_all s [] = s
  choose_all s (f ∷ fs) = choose_all (choose s f (reason_of f)) fs

  abbrev selected_file : String × List Finding → SelectedFile
  selected_file p = record { path = p.0; rank = or_else (lookup ranks p.0) 0; findings = p.1 }

-- `locale_before a b` is `a.localeCompare(b) < 0`, which the runtime's locale decides.
abbrev pub file_before : (String → String → Bool) → SelectedFile → SelectedFile → Bool
file_before locale_before a b =
    ltb b.rank a.rank || eqb a.rank b.rank && locale_before a.path b.path

unfoldable pub select_triage_files :
    (String → String → Bool)
    → List Finding
    → List (String × ℕ)
    → JsMap String String
    → TriageSelectOptions
    → TriageSelection
select_triage_files locale_before findings scores roles options =
    let ranks = rank_by_path [] scores in
    let eligible = keep is_eligible findings in
    let chosen = choose_all ranks roles options none_chosen eligible in
    record {
      files =
          sort_by (file_before locale_before)
            (map (selected_file ranks roles options) chosen.by_path);
      excluded = chosen.excluded;
      ineligible = length findings - length eligible;
    }
