-- ===== src/Eval/Impact.antt =====
-- packages/cli/src/eval/impact-grade.ts: an impact answer scored at a fixed budget.
use codewatch.Base.{
  string_eq, ◌-◌, length, take, map, [], trim, zero, add_all, strip_prefix, suc, units, List,
  String, ℕ, Option, none, some,
}
use codewatch.Eval.Grader.{SetScore, grade_set}

pub record ImpactScore : Type 0 where
  pub score : SetScore
  pub budget : ℕ
  pub over_budget : ℕ

abbrev drop_slash : String → Option String
drop_slash = strip_prefix "/"

abbrev either : Option String → Option String → Option String
either (some s) o = some s
either none o = o

-- `replace(/^(\.?\/)+/, "")`, on fuel: the text's length is enough.
abbrev strip_lead : ℕ → String → String
strip_lead zero s = s
strip_lead (suc fuel) s = elim (either (strip_prefix "/" s) (strip_prefix "./" s)) [
  | none ↦ s
  | some rest ↦ strip_lead fuel rest
]

abbrev normalize_path : String → String
normalize_path path = strip_lead (units (trim path)) (trim path)

unfoldable pub grade_impact : List String → List String → ℕ → ImpactScore
grade_impact gold answer budget =
    let distinct = add_all [] (map normalize_path answer) in
    let graded = take budget distinct in
    record {
      score = grade_set gold graded;
      budget = budget;
      over_budget = length distinct - length graded;
    }
