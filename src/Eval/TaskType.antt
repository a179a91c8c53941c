-- ===== src/Eval/TaskType.antt =====
-- packages/cli/src/eval/coding-task-type.ts: the type of a mined coding task, by rules that may
-- disagree.
pub mod Table
use codewatch.Eval.Hardness.{EditFileLight}
use codewatch.Eval.Hardness.Hunk.{DarkHunkKind}
use codewatch.Eval.Screen.{EditFileScreen, is_dark, is_export_only}
use codewatch.Base.{
  nat_arith, length, string_eq, tally, before_last_slash, ltb, ◌||◌, all, leb, eqb, segments, ◌&&◌,
  keys, true, contains, add_all, ◌∷◌, [], any, not, if◌then◌else◌, keep, or_else, false, List, Bool,
  ℕ, Option, String, none, some,
}

pub data CodingTaskType : Type 0 where
  T1 : CodingTaskType
  T2 : CodingTaskType
  T3 : CodingTaskType
  T4 : CodingTaskType
  T5 : CodingTaskType
  T6 : CodingTaskType

pub data RuleResult : Type 0 where
  decided : CodingTaskType → RuleResult
  undecided : RuleResult

abbrev pub is_added : EditFileLight → Bool
is_added EditFileLight.added = true
is_added _ = false

abbrev is_logic : Option DarkHunkKind → Bool
is_logic (some DarkHunkKind.logic) = true
is_logic _ = false

-- The names that `index\.[cm]?[jt]sx?` matches as a whole.
abbrev index_names : List String
index_names =
    "index.js" ∷ "index.jsx" ∷ "index.ts" ∷ "index.tsx" ∷ "index.cjs" ∷ "index.cjsx" ∷ "index.cts"
    ∷ "index.ctsx" ∷ "index.mjs" ∷ "index.mjsx" ∷ "index.mts" ∷ "index.mtsx" ∷ []

abbrev last_or : String → List String → String
last_or d [] = d
last_or d (x ∷ xs) = last_or x xs

-- `(^|\/)index...$` looks at the last segment.
unfoldable pub is_index : String → Bool
is_index path = contains index_names (last_or "" (segments path))

abbrev pub is_barrel : EditFileScreen → Bool
is_barrel f = not (is_added f.light) && (is_index f.path || is_export_only f.hunk_kind)

abbrev pub dir_of : String → String
dir_of path = or_else (before_last_slash path) ""

abbrev pub has_added : List EditFileScreen → Bool
has_added = any (λ f. is_added f.light)

abbrev pub barrels_of : List EditFileScreen → List EditFileScreen
barrels_of = keep is_barrel

abbrev barrel_result : Bool → List EditFileScreen → Option RuleResult
barrel_result new [] = none
barrel_result new (b ∷ bs) =
    if new
    then some (
        if eqb (length (b ∷ bs)) 1
        then RuleResult.decided CodingTaskType.T4
        else RuleResult.undecided)
    else some (
        if leb 2 (length (keep (λ f. is_dark f.light) (b ∷ bs)))
        then RuleResult.decided CodingTaskType.T3
        else RuleResult.undecided)

unfoldable pub barrel_rule : List EditFileScreen → Option RuleResult
barrel_rule files = barrel_result (has_added files) (barrels_of files)

abbrev pub sweep_entry : EditFileScreen → Option (String × ℕ)
sweep_entry f = if not (is_dark f.light) || is_barrel f then none else some (dir_of f.path, 1)

-- `MIN_SWEEP_SIBLINGS` is 3.
unfoldable pub sibling_sweep_dirs : List EditFileScreen → List String
sibling_sweep_dirs files = add_all [] (keys (keep (λ e. leb 3 e.1) (tally sweep_entry [] files)))

abbrev is_far : Option ℕ → Bool
is_far none = false
is_far (some hop) = leb 2 hop

unfoldable pub deep_logic_rule : List EditFileScreen → List String → Option RuleResult
deep_logic_rule files sweep_dirs =
    if any (λ f. is_logic f.hunk_kind && is_far f.hop && not (contains sweep_dirs (dir_of f.path)))
      files
    then some (RuleResult.decided CodingTaskType.T5)
    else none

abbrev pub is_T3 : Option RuleResult → Bool
is_T3 (some (RuleResult.decided CodingTaskType.T3)) = true
is_T3 _ = false

abbrev sweep_rule : List String → Option RuleResult → Option RuleResult
sweep_rule sweep_dirs barrel =
    if ltb 0 (length sweep_dirs) && not (is_T3 barrel)
    then some (RuleResult.decided CodingTaskType.T6)
    else none

abbrev fired : List (Option RuleResult) → List RuleResult
fired [] = []
fired (none ∷ rs) = fired rs
fired (some r ∷ rs) = r ∷ fired rs

abbrev type_index : CodingTaskType → ℕ
type_index CodingTaskType.T1 = 1
type_index CodingTaskType.T2 = 2
type_index CodingTaskType.T3 = 3
type_index CodingTaskType.T4 = 4
type_index CodingTaskType.T5 = 5
type_index CodingTaskType.T6 = 6

abbrev is_result : CodingTaskType → RuleResult → Bool
is_result t RuleResult.undecided = false
is_result t (RuleResult.decided u) = eqb (type_index t) (type_index u)

abbrev agreed : List RuleResult → Option CodingTaskType
agreed [] = none
agreed (RuleResult.undecided ∷ rs) = none
agreed (RuleResult.decided t ∷ rs) = if all (is_result t) rs then some t else none

unfoldable pub assign_task_type : List EditFileScreen → Option CodingTaskType
assign_task_type files =
    let sweep_dirs = sibling_sweep_dirs files in
    let barrel = barrel_rule files in
    agreed (fired (barrel ∷ sweep_rule sweep_dirs barrel ∷ deep_logic_rule files sweep_dirs ∷ []))
