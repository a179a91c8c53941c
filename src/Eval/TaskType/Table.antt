-- ===== src/Eval/TaskType/Table.antt =====
-- packages/cli/src/eval/coding-task-type.ts: the rules' outcome as a table.
use codewatch.Base.{
  true, false, false, true, refl, inr, inl, Bool-cases, ◌∙◌, ap, arith, [], not, ◌∷◌, ◌&&◌, String,
  none, zero, leb, eqb, if◌then◌else◌, is_some, ltb, some, suc, keep, ◌≡◌,
}
use codewatch.Eval.TaskType.{
  Option, ℕ, length, List, Bool, EditFileScreen, barrel_result, agreed, fired, is_T3,
  CodingTaskType, RuleResult, assign_task_type, barrel_rule, sibling_sweep_dirs, deep_logic_rule,
  barrels_of, has_added, is_dark,
}

-- What the changed barrels say: nothing, a registration, mirrored sites, or nothing clear.
pub data Barrels : Type 0 where
  no_barrel : Barrels
  registration : Barrels
  mirrored : Barrels
  unclear : Barrels

abbrev pub counted : Bool → ℕ → ℕ → Barrels
counted new zero dark = Barrels.no_barrel
counted new (suc n) dark =
    if new
    then (if eqb n 0 then Barrels.registration else Barrels.unclear)
    else (if leb 2 dark then Barrels.mirrored else Barrels.unclear)

-- The type by barrels, by whether there is a sweep and by whether there is a deep logic edit
-- outside of it.
abbrev pub table : Barrels → Bool → Bool → Option CodingTaskType
table Barrels.no_barrel true false = some CodingTaskType.T6
table Barrels.no_barrel false true = some CodingTaskType.T5
table Barrels.registration false false = some CodingTaskType.T4
table Barrels.mirrored sweep false = some CodingTaskType.T3
table _ _ _ = none

abbrev pub barrels_in : List EditFileScreen → Barrels
barrels_in files =
    counted (has_added files) (length (barrels_of files))
      (length (keep (λ f. is_dark f.light) (barrels_of files)))

rule_of : Barrels → Option RuleResult
rule_of Barrels.no_barrel = none
rule_of Barrels.registration = some (RuleResult.decided CodingTaskType.T4)
rule_of Barrels.mirrored = some (RuleResult.decided CodingTaskType.T3)
rule_of Barrels.unclear = some RuleResult.undecided

barrel_lem :
    (new : Bool) (bs : List EditFileScreen)
    → barrel_result new bs
      ≡ rule_of (counted new (length bs) (length (keep (λ f. is_dark f.light) bs)))
unfolding rule_of
barrel_lem new [] = refl
barrel_lem true (b ∷ bs) = ground arith
barrel_lem false (b ∷ bs) =
    elim (Bool-cases (leb 2 (length (keep (λ f. is_dark f.light) (b ∷ bs))))) [
      | inl two ↦ rw two refl
      | inr few ↦ rw few refl
    ]

abbrev sweep_result : Bool → Option RuleResult → Option RuleResult
sweep_result sweep barrel =
    if sweep && not (is_T3 barrel) then some (RuleResult.decided CodingTaskType.T6) else none

abbrev deep_result : Bool → Option RuleResult
deep_result deep = if deep then some (RuleResult.decided CodingTaskType.T5) else none

table_lem :
    (k : Barrels) (sweep deep : Bool)
    → agreed (fired (rule_of k ∷ (sweep_result sweep (rule_of k) ∷ (deep_result deep ∷ []))))
      ≡ table k sweep (is_some (deep_result deep))
unfolding rule_of
table_lem Barrels.no_barrel true true = refl
table_lem Barrels.no_barrel true false = refl
table_lem Barrels.no_barrel false true = refl
table_lem Barrels.no_barrel false false = refl
table_lem Barrels.registration true true = refl
table_lem Barrels.registration true false = refl
table_lem Barrels.registration false true = refl
table_lem Barrels.registration false false = refl
table_lem Barrels.mirrored true true = refl
table_lem Barrels.mirrored true false = refl
table_lem Barrels.mirrored false true = refl
table_lem Barrels.mirrored false false = refl
table_lem Barrels.unclear true true = refl
table_lem Barrels.unclear true false = refl
table_lem Barrels.unclear false true = refl
table_lem Barrels.unclear false false = refl

-- The type is T3, T4, T5 or T6 only where exactly the one rule speaks, except that mirrored barrels
-- overrule a sweep, and unset everywhere else. T1 and T2 are never assigned.
pub assign_task_type-table :
    (files : List EditFileScreen)
    → assign_task_type files
      ≡ table
          (barrels_in files)
          (ltb 0 (length (sibling_sweep_dirs files)))
          (is_some (deep_logic_rule files (sibling_sweep_dirs files)))
unfolding assign_task_type barrel_rule deep_logic_rule
assign_task_type-table files =
    ap
      (λ b.
        agreed (
          fired (b ∷ (sweep_result (ltb 0 (length sweep)) b ∷ (deep_logic_rule files sweep ∷ [])))))
      (barrel_lem (has_added files) (barrels_of files))
    ∙ table_lem (barrels_in files) (ltb 0 (length sweep)) _
  where
    sweep : List String
    sweep = sibling_sweep_dirs files
