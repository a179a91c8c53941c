-- ===== src/Eval/Tests.antt =====
-- Small cases of the evaluation suites.
use codewatch.Base.{
  ◌-ℤ◌, ◌+ℤ◌, strip_prefix, trim_end, trim_start, includes, lines_of, sym, ◌∙◌, keep, values, ◌==◌,
  pos, if◌then◌else◌, lines_of, All, Bool, List, Option, String, add_all, contains, false, glue,
  is_some, length, ltb, none, refl, segments, some, take, tally, true, ℕ, ◌≡◌, ◌++◌, ◌∷◌, ◌⊎◌, ◌<◌,
  ◌≤◌, ◌+◌, [], string_eq, pair_eq, nat_eq,
}
use codewatch.Eval.Json.{Json, Fields}
use codewatch.Eval.Ledger.{combine, uncombine, empty_counts, parse_events, collect_calls}
use codewatch.Eval.Ledger.Totals.{
  parse_arm_stream, collected, ledger_of, main_calls, side_calls, is_arm_model, sum_counts, usages,
  model_usage_entries, result_of,
}
use codewatch.Eval.Ledger.Gap.{parse_arm_stream_gap}
use codewatch.Eval.Hardness.{EditFileLight}
use codewatch.Eval.Hardness.Hunk.{DarkHunkKind}
use codewatch.Eval.Screen.{EditFileScreen}
use codewatch.Eval.TaskType.{
  CodingTaskType, assign_task_type, barrel_rule, deep_logic_rule, is_index, sibling_sweep_dirs,
}
use codewatch.Eval.TaskType.Table.{assign_task_type-table, barrels_in, table}
use codewatch.Eval.Gate.{PackageManager, Candidate, GateOptions, GateSettings, gate, gate_all}
use codewatch.Eval.Gate.Ready.{AdmitsReady, Installs, Keeps, gate-AdmitsReady}
use codewatch.Eval.Stratify.{
  Stratum, dominant_stratum, extensions, hardness, index_bases, resolve_relative_specifier,
  starts_with_dot, stem_of,
}
use codewatch.Eval.Stratify.Dominant.{dominant_stratum_modal, occurrences}
use codewatch.Eval.Stratify.Resolve.{IsFirstKnown, resolve_relative_specifier_lem}
use codewatch.Eval.Grader.{top_k}
use codewatch.Eval.Grader.TopK.{at_least_one, top_k_lem}

abbrev edit : String → EditFileLight → Option DarkHunkKind → Option ℕ → EditFileScreen
edit path light kind hop = record {
  path = path;
  light = light;
  hunk_kind = kind;
  hop = hop;
  second_order_dark = none;
}

abbrev new_command : List EditFileScreen
new_command =
    edit "src/index.ts" EditFileLight.test_imported none none
    ∷ (edit "src/new.ts" EditFileLight.added none none ∷ [])

-- A file added to one barrel is a registration.
new_command_T4 : assign_task_type new_command ≡ some CodingTaskType.T4
unfolding assign_task_type barrel_rule sibling_sweep_dirs deep_logic_rule tally is_index segments
new_command_T4 = refl

-- A cut at zero keeps an item.
cut_at_zero : top_k ("a" ∷ ("b" ∷ [])) 0 ≡ "a" ∷ []
unfolding top_k
cut_at_zero = refl

abbrev two_known : List String
two_known = "src/a.ts" ∷ ("src/b/index.ts" ∷ [])

-- The lockfiles of two commits differ.
abbrev hash_at : String → String
hash_at commit = if commit == "p1" then "h1" else "h2"

abbrev candidate : String → Candidate
candidate commit = record {
  parent_commit = commit;
  fix_commit = "f";
  test_files = [];
  test_patch_diff = "";
  lockfiles = "package-lock.json" ∷ [];
  lockfile_hash = hash_at commit;
}

-- A world is the commit that is checked out and the hash whose dependencies are installed.
abbrev Checkout : Type 0
Checkout = String × String

abbrev checked_out : List String → Checkout → Checkout
checked_out (verb ∷ (flag ∷ (commit ∷ []))) w = (commit, w.1)
checked_out _ w = w

-- An install replaces the dependencies by those of the commit.
abbrev run_in : List String → Checkout → Checkout × Bool
run_in [] w = (w, false)
run_in (tool ∷ argv) w =
    if tool == "git" then (checked_out argv w, true) else ((w.0, hash_at w.0), true)

abbrev admit_in : GateOptions → Checkout → Checkout × String
admit_in options w = ((options.parent_commit, w.1), options.fix_commit)

abbrev HasInstalled : String → Checkout → Type 0
HasInstalled hash w = w.1 ≡ hash

run_in-Installs : Installs run_in admit_in HasInstalled hash_at
run_in-Installs commit PackageManager.pnpm w t u i = refl
run_in-Installs commit PackageManager.npm w t u i = refl

admit_in-Keeps : Keeps run_in admit_in HasInstalled hash_at
admit_in-Keeps hash options w h = h

abbrev three_runs : GateSettings
three_runs = record { runs = 3; test_command = none }

gate-AdmitsReady_example :
    AdmitsReady run_in admit_in HasInstalled hash_at three_runs (candidate "p2") (
      gate run_in admit_in three_runs
        (gate_all run_in admit_in three_runs
          (record { world = ("main", ""); installed_hash = none })
          (candidate "p1" ∷ []))
        (candidate "p2"))
gate-AdmitsReady_example =
    gate-AdmitsReady run_in admit_in HasInstalled hash_at run_in-Installs admit_in-Keeps three_runs
      ("main", "") (candidate "p1" ∷ []) (candidate "p2") (refl, tt) refl

assign_task_type-table_example :
    assign_task_type new_command
    ≡ table
        (barrels_in new_command)
        (ltb 0 (length (sibling_sweep_dirs new_command)))
        (is_some (deep_logic_rule new_command (sibling_sweep_dirs new_command)))
assign_task_type-table_example = assign_task_type-table new_command

dominant_stratum_modal_example :
    let best = dominant_stratum (Stratum.semantic_findable ∷ (Stratum.structurally_hidden ∷ [])) in
    (occurrences Stratum.import_chain_reachable
        (Stratum.semantic_findable ∷ (Stratum.structurally_hidden ∷ []))
      < occurrences best (Stratum.semantic_findable ∷ (Stratum.structurally_hidden ∷ [])))
    ⊎ ((occurrences Stratum.import_chain_reachable
            (Stratum.semantic_findable ∷ (Stratum.structurally_hidden ∷ []))
          ≡ occurrences best (Stratum.semantic_findable ∷ (Stratum.structurally_hidden ∷ [])))
        × (hardness Stratum.import_chain_reachable ≤ hardness best))
dominant_stratum_modal_example =
    dominant_stratum_modal Stratum.semantic_findable (Stratum.structurally_hidden ∷ [])
      Stratum.import_chain_reachable

resolve_relative_specifier_lem_example :
    ((found : String) × (resolve_relative_specifier "src/x.ts" "./b" two_known ≡ some found)
      × (starts_with_dot "./b" ≡ true)
      × IsFirstKnown two_known (stem_of "src/x.ts" "./b") (extensions ++ index_bases) found)
    ⊎ ((resolve_relative_specifier "src/x.ts" "./b" two_known ≡ none)
        × ((starts_with_dot "./b" ≡ false)
            ⊎ All
                (λ e. contains two_known (glue (stem_of "src/x.ts" "./b") e) ≡ false)
                (extensions ++ index_bases)))
resolve_relative_specifier_lem_example = resolve_relative_specifier_lem "src/x.ts" "./b" two_known

top_k_lem_example :
    top_k ("a" ∷ ("a" ∷ ("b" ∷ []))) 2
    ≡ take (at_least_one 2) (add_all [] ("a" ∷ ("a" ∷ ("b" ∷ []))))
top_k_lem_example = top_k_lem ("a" ∷ ("a" ∷ ("b" ∷ []))) 2

abbrev call_event : Json
call_event = Json.obj (
    Fields.field "type" (Json.str "assistant") (
      Fields.field "message"
        (Json.obj (
          Fields.field "id" (Json.str "m1") (
            Fields.field "model" (Json.str "opus") (
              Fields.field "usage"
                (Json.obj (Fields.field "input_tokens" (Json.num (pos 70)) Fields.end))
                Fields.end))))
        Fields.end))

abbrev result_event : Json
result_event = Json.obj (
    Fields.field "type" (Json.str "result") (
      Fields.field "modelUsage"
        (Json.obj (
          Fields.field "opus"
            (Json.obj (Fields.field "inputTokens" (Json.num (pos 100)) Fields.end))
            (Fields.field "haiku"
              (Json.obj (Fields.field "inputTokens" (Json.num (pos 9)) Fields.end)) Fields.end)))
        Fields.end))

-- A parser that knows two lines.
abbrev parse_two : String → Option Json
parse_two line =
    if line == "{call}"
    then some call_event
    else if line == "{result}"
    then some result_event
    else none

abbrev stream : String
stream = "{call}\n{result}\n"

abbrev show_none : Json → String
show_none v = ""

abbrev model_name : String
model_name = "opus"

-- The result reports a hundred tokens of the agent's model, the calls seventy.
gap_of_thirty :
    (parse_arm_stream parse_two show_none stream model_name).ledger_gap.input_tokens ≡ pos 30
unfolding parse_arm_stream parse_events collect_calls combine uncombine ◌-ℤ◌ lines_of strip_prefix
    trim_end trim_start ◌+ℤ◌ includes
gap_of_thirty = refl

abbrev tokens_of : String → ℕ → String × Json
tokens_of model n = (model, Json.obj (Fields.field "inputTokens" (Json.num (pos n)) Fields.end))

models_reported :
    model_usage_entries (result_of parse_two show_none stream)
    ≡ tokens_of "opus" 100 ∷ (tokens_of "haiku" 9 ∷ [])
unfolding parse_events lines_of strip_prefix trim_end trim_start
models_reported = refl

no_entry {ℓ} : {A : Type ℓ} {x : A} {xs : List A} → ¬ (x ∷ xs ≡ [])
no_entry h = cc

parse_arm_stream_gap_example :
    ((parse_arm_stream parse_two show_none stream model_name).main.calls
        + (parse_arm_stream parse_two show_none stream model_name).helper.calls
      ≡ length (values (collected parse_two show_none stream).calls))
    × (combine (parse_arm_stream parse_two show_none stream model_name).ledger_gap (
          combine
            (ledger_of (main_calls parse_two show_none stream)).counts
            (ledger_of (
              keep
                (λ c. is_arm_model parse_two show_none stream model_name c.model)
                (side_calls parse_two show_none stream))).counts)
        ≡ sum_counts empty_counts (
            usages (
              keep
                (λ e. is_arm_model parse_two show_none stream model_name e.0)
                (model_usage_entries (result_of parse_two show_none stream)))))
parse_arm_stream_gap_example =
    parse_arm_stream_gap parse_two show_none stream model_name
      (λ h. no_entry (sym models_reported ∙ h))
