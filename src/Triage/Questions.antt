-- ===== src/Triage/Questions.antt =====
-- packages/cli/src/commands/triage-questions.ts: the table of the signals that a reader can judge.
-- The text that `textFor` fills in from a finding's evidence is left out.
use codewatch.Base.{Bool, true, false, Option, [], ◌∷◌, String, ℕ, JsMap, lookup, string_eq}

-- A row of findings.jsonl, as far as the triage reads it.
pub record Finding : Type 0 where
  pub id : String
  pub signal : String
  pub path : String
  pub tool : String
  pub symbol : Option String
  pub line_start : Option ℕ
  pub line_end : Option ℕ

pub data Verdict : Type 0 where
  confirmed : Verdict
  justified : Verdict
  unclear : Verdict

pub record QuestionNeeds : Type 0 where
  pub needs_caller : Bool
  pub needs_ranges : Bool
  pub uses_spec : Bool
  pub every_row : Bool

pub record TriageQuestion : Type 0 where
  pub text : String
  pub meanings : Verdict → String
  pub needs : QuestionNeeds

abbrev unclear' : String
unclear' = "the excerpt does not show enough to decide"

abbrev meanings_of : String → String → Verdict → String
meanings_of if_so if_not Verdict.confirmed = if_so
meanings_of if_so if_not Verdict.justified = if_not
meanings_of if_so if_not Verdict.unclear = unclear'

abbrev question : String → String → String → QuestionNeeds → TriageQuestion
question text if_so if_not needs = record {
  text = text;
  meanings = meanings_of if_so if_not;
  needs = needs;
}

abbrev no_needs : QuestionNeeds
no_needs = record {
  needs_caller = false;
  needs_ranges = false;
  uses_spec = false;
  every_row = false;
}

abbrev commented_code : TriageQuestion
commented_code =
    question "Is this commented-out code dead and safe to delete?"
      "it is dead code left in a comment"
      "it is an example, a documented alternative, or otherwise worth keeping" no_needs

abbrev defensive_check : TriageQuestion
defensive_check =
    question "Is this check redundant given the types the code already guarantees?"
      "the check can never change the outcome"
      "the check guards a case the types do not rule out at runtime" no_needs

abbrev weak_oracle : TriageQuestion
weak_oracle =
    question "Would this test still pass if the behaviour it names were wrong?"
      "its assertions are too weak to catch a wrong result"
      "its assertions pin the behaviour it checks, or it is a deliberate smoke test"
      (record no_needs { every_row = true })

abbrev swallowed : TriageQuestion
swallowed =
    question "Does this except block hide failures a caller should see?"
      "an error is silenced that should surface or be handled"
      "ignoring the error is deliberate and correct here" no_needs

abbrev missing_test_kind : TriageQuestion
missing_test_kind =
    question
      "This symbol's tests lack a test kind its code kind should have. Would a test of that kind catch a plausible change the current tests miss?"
      "a test of that kind would catch a plausible change the current tests miss"
      "its output is deliberately unstable, or another test already pins it"
      (record no_needs { needs_ranges = true; uses_spec = true; every_row = true })

abbrev single_caller_helper : TriageQuestion
single_caller_helper =
    question "Is this helper, called from exactly one place, justified as a separate function?"
      "inlining it into its caller would read at least as clearly"
      "it names a real concept, isolates a test seam, or keeps the caller readable"
      (record no_needs { needs_caller = true })

abbrev questions : JsMap String TriageQuestion
questions =
    ("symbol-single-caller-helper", single_caller_helper)
    ∷ (
      "symbol-cognitive",
      question "Is this function's complexity avoidable?"
          "it could be split or simplified without losing behavior"
          "the complexity is inherent to what the function must do" no_needs,
    )
    ∷ (
      "symbol-narrating-comments",
      question "Do these comments only restate what the next line of code does?"
          "the comments narrate the code and carry no extra information"
          "the comments explain intent, constraints, or context the code does not show" no_needs,
    )
    ∷ (
      "symbol-comment-ratio",
      question "Does this comment carry information the code does not?"
          "the comments repeat the code or pad the function"
          "the comments carry reasoning, references, or constraints worth keeping" no_needs,
    )
    ∷ (
      "symbol-constant-params",
      question "Is this parameter, passed the same value by every caller, unnecessary?"
          "the parameter could become a constant or be removed"
          "the parameter is a deliberate extension point or part of a public contract" no_needs,
    )
    ∷ (
      "symbol-pass-through",
      question "Does this function add nothing beyond forwarding its arguments?"
          "it is a pure pass-through that callers could skip"
          "it adapts a signature, marks an API boundary, or exists for a stated reason" no_needs,
    )
    ∷ ("ERA001", commented_code)
    ∷ ("pyright/reportUnnecessaryCast", defensive_check)
    ∷ ("pyright/reportUnnecessaryIsInstance", defensive_check)
    ∷ ("file-swallowed-except", swallowed)
    ∷ (
      "file-except-density",
      question "Is this file's exception handling heavier than its failure modes need?"
          "some handlers are redundant, overly broad, or defensive without cause"
          "each handler covers a distinct, real failure" no_needs,
    )
    ∷ ("SIM105", swallowed)
    ∷ ("missing-test-kind", missing_test_kind)
    ∷ ("symbol_weak_oracle_only", weak_oracle)
    ∷ ("symbol_assertion_free", weak_oracle)
    ∷ ("symbol_duplicate_assert", weak_oracle)
    ∷ ("symbol_self_compare", weak_oracle)
    ∷ (
      "clone",
      question "Should these duplicated lines and their other copy share one implementation?"
          "the copies do the same job and would have to change together"
          "the copies only look alike and serve purposes that may diverge"
          (record no_needs { needs_ranges = true; every_row = true }),
    )
    ∷ []

unfoldable pub question_for : String → Option TriageQuestion
question_for signal = lookup questions signal
