-- ===== src/Triage/Score.antt =====
-- packages/cli/src/commands/triage-score.ts: the planted controls' answers decide whether the
-- run's verdicts are provisional. The accuracy that the evidence package computes is a parameter.
pub mod Laws
use codewatch.Base.{
  Bool, true, false, ◌&&◌, ◌||◌, not, Option, none, some, List, [], ◌∷◌, ◌++◌, map, keep, length,
  String, ℕ, JsMap, lookup, if◌then◌else◌, ◌==◌, string_eq, ltb, eqb, any, all, or_else, is_some,
  flat_map,
}
use codewatch.Triage.Questions.{Verdict}
use codewatch.Triage.Verify.{VerifiedRow}

pub data ControlLabel : Type 0 where
  clean : ControlLabel
  slop : ControlLabel

-- `confirmed` or `justified`
pub data ExpectedVerdict : Type 0 where
  confirmed : ExpectedVerdict
  justified : ExpectedVerdict

pub data ControlStatus : Type 0 where
  run : ControlStatus
  not_run : ControlStatus
  not_planted : ControlStatus

pub data ControlRun : Type 0 where
  ok : ControlRun
  provisional : ControlRun

-- What of a planted control the score reads; `findings` counts them.
pub record Control : Type 0 where
  pub id : String
  pub label : ControlLabel
  pub findings : ℕ

pub record ScoredItem : Type 0 where
  pub id : String
  pub control : Option Control

pub record ControlOutcome : Type 0 where
  pub id : String
  pub label : ControlLabel
  pub expected : ExpectedVerdict
  pub reached : Bool
  pub answered : Option Verdict

pub record ControlReport (S : Type 0) : Type 0 where
  pub status : ControlStatus
  pub controls : List ControlOutcome
  pub score : S
  pub failed : List String
  pub control_run : ControlRun

abbrev pub expected_verdict : ControlLabel → ExpectedVerdict
expected_verdict ControlLabel.slop = ExpectedVerdict.confirmed
expected_verdict ControlLabel.clean = ExpectedVerdict.justified

abbrev pub verdict_of : ExpectedVerdict → Verdict
verdict_of ExpectedVerdict.confirmed = Verdict.confirmed
verdict_of ExpectedVerdict.justified = Verdict.justified

abbrev pub opposite : ExpectedVerdict → Verdict
opposite ExpectedVerdict.confirmed = Verdict.justified
opposite ExpectedVerdict.justified = Verdict.confirmed

abbrev pub same_verdict : Verdict → Verdict → Bool
same_verdict Verdict.confirmed Verdict.confirmed = true
same_verdict Verdict.justified Verdict.justified = true
same_verdict Verdict.unclear Verdict.unclear = true
same_verdict _ _ = false

abbrev pub verdicts : List VerifiedRow → List Verdict
verdicts rows = map (λ r. r.row.verdict) rows

abbrev answer : Control → List Verdict → Option Verdict
answer control [] = none
answer control (v ∷ vs) =
    let expected = expected_verdict control.label in
    if any (same_verdict (opposite expected)) (v ∷ vs)
    then some (opposite expected)
    else if eqb (length (v ∷ vs)) control.findings
        && all (same_verdict (verdict_of expected)) (v ∷ vs)
    then some (verdict_of expected)
    else some Verdict.unclear

unfoldable pub answer_of : Control → List VerifiedRow → Option Verdict
answer_of control rows = answer control (verdicts rows)

abbrev pub status_of : List ControlOutcome → ControlStatus
status_of [] = ControlStatus.not_planted
status_of (o ∷ os) =
    if any (λ x. x.reached) (o ∷ os) then ControlStatus.run else ControlStatus.not_run

abbrev outcome_of : JsMap String (List VerifiedRow) → String → Control → ControlOutcome
outcome_of kept item control = record {
  id = control.id;
  label = control.label;
  expected = expected_verdict control.label;
  reached = is_some (lookup kept item);
  answered = answer_of control (or_else (lookup kept item) []);
}

abbrev item_outcomes : JsMap String (List VerifiedRow) → ScoredItem → List ControlOutcome
item_outcomes kept item = elim item.control [
  | none ↦ []
  | some control ↦ outcome_of kept item.id control ∷ []
]

abbrev pub is_answer : Verdict → Option Verdict → Bool
is_answer v none = false
is_answer v (some w) = same_verdict v w

abbrev pub has_failed : ControlOutcome → Bool
has_failed o = is_answer (opposite o.expected) o.answered

abbrev labeled : ControlOutcome → List (String × Verdict)
labeled o = elim o.answered [ none ↦ [] | some v ↦ (o.id, v) ∷ [] ]

abbrev run_of : List String → ControlRun
run_of [] = ControlRun.ok
run_of (id ∷ ids) = ControlRun.provisional

unfoldable pub score_control_items :
    {S : Type 0}
    → (List (String × ExpectedVerdict) → List (String × Verdict) → S)
    → List ScoredItem
    → JsMap String (List VerifiedRow)
    → ControlReport S
score_control_items score_controls items kept =
    let outcomes = flat_map (item_outcomes kept) items in
    let failed = map (λ o. o.id) (keep has_failed outcomes) in
    record {
      status = status_of outcomes;
      controls = outcomes;
      score =
          score_controls (map (λ o. (o.id, o.expected)) (keep (λ o. o.reached) outcomes))
            (flat_map labeled outcomes);
      failed = failed;
      control_run = run_of failed;
    }
