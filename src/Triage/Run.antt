-- ===== src/Triage/Run.antt =====
-- The pure parts of a run: verifyAll, modelByItem and toRecords of
-- packages/cli/src/commands/triage.ts, the counts of triage-output.ts and the estimate of
-- triage-plan.ts. Costs are whole numbers here, the estimate in millionths of a dollar.
use codewatch.Base.{
  ◌+◌, ◌*◌, ◌/◌, nat_arith, not, length, eqb, keep, ◌==◌, glue, string_eq, map, tally, flat_map,
  or_else, ◌∷◌, sum, if◌then◌else◌, [], lookup, ◌++◌, List, Bool, Option, JsMap, ℕ, insert, String,
  none, some,
}
use codewatch.Triage.Questions.{Verdict}
use codewatch.Triage.Verify.{TriageItem, VerifiedRow, DroppedRow, ItemVerification}
use codewatch.Triage.Persist.{VerdictRecord, Provenance}
use codewatch.Triage.Score.{ControlRun}

-- An item of the run: whether it is a planted control, and what the reader is asked.
pub record RunItem : Type 0 where
  pub item : TriageItem
  pub is_control : Bool

-- A reader's result for an item: its output and its cost.
pub record ReadResult : Type 0 where
  pub run_item : RunItem
  pub output : Option String
  pub cost_usd : Option ℕ

pub record VerifiedRun : Type 0 where
  pub kept : JsMap String (List VerifiedRow)
  pub dropped : List DroppedRow
  pub cost_share : JsMap String ℕ

-- The share of a cost, as a whole number; none for an output without rows.
abbrev share : ℕ → ℕ → ℕ
share cost returned = if eqb returned 0 then 0 else cost / returned

abbrev absorb : VerifiedRun → ReadResult → ItemVerification → VerifiedRun
absorb out r v = record {
  kept = insert out.kept r.run_item.item.id v.kept;
  dropped = out.dropped ++ v.dropped;
  cost_share = insert out.cost_share r.run_item.item.id (share (or_else r.cost_usd 0) v.returned);
}

-- `verify` is verifyItemOutput.
unfoldable pub verify_all :
    (TriageItem → Option String → ItemVerification) → VerifiedRun → List ReadResult → VerifiedRun
verify_all verify out [] = out
verify_all verify out (r ∷ rs) =
    verify_all verify (absorb out r (verify r.run_item.item r.output)) rs

-- The models by step, `read/<item>`; a step traced without a model counts as none.
unfoldable pub model_by_item : JsMap String (Option String) → String → String → String
model_by_item by_step fallback id = elim (lookup by_step (glue "read/" id)) [
  | some o ↦ or_else o fallback
  | none ↦ fallback
]

abbrev named : Option String → Option String
named none = none
named (some s) = if s == "" then none else some s

-- A kept row has its question (`byKey.get(row.key)!`).
abbrev pub record_row : ControlRun → String → String → ℕ → VerifiedRow → List VerdictRecord
record_row control_run run_id model cost v = elim v.question [
  | none ↦ []
  | some q ↦
      record {
        key = v.row.key;
        verdict = v.row.verdict;
        rationale = v.row.rationale;
        citations = v.row.citations;
        path = q.finding.path;
        signal = q.finding.signal;
        tool = q.finding.tool;
        symbol = named q.finding.symbol;
        excerpt_hash = q.excerpt_hash;
        model = model;
        cost_usd = cost;
        run_id = run_id;
        provenance = Provenance.model;
        carried_from = none;
        control_run = control_run;
      }
      ∷ []
]

module _ (verified : VerifiedRun) (control_run : ControlRun) (run_id : String)
    (model_of : String → String) where
  abbrev pub item_records : RunItem → List VerdictRecord
  item_records r =
      flat_map
        (record_row control_run run_id (model_of r.item.id)
          (or_else (lookup verified.cost_share r.item.id) 0))
        (or_else (lookup verified.kept r.item.id) [])

  unfoldable pub to_records : List RunItem → List VerdictRecord
  to_records items = flat_map item_records (keep (λ r. not r.is_control) items)

abbrev pub count_by {ℓ} : {A : Type ℓ} → (A → String) → List A → JsMap String ℕ
count_by key = tally (λ x. some (key x, 1)) []

abbrev verdict_name : Verdict → String
verdict_name Verdict.confirmed = "confirmed"
verdict_name Verdict.justified = "justified"
verdict_name Verdict.unclear = "unclear"

-- `{ confirmed: 0, justified: 0, unclear: 0, ...counts }`
unfoldable pub verdict_counts : List VerdictRecord → Verdict → ℕ
verdict_counts records v =
    or_else (lookup (count_by (λ r. verdict_name r.verdict) records) (verdict_name v)) 0

pub record TriageEstimate : Type 0 where
  pub calls : ℕ
  pub input_tokens : ℕ
  pub output_tokens : ℕ
  pub cost : ℕ

-- A bundle's questions and tokens.
unfoldable pub estimate_cost : List (ℕ × ℕ) → TriageEstimate
estimate_cost bundles =
    let asked = sum (map (λ b. b.0) bundles) in
    let excerpt = sum (map (λ b. b.1) bundles) in
    let input_tokens = length bundles * 2500 + excerpt + asked * 60 in
    let output_tokens = asked * 150 in
    record {
      calls = length bundles;
      input_tokens = input_tokens;
      output_tokens = output_tokens;
      cost = input_tokens * 3 + output_tokens * 15;
    }
