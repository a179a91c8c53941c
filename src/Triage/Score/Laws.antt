-- ===== src/Triage/Score/Laws.antt =====
-- packages/cli/src/commands/triage-score.ts: when a run is provisional.
use codewatch.Base.{
  none, some, string_eq, inr, none, lookup, inl, Bool-cases, ◌<◌, or_else, ◌||◌, some, keep, sym,
  length, flat_map, Option, all, map, ◌↔◌, ◌++◌, [], arith, Bool, refl, ◌∷◌, any, true, false,
  String, ◌≡◌,
}
use codewatch.Triage.Questions.{Verdict}
use codewatch.Triage.Verify.{VerifiedRow}
use codewatch.Triage.Score.{
  List, JsMap, Control, ControlOutcome, ControlRun, ExpectedVerdict, ScoredItem, answer, answer_of,
  expected_verdict, opposite, verdict_of, same_verdict, verdicts, item_outcomes, has_failed,
  is_answer, run_of, score_control_items,
}

-- The item is a planted control, and one of the verdicts kept for it is the opposite of what its
-- label asks for.
abbrev pub is_betrayed : JsMap String (List VerifiedRow) → ScoredItem → Bool
is_betrayed kept item = elim item.control [
  | none ↦ false
  | some c ↦
      any (same_verdict (opposite (expected_verdict c.label)))
        (verdicts (or_else (lookup kept item.id) []))
]

same_verdict_refl : (v : Verdict) → same_verdict v v ≡ true
same_verdict_refl Verdict.confirmed = refl
same_verdict_refl Verdict.justified = refl
same_verdict_refl Verdict.unclear = refl

opposite_lem : (e : ExpectedVerdict) → same_verdict (opposite e) (verdict_of e) ≡ false
opposite_lem ExpectedVerdict.confirmed = refl
opposite_lem ExpectedVerdict.justified = refl

opposite-unclear : (e : ExpectedVerdict) → same_verdict (opposite e) Verdict.unclear ≡ false
opposite-unclear ExpectedVerdict.confirmed = refl
opposite-unclear ExpectedVerdict.justified = refl

expected-opposite : (e : ExpectedVerdict) → same_verdict (verdict_of e) (opposite e) ≡ false
expected-opposite ExpectedVerdict.confirmed = refl
expected-opposite ExpectedVerdict.justified = refl

expected-unclear : (e : ExpectedVerdict) → same_verdict (verdict_of e) Verdict.unclear ≡ false
expected-unclear ExpectedVerdict.confirmed = refl
expected-unclear ExpectedVerdict.justified = refl

answer_lem :
    (c : Control) (vs : List Verdict)
    → is_answer (opposite (expected_verdict c.label)) (answer c vs)
      ≡ any (same_verdict (opposite (expected_verdict c.label))) vs
answer_lem c [] = refl
answer_lem c (v ∷ vs) = ground (
  arith,
  same_verdict_refl (opposite (expected_verdict c.label)),
  opposite_lem (expected_verdict c.label),
  opposite-unclear (expected_verdict c.label),
)

any_append {ℓ} :
    {A : Type ℓ} (p : A → Bool) (xs ys : List A) → any p (xs ++ ys) ≡ (any p xs || any p ys)
any_append p [] ys = refl
any_append p (x ∷ xs) ys = ground (arith, any_append p xs ys)

failed-item_outcomes :
    (kept : JsMap String (List VerifiedRow)) (item : ScoredItem) (c : Option Control)
    → any has_failed (item_outcomes kept (record item { control = c }))
      ≡ is_betrayed kept (record item { control = c })
unfolding answer_of
failed-item_outcomes kept item none = refl
failed-item_outcomes kept item (some c) =
    ground (arith, answer_lem c (verdicts (or_else (lookup kept item.id) [])))

failed-outcomes :
    (kept : JsMap String (List VerifiedRow)) (items : List ScoredItem)
    → any has_failed (flat_map (item_outcomes kept) items) ≡ any (is_betrayed kept) items
failed-outcomes kept [] = refl
failed-outcomes kept (item ∷ items) = ground (
  arith,
  any_append has_failed (item_outcomes kept item) (flat_map (item_outcomes kept) items),
  failed-item_outcomes kept item item.control,
  failed-outcomes kept items,
)

run_of_lem :
    (os : List ControlOutcome)
    → (run_of (map (λ o. o.id) (keep has_failed os)) ≡ ControlRun.provisional)
      ↔ (any has_failed os ≡ true)
run_of_lem [] = (λ e. cc, λ e. cc)
run_of_lem (o ∷ os) = elim (Bool-cases (has_failed o)) [
  | inl f ↦ rw f (λ e. refl, λ e. refl)
  | inr f ↦ rw f (run_of_lem os)
]

-- The run is provisional exactly if a planted control's kept verdicts include the opposite of the
-- one its label asks for; unclear and missing answers do not make it so.
pub score_control_items_provisional :
    {S : Type 0} (score_controls : List (String × ExpectedVerdict) → List (String × Verdict) → S)
    (items : List ScoredItem) (kept : JsMap String (List VerifiedRow))
    → ((score_control_items score_controls items kept).control_run ≡ ControlRun.provisional)
      ↔ (any (is_betrayed kept) items ≡ true)
unfolding score_control_items
score_control_items_provisional score_controls items kept =
    rw (sym (failed-outcomes kept items)) (run_of_lem (flat_map (item_outcomes kept) items))

all-any :
    (e : ExpectedVerdict) (vs : List Verdict)
    → all (same_verdict (verdict_of e)) vs ≡ true
    → any (same_verdict (opposite e)) vs ≡ false
all-any e [] h = refl
all-any ExpectedVerdict.confirmed (Verdict.confirmed ∷ vs) h =
    all-any ExpectedVerdict.confirmed vs h
all-any ExpectedVerdict.confirmed (Verdict.justified ∷ vs) h = cc
all-any ExpectedVerdict.confirmed (Verdict.unclear ∷ vs) h = cc
all-any ExpectedVerdict.justified (Verdict.justified ∷ vs) h =
    all-any ExpectedVerdict.justified vs h
all-any ExpectedVerdict.justified (Verdict.confirmed ∷ vs) h = cc
all-any ExpectedVerdict.justified (Verdict.unclear ∷ vs) h = cc

answer-expected :
    (c : Control) (vs : List Verdict)
    → (is_answer (verdict_of (expected_verdict c.label)) (answer c vs) ≡ true) ↔ (
        (length vs ≡ c.findings)
        × (0 < length vs)
        × (all (same_verdict (verdict_of (expected_verdict c.label))) vs ≡ true))
answer-expected c [] = ground arith
answer-expected c (v ∷ vs) = ground (
  arith,
  all-any (expected_verdict c.label) (v ∷ vs),
  same_verdict_refl (verdict_of (expected_verdict c.label)),
  expected-opposite (expected_verdict c.label),
  expected-unclear (expected_verdict c.label),
)

-- A control counts as answered right exactly if there is a verdict for each of its findings, at
-- least one, and all of them are the expected one.
answer_of_expected :
    (c : Control) (rows : List VerifiedRow)
    → (is_answer (verdict_of (expected_verdict c.label)) (answer_of c rows) ≡ true) ↔ (
        (length (verdicts rows) ≡ c.findings)
        × (0 < length (verdicts rows))
        × (all (same_verdict (verdict_of (expected_verdict c.label))) (verdicts rows) ≡ true))
unfolding answer_of
answer_of_expected c rows = answer-expected c (verdicts rows)
