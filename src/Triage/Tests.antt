-- ===== src/Triage/Tests.antt =====
-- Small runs of the triage.
use codewatch.Base.{
  trim, includes, All, Bool, HasNodup, IsOrder, JsMap, List, Memᴰ, Memᴰ-cons, Option, Sorted,
  String, any, arith, false, flat_map, inl, inr, insert_sorted, keep, length, length-take-le, ltb,
  map, none, not-Memᴰ-nil, refl, some, sort_by, suc, sum, take, trim_end, trim_start, true, units,
  zero, ℕ, ◌≡◌, ◌∷◌, ◌==◌, ◌⊎◌, ◌↔◌, ◌<◌, ◌+◌, [], string_eq, pair_eq, nat_eq,
}
use codewatch.Triage.Questions.{Finding, TriageQuestion, Verdict}
use codewatch.Triage.Select.{
  SelectedFile, TriageSelectOptions, file_before, is_eligible, rank_by_path, select_triage_files,
}
use codewatch.Triage.Select.Laws.{
  IsSelected, is_chosen, select_triage_files_conserves, select_triage_files_exact, total,
}
use codewatch.Triage.Verify.{
  Citation, Failure, ItemQuestion, TriageItem, VerdictRow, VerifiedRow, before_close,
  citation_failure, normalise_key, redact_spec, row_failure, verify_item_output,
}
use codewatch.Triage.Verify.Redact.{HidesSpec, IsTakenOut, redact_spec_hides}
use codewatch.Triage.Verify.Laws.{IsKept, kept_keys, verify_item_output_sound}
use codewatch.Triage.Score.{
  Control, ControlLabel, ControlRun, ExpectedVerdict, ScoredItem, answer_of, score_control_items,
}
use codewatch.Triage.Score.Laws.{is_betrayed, score_control_items_provisional}
use codewatch.Triage.Persist.{
  FragmentWrite, Provenance, StoredFinding, VerdictRecord, file_verdict_for, prior_judged_snapshot,
  record_before, skip_judged, write_verdict_fragment,
}
use codewatch.Triage.Persist.Skip.{
  all_findings, file_rows, open_files, reused_rows, skip_judged_splits,
}
use codewatch.Triage.Persist.Reuse.{IsOpen, Reuses, skip_judged-Reuses}
use codewatch.Triage.Persist.Fragment.{carried_to, last_with, write_verdict_fragment_merges}
use codewatch.Triage.Excerpt.{ExcerptUnit, by_line, pack_units}
use codewatch.Triage.Excerpt.Packing.{IsBundle, pack_units_partition}
use codewatch.Triage.ControlPick.{ControlKind, PoolControl, asked_in, is_kind, pick_run_controls}
use codewatch.Triage.ControlPick.Kinds.{Picks, pick_run_controls_covers}

abbrev shorter_first : String → String → Bool
shorter_first a b = ltb (units a) (units b)

shorter_first-IsOrder : IsOrder shorter_first
shorter_first-IsOrder = record { asym = λ a b h. ground arith; trans = λ a b c h k. ground arith }

abbrev finding : String → String → String → Finding
finding id signal path = record {
  id = id;
  signal = signal;
  path = path;
  tool = "audit";
  symbol = none;
  line_start = some 3;
  line_end = none;
}

abbrev clone_in_a : Finding
clone_in_a = finding "f1" "clone" "src/a.py"

abbrev helper_in_b : Finding
helper_in_b = finding "f2" "symbol-single-caller-helper" "src/b.py"

abbrev fact_in_b : Finding
fact_in_b = finding "f3" "file-loc" "src/b.py"

abbrev three_findings : List Finding
three_findings = clone_in_a ∷ (helper_in_b ∷ (fact_in_b ∷ []))

abbrev scores_of_two : List (String × ℕ)
scores_of_two = ("src/a.py", 120) ∷ (("src/b.py", 905) ∷ [])

abbrev from_seventy : TriageSelectOptions
from_seventy = record { min_rank = 700; include_tests = false }

abbrev any_question : TriageQuestion
any_question = record {
  text = "Is it?";
  meanings = λ v. "so";
  needs = record {
    needs_caller = false;
    needs_ranges = false;
    uses_spec = false;
    every_row = false;
  };
}

abbrev asked_question : ItemQuestion
asked_question = record {
  key = "k1";
  finding = clone_in_a;
  question = any_question;
  excerpt_hash = "h1";
}

abbrev one_item : TriageItem
one_item = record {
  id = "src/a.py";
  shown = ("src/a.py", 3 ∷ []) ∷ [];
  lines = λ p. none;
  questions = asked_question ∷ [];
}

abbrev spec_citation : Citation
spec_citation = record { path = "<spec>"; start = 1; stop = 1; quote = "The secret plan" }

abbrev row_for : String → VerdictRow
row_for key = record {
  key = key;
  verdict = Verdict.confirmed;
  rationale = "The secret plan says so";
  citations = spec_citation ∷ [];
}

abbrev three_rows : List VerdictRow
three_rows = row_for "[k1] src/a.py:3" ∷ (row_for "k1" ∷ (row_for "k2" ∷ []))

abbrev parse_three : Option String → List VerdictRow ⊎ String
parse_three output = inl three_rows

abbrev cited_well : TriageItem → Citation → Option Failure
cited_well item c = none

abbrev record_with : String → String → VerdictRecord
record_with key hash = record {
  key = key;
  verdict = Verdict.justified;
  rationale = "fine";
  citations = [];
  path = "src/a.py";
  signal = "clone";
  tool = "audit";
  symbol = none;
  excerpt_hash = hash;
  model = "reader";
  cost_usd = 1;
  run_id = "r1";
  provenance = Provenance.model;
  carried_from = none;
  control_run = ControlRun.ok;
}

abbrev stored_with : Finding → StoredFinding
stored_with f = record { key = f.id; finding = f; excerpt_hash = some "h1" }

abbrev committed : JsMap String VerdictRecord
committed = ("f1", record_with "f1" "h1") ∷ []

abbrev selected_files : List SelectedFile
selected_files =
    record { path = "src/a.py"; rank = 120; findings = clone_in_a ∷ [] }
    ∷ (record { path = "src/b.py"; rank = 905; findings = helper_in_b ∷ [] } ∷ [])

abbrev slop_control : Control
slop_control = record { id = "c1"; label = ControlLabel.slop; findings = 1 }

abbrev control_items : List ScoredItem
control_items = record { id = "i1"; control = some slop_control } ∷ []

abbrev justified_row : VerifiedRow
justified_row = record {
  row = record (row_for "k1") { verdict = Verdict.justified };
  question = some asked_question;
}

abbrev kept_justified : JsMap String (List VerifiedRow)
kept_justified = ("i1", justified_row ∷ []) ∷ []

abbrev count_controls : List (String × ExpectedVerdict) → List (String × Verdict) → ℕ
count_controls expected answered = length expected

abbrev pool_of_two : List PoolControl
pool_of_two =
    record { id = "c1"; kind = ControlKind.clone; label = ControlLabel.slop }
    ∷ (record { id = "c2"; kind = ControlKind.comment; label = ControlLabel.clean } ∷ [])

abbrev pick_first : List PoolControl → String → ℕ → List PoolControl
pick_first pool seed n = take n pool

mem_of_take : (n : ℕ) (xs : List PoolControl) (c : PoolControl) → Memᴰ c (take n xs) → Memᴰ c xs
mem_of_take zero xs c m = absurd (not-Memᴰ-nil c m)
mem_of_take (suc n) [] c m = m
mem_of_take (suc n) (x ∷ xs) c m = elim ((Memᴰ-cons c x (take n xs)).0 m) [
  | inl e ↦ Memᴰ.head e
  | inr t ↦ Memᴰ.tail (mem_of_take n xs c t)
]

take_one : (xs : List PoolControl) → 0 < length xs → 0 < length (take 1 xs)
take_one [] h = h
take_one (x ∷ xs) h = omega arith

pick_first-Picks : Picks pick_first (λ x. true)
pick_first-Picks = record {
  members = λ pool seed n c m. mem_of_take n pool c m;
  at_most = λ pool seed n. length-take-le n pool;
  one = λ pool seed h. take_one pool h;
}

abbrev two_units : List ExcerptUnit
two_units =
    record { first_line = 30; shown = ("src/a.py", 30 ∷ []) ∷ []; findings = clone_in_a ∷ [] }
    ∷ (record { first_line = 24; shown = ("src/a.py", 24 ∷ []) ∷ []; findings = helper_in_b ∷ [] }
        ∷ [])

abbrev no_text : String → List String
no_text p = []

-- One row of three is kept: the second answers the question again, the third none.
kept_one : length (verify_item_output cited_well parse_three one_item none).kept ≡ 1
unfolding verify_item_output row_failure citation_failure normalise_key before_close trim_end
    trim_start
kept_one = refl

-- A planted fault was called justified.
run_provisional :
    (score_control_items count_controls control_items kept_justified).control_run
    ≡ ControlRun.provisional
unfolding score_control_items answer_of
run_provisional = refl

reused_from_files :
    file_verdict_for (stored_with clone_in_a) committed
    ≡ some (carried_to (stored_with clone_in_a) (record_with "f1" "h1"))
unfolding file_verdict_for
reused_from_files = refl

abbrev below_three : ℕ → Bool
below_three id = ltb id 3

abbrev second : ℕ
second = 2

second_judged : prior_judged_snapshot below_three (1 ∷ (2 ∷ (3 ∷ (4 ∷ [])))) 4 ≡ some second
unfolding prior_judged_snapshot sort_by insert_sorted
second_judged = refl

verify_item_output_sound_example :
    let v = verify_item_output cited_well parse_three one_item none in
    (v.returned ≡ length three_rows)
    × (length v.kept + length v.dropped ≡ v.returned)
    × HasNodup (kept_keys v.kept)
    × All (IsKept cited_well one_item three_rows) v.kept
verify_item_output_sound_example =
    verify_item_output_sound cited_well parse_three one_item none three_rows refl

select_triage_files_exact_example :
    let s = select_triage_files shorter_first three_findings scores_of_two [] from_seventy in
    let ranks = rank_by_path [] scores_of_two in
    All (IsSelected ranks [] from_seventy (keep is_eligible three_findings)) s.files
    × ((f : Finding)
        → Memᴰ f (keep (is_chosen ranks [] from_seventy f.path) (keep is_eligible three_findings))
        → any (λ file. file.path == f.path) s.files ≡ true)
    × Sorted (file_before shorter_first) s.files
select_triage_files_exact_example =
    select_triage_files_exact shorter_first three_findings scores_of_two [] from_seventy
      shorter_first-IsOrder

select_triage_files_conserves_example :
    let s = select_triage_files shorter_first three_findings scores_of_two [] from_seventy in
    total s.excluded + sum (map (λ f. length f.findings) s.files) + s.ineligible
    ≡ length three_findings
select_triage_files_conserves_example =
    select_triage_files_conserves shorter_first three_findings scores_of_two [] from_seventy

skip_judged_splits_example :
    let s = skip_judged stored_with [] committed selected_files in
    (s.files ≡ open_files stored_with [] committed selected_files)
    × (s.reused
        ≡ reused_rows stored_with [] committed
            (all_findings stored_with [] committed selected_files))
    × (s.from_files
        ≡ file_rows stored_with [] committed (all_findings stored_with [] committed selected_files))
    × (sum (map (λ sel. length sel.findings) s.files) + length s.reused
        ≡ length (all_findings stored_with [] committed selected_files))
skip_judged_splits_example = skip_judged_splits stored_with [] committed selected_files

write_verdict_fragment_merges_example :
    (rows : List VerdictRecord) × (write_verdict_fragment shorter_first
        (map some (record_with "f1" "h0" ∷ []))
        ((record_with "f1" "h1") ∷ [])
      ≡ FragmentWrite.written rows)
    × ((x : VerdictRecord)
        → Memᴰ x rows ↔ (
            last_with
              (λ v. v.key)
              x.key
              (last_with (λ v. v.key) x.key none (record_with "f1" "h0" ∷ []))
              ((record_with "f1" "h1") ∷ [])
            ≡ some x))
    × Sorted (record_before shorter_first) rows
write_verdict_fragment_merges_example =
    write_verdict_fragment_merges shorter_first (record_with "f1" "h0" ∷ []) (record_with "f1" "h1")
      [] shorter_first-IsOrder

score_control_items_provisional_example :
    ((score_control_items count_controls control_items kept_justified).control_run
      ≡ ControlRun.provisional)
    ↔ (any (is_betrayed kept_justified) control_items ≡ true)
score_control_items_provisional_example =
    score_control_items_provisional count_controls control_items kept_justified

pack_units_partition_example :
    (flat_map (λ us. us) (pack_units no_text 4 two_units) ≡ sort_by (by_line) two_units)
    × All (IsBundle no_text 4) (pack_units no_text 4 two_units)
pack_units_partition_example = pack_units_partition no_text 4 two_units

pick_run_controls_covers_example :
    All
      (λ kind.
        any
          (is_kind kind)
          (pick_run_controls pick_first (λ x. true) pool_of_two ("clone" ∷ []) "s" 2)
        ≡ true)
      (asked_in pick_first (λ x. true) pool_of_two ("clone" ∷ []))
pick_run_controls_covers_example =
    pick_run_controls_covers pick_first (λ x. true) pick_first-Picks pool_of_two ("clone" ∷ []) "s"
      2 (omega arith)

skip_judged-Reuses_example :
    let s = skip_judged stored_with [] committed selected_files in
    let all = all_findings stored_with [] committed selected_files in
    ((f : Finding)
      → Memᴰ f (all_findings stored_with [] committed s.files)
        ↔ (Memᴰ f all × IsOpen stored_with [] committed f))
    × ((r : VerdictRecord)
        → Memᴰ r s.from_files ↔ ((f : Finding) × Memᴰ f all × Reuses stored_with [] committed f r))
skip_judged-Reuses_example = skip_judged-Reuses stored_with [] committed selected_files

redact_spec_hides_example :
    let kept = redact_spec (row_for "k1") (some ("The secret plan" ∷ [])) in
    ((line : String)
      → Memᴰ line ("The secret plan" ∷ [])
      → IsTakenOut line
      → includes kept.rationale (trim line) ≡ false)
    × All HidesSpec kept.citations
    × (kept.key ≡ (row_for "k1").key)
    × (kept.verdict ≡ (row_for "k1").verdict)
    × (map (λ c. c.path) kept.citations ≡ map (λ c. c.path) (row_for "k1").citations)
redact_spec_hides_example = redact_spec_hides (row_for "k1") ("The secret plan" ∷ [])
