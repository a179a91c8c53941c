-- ===== src/Triage/Persist.antt =====
-- packages/cli/src/commands/triage-persist.ts: verdicts that are already known are reused, and the
-- new ones are merged with the stored ones. Costs, which are only copied here, are whole numbers.
pub mod Reuse
pub mod Skip
pub mod Fragment
use codewatch.Base.{
  keep, flat_map, ◌&&◌, values, map, not, ltb, insert, ◌||◌, contains, string_eq, any, ◌++◌,
  sort_by, opt_beq, ◌==◌, add_all, is_some, lookup, if◌then◌else◌, [], ◌∷◌, Bool, ℕ, or_else,
  String, false, Option, true, List, JsMap, none, some, none,
}
use codewatch.Triage.Questions.{Finding, Verdict}
use codewatch.Triage.Verify.{Citation}
use codewatch.Triage.Score.{ControlRun}
use codewatch.Triage.Select.{SelectedFile}

pub data Provenance : Type 0 where
  model : Provenance
  carried : Provenance
  file : Provenance

pub record VerdictRecord : Type 0 where
  pub key : String
  pub verdict : Verdict
  pub rationale : String
  pub citations : List Citation
  pub path : String
  pub signal : String
  pub tool : String
  pub symbol : Option String
  pub excerpt_hash : String
  pub model : String
  pub cost_usd : ℕ
  pub run_id : String
  pub provenance : Provenance
  pub carried_from : Option ℕ
  pub control_run : ControlRun

pub record StoredVerdict : Type 0 where
  pub key : String
  pub verdict : Verdict
  pub rationale : String
  pub citations : List Citation
  pub excerpt_hash : String
  pub model : Option String
  pub cost_usd : Option ℕ
  pub run_id : Option String
  pub provenance : Option Provenance
  pub carried_from : Option ℕ
  pub control_run : Option ControlRun

pub record StoredFinding : Type 0 where
  pub key : String
  pub finding : Finding
  pub excerpt_hash : Option String

pub record ReusedVerdict : Type 0 where
  pub key : String
  pub path : String
  pub signal : String
  pub verdict : Verdict
  pub carried_from : Option ℕ
  pub from_files : Bool

-- `byKey.set(r.key, r)` for each in turn
abbrev pub set_all {ℓ} : {A : Type ℓ} → (A → String) → JsMap String A → List A → JsMap String A
set_all key m [] = m
set_all key m (x ∷ xs) = set_all key (insert m (key x) x) xs

abbrev pub reused_of : Finding → StoredVerdict → ReusedVerdict
reused_of f v = record {
  key = v.key;
  path = f.path;
  signal = f.signal;
  verdict = v.verdict;
  carried_from = v.carried_from;
  from_files = false;
}

abbrev pub reused_file : Finding → VerdictRecord → ReusedVerdict
reused_file f r = record {
  key = r.key;
  path = f.path;
  signal = f.signal;
  verdict = r.verdict;
  carried_from = none;
  from_files = true;
}

abbrev same_excerpt : StoredFinding → VerdictRecord → Option VerdictRecord
same_excerpt stored r =
    if opt_beq (some r.excerpt_hash) stored.excerpt_hash
    then some (record r {
      path = stored.finding.path;
      signal = stored.finding.signal;
      tool = stored.finding.tool;
      provenance = Provenance.file;
    })
    else none

unfoldable pub file_verdict_for : StoredFinding → JsMap String VerdictRecord → Option VerdictRecord
file_verdict_for stored files = elim (lookup files stored.key) [
  | none ↦ none
  | some r ↦ same_excerpt stored r
]

-- Where a finding's verdict is found, if it is.
pub data Judged : Type 0 where
  in_store : StoredVerdict → Judged
  in_files : VerdictRecord → Judged
  unjudged : Judged

pub record Judging : Type 0 where
  pub still_open : List Finding
  pub reused : List ReusedVerdict
  pub from_files : List VerdictRecord

-- What the filter has noted so far.
pub record Splitting : Type 0 where
  pub files : List SelectedFile
  pub reused : List ReusedVerdict
  pub from_files : List VerdictRecord

-- `keys` has an entry for each finding of the selection.
pub record JudgedSplit : Type 0 where
  pub files : List SelectedFile
  pub keys : List (Finding × String)
  pub reused : List ReusedVerdict
  pub from_files : List VerdictRecord

abbrev filed : Option VerdictRecord → Judged
filed none = Judged.unjudged
filed (some r) = Judged.in_files r

abbrev settle : Judging → Finding → Judged → Judging
settle s f (Judged.in_store v) = record s { reused = s.reused ++ reused_of f v ∷ [] }
settle s f (Judged.in_files r) = record s {
  reused = s.reused ++ reused_file f r ∷ [];
  from_files = s.from_files ++ r ∷ [];
}
settle s f Judged.unjudged = record s { still_open = s.still_open ++ f ∷ [] }

abbrev add_file : List SelectedFile → SelectedFile → List Finding → List SelectedFile
add_file files sel [] = files
add_file files sel (f ∷ fs) = files ++ record sel { findings = f ∷ fs } ∷ []

-- `stored_of` is what `keyWithExcerpts` gives a finding of the selection: findings that the source
-- tells apart by identity are told apart by their values.
module _ (stored_of : Finding → StoredFinding) (judged : List StoredVerdict)
    (files : JsMap String VerdictRecord) where
  unfoldable pub judge : Finding → Judged
  judge f =
      let stored = stored_of f in
      elim (lookup (set_all (λ v. v.key) [] judged) stored.key) [
        | some v ↦ Judged.in_store v
        | none ↦ filed (file_verdict_for stored files)
      ]

  abbrev pub skip_findings : Judging → List Finding → Judging
  skip_findings s [] = s
  skip_findings s (f ∷ fs) = skip_findings (settle s f (judge f)) fs

  abbrev pub skip_files : Splitting → List SelectedFile → Splitting
  skip_files s [] = s
  skip_files s (sel ∷ rest) =
      let t =
        skip_findings (record { still_open = []; reused = s.reused; from_files = s.from_files })
          sel.findings in
      skip_files
        (record {
          files = add_file s.files sel t.still_open;
          reused = t.reused;
          from_files = t.from_files;
        })
        rest

  unfoldable pub skip_judged : List SelectedFile → JudgedSplit
  skip_judged selection =
      let s = skip_files (record { files = []; reused = []; from_files = [] }) selection in
      record {
        files = s.files;
        keys = map (λ f. (f, (stored_of f).key)) (flat_map (λ sel. sel.findings) selection);
        reused = s.reused;
        from_files = s.from_files;
      }

-- What a run leaves on disk: no fragment, a refusal because a line of the earlier one cannot be
-- read, or the fragment's rows.
pub data FragmentWrite : Type 0 where
  untouched : FragmentWrite
  refused : FragmentWrite
  written : List VerdictRecord → FragmentWrite

-- `earlier` is the fragment's lines as parsed, `none` for one that is not a verdict row.
abbrev readable : List (Option VerdictRecord) → List VerdictRecord
readable [] = []
readable (none ∷ lines) = readable lines
readable (some r ∷ lines) = r ∷ readable lines

abbrev pub record_before : (String → String → Bool) → VerdictRecord → VerdictRecord → Bool
record_before locale_before a b =
    locale_before a.path b.path || not (locale_before b.path a.path) && locale_before a.key b.key

abbrev pub merged : List VerdictRecord → List VerdictRecord → JsMap String VerdictRecord
merged earlier records = set_all (λ r. r.key) (set_all (λ r. r.key) [] earlier) records

unfoldable pub write_verdict_fragment :
    (String → String → Bool) → List (Option VerdictRecord) → List VerdictRecord → FragmentWrite
write_verdict_fragment locale_before earlier [] = FragmentWrite.untouched
write_verdict_fragment locale_before earlier (r ∷ records) =
    if any (λ l. not (is_some l)) earlier
    then FragmentWrite.refused
    else FragmentWrite.written
        (sort_by (record_before locale_before) (values (merged (readable earlier) (r ∷ records))))

abbrev to_stored : VerdictRecord → StoredVerdict
to_stored r = record {
  key = r.key;
  verdict = r.verdict;
  rationale = r.rationale;
  citations = r.citations;
  excerpt_hash = r.excerpt_hash;
  model = some r.model;
  cost_usd = some r.cost_usd;
  run_id = some r.run_id;
  provenance = some r.provenance;
  carried_from = none;
  control_run = some r.control_run;
}

abbrev first_seen : Option Provenance → Provenance
first_seen (some Provenance.file) = Provenance.file
first_seen _ = Provenance.model

abbrev named : Option String → Option String
named none = none
named (some s) = if s == "" then none else some s

abbrev record_of : StoredVerdict → Finding → VerdictRecord
record_of v f = record {
  key = v.key;
  verdict = v.verdict;
  rationale = v.rationale;
  citations = v.citations;
  path = f.path;
  signal = f.signal;
  tool = f.tool;
  symbol = named f.symbol;
  excerpt_hash = v.excerpt_hash;
  model = or_else v.model "unknown";
  cost_usd = or_else v.cost_usd 0;
  run_id = or_else v.run_id "";
  provenance = if is_some v.carried_from then Provenance.carried else first_seen v.provenance;
  carried_from = v.carried_from;
  control_run = or_else v.control_run ControlRun.provisional;
}

abbrev earlier_record : List String → Option Finding → StoredVerdict → List VerdictRecord
earlier_record fresh none v = []
earlier_record fresh (some f) v = if contains fresh v.key then [] else record_of v f ∷ []

-- `findings` are the run's own by key, overwritten by the snapshot's.
unfoldable pub snapshot_view :
    (String → String → Bool)
    → List VerdictRecord
    → JsMap String Finding
    → List StoredVerdict
    → List VerdictRecord
snapshot_view locale_before fresh findings stored =
    let fresh_keys = add_all [] (map (λ r. r.key) fresh) in
    sort_by (record_before locale_before)
      (fresh ++ flat_map (λ v. earlier_record fresh_keys (lookup findings v.key) v) stored)

abbrev first_judged : (ℕ → Bool) → List ℕ → Option ℕ
first_judged judged [] = none
first_judged judged (id ∷ ids) = if judged id then some id else first_judged judged ids

-- The snapshots from the latest down, `judged id` saying whether one holds verdicts: the latest
-- before this one that does.
unfoldable pub prior_judged_snapshot : (ℕ → Bool) → List ℕ → ℕ → Option ℕ
prior_judged_snapshot judged ids snapshot =
    first_judged judged (sort_by (λ a b. ltb b a) (keep (λ id. ltb id snapshot) ids))
