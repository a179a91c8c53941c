-- ===== src/Triage/Verify.antt =====
-- packages/cli/src/commands/triage-verify.ts and redactSpec of triage-spec.ts: a reader's output is
-- cut down to the verdicts that answer an asked question with citations that check out. Parsing
-- the output against its schema and checking one citation belong to packages the program uses;
-- they are parameters.
pub mod Laws
pub mod Keys
pub mod Replaced
pub mod Redact
use codewatch.Base.{
  first_units, glue, Bool, true, false, ◌&&◌, ◌||◌, not, Option, none, some, List, [], ◌∷◌, ◌++◌,
  ◌⊎◌, inl, inr, map, keep, length, String, ℕ, JsMap, lookup, insert, if◌then◌else◌, ◌==◌,
  string_eq, contains, add, ltb, eqb, any, push_front, trim, units, replace_all, leb,
}
use Prim.Native.Char.{Char, code}
use codewatch.Triage.Questions.{Finding, TriageQuestion, Verdict}

pub record Citation : Type 0 where
  pub path : String
  pub start : ℕ
  pub stop : ℕ
  pub quote : String

pub record VerdictRow : Type 0 where
  pub key : String
  pub verdict : Verdict
  pub rationale : String
  pub citations : List Citation

pub record ItemQuestion : Type 0 where
  pub key : String
  pub finding : Finding
  pub question : TriageQuestion
  pub excerpt_hash : String

-- What of an item the verification reads: `lines` serves a file's text, or the spec's.
pub record TriageItem : Type 0 where
  pub id : String
  pub shown : JsMap String (List ℕ)
  pub lines : String → Option (List String)
  pub questions : List ItemQuestion

pub data DropReason : Type 0 where
  rejected : String → DropReason
  unasked_key : DropReason
  duplicate_key : DropReason
  unparseable_output : DropReason

pub record Failure : Type 0 where
  pub reason : DropReason
  pub detail : String

pub record DroppedRow : Type 0 where
  pub item : String
  pub key : Option String
  pub failure : Failure

-- `question` is `byKey.get(row.key)!`.
pub record VerifiedRow : Type 0 where
  pub row : VerdictRow
  pub question : Option ItemQuestion

pub record ItemVerification : Type 0 where
  pub kept : List VerifiedRow
  pub dropped : List DroppedRow
  pub returned : ℕ

abbrev pub spec_path : String
spec_path = "<spec>"

abbrev pub redact_line : String → String → String
redact_line text String.[] = text
redact_line text (String.◌∷◌ c l) = replace_all c l spec_path 0 text

-- Spec lines shorter than 12 stay.
abbrev pub redact_rationale : String → List String → String
redact_rationale text [] = text
redact_rationale text (line ∷ spec) =
    redact_rationale (if leb 12 (units (trim line)) then redact_line text (trim line) else text)
      spec

abbrev pub redact_citation : Citation → Citation
redact_citation c = if c.path == spec_path then record c { quote = "" } else c

unfoldable pub redact_spec : VerdictRow → Option (List String) → VerdictRow
redact_spec row none = row
redact_spec row (some spec) = record row {
  rationale = redact_rationale row.rationale spec;
  citations = map redact_citation row.citations;
}

abbrev is_open : Char → Bool
is_open c = eqb (code c) b'['

abbrev is_close : Char → Bool
is_close c = eqb (code c) b']'

abbrev drop_open : String → String
drop_open String.[] = ""
drop_open (String.◌∷◌ c s) = if is_open c then s else push_front c s

-- Up to the first `]`, or all of it.
unfoldable pub before_close : String → String
before_close String.[] = ""
before_close (String.◌∷◌ c s) = if is_close c then "" else push_front c (before_close s)

unfoldable pub normalise_key : String → String
normalise_key key = trim (before_close (drop_open (trim key)))

abbrev asks : String → List ItemQuestion → Bool
asks key = any (λ q. q.key == key)

-- `new Map(questions.map((q) => [q.key, q]))`
abbrev by_key : JsMap String ItemQuestion → List ItemQuestion → JsMap String ItemQuestion
by_key m [] = m
by_key m (q ∷ qs) = by_key (insert m q.key q) qs

pub record Verifying : Type 0 where
  pub kept : List VerifiedRow
  pub dropped : List DroppedRow
  pub seen : List String

abbrev normalised : VerdictRow → VerdictRow
normalised row = record row { key = normalise_key row.key }

-- The first failure that a loop returns with.
abbrev pub first_failure : Option Failure → Option Failure → Option Failure
first_failure (some f) later = some f
first_failure none later = later

module _ (verify_citation : TriageItem → Citation → Option Failure) where
  unfoldable pub citation_failure : TriageItem → List Citation → Option Failure
  citation_failure item [] = none
  citation_failure item (c ∷ cs) = first_failure (verify_citation item c) (citation_failure item cs)

  unfoldable pub row_failure : TriageItem → VerdictRow → List String → Option Failure
  row_failure item row seen =
      if not (asks row.key item.questions)
      then some
          (record { reason = DropReason.unasked_key; detail = glue "no question has key " row.key })
      else if contains seen row.key
      then some (record {
        reason = DropReason.duplicate_key;
        detail = glue "a second answer for " row.key;
      })
      else citation_failure item row.citations

  abbrev settle : TriageItem → Verifying → VerdictRow → Option Failure → Verifying
  settle item s row none = record {
    kept =
        s.kept
        ++ record {
          row = redact_spec row (item.lines spec_path);
          question = lookup (by_key [] item.questions) row.key;
        }
          ∷ [];
    dropped = s.dropped;
    seen = add s.seen row.key;
  }
  settle item s row (some failure) = record {
    kept = s.kept;
    dropped = s.dropped ++ record { item = item.id; key = some row.key; failure = failure } ∷ [];
    seen = add s.seen row.key;
  }

  abbrev verify_rows : TriageItem → Verifying → List VerdictRow → Verifying
  verify_rows item s [] = s
  verify_rows item s (r ∷ rows) =
      verify_rows item (settle item s (normalised r) (row_failure item (normalised r) s.seen)) rows

  abbrev verified : TriageItem → List VerdictRow ⊎ String → ItemVerification
  verified item (inr detail) = record {
    kept = [];
    dropped =
        record {
          item = item.id;
          key = none;
          failure = record {
            reason = DropReason.unparseable_output;
            detail = first_units 200 detail;
          };
        }
        ∷ [];
    returned = 0;
  }
  verified item (inl rows) =
      let s = verify_rows item (record { kept = []; dropped = []; seen = [] }) rows in
      record { kept = s.kept; dropped = s.dropped; returned = length rows }

  unfoldable pub verify_item_output :
      (Option String → List VerdictRow ⊎ String) → TriageItem → Option String → ItemVerification
  verify_item_output parse_output item output = verified item (parse_output output)
