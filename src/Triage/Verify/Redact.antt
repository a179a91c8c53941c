-- ===== src/Triage/Verify/Redact.antt =====
-- packages/cli/src/commands/triage-spec.ts, redactSpec: a verdict row that is stored has no line of
-- the spec in it.
use text.Mathlib.TextEquality.{eq_iff}
use mathlib.Core.List.{Memᴰ}
use codewatch.Base.{
  if◌then◌else◌, not-Memᴰ-nil, All, Bool, Bool-cases, List, String, ap, arith, false, includes, inl,
  inr, map, refl, some, string_eq, sym, trim, true, units, leb, [], ◌==◌, ◌∙◌, ◌∷◌, ◌≡◌, ◌≢◌, ◌⊎◌,
  ◌≤◌, Memᴰ-cons,
}
use codewatch.Triage.Verify.{
  Citation, VerdictRow, redact_citation, redact_line, redact_rationale, redact_spec, spec_path,
}
use codewatch.Triage.Verify.Replaced.{has_char, holds, holds-replaced, includes_lem, replaced-gone}

-- A citation quotes the spec only by its place.
abbrev pub HidesSpec : Citation → Type 0
HidesSpec c = (c.path ≢ spec_path) ⊎ (c.quote ≡ "")

HidesSpec-redact_citation : (c : Citation) → HidesSpec (redact_citation c)
HidesSpec-redact_citation c = elim (Bool-cases (c.path == spec_path)) [
  | inl spec ↦ rw spec (inr refl)
  | inr other ↦ rw other (inl (λ e. ground (arith, eq_iff c.path spec_path)))
]

redact_citations_hide : (cs : List Citation) → All HidesSpec (map redact_citation cs)
redact_citations_hide [] = tt
redact_citations_hide (c ∷ cs) = (HidesSpec-redact_citation c, redact_citations_hide cs)

paths_lem : (cs : List Citation) → map (λ c. c.path) (map redact_citation cs) ≡ map (λ c. c.path) cs
paths_lem [] = refl
paths_lem (c ∷ cs) = elim (Bool-cases (c.path == spec_path)) [
  | inl spec ↦ rw spec (ap (λ l. c.path ∷ l) (paths_lem cs))
  | inr other ↦ rw other (ap (λ l. c.path ∷ l) (paths_lem cs))
]

-- The line, trimmed, has twelve units or more and no angle bracket.
abbrev pub IsTakenOut : String → Type 0
IsTakenOut line =
    (12 ≤ units (trim line))
    × (has_char b'<' (trim line) ≡ false)
    × (has_char b'>' (trim line) ≡ false)

not_both : (b : Bool) → b ≡ false → b ≡ true → ⊥
not_both b h k = cc

absent-redact_line :
    (p text line : String)
    → has_char b'<' p ≡ false
    → has_char b'>' p ≡ false
    → 12 ≤ units p
    → holds text p ≡ false
    → holds (redact_line text line) p ≡ false
absent-redact_line p text String.[] n m u h = h
absent-redact_line p text (String.◌∷◌ c l) n m u h =
    elim (Bool-cases (holds (redact_line text (String.◌∷◌ c l)) p)) [
      | inr gone ↦ gone
      | inl back ↦ absurd (not_both (holds text p) h (holds-replaced c l p 0 text n m u back))
    ]

redact_line-absent :
    (p text : String)
    → has_char b'<' p ≡ false
    → has_char b'>' p ≡ false
    → 12 ≤ units p
    → holds (redact_line text p) p ≡ false
unfolding units
redact_line-absent String.[] text n m u = absurd (ground (arith, u))
redact_line-absent (String.◌∷◌ c l) text n m u = replaced-gone c l 0 text n m u

absent-redact_rationale :
    (p text : String) (spec : List String)
    → has_char b'<' p ≡ false
    → has_char b'>' p ≡ false
    → 12 ≤ units p
    → holds text p ≡ false
    → holds (redact_rationale text spec) p ≡ false
absent-redact_rationale p text [] n m u h = h
absent-redact_rationale p text (line ∷ spec) n m u h =
    elim (Bool-cases (leb 12 (units (trim line)))) [
      | inl long ↦ rw long (
          absent-redact_rationale p (redact_line text (trim line)) spec n m u
            (absent-redact_line p text (trim line) n m u h))
      | inr short ↦ rw short (absent-redact_rationale p text spec n m u h)
    ]

redact_rationale-absent :
    (line text : String) (spec : List String)
    → Memᴰ line spec
    → IsTakenOut line
    → holds (redact_rationale text spec) (trim line) ≡ false
redact_rationale-absent line text [] m t = absurd (not-Memᴰ-nil line m)
redact_rationale-absent line text (other ∷ spec) m (u, lt, gt) =
    elim ((Memᴰ-cons line other spec).0 m) [
      | inl e ↦
          let long : leb 12 (units (trim other)) ≡ true =
            ap (λ w. leb 12 (units (trim w))) (sym e) ∙ ground (arith, u) in
          rw (long, ← e)
            (absent-redact_rationale (trim line) (redact_line text (trim line)) spec lt gt u
              (redact_line-absent (trim line) text lt gt u))
      | inr later ↦
          redact_rationale-absent line
            (if leb 12 (units (trim other)) then redact_line text (trim other) else text) spec later
            (u, lt, gt)
    ]

-- Where the run has a spec, a kept row has, in its rationale, no line of the spec that has twelve
-- units or more when trimmed and no angle bracket; its citations of the spec have no quote; and it
-- keeps its key, its verdict and the paths that it cites.
pub redact_spec_hides :
    (row : VerdictRow) (spec : List String)
    → let kept = redact_spec row (some spec) in
      ((line : String)
        → Memᴰ line spec
        → IsTakenOut line
        → includes kept.rationale (trim line) ≡ false)
      × All HidesSpec kept.citations
      × (kept.key ≡ row.key)
      × (kept.verdict ≡ row.verdict)
      × (map (λ c. c.path) kept.citations ≡ map (λ c. c.path) row.citations)
unfolding redact_spec
redact_spec_hides row spec = (
  λ line m t.
      includes_lem (redact_rationale row.rationale spec) (trim line)
      ∙ redact_rationale-absent line row.rationale spec m t,
  redact_citations_hide row.citations,
  refl,
  refl,
  paths_lem row.citations,
)
