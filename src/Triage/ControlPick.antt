-- ===== src/Triage/ControlPick.antt =====
-- packages/cli/src/commands/triage-control-pick.ts: the controls planted in a run. Seeded picking
-- belongs to the evidence package: `pick pool seed n` and `starts_low seed` are parameters.
pub mod Kinds
use codewatch.Base.{
  glue, ◌-◌, ◌/◌, ◌%◌, ◌+◌, contains, not, false, ◌++◌, string_eq, any, eqb, leb, [], if◌then◌else◌,
  ◌==◌, length, true, keep, ◌∷◌, Bool, List, ℕ, String, none, some,
}
use codewatch.Triage.Score.{ControlLabel}

pub data ControlKind : Type 0 where
  single_caller_helper : ControlKind
  comment : ControlKind
  unnecessary_isinstance : ControlKind
  pass_through : ControlKind
  missing_test_kind : ControlKind
  weak_oracle : ControlKind
  clone : ControlKind

abbrev pub kind_name : ControlKind → String
kind_name ControlKind.single_caller_helper = "single-caller-helper"
kind_name ControlKind.comment = "comment"
kind_name ControlKind.unnecessary_isinstance = "unnecessary-isinstance"
kind_name ControlKind.pass_through = "pass-through"
kind_name ControlKind.missing_test_kind = "missing-test-kind"
kind_name ControlKind.weak_oracle = "weak-oracle"
kind_name ControlKind.clone = "clone"

abbrev pub kind_signals : ControlKind → List String
kind_signals ControlKind.single_caller_helper = "symbol-single-caller-helper" ∷ []
kind_signals ControlKind.comment = "symbol-narrating-comments" ∷ ("symbol-comment-ratio" ∷ [])
kind_signals ControlKind.unnecessary_isinstance =
    "pyright/reportUnnecessaryIsInstance" ∷ ("pyright/reportUnnecessaryCast" ∷ [])
kind_signals ControlKind.pass_through = "symbol-pass-through" ∷ []
kind_signals ControlKind.missing_test_kind = "missing-test-kind" ∷ []
kind_signals ControlKind.weak_oracle =
    "symbol_weak_oracle_only"
    ∷ ("symbol_assertion_free" ∷ ("symbol_duplicate_assert" ∷ ("symbol_self_compare" ∷ [])))
kind_signals ControlKind.clone = "clone" ∷ []

abbrev pub kinds : List ControlKind
kinds =
    ControlKind.single_caller_helper
    ∷ (ControlKind.comment
        ∷ (ControlKind.unnecessary_isinstance
            ∷ (ControlKind.pass_through
                ∷ (ControlKind.missing_test_kind
                    ∷ (ControlKind.weak_oracle ∷ (ControlKind.clone ∷ []))))))

unfoldable pub kinds_asked : List String → List ControlKind
kinds_asked signals =
    keep (λ kind. any (λ signal. contains signals signal) (kind_signals kind)) kinds

pub record PoolControl : Type 0 where
  pub id : String
  pub kind : ControlKind
  pub label : ControlLabel

abbrev pub is_kind : ControlKind → PoolControl → Bool
is_kind kind c = kind_name c.kind == kind_name kind

abbrev is_clean : ControlLabel → Bool
is_clean ControlLabel.clean = true
is_clean ControlLabel.slop = false

abbrev pub has_label : Bool → PoolControl → Bool
has_label clean c = if clean then is_clean c.label else not (is_clean c.label)

abbrev count_label : List PoolControl → Bool → ℕ
count_label controls clean = length (keep (has_label clean) controls)

abbrev preferred_or : List PoolControl → List PoolControl → List PoolControl
preferred_or [] of_kind = of_kind
preferred_or (c ∷ cs) of_kind = c ∷ cs

abbrev smaller : ℕ → ℕ → ℕ
smaller a b = if leb a b then a else b

abbrev larger : ℕ → ℕ → ℕ
larger a b = if leb a b then b else a

module _ (pick : List PoolControl → String → ℕ → List PoolControl)
    (starts_low : String → Bool) where
  -- One round of the flatMap, at an index already offset.
  abbrev pub pick_kind : List PoolControl → String → ℕ → ControlKind → List PoolControl
  pick_kind pool seed i kind =
      let of_kind = keep (is_kind kind) pool in
      let preferred = keep (has_label (eqb (i % 2) 0)) of_kind in
      pick (preferred_or preferred of_kind) (glue seed (glue ":" (kind_name kind))) 1

  abbrev pub one_per_kind : List PoolControl → List ControlKind → String → ℕ → List PoolControl
  one_per_kind pool [] seed i = []
  one_per_kind pool (kind ∷ ks) seed i =
      pick_kind pool seed i kind ++ one_per_kind pool ks seed (i + 1)

  -- Controls are told apart by their ids.
  abbrev pub fill_balanced : List PoolControl → List PoolControl → String → ℕ → List PoolControl
  fill_balanced pool picked seed total =
      let rest = keep (λ c. not (any (λ p. p.id == c.id) picked)) pool in
      let clean_need = total / 2 - count_label picked true in
      let clean =
        pick (keep (has_label true) rest) seed (smaller clean_need (total - length picked)) in
      let slop = pick (keep (has_label false) rest) seed (total - length picked - length clean) in
      clean ++ slop

  abbrev pub asked_in : List PoolControl → List String → List ControlKind
  asked_in pool signals = keep (λ kind. any (is_kind kind) pool) (kinds_asked signals)

  abbrev planted : List PoolControl → List String → String → ℕ → List PoolControl
  planted pool signals seed n =
      let guaranteed =
        one_per_kind pool (asked_in pool signals) seed (if starts_low seed then 0 else 1) in
      guaranteed ++ fill_balanced pool guaranteed seed (larger n (length guaranteed))

  unfoldable pub pick_run_controls : List PoolControl → List String → String → ℕ → List PoolControl
  pick_run_controls pool signals seed n = if eqb n 0 then [] else planted pool signals seed n
