-- ===== src/Commands/Check.antt =====
-- packages/cli/src/commands/graph-check.ts: which snapshots a check compares. Reading the store and
-- git's answer for a ref are parameters.
use codewatch.Base.{
  ◌&&◌, nat_eq, string_eq, is_some, inr, false, opt_beq, ◌==◌, [], inl, not, none, ◌∷◌,
  if◌then◌else◌, some, Bool, Option, String, List, ◌⊎◌, ℕ,
}
use codewatch.Render.Collapse.{truthy}

pub record CheckSnapshot : Type 0 where
  pub id : ℕ
  pub ref : String
  pub commit_hash : Option String

pub record RefSelection : Type 0 where
  pub snapshot : CheckSnapshot
  pub stale : Bool

pub data CheckError : Type 0 where
  no_previous : CheckError
  no_such_id : CheckError
  no_such_ref : CheckError

-- What the store and git answer; snapshots stand newest first. `number_of` reads a text of digits
-- only, `recent` is the first `n` snapshots, `of_ref` the first 50 of a ref.
pub record CheckReads : Type 0 where
  pub recent : ℕ → List CheckSnapshot
  pub number_of : String → Option ℕ
  pub get_snapshot : ℕ → Option CheckSnapshot
  pub of_ref : String → List CheckSnapshot
  pub git_ref : String → Option String

abbrev pub find_first {ℓ} : {A : Type ℓ} → (A → Bool) → List A → Option A
find_first p [] = none
find_first p (x ∷ xs) = if p x then some x else find_first p xs

abbrev at_commit : List CheckSnapshot → Option String → Option CheckSnapshot
at_commit snapshots none = none
at_commit snapshots (some c) = find_first (λ s. opt_beq s.commit_hash (some c)) snapshots

-- The newest snapshot is `latest`; `older` are the others.
unfoldable pub select_ref_snapshot :
    CheckSnapshot → List CheckSnapshot → Option String → RefSelection
select_ref_snapshot latest older current_commit =
    elim (at_commit (latest ∷ older) (truthy current_commit)) [
      | some s ↦ record { snapshot = s; stale = false }
      | none ↦ record {
        snapshot = latest;
        stale = is_some current_commit && is_some latest.commit_hash;
      }
    ]

abbrev selected : List CheckSnapshot → Option String → CheckError ⊎ RefSelection
selected [] current = inl CheckError.no_such_ref
selected (s ∷ ss) current = inr (select_ref_snapshot s ss current)

abbrev unless {ℓ} : {A : Type ℓ} → CheckError → Option A → CheckError ⊎ A
unless e none = inl e
unless e (some a) = inr a

abbrev fresh : CheckError ⊎ CheckSnapshot → CheckError ⊎ RefSelection
fresh (inl e) = inl e
fresh (inr s) = inr (record { snapshot = s; stale = false })

abbrev not_head : Option ℕ → CheckSnapshot → Bool
not_head head s = not (opt_beq (some s.id) head)

-- With a flag on whether the command warns that the snapshot is stale.
unfoldable pub resolve_snapshot : CheckReads → String → Option ℕ → CheckError ⊎ RefSelection
resolve_snapshot db spec head =
    if spec == "previous"
    then fresh (unless CheckError.no_previous (find_first (not_head head) (db.recent 5)))
    else elim (db.number_of spec) [
      | some id ↦ fresh (unless CheckError.no_such_id (db.get_snapshot id))
      | none ↦ selected (db.of_ref spec) (db.git_ref spec)
    ]
