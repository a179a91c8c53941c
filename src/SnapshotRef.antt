-- ===== src/SnapshotRef.antt =====
-- packages/cli/src/utils/snapshot-ref.ts: which snapshot a text names. The store's reads are
-- parameters; `none` is where the source throws.
pub mod Previous
mod Tests
use codewatch.Base.{
  [], string_eq, eqb, ◌==◌, ◌∷◌, if◌then◌else◌, none, some, List, String, Option, ℕ,
}

pub record SnapshotRow : Type 0 where
  pub id : ℕ
  pub ref : String

-- The snapshots stand newest first; `number_of` reads a text of digits only.
pub record SnapshotStore : Type 0 where
  pub number_of : String → Option ℕ
  pub get_snapshot : ℕ → Option SnapshotRow
  pub get_latest_snapshot_by_ref : String → Option SnapshotRow
  pub list_snapshots : List SnapshotRow

abbrev pub first_row : List SnapshotRow → Option SnapshotRow
first_row [] = none
first_row (s ∷ ss) = some s

-- The row after the first one with the id.
abbrev pub row_after : ℕ → List SnapshotRow → Option SnapshotRow
row_after id [] = none
row_after id (s ∷ ss) = let later = row_after id ss in if eqb s.id id then first_row ss else later

abbrev pub snapshot_before : List SnapshotRow → Option ℕ → Option SnapshotRow
snapshot_before all none = first_row all
snapshot_before all (some id) = row_after id all

abbrev pub or_row : Option SnapshotRow → Option SnapshotRow → Option SnapshotRow
or_row (some s) o = some s
or_row none o = o

abbrev pub by_id : SnapshotStore → String → Option SnapshotRow
by_id db spec = elim (db.number_of spec) [ none ↦ none | some id ↦ db.get_snapshot id ]

unfoldable pub resolve_snapshot_ref : SnapshotStore → String → Option ℕ → Option SnapshotRow
resolve_snapshot_ref db spec current_id =
    if spec == "previous"
    then snapshot_before db.list_snapshots current_id
    else or_row (by_id db spec) (db.get_latest_snapshot_by_ref spec)
