-- ===== src/SnapshotRef/Tests.antt =====
-- A store with three snapshots.
use codewatch.Base.{refl, [], ◌≡◌, ◌∷◌}
use codewatch.SnapshotRef.{
  some, none, ℕ, SnapshotRow, SnapshotStore, first_row, resolve_snapshot_ref,
}
use codewatch.SnapshotRef.Previous.{resolve_snapshot_ref-previous}

abbrev row : ℕ → SnapshotRow
row n = record { id = n; ref = "main" }

abbrev three : SnapshotStore
three = record {
  number_of = λ spec. none;
  get_snapshot = λ id. none;
  get_latest_snapshot_by_ref = λ spec. none;
  list_snapshots = row 3 ∷ (row 2 ∷ (row 1 ∷ []));
}

resolve_snapshot_ref-previous_example :
    resolve_snapshot_ref three "previous" (some 2) ≡ first_row (row 1 ∷ [])
resolve_snapshot_ref-previous_example =
    resolve_snapshot_ref-previous three (row 2) (row 3 ∷ []) (row 1 ∷ []) refl (refl, tt)
