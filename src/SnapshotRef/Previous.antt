-- ===== src/SnapshotRef/Previous.antt =====
-- What the word `previous` means.
use codewatch.Base.{refl, [], some, eqb_iff, false, ◌∷◌, eqb, ◌++◌, All, ◌≡◌}
use codewatch.SnapshotRef.{
  List, SnapshotRow, SnapshotStore, first_row, row_after, resolve_snapshot_ref,
}

row_after-append :
    (c : SnapshotRow) (newer older : List SnapshotRow)
    → All (λ s. eqb s.id c.id ≡ false) newer
    → row_after c.id (newer ++ c ∷ older) ≡ first_row older
row_after-append c [] older h = rw ((eqb_iff c.id c.id).1 refl) refl
row_after-append c (s ∷ newer) older h = rw h.0 (row_after-append c newer older h.1)

-- For a snapshot of the store that comes first with its id, `previous` is the newest of those taken
-- before it, and nothing if there is none.
pub resolve_snapshot_ref-previous :
    (db : SnapshotStore) (c : SnapshotRow) (newer older : List SnapshotRow)
    → db.list_snapshots ≡ newer ++ c ∷ older
    → All (λ s. eqb s.id c.id ≡ false) newer
    → resolve_snapshot_ref db "previous" (some c.id) ≡ first_row older
unfolding resolve_snapshot_ref
resolve_snapshot_ref-previous db c newer older e h = rw e (row_after-append c newer older h)
