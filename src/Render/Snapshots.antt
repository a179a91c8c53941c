-- ===== src/Render/Snapshots.antt =====
-- loadDiff and resolveSnapshot of packages/render/src/diff-snapshot.ts, over an opened store, and
-- packagesInSnapshot of focus-package.ts. The store's reads and `diffSnapshots` are parameters.
use codewatch.Base.{
  string_eq, keep, map, add_all, sort_by, JsMap, Bool, List, [], Option, String, ℕ, none, some,
}
use codewatch.Graph.{GraphNode, GraphEdge, GraphMetric}
use codewatch.Render.Packages.{is_file, pkg_of}
use codewatch.Render.Diff.{
  GraphDiff, NodeStatus, EdgeStatus, renames_by_old_id, invert, union_nodes, classify_nodes,
  union_edges, classify_edges,
}

-- What the store and the library answer; `number_of` reads a text of digits only.
pub record Store (N : Type 0) : Type 0 where
  pub number_of : String → Option ℕ
  pub get_snapshot : ℕ → Option ℕ
  pub get_latest_snapshot_by_ref : String → Option ℕ
  pub list_nodes : ℕ → List GraphNode
  pub list_edges : ℕ → List (GraphEdge N)
  pub list_metrics : ℕ → List (GraphMetric N)
  pub diff_snapshots : ℕ → ℕ → GraphDiff N

pub record DiffView (N : Type 0) : Type 0 where
  pub snapshot_id : ℕ
  pub nodes : List GraphNode
  pub edges : List (GraphEdge N)
  pub metrics : List (GraphMetric N)
  pub from_snapshot : ℕ
  pub to_snapshot : ℕ
  pub node_status : JsMap String NodeStatus
  pub edge_status : JsMap String EdgeStatus
  pub renames : JsMap String String
  pub metrics_before : List (GraphMetric N)

module _ {N : Type 0} (db : Store N) where
  -- `none` where the source throws.
  unfoldable pub resolve_snapshot : String → Option ℕ
  resolve_snapshot spec = elim (db.number_of spec) [
    | some id ↦ db.get_snapshot id
    | none ↦ db.get_latest_snapshot_by_ref spec
  ]

  abbrev diff_view : ℕ → ℕ → DiffView N
  diff_view old new =
      let diff = db.diff_snapshots old new in
      let renames = renames_by_old_id [] diff.renamed_nodes in
      record {
        snapshot_id = new;
        nodes = union_nodes (db.list_nodes old) (db.list_nodes new) renames;
        edges = union_edges (db.list_edges old) (db.list_edges new) renames;
        metrics = db.list_metrics new;
        from_snapshot = old;
        to_snapshot = new;
        node_status = classify_nodes diff renames;
        edge_status = classify_edges diff (db.list_edges old) (db.list_edges new) renames;
        renames = invert [] renames;
        metrics_before = db.list_metrics old;
      }

  abbrev both : Option ℕ → Option ℕ → Option (DiffView N)
  both (some old) (some new) = some (diff_view old new)
  both _ _ = none

  unfoldable pub load_diff : String → String → Option (DiffView N)
  load_diff old new = both (resolve_snapshot old) (resolve_snapshot new)

-- In the order of names, by the comparator that `sort()` has.
unfoldable pub packages_in_snapshot : (String → String → Bool) → List GraphNode → List String
packages_in_snapshot before nodes =
    sort_by before (add_all [] (map (λ n. pkg_of n.id) (keep is_file nodes)))
