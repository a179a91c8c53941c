-- ===== src/Render/Diff.antt =====
-- packages/render/src/diff-snapshot.ts: the union of two snapshots with what changed between them.
-- The store and `diffSnapshots` of the graph library are parameters.
pub mod Nodes
pub mod Edges
pub mod Status
use Prim.Native.String
use codewatch.Base.{
  [], ◌∷◌, ◌++◌, ◌&&◌, ◌==◌, string_eq, not, add_all, keys, ◌++◌, false, or_else, values, Bool,
  String, ℕ, Option, none, some, List, map, JsMap, lookup, insert, contains, add, if◌then◌else◌,
}
use codewatch.Graph.{GraphNode, GraphEdge, GraphMetric}

pub data NodeStatus : Type 0 where
  added removed renamed : NodeStatus

pub data EdgeStatus : Type 0 where
  unchanged added removed : EdgeStatus

pub record Rename : Type 0 where
  pub old_id : String
  pub new_id : String

unfoldable pub renames_by_old_id : JsMap String String → List Rename → JsMap String String
renames_by_old_id m [] = m
renames_by_old_id m (r ∷ rs) = renames_by_old_id (insert m r.old_id r.new_id) rs

-- The record that takes a new id back to the old one.
unfoldable pub invert : JsMap String String → JsMap String String → JsMap String String
invert out [] = out
invert out ((old_id, new_id) ∷ m) = invert (insert out new_id old_id) m

unfoldable pub index_nodes : JsMap String GraphNode → List GraphNode → JsMap String GraphNode
index_nodes by_id [] = by_id
index_nodes by_id (n ∷ ns) = index_nodes (insert by_id n.id n) ns

-- `newId && byId.has(newId)`
abbrev pub renamed_to : JsMap String GraphNode → Option String → Bool
renamed_to by_id none = false
renamed_to by_id (some new_id) = not (new_id == "") && contains (keys by_id) new_id

unfoldable pub add_old_node :
    JsMap String String → JsMap String GraphNode → GraphNode → JsMap String GraphNode
add_old_node renames by_id n =
    if renamed_to by_id (lookup renames n.id)
    then by_id
    else if contains (keys by_id) n.id
    then by_id
    else insert by_id n.id n

unfoldable pub add_old_nodes :
    JsMap String String → JsMap String GraphNode → List GraphNode → JsMap String GraphNode
unfolding add_old_node
add_old_nodes renames by_id [] = by_id
add_old_nodes renames by_id (n ∷ ns) = add_old_nodes renames (add_old_node renames by_id n) ns

unfoldable pub union_nodes : List GraphNode → List GraphNode → JsMap String String → List GraphNode
unfolding index_nodes add_old_nodes
union_nodes from_nodes to_nodes renames =
    values (add_old_nodes renames (index_nodes [] to_nodes) from_nodes)

-- The part of `diffSnapshots`'s answer that the view reads.
pub record GraphDiff (N : Type 0) : Type 0 where
  pub added_nodes : List GraphNode
  pub removed_nodes : List GraphNode
  pub renamed_nodes : List Rename
  pub added_edges : List (GraphEdge N)

mark_added : JsMap String NodeStatus → List GraphNode → JsMap String NodeStatus
mark_added status [] = status
mark_added status (n ∷ ns) = mark_added (insert status n.id NodeStatus.added) ns

mark_removed :
    JsMap String String → JsMap String NodeStatus → List GraphNode → JsMap String NodeStatus
mark_removed renames status [] = status
mark_removed renames status (n ∷ ns) =
    mark_removed renames
      (if contains (keys renames) n.id then status else insert status n.id NodeStatus.removed) ns

mark_renamed : JsMap String NodeStatus → List Rename → JsMap String NodeStatus
mark_renamed status [] = status
mark_renamed status (r ∷ rs) = mark_renamed (insert status r.new_id renamed) rs

unfoldable pub classify_nodes :
    {N : Type 0} → GraphDiff N → JsMap String String → JsMap String NodeStatus
unfolding mark_added mark_removed mark_renamed
classify_nodes diff renames =
    mark_renamed (mark_removed renames (mark_added [] diff.added_nodes) diff.removed_nodes)
      diff.renamed_nodes

-- `${srcId} ${dstId} ${kind}`
unfoldable pub edge_key : String → String → String → String
edge_key src_id dst_id kind =
    String.◌++◌ src_id (String.◌++◌ " " (String.◌++◌ dst_id (String.◌++◌ " " kind)))

abbrev pub key_of : {N : Type 0} → GraphEdge N → String
key_of e = edge_key e.src_id e.dst_id e.kind

-- The key of an edge of the old snapshot under the new ids.
abbrev pub remapped_key : {N : Type 0} → JsMap String String → GraphEdge N → String
remapped_key renames e =
    edge_key (or_else (lookup renames e.src_id) e.src_id)
      (or_else (lookup renames e.dst_id) e.dst_id) e.kind

-- `out` and `seen` of `unionEdges`.
pub record Union (N : Type 0) : Type 0 where
  pub out : List (GraphEdge N)
  pub seen : List String

abbrev pub no_union : {N : Type 0} → Union N
no_union = record { out = []; seen = [] }

module _ {N : Type 0} where
  abbrev pub take_edge : Union N → GraphEdge N → Union N
  take_edge u e = record { out = u.out ++ e ∷ []; seen = u.seen ++ key_of e ∷ [] }

  unfoldable pub add_new_edges : Union N → List (GraphEdge N) → Union N
  add_new_edges u [] = u
  add_new_edges u (e ∷ es) =
      add_new_edges (if contains u.seen (key_of e) then u else take_edge u e) es

  unfoldable pub add_old_edges : JsMap String String → Union N → List (GraphEdge N) → Union N
  add_old_edges renames u [] = u
  add_old_edges renames u (e ∷ es) =
      add_old_edges renames
        (if contains u.seen (remapped_key renames e)
          then u
          else if contains u.seen (key_of e)
          then u
          else take_edge u e)
        es

  unfoldable pub union_edges :
      List (GraphEdge N) → List (GraphEdge N) → JsMap String String → List (GraphEdge N)
  unfolding add_new_edges add_old_edges
  union_edges from_edges to_edges renames =
      (add_old_edges renames (add_new_edges no_union to_edges) from_edges).out

  unfoldable pub classify_new :
      List String → JsMap String EdgeStatus → List (GraphEdge N) → JsMap String EdgeStatus
  classify_new added_keys status [] = status
  classify_new added_keys status (e ∷ es) =
      classify_new added_keys
        (insert status (key_of e)
          (if contains added_keys (key_of e) then EdgeStatus.added else unchanged))
        es

  unfoldable pub classify_old :
      JsMap String String → JsMap String EdgeStatus → List (GraphEdge N) → JsMap String EdgeStatus
  classify_old renames status [] = status
  classify_old renames status (e ∷ es) =
      classify_old renames
        (if contains (keys status) (remapped_key renames e)
          then status
          else if contains (keys status) (key_of e)
          then status
          else insert status (key_of e) EdgeStatus.removed)
        es

  unfoldable pub classify_edges :
      GraphDiff N
      → List (GraphEdge N)
      → List (GraphEdge N)
      → JsMap String String
      → JsMap String EdgeStatus
  unfolding classify_new classify_old
  classify_edges diff from_edges to_edges renames =
      let added_keys = add_all [] (map key_of diff.added_edges) in
      classify_old renames (classify_new added_keys [] to_edges) from_edges
