-- ===== src/Render/Directories.antt =====
-- packages/render/src/collapse-directories.ts: one node for each source directory with coupling to
-- another, one weighted edge for each ordered pair. Barrels are resolved by the graph library, which
-- is the parameter `resolve_barrel_edges`.
pub mod Laws
use codewatch.Base.{
  Bool, true, false, not, ◌&&◌, ◌||◌, String, ℕ, Option, none, some, List, [], ◌∷◌, map, keep,
  contains, add, ◌==◌, string_eq, if◌then◌else◌, Arith, strip_prefix, before_last_slash, push_front,
  or_else, is_slash, keys,
}
use Prim.Native.String
use codewatch.Graph.{GraphNode, GraphEdge, RenderInput}
use codewatch.Render.Collapse.{index_files, no_files, connect, cross_weights, connect, FileIndex}
use codewatch.Render.Collapse.{connect}
use codewatch.Render.Collapse.Edges.{entry_edge, entry_node}

abbrev skip_roles : List String
skip_roles = "test" ∷ "fixture" ∷ "config" ∷ "script" ∷ []

abbrev pub is_skipped : Option String → Bool
is_skipped none = false
is_skipped (some role) = contains skip_roles role

abbrev pub is_source : GraphNode → Bool
is_source n = n.kind == "file" && not (is_skipped n.role)

unfoldable pub dir_of : String → String
unfolding before_last_slash
dir_of id = or_else (before_last_slash id) id

-- The lookahead of `/src(?=\/|$)`.
abbrev ends_segment : String → Option String
ends_segment String.[] = some ""
ends_segment (String.◌∷◌ c s) = if is_slash c then some (push_front c s) else none

abbrev after_src : Option String → Option String
after_src none = none
after_src (some rest) = ends_segment rest

abbrev or_push : Option String → String → String
or_push none s = s
or_push (some rest) s = rest

-- `replace(/\/src(?=\/|$)/, "")`, which takes the first match.
unfoldable pub drop_src : String → String
unfolding strip_prefix
drop_src String.[] = ""
drop_src (String.◌∷◌ c s) =
    or_push (after_src (strip_prefix "/src" (push_front c s))) (push_front c (drop_src s))

unfoldable pub module_label : String → String
unfolding drop_src
module_label dir =
    let short = drop_src (or_else (strip_prefix "packages/" dir) dir) in
    if short == "" then dir else short

module _ {N : Type 0} ⦃a : Arith N⦄
    (resolve_barrel_edges : List GraphNode → List (GraphEdge N) → List (GraphEdge N)) where
  unfoldable pub directory_edges : FileIndex → Bool → RenderInput N → List (GraphEdge N)
  unfolding cross_weights
  directory_edges ix resolve input =
      let edges = if resolve then resolve_barrel_edges input.nodes input.edges else input.edges in
      map (entry_edge a.round) (cross_weights ix.by_file edges)

  unfoldable pub collapse_to_directories : Bool → RenderInput N → RenderInput N
  unfolding index_files dir_of module_label connect directory_edges
  collapse_to_directories resolve input =
      let ix = index_files is_source dir_of no_files input.nodes in
      let edges = directory_edges ix resolve input in
      let connected = connect [] edges in
      record {
        snapshot_id = input.snapshot_id;
        nodes = map (entry_node module_label) (keep (λ p. contains connected p.0) ix.count);
        edges = edges;
        metrics = none;
      }
