-- ===== src/Render/Barrels.antt =====
-- packages/render/src/barrel-resolve.ts: the graph library's `resolveBarrelEdges` (a parameter)
-- rewrites the edges, and the barrels that no edge mentions any more are dropped.
use codewatch.Base.{
  Memᴰ-keep, arith, true, any, ◌⊎◌, ◌≡◌, ◌↔◌, Memᴰ, string_eq, ◌==◌, ◌||◌, false, [], Bool, List,
  String, Option, none, some, not, keep, contains,
}
use codewatch.Graph.{GraphNode, GraphEdge, RenderInput}
use codewatch.Render.Collapse.{connect}
use codewatch.Render.Collapse.Edges.{has_end, contains-connect}

abbrev pub is_barrel : Option String → Bool
is_barrel none = false
is_barrel (some role) = role == "barrel"

module _ {N : Type 0}
    (resolve_barrel_edges : List GraphNode → List (GraphEdge N) → List (GraphEdge N)) where
  pub resolve_barrels : RenderInput N → RenderInput N
  unfolding connect
  resolve_barrels input =
      let edges = resolve_barrel_edges input.nodes input.edges in
      let referenced = connect [] edges in
      record input {
        nodes = keep (λ n. not (is_barrel n.role) || contains referenced n.id) input.nodes;
        edges = edges;
      }

  -- A node stays just when it is no barrel or an edge of the view starts or ends at it, so an edge
  -- whose ends were nodes of the graph has both of them in the view, a dead-end barrel too.
  resolve_barrels_nodes :
      (input : RenderInput N) (n : GraphNode)
      → Memᴰ n (resolve_barrels input).nodes ↔ (
          Memᴰ n input.nodes
          × ((is_barrel n.role ≡ false)
              ⊎ (any (has_end n.id) (resolve_barrels input).edges ≡ true)))
  unfolding resolve_barrels
  resolve_barrels_nodes input n =
      let edges = resolve_barrel_edges input.nodes input.edges in
      ground (
        arith,
        Memᴰ-keep (λ n. not (is_barrel n.role) || contains (connect [] edges) n.id) n input.nodes,
        contains-connect [] edges n.id,
      )
