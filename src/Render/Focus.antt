-- ===== src/Render/Focus.antt =====
-- packages/render/src/focus-package.ts: one package's files in full, every other package as a stub.
pub mod Closed
pub mod Edges
pub mod Laws
use codewatch.Base.{
  ◌++◌, ◌&&◌, ◌||◌, ◌==◌, [], if◌then◌else◌, false, string_eq, pair_eq, ◌∷◌, Bool, String, ℕ,
  Option, none, some, List, keep, map, Arith, JsMap, bump, add, add_all, contains, not,
}
use codewatch.Graph.{GraphNode, GraphEdge, RenderInput, edge_weight, stub}
use codewatch.Render.Collapse.Edges.{entry_edge}
use codewatch.Render.Packages.{is_file, pkg_of}

abbrev is_test : Option String → Bool
is_test none = false
is_test (some role) = role == "test"

-- The files of the package that are shown in full.
abbrev pub is_kept : Bool → String → GraphNode → Bool
is_kept include_tests pkg n =
    n.kind == "file" && (include_tests || not (is_test n.role)) && pkg_of n.id == pkg

-- The four collections that the edge loop fills.
pub record Fold (N : Type 0) : Type 0 where
  pub intra : JsMap (String × String) N
  pub out : JsMap (String × String) N
  pub inc : JsMap (String × String) N
  pub neighbours : List String

abbrev pub no_edges : {N : Type 0} → Fold N
no_edges = record { intra = []; out = []; inc = []; neighbours = [] }

abbrev pub stub_node : String → GraphNode
stub_node nb = record { id = nb; kind = "package"; name = nb; role = none; attrs = stub }

module _ {N : Type 0} ⦃a : Arith N⦄ (pkg : String) (file_ids all_files : List String) where
  leave : Fold N → GraphEdge N → Fold N
  leave s e =
      let nb = pkg_of e.dst_id in
      if nb == pkg then s else record s {
        neighbours = add s.neighbours nb;
        out = bump s.out (e.src_id, nb) (edge_weight e);
      }

  enter : Fold N → GraphEdge N → Fold N
  enter s e =
      let nb = pkg_of e.src_id in
      if nb == pkg then s else record s {
        neighbours = add s.neighbours nb;
        inc = bump s.inc (nb, e.dst_id) (edge_weight e);
      }

  inside : Fold N → GraphEdge N → Fold N
  inside s e = record s { intra = bump s.intra (e.src_id, e.dst_id) (edge_weight e) }

  pub fold_edge : Fold N → GraphEdge N → Fold N
  fold_edge s e =
      if not (contains all_files e.src_id) || not (contains all_files e.dst_id)
      then s
      else if contains file_ids e.src_id
      then (if contains file_ids e.dst_id then inside s e else leave s e)
      else (if contains file_ids e.dst_id then enter s e else s)

  pub fold_edges : Fold N → List (GraphEdge N) → Fold N
  fold_edges s [] = s
  fold_edges s (e ∷ es) = fold_edges (fold_edge s e) es

module _ {N : Type 0} ⦃a : Arith N⦄ where
  unfoldable pub focus_package : RenderInput N → String → Bool → RenderInput N
  focus_package input pkg include_tests =
      let file_nodes = keep (is_kept include_tests pkg) input.nodes in
      let file_ids = add_all [] (map (λ n. n.id) file_nodes) in
      let all_files = add_all [] (map (λ n. n.id) (keep is_file input.nodes)) in
      let s = fold_edges pkg file_ids all_files no_edges input.edges in
      record {
        snapshot_id = input.snapshot_id;
        nodes = file_nodes ++ map stub_node s.neighbours;
        edges =
            map (entry_edge (λ w. w)) s.intra
            ++ (map (entry_edge (λ w. w)) s.out ++ map (entry_edge (λ w. w)) s.inc);
        metrics = input.metrics;
      }
