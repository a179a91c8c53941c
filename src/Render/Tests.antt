-- ===== src/Render/Tests.antt =====
-- Small graphs in the views.
use codewatch.Base.{
  Bool, ◌↔◌, All, HasNodup, List, Memᴰ, String, any, contains, false, keep, keys, length, lookup,
  map, nat_arith, none, some, sum, sum_onto, true, ℕ, ◌≡◌, ◌∷◌, ◌⊎◌, [], if◌then◌else◌, string_eq,
  pair_eq, nat_eq,
}
use codewatch.Graph.{stub, GraphEdge, GraphNode, RenderInput, missing, number, plain}
use codewatch.Render.Collapse.Edges.{
  count_of, endpoints, entry_node, find_edge, find_node, has_end, map_opt,
}
use codewatch.Render.Collapse.Laws.{in_group, is_pair, weights_between}
use codewatch.Render.Packages.{collapse_to_packages, is_file, pkg_of}
use codewatch.Render.Packages.Laws.{package_edges, package_nodes}
use codewatch.Render.Directories.{collapse_to_directories, dir_of, is_source}
use codewatch.Render.Directories.Laws.{chosen_edges, directory_edges_lem, directory_nodes_lem}
use codewatch.Render.Focus.{focus_package, is_kept}
use codewatch.Render.Focus.Edges.{is_crossing, is_drawn_as}
use codewatch.Render.Focus.Laws.{HasEnds, is_full, is_known, focus_package_closed}
use codewatch.Render.Diff.{
  GraphDiff, added, classify_edges, key_of, removed, unchanged, union_edges,
}
use codewatch.Render.Diff.Status.{classify_edges_lem}

abbrev file_node : String → GraphNode
file_node id = record { id = id; kind = "file"; name = id; role = none; attrs = plain }

abbrev imports : String → String → GraphEdge ℕ
imports src dst = record { src_id = src; dst_id = dst; kind = "imports"; weight = missing }

abbrev small_graph : RenderInput ℕ
small_graph = record {
  snapshot_id = 1;
  nodes =
      file_node "packages/a/src/x.ts"
      ∷ (file_node "packages/a/src/y.ts" ∷ (file_node "packages/b/src/z.ts" ∷ []));
  edges =
      imports "packages/a/src/x.ts" "packages/b/src/z.ts"
      ∷ (imports "packages/a/src/y.ts" "packages/b/src/z.ts" ∷ []);
  metrics = none;
}

abbrev as_they_are : List GraphNode → List (GraphEdge ℕ) → List (GraphEdge ℕ)
as_they_are nodes edges = edges

abbrev one_added : GraphDiff ℕ
one_added = record {
  added_nodes = [];
  removed_nodes = [];
  renamed_nodes = [];
  added_edges = imports "x" "y" ∷ [];
}

package_edges_example :
    HasNodup (map endpoints (collapse_to_packages small_graph).edges)
    × ((s d : String)
        → find_edge (collapse_to_packages small_graph).edges s d ≡ (
            if is_pair s d
            then map_opt number (
                sum_onto none
                  (weights_between is_file pkg_of small_graph.nodes s d small_graph.edges))
            else none))
package_edges_example = package_edges ⦃a = nat_arith⦄ small_graph

package_nodes_example :
    HasNodup (map (λ n. n.id) (collapse_to_packages small_graph).nodes)
    × ((p : String)
        → find_node (collapse_to_packages small_graph).nodes p ≡ (
            if any (in_group is_file pkg_of p) small_graph.nodes
            then some (
                entry_node
                  (λ i. i)
                  (p, length (keep (in_group is_file pkg_of p) small_graph.nodes)))
            else none))
    × (sum (map count_of (collapse_to_packages small_graph).nodes)
        ≡ length (keep is_file small_graph.nodes))
package_nodes_example = package_nodes ⦃a = nat_arith⦄ small_graph

abbrev known_file : String → Bool
known_file = is_known ⦃a = nat_arith⦄ small_graph "a" false

abbrev full_file : String → Bool
full_file = is_full ⦃a = nat_arith⦄ small_graph "a" false

focus_package_closed_example :
    let view = focus_package small_graph "a" false in
    All (HasEnds (map (λ n. n.id) view.nodes)) view.edges
    × ((n : GraphNode)
        → Memᴰ n view.nodes ↔ (
            (Memᴰ n small_graph.nodes × (is_kept false "a" n ≡ true))
            ⊎ ((nb : String) × (n
                  ≡ record { id = nb; kind = "package"; name = nb; role = none; attrs = stub })
                × (any (is_crossing "a" known_file full_file nb) small_graph.edges ≡ true))))
    × ((k : String × String)
        → contains (map endpoints view.edges) k
          ≡ any (is_drawn_as "a" known_file full_file k) small_graph.edges)
focus_package_closed_example = focus_package_closed ⦃a = nat_arith⦄ small_graph "a" false

classify_edges_lem_example :
    HasNodup (map key_of (union_edges (imports "x" "z" ∷ []) (imports "x" "y" ∷ []) []))
    × (keys (classify_edges one_added (imports "x" "z" ∷ []) (imports "x" "y" ∷ []) [])
        ≡ map key_of (union_edges (imports "x" "z" ∷ []) (imports "x" "y" ∷ []) []))
    × ((k : String)
        → lookup (classify_edges one_added (imports "x" "z" ∷ []) (imports "x" "y" ∷ []) []) k ≡ (
            if contains (map key_of (imports "x" "y" ∷ [])) k
            then some (if contains (map key_of one_added.added_edges) k then added else unchanged)
            else if contains
                (map key_of (union_edges (imports "x" "z" ∷ []) (imports "x" "y" ∷ []) []))
                k
            then some removed
            else none))
classify_edges_lem_example =
    classify_edges_lem one_added (imports "x" "z" ∷ []) (imports "x" "y" ∷ []) []

directory_edges_lem_example :
    HasNodup (map endpoints (collapse_to_directories as_they_are true small_graph).edges)
    × ((s d : String)
        → find_edge (collapse_to_directories as_they_are true small_graph).edges s d ≡ (
            if is_pair s d
            then map_opt
                (λ w. number (nat_arith.round w))
                (sum_onto none (
                  weights_between is_source dir_of small_graph.nodes s d
                    (chosen_edges as_they_are true small_graph)))
            else none))
directory_edges_lem_example = directory_edges_lem ⦃a = nat_arith⦄ as_they_are true small_graph

directory_nodes_lem_example :
    contains
      (map (λ n. n.id) (collapse_to_directories as_they_are true small_graph).nodes)
      "packages/a"
    ≡ any (has_end "packages/a") (collapse_to_directories as_they_are true small_graph).edges
directory_nodes_lem_example =
    directory_nodes_lem ⦃a = nat_arith⦄ as_they_are true small_graph "packages/a"
