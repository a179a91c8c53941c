-- ===== src/Render/Packages.antt =====
-- packages/render/src/collapse-packages.ts: one node for each package, one weighted edge for each
-- ordered pair of packages.

pub mod Laws
use codewatch.Base.{
  String, Bool, ℕ, none, some, map, ◌==◌, string_eq, if◌then◌else◌, Arith, strip_prefix,
  first_segment,
}
use codewatch.Graph.{GraphNode, RenderInput, file_count}
use codewatch.Render.Collapse.{index_files, no_files, cross_weights}
use codewatch.Render.Collapse.Edges.{entry_edge, entry_node}

-- A match of `^packages/([^/]+)` needs a segment that is not empty.
abbrev package_segment : String → String → String
package_segment whole seg = if seg == "" then first_segment whole else seg

unfoldable pub pkg_of : String → String
unfolding strip_prefix first_segment
pkg_of id = elim (strip_prefix "packages/" id) [
  | none ↦ first_segment id
  | some rest ↦ package_segment id (first_segment rest)
]

abbrev pub is_file : GraphNode → Bool
is_file n = n.kind == "file"

module _ {N : Type 0} ⦃a : Arith N⦄ where
  unfoldable pub collapse_to_packages : RenderInput N → RenderInput N
  unfolding index_files cross_weights pkg_of
  collapse_to_packages input =
      let ix = index_files is_file pkg_of no_files input.nodes in
      record {
        snapshot_id = input.snapshot_id;
        nodes = map (entry_node (λ pkg. pkg)) ix.count;
        edges = map (entry_edge (λ w. w)) (cross_weights ix.by_file input.edges);
        metrics = none;
      }
