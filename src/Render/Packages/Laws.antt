-- ===== src/Render/Packages/Laws.antt =====
-- The package view (packages/render/src/collapse-packages.ts): its edges and nodes.
use codewatch.Base.{
  ◌≡◌, ap, ◌∙◌, String, none, some, if◌then◌else◌, Arith, HasNodup, map, sum, length, any, keep,
  sum_onto, pair_eq, string_eq, ℕ, JsMap,
}
use codewatch.Graph.{RenderInput, number}
use codewatch.Render.Collapse.{index_files, no_files, cross_weights}
use codewatch.Render.Collapse.Edges.{
  find_edge, find_node, endpoints, map_opt, map_opt-if, find_edge-entry_edge, endpoints-entry_edge,
  find_node-entry_node, ids-entry_node, count_of, sum-count_of, entry_node,
}
use codewatch.Render.Collapse.Laws.{
  is_pair, weights_between, cross_weights_lem, count_lem, in_group, HasNodup-count,
  HasNodup-cross_weights, sum-values-count,
}
use codewatch.Render.Packages.{is_file, pkg_of, collapse_to_packages}

module _ {N : Type 0} ⦃a : Arith N⦄ (input : RenderInput N) where
  -- Whatever the graph and whatever the numbers are, the view has an edge from package `s` to
  -- package `d` just when the two are different, neither has the empty name, and some input edge
  -- leads from a file of `s` to a file of `d`; its weight is the sum of the weights of those edges,
  -- in their order, and no ordered pair of packages has two edges.
  pub package_edges :
      HasNodup (map endpoints (collapse_to_packages input).edges)
      × ((s d : String)
          → find_edge (collapse_to_packages input).edges s d ≡ (
              if is_pair s d
              then map_opt number
                  (sum_onto none (weights_between is_file pkg_of input.nodes s d input.edges))
              else none))
  unfolding collapse_to_packages
  package_edges = (
    rw (endpoints-entry_edge (λ (w : N). w) (cross_weights by_file input.edges))
        (HasNodup-cross_weights is_file pkg_of by_file input.edges),
    λ s d.
        find_edge-entry_edge (λ w. w) (cross_weights by_file input.edges) s d
        ∙ ap (map_opt number) (cross_weights_lem is_file pkg_of input.nodes s d input.edges)
        ∙ map_opt-if number (is_pair s d) _,
  )
    where
      by_file : JsMap String String
      by_file = (index_files is_file pkg_of no_files input.nodes).by_file

  -- Each package that holds a file has exactly one node, labelled with its name and the number of
  -- its files; no other node is there, and the counts add up to the number of files of the graph.
  pub package_nodes :
      HasNodup (map (λ n. n.id) (collapse_to_packages input).nodes)
      × ((p : String)
          → find_node (collapse_to_packages input).nodes p ≡ (
              if any (in_group is_file pkg_of p) input.nodes
              then some
                  (entry_node (λ i. i) (p, length (keep (in_group is_file pkg_of p) input.nodes)))
              else none))
      × (sum (map count_of (collapse_to_packages input).nodes) ≡ length (keep is_file input.nodes))
  unfolding collapse_to_packages
  package_nodes = (
    rw (ids-entry_node (λ p. p) count) (HasNodup-count is_file pkg_of input.nodes),
    λ p.
        find_node-entry_node (λ i. i) count p
        ∙ ap (map_opt (λ c. entry_node (λ i. i) (p, c))) (count_lem is_file pkg_of input.nodes p)
        ∙ map_opt-if (λ c. entry_node (λ i. i) (p, c)) (any (in_group is_file pkg_of p) input.nodes)
            _,
    sum-count_of (λ p. p) count ∙ sum-values-count is_file pkg_of input.nodes,
  )
    where
      count : JsMap String ℕ
      count = (index_files is_file pkg_of no_files input.nodes).count
