-- ===== src/Render/Directories/Laws.antt =====
-- The directory view (packages/render/src/collapse-directories.ts): its edges, and its nodes as the
-- ends of them.
use codewatch.Base.{
  is_some-lookup, true, All, ◌≡◌, refl, ap, ◌∙◌, String, Bool, ◌&&◌, List, [], ◌∷◌, none,
  if◌then◌else◌, Arith, HasNodup, map, any, keep, sum_onto, keys, contains, pair_eq, string_eq,
  JsMap, ℕ, arith,
}
use codewatch.Graph.{GraphNode, GraphEdge, RenderInput, number}
use text.Mathlib.TextEquality.{eq_iff}
use codewatch.Render.Collapse.{index_files, no_files, cross_weights}
use codewatch.Render.Collapse.{connect}
use codewatch.Render.Collapse.Edges.{
  has_end, contains-connect, ids-entry_node, entry_edge, find_edge, endpoints, map_opt, map_opt-if,
  find_edge-entry_edge, endpoints-entry_edge,
}
use codewatch.Render.Collapse.Laws.{
  count_lem, in_group, is_pair, weights_between, cross_weights_lem, HasNodup-cross_weights,
}
use codewatch.Render.Collapse.Ends.{HasFiles, HasFiles-cross_weights}
use codewatch.Render.Directories.{
  module_label, directory_edges, is_source, dir_of, collapse_to_directories,
}

-- The edges that the view starts from.
abbrev pub chosen_edges :
    {N : Type 0}
    → (List GraphNode → List (GraphEdge N) → List (GraphEdge N))
    → Bool
    → RenderInput N
    → List (GraphEdge N)
chosen_edges resolver resolve input =
    if resolve then resolver input.nodes input.edges else input.edges

contains-keep :
    (m : JsMap String ℕ) (set : List String) (g : String)
    → contains (keys (keep (λ p. contains set p.0) m)) g ≡ (contains (keys m) g && contains set g)
contains-keep [] set g = refl
contains-keep ((k, c) ∷ m) set g = ground (arith, contains-keep m set g, eq_iff k g)

module _ {N : Type 0} ⦃a : Arith N⦄
    (resolver : List GraphNode → List (GraphEdge N) → List (GraphEdge N)) (resolve : Bool)
    (input : RenderInput N) where
  -- Over the edges that it starts from (the resolved ones, or the raw ones with `resolve` off), the
  -- view has an edge from `s` to `d` just when the two are different directories with a name and
  -- some of those edges leads from a source file in `s` to one in `d`; its weight is the rounded sum
  -- of their weights, and no ordered pair of directories has two edges.
  pub directory_edges_lem :
      HasNodup (map endpoints (collapse_to_directories resolver resolve input).edges)
      × ((s d : String)
          → find_edge (collapse_to_directories resolver resolve input).edges s d ≡ (
              if is_pair s d
              then map_opt
                  (λ w. number (a.round w))
                  (sum_onto none (
                    weights_between is_source dir_of input.nodes s d
                      (chosen_edges resolver resolve input)))
              else none))
  unfolding collapse_to_directories
  directory_edges_lem = (
    rw (endpoints-entry_edge a.round (cross_weights by_file (chosen_edges resolver resolve input)))
        (HasNodup-cross_weights is_source dir_of by_file (chosen_edges resolver resolve input)),
    λ s d.
        find_edge-entry_edge a.round (cross_weights by_file (chosen_edges resolver resolve input)) s
          d
        ∙ ap (map_opt (λ w. number (a.round w))) (
            cross_weights_lem is_source dir_of input.nodes s d
              (chosen_edges resolver resolve input))
        ∙ map_opt-if (λ w. number (a.round w)) (is_pair s d) _,
  )
    where
      by_file : JsMap String String
      by_file = (index_files is_source dir_of no_files input.nodes).by_file

-- An end of an edge of the view is a directory that holds a source file.
counted_of_end :
    {N : Type 0} (r : N → N) (ns : List GraphNode) (m : JsMap (String × String) N) (g : String)
    → All (HasFiles is_source dir_of ns) (keys m)
    → any (has_end g) (map (entry_edge r) m) ≡ true
    → any (in_group is_source dir_of g) ns ≡ true
counted_of_end r ns [] g h e = cc
counted_of_end r ns (((s, d), w) ∷ m) g ((hs, hd), h) e =
    ground (arith, counted_of_end r ns m g h, eq_iff s g, eq_iff d g)

module _ {N : Type 0} ⦃a : Arith N⦄
    (resolver : List GraphNode → List (GraphEdge N) → List (GraphEdge N)) (resolve : Bool)
    (input : RenderInput N) where
  -- The nodes of the view are the ends of its edges: no directory without coupling is shown, and no
  -- edge leads to a directory that is not.
  pub directory_nodes_lem :
      (g : String)
      → contains (map (λ n. n.id) (collapse_to_directories resolver resolve input).nodes) g
        ≡ any (has_end g) (collapse_to_directories resolver resolve input).edges
  unfolding collapse_to_directories directory_edges
  directory_nodes_lem g =
      ap (λ l. contains l g)
        (ids-entry_node module_label (keep (λ p. contains (connect [] edges) p.0) count))
      ∙ contains-keep count (connect [] edges) g
      ∙ ground (
        arith,
        contains-connect [] edges g,
        is_some-lookup count g,
        count_lem is_source dir_of input.nodes g,
        counted_of_end a.round input.nodes weights g (
            HasFiles-cross_weights is_source dir_of input.nodes
              (chosen_edges resolver resolve input)),
      )
    where
      count : JsMap String ℕ
      count = (index_files is_source dir_of no_files input.nodes).count

      weights : JsMap (String × String) N
      weights =
          cross_weights (index_files is_source dir_of no_files input.nodes).by_file
            (chosen_edges resolver resolve input)

      edges : List (GraphEdge N)
      edges = map (entry_edge a.round) weights
