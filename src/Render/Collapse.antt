-- ===== src/Render/Collapse.antt =====
-- What collapse-packages.ts and collapse-directories.ts share: an index of the files and their
-- groups, and the weight of each ordered pair of groups.

pub mod Edges
pub mod Laws
pub mod Ends
use codewatch.Base.{
  add, ℕ, String, Bool, true, false, ◌||◌, Option, none, some, List, [], ◌∷◌, map, if◌then◌else◌,
  JsMap, lookup, insert, bump, tally, Arith, nat_arith, ◌==◌, string_eq, pair_eq, strip_prefix,
  first_segment, before_last_slash, or_else,
}
use codewatch.Graph.{GraphEdge, GraphNode, edge_weight, number, file_count, WeightAttr}

-- `dirByFile` and `fileCount` (`pkgByFile` and `fileCount`), filled in one loop.
pub record FileIndex : Type 0 where
  pub by_file : JsMap String String
  pub count : JsMap String ℕ

abbrev pub no_files : FileIndex
no_files = record { by_file = []; count = [] }

module _ (counts : GraphNode → Bool) (group : String → String) where
  unfoldable pub index_file : FileIndex → GraphNode → FileIndex
  index_file ix n =
      if counts n
      then record {
        by_file = insert ix.by_file n.id (group n.id);
        count = bump ix.count (group n.id) 1;
      }
      else ix

  unfoldable pub index_files : FileIndex → List GraphNode → FileIndex
  unfolding index_file
  index_files ix [] = ix
  index_files ix (n ∷ ns) = index_files (index_file ix n) ns

-- A value that passes `if (!s)`: neither missing nor the empty text.
abbrev pub truthy : Option String → Option String
truthy none = none
truthy (some s) = if s == "" then none else some s

module _ {N : Type 0} ⦃a : Arith N⦄ where
  abbrev pair_of : Option String → Option String → N → Option ((String × String) × N)
  pair_of (some s) (some d) w = if s == d then none else some ((s, d), w)
  pair_of _ _ w = none

  -- The body of the edge loop: `continue` is `none`.
  unfoldable pub cross_entry : JsMap String String → GraphEdge N → Option ((String × String) × N)
  cross_entry by_file e =
      pair_of (truthy (lookup by_file e.src_id)) (truthy (lookup by_file e.dst_id)) (edge_weight e)

  unfoldable pub cross_weights :
      JsMap String String → List (GraphEdge N) → JsMap (String × String) N
  unfolding tally
  cross_weights by_file edges = tally (cross_entry by_file) [] edges

module _ {N : Type 0} where
  -- `connected` (and `referenced` of barrel-resolve.ts): the ids at either end of an edge.
  unfoldable pub connect : List String → List (GraphEdge N) → List String
  connect seen [] = seen
  connect seen (e ∷ es) = connect (add (add seen e.src_id) e.dst_id) es
