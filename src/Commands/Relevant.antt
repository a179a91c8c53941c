-- ===== src/Commands/Relevant.antt =====
-- packages/cli/src/commands/graph-relevant.ts: the nodes that matter for what is edited, ranked. The
-- page ranks and the matching of patterns are the graph library's. The limits are natural numbers.
pub mod Budget
use codewatch.Base.{
  ◌&&◌, ◌||◌, ltb, ◌==◌, string_eq, length, not, ◌/◌, contains, [], or_else, false, ◌++◌, keep, map,
  if◌then◌else◌, ◌∷◌, some, lookup, ◌+◌, take, none, Bool, ◌*◌, flat_map, Option, String, units,
  List, JsMap, ℕ,
}
use codewatch.Graph.{GraphNode}
use codewatch.Render.Collapse.{truthy}

pub record RankedNode (S : Type 0) : Type 0 where
  pub node_id : String
  pub score : S

-- What the table `nodeById` says of a node.
pub record TableNode : Type 0 where
  pub name : String
  pub kind : String
  pub role : Option String
  pub parent_id : Option String

pub record RowFilter : Type 0 where
  pub node_by_id : JsMap String TableNode
  pub excluded : String → Bool
  pub excluded_roles : List String
  pub seed_set : List String
  pub kind_filter : Option String

pub record RelevantRow (S : Type 0) : Type 0 where
  pub rank : ℕ
  pub node_id : String
  pub name : String
  pub kind : String
  pub role : Option String
  pub parent_id : Option String
  pub score : S

abbrev wrong_kind : Option String → TableNode → Bool
wrong_kind none node = false
wrong_kind (some k) node = not (node.kind == k)

abbrev dropped_role : List String → Option String → Bool
dropped_role roles none = false
dropped_role roles (some r) = contains roles r

abbrev kept_node : RowFilter → String → Option TableNode → Bool
kept_node f id none = false
kept_node f id (some node) = not (
    wrong_kind (truthy f.kind_filter) node
    || f.excluded id
    || dropped_role f.excluded_roles (truthy node.role))

unfoldable pub keep_row : RowFilter → String → Bool
keep_row f id = if contains f.seed_set id then false else kept_node f id (lookup f.node_by_id id)

abbrev some_list : List String → Option (List String)
some_list [] = none
some_list (x ∷ xs) = some (x ∷ xs)

-- `none` where the source throws: no node matches a pattern. `patterns` are the seeds asked for.
unfoldable pub resolve_seeds :
    (List String → String → Bool) → List GraphNode → List String → Option (List String)
resolve_seeds matches nodes [] = some []
resolve_seeds matches nodes (p ∷ ps) =
    some_list (map (λ n. n.id) (keep (λ n. matches (p ∷ ps) n.id) nodes))

-- A ranked node with its entry of the table.
abbrev pub Found : Type 0 → Type 0
Found S = RankedNode S × TableNode

module _ {S : Type 0} where
  -- The node is in the table (`nodeById.get(r.nodeId)!`).
  abbrev pub to_row : RankedNode S → ℕ → TableNode → RelevantRow S
  to_row r rank node = record {
    rank = rank;
    node_id = r.node_id;
    name = node.name;
    kind = node.kind;
    role = node.role;
    parent_id = node.parent_id;
    score = r.score;
  }

  abbrev pub rows_from : ℕ → List (Found S) → List (RelevantRow S)
  rows_from n [] = []
  rows_from n ((r, node) ∷ rest) = to_row r n node ∷ rows_from (n + 1) rest

  unfoldable pub slice_by_limit : List (Found S) → ℕ → List (RelevantRow S)
  slice_by_limit ranked limit = rows_from 1 (take limit ranked)

  abbrev pub line_chars : Found S → ℕ
  line_chars f = units f.0.node_id + 12

  -- `rows` and `used_chars` of the loop.
  unfoldable pub fill_budget :
      ℕ → List (RelevantRow S) → ℕ → List (Found S) → List (RelevantRow S) × ℕ
  fill_budget budget rows used [] = (rows, used)
  fill_budget budget rows used (f ∷ fs) =
      let rest =
        fill_budget budget (rows ++ to_row f.0 (length rows + 1) f.1 ∷ []) (used + line_chars f)
          fs in
      if ltb 0 (length rows) && ltb budget (used + line_chars f) then (rows, used) else rest

  unfoldable pub slice_by_token_budget : List (Found S) → ℕ → List (RelevantRow S) × ℕ
  slice_by_token_budget ranked max_tokens =
      let (rows, used) = fill_budget (max_tokens * 4) [] 0 ranked in (rows, (used + 3) / 4)

  unfoldable pub slice_rows : List (Found S) → Option ℕ → Option ℕ → List (RelevantRow S) × Option ℕ
  slice_rows ranked (some max_tokens) limit =
      let (rows, tokens) = slice_by_token_budget ranked max_tokens in (rows, some tokens)
  slice_rows ranked none limit = (slice_by_limit ranked (or_else limit 30), none)

  abbrev found : JsMap String TableNode → RankedNode S → List (Found S)
  found by_id r = elim (lookup by_id r.node_id) [ none ↦ [] | some node ↦ (r, node) ∷ [] ]

  -- The rows that pass the filter have a node.
  unfoldable pub filtered_rows : RowFilter → List (RankedNode S) → List (Found S)
  filtered_rows f rows = flat_map (found f.node_by_id) (keep (λ r. keep_row f r.node_id) rows)
