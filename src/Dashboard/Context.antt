-- ===== src/Dashboard/Context.antt =====
-- packages/cli/src/commands/dashboard-payload.ts: what a snapshot says of the files, whatever the
-- churn window, and whether a coupling is hidden. The store's reads and the page ranks are
-- parameters.
pub mod Hidden
use codewatch.Base.{
  pair_eq, none, ◌+◌, lookup, true, ◌&&◌, string_eq, or_else, false, ◌||◌, some, insert, add,
  strip_prefix, keep, contains, if◌then◌else◌, not, is_some, map, [], ◌==◌, ◌∷◌, Option, String,
  JsMap, Bool, List, ℕ,
}
use codewatch.Graph.{GraphNode, GraphEdge}
use codewatch.Render.Collapse.{truthy}
use codewatch.Dashboard.NodeMetrics.{NodeMetrics, MetricRow, no_metrics, collect_node_metrics}
use codewatch.Dashboard.Exports.{SymbolUtil, SymbolNode, collect_symbol_util}
use codewatch.Dashboard.Coupling.{SymbolCouplingPayload, ReferenceEdge}

pub record SnapshotContext (S : Type 0) : Type 0 where
  pub linked_pairs : List (String × String)
  pub centrality : JsMap String S
  pub connected_nodes : List String
  pub metrics : JsMap String NodeMetrics
  pub symbols : List SymbolUtil
  pub consumers_by_symbol : JsMap String ℕ
  pub symbol_coupling : Option SymbolCouplingPayload

pub record CouplingClass : Type 0 where
  pub hidden : Bool
  pub unindexed : Bool

-- `JSON.stringify` of a pair is one to one, so the key is the pair; `code_before a b` is `a < b`.
unfoldable pub pair_key : (String → String → Bool) → String → String → String × String
pair_key code_before a b = if code_before a b then (a, b) else (b, a)

abbrev pub is_external : String → Bool
is_external id = is_some (strip_prefix "npm:" id)

module _ {S : Type 0} (code_before : String → String → Bool) where
  unfoldable pub classify_coupling : String → String → SnapshotContext S → CouplingClass
  unfolding pair_key
  classify_coupling a b ctx =
      let unindexed =
        not (contains ctx.connected_nodes a) || not (contains ctx.connected_nodes b) in
      if unindexed then record { hidden = false; unindexed = true } else record {
        hidden = not (contains ctx.linked_pairs (pair_key code_before a b));
        unindexed = false;
      }

-- The sets that the loop over the edges fills.
pub record Links : Type 0 where
  pub pairs : List (String × String)
  pub connected : List String

module _ {N : Type 0} where
  abbrev pub is_internal_import : GraphEdge N → Bool
  is_internal_import e =
      (e.kind == "imports" || e.kind == "re-exports")
      && not (is_external e.src_id || is_external e.dst_id)

module _ {N : Type 0} (code_before : String → String → Bool) where
  abbrev pub link : Links → GraphEdge N → Links
  link l e =
      if is_internal_import e
      then record {
        pairs = add l.pairs (pair_key code_before e.src_id e.dst_id);
        connected = add (add l.connected e.src_id) e.dst_id;
      }
      else l

  unfoldable pub links_of : Links → List (GraphEdge N) → Links
  links_of l [] = l
  links_of l (e ∷ es) = links_of (link l e) es

abbrev count_consumers : JsMap String ℕ → List ReferenceEdge → JsMap String ℕ
count_consumers m [] = m
count_consumers m (e ∷ es) =
    count_consumers (insert m e.dst_id (or_else (lookup m e.dst_id) 0 + 1)) es

abbrev set_role : JsMap String NodeMetrics → String → Option String → JsMap String NodeMetrics
set_role m id none = m
set_role m id (some r) = insert m id (record (or_else (lookup m id) no_metrics) { role = some r })

abbrev set_roles : JsMap String NodeMetrics → List GraphNode → JsMap String NodeMetrics
set_roles m [] = m
set_roles m (n ∷ ns) = set_roles (set_role m n.id (truthy n.role)) ns

module _ {S : Type 0} where
  abbrev set_ranks : JsMap String S → List (String × S) → JsMap String S
  set_ranks m [] = m
  set_ranks m ((id, s) ∷ rest) = set_ranks (insert m id s) rest

-- What the store answers for a snapshot; `all_edges` has the references too.
pub record Reads (N : Type 0) : Type 0 where
  pub nodes : List GraphNode
  pub edges : List (GraphEdge N)
  pub all_edges : List (GraphEdge N)
  pub metrics : List MetricRow
  pub symbol_nodes : List SymbolNode

module _ {N S : Type 0} (code_before : String → String → Bool)
    (page_ranks : List GraphNode → List (GraphEdge N) → List (String × S))
    (symbol_payload : List ReferenceEdge → SymbolCouplingPayload) where
  abbrev references : List (GraphEdge N) → List ReferenceEdge
  references es =
      map (λ e. record { src_id = e.src_id; dst_id = e.dst_id })
        (keep (λ e. e.kind == "references") es)

  unfoldable pub snapshot_context : Reads N → SnapshotContext S
  snapshot_context db =
      let links = links_of code_before (record { pairs = []; connected = [] }) db.edges in
      let refs = references db.all_edges in
      let metrics = set_roles (collect_node_metrics [] db.metrics) db.nodes in
      record {
        linked_pairs = links.pairs;
        centrality = set_ranks [] (page_ranks db.nodes db.edges);
        connected_nodes = links.connected;
        metrics = metrics;
        symbols = collect_symbol_util db.symbol_nodes metrics;
        consumers_by_symbol = count_consumers [] refs;
        symbol_coupling = some (symbol_payload refs);
      }
