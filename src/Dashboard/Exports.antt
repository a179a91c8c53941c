-- ===== src/Dashboard/Exports.antt =====
-- packages/cli/src/commands/dashboard-node-metrics.ts: the exports of a file and their blast radius.
use codewatch.Base.{
  ◌&&◌, true, eqb, ◌++◌, push, ◌==◌, string_eq, contains, ◌*◌, ◌||◌, keep, not, ltb, map, [],
  if◌then◌else◌, none, lookup, sort_by, take, some, flat_map, or_else, Option, Bool, ◌∷◌, List,
  JsMap, String, ℕ,
}
use codewatch.Dashboard.NodeMetrics.{NodeMetrics, no_metrics}
use codewatch.Render.Collapse.{truthy}

pub record SymbolUtil : Type 0 where
  pub symbol_id : String
  pub name : String
  pub file_id : String
  pub utilization : ℕ
  pub exported : Bool

-- `attrs?.exported !== false`: `exported_attr` is what the attribute is, where it is a Boolean.
pub record SymbolNode : Type 0 where
  pub id : String
  pub kind : String
  pub name : String
  pub parent_id : Option String
  pub exported_attr : Option Bool

abbrev metric_of : JsMap String NodeMetrics → String → NodeMetrics
metric_of metrics id = or_else (lookup metrics id) no_metrics

abbrev symbol_util : JsMap String NodeMetrics → SymbolNode → Option String → List SymbolUtil
symbol_util metrics n none = []
symbol_util metrics n (some parent) =
    if not (n.kind == "symbol")
    then []
    else record {
      symbol_id = n.id;
      name = n.name;
      file_id = parent;
      utilization = or_else (metric_of metrics n.id).utilization 0;
      exported = or_else n.exported_attr true;
    }
      ∷ []

unfoldable pub collect_symbol_util : List SymbolNode → JsMap String NodeMetrics → List SymbolUtil
collect_symbol_util nodes metrics = flat_map (λ n. symbol_util metrics n (truthy n.parent_id)) nodes

pub record HotExport : Type 0 where
  pub name : String
  pub utilization : ℕ
  pub cognitive : Option ℕ
  pub consumers : ℕ
  pub exported : Bool

pub record BlastRadiusEntry : Type 0 where
  pub symbol_id : String
  pub name : String
  pub file_id : String
  pub utilization : ℕ
  pub complexity : ℕ
  pub loc : Option ℕ
  pub churn : ℕ
  pub score : ℕ

module _ (metrics : JsMap String NodeMetrics) where
  abbrev hot_export : JsMap String ℕ → SymbolUtil → HotExport
  hot_export consumers_by_symbol s = record {
    name = s.name;
    utilization = s.utilization;
    cognitive = (metric_of metrics s.symbol_id).cognitive_max;
    consumers = or_else (lookup consumers_by_symbol s.symbol_id) 0;
    exported = s.exported;
  }

  abbrev exports_by_file :
      List String
      → JsMap String ℕ
      → JsMap String (List HotExport)
      → List SymbolUtil
      → JsMap String (List HotExport)
  exports_by_file referenced consumers m [] = m
  exports_by_file referenced consumers m (s ∷ ss) =
      exports_by_file referenced consumers
        (if contains referenced s.file_id then push m s.file_id (hot_export consumers s) else m) ss

  abbrev export_before : HotExport → HotExport → Bool
  export_before a b =
      ltb b.utilization a.utilization
      || (eqb a.utilization b.utilization && ltb (or_else b.cognitive 0) (or_else a.cognitive 0))

  -- `locale_before a b` is `a.localeCompare(b) < 0`.
  abbrev internal_before : (String → String → Bool) → HotExport → HotExport → Bool
  internal_before locale_before a b =
      ltb (or_else b.cognitive 0) (or_else a.cognitive 0)
      || (eqb (or_else b.cognitive 0) (or_else a.cognitive 0) && locale_before a.name b.name)

  abbrev ranked_exports : (String → String → Bool) → List HotExport → List HotExport
  ranked_exports locale_before syms =
      take 8 (sort_by export_before (keep (λ s. s.exported) syms))
      ++ take 8 (sort_by (internal_before locale_before) (keep (λ s. not s.exported) syms))

  unfoldable pub build_hot_exports :
      (String → String → Bool)
      → List SymbolUtil
      → List String
      → JsMap String ℕ
      → JsMap String (List HotExport)
  build_hot_exports locale_before symbols referenced consumers =
      map (λ p. (p.0, ranked_exports locale_before p.1))
        (exports_by_file referenced consumers [] symbols)

  -- The symbol's own complexity, or its file's.
  abbrev pub complexity_of : SymbolUtil → ℕ
  complexity_of s = elim (metric_of metrics s.symbol_id).cognitive_max [
    | some c ↦ c
    | none ↦ or_else (metric_of metrics s.file_id).cognitive_max 0
  ]

  abbrev blast_entry : JsMap String ℕ → SymbolUtil → List BlastRadiusEntry
  blast_entry churn_by_file s =
      let churn = or_else (lookup churn_by_file s.file_id) 0 in
      let score = s.utilization * complexity_of s * churn in
      if eqb score 0
      then []
      else record {
        symbol_id = s.symbol_id;
        name = s.name;
        file_id = s.file_id;
        utilization = s.utilization;
        complexity = complexity_of s;
        loc = (metric_of metrics s.symbol_id).loc;
        churn = churn;
        score = score;
      }
        ∷ []

  unfoldable pub build_blast_radius : List SymbolUtil → JsMap String ℕ → ℕ → List BlastRadiusEntry
  build_blast_radius symbols churn_by_file limit =
      take limit
        (sort_by (λ a b. ltb b.score a.score) (flat_map (blast_entry churn_by_file) symbols))
