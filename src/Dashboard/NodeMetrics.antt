-- ===== src/Dashboard/NodeMetrics.antt =====
-- packages/cli/src/commands/dashboard-node-metrics.ts: the metrics of the nodes that the dashboard
-- can open on, and the central files. Metric values are whole numbers.
use codewatch.Base.{
  sort_by, keys, ◌++◌, contains, or_else, lookup, if◌then◌else◌, string_eq, map, ◌∷◌, add_all, [],
  flat_map, insert, Option, Bool, List, some, none, String, JsMap, ℕ,
}
use codewatch.Dashboard.Report.{GraphReport, Drift}

pub record NodeMetrics : Type 0 where
  pub loc : Option ℕ
  pub cognitive_max : Option ℕ
  pub cyclomatic_max : Option ℕ
  pub max_nesting : Option ℕ
  pub fan_in : Option ℕ
  pub fan_out : Option ℕ
  pub utilization : Option ℕ
  pub linked_tests : Option ℕ
  pub role : Option String

abbrev pub no_metrics : NodeMetrics
no_metrics = record {
  loc = none;
  cognitive_max = none;
  cyclomatic_max = none;
  max_nesting = none;
  fan_in = none;
  fan_out = none;
  utilization = none;
  linked_tests = none;
  role = none;
}

pub data MetricField : Type 0 where
  loc : MetricField
  cognitive_max : MetricField
  cyclomatic_max : MetricField
  max_nesting : MetricField
  fan_in : MetricField
  fan_out : MetricField
  utilization : MetricField
  linked_tests : MetricField

abbrev pub metric_field : JsMap String MetricField
metric_field =
    ("loc", MetricField.loc)
    ∷ (("cognitive_max", MetricField.cognitive_max)
        ∷ (("cyclomatic_max", MetricField.cyclomatic_max)
            ∷ (("max_nesting_depth", MetricField.max_nesting)
                ∷ (("fan_in", MetricField.fan_in)
                    ∷ (("fan_out", MetricField.fan_out)
                        ∷ (("utilization", MetricField.utilization)
                            ∷ (("linked_test_count", MetricField.linked_tests)
                                ∷ (("symbol_cognitive", MetricField.cognitive_max)
                                    ∷ (("symbol_cyclomatic", MetricField.cyclomatic_max)
                                        ∷ (("symbol_loc", MetricField.loc) ∷ []))))))))))

abbrev set_field : MetricField → ℕ → NodeMetrics → NodeMetrics
set_field MetricField.loc v e = record e { loc = some v }
set_field MetricField.cognitive_max v e = record e { cognitive_max = some v }
set_field MetricField.cyclomatic_max v e = record e { cyclomatic_max = some v }
set_field MetricField.max_nesting v e = record e { max_nesting = some v }
set_field MetricField.fan_in v e = record e { fan_in = some v }
set_field MetricField.fan_out v e = record e { fan_out = some v }
set_field MetricField.utilization v e = record e { utilization = some v }
set_field MetricField.linked_tests v e = record e { linked_tests = some v }

pub record MetricRow : Type 0 where
  pub node_id : String
  pub name : String
  pub value : Option ℕ

abbrev add_metric :
    JsMap String NodeMetrics → MetricRow → Option MetricField → Option ℕ → JsMap String NodeMetrics
add_metric by_node m (some f) (some v) =
    insert by_node m.node_id (set_field f v (or_else (lookup by_node m.node_id) no_metrics))
add_metric by_node m _ _ = by_node

unfoldable pub collect_node_metrics :
    JsMap String NodeMetrics → List MetricRow → JsMap String NodeMetrics
collect_node_metrics by_node [] = by_node
collect_node_metrics by_node (m ∷ ms) =
    collect_node_metrics (add_metric by_node m (lookup metric_field m.name) m.value) ms

abbrev drift_nodes : Option Drift → List String
drift_nodes none = []
drift_nodes (some d) =
    map (λ h. h.node_id) d.new_hotspots
    ++ (map (λ h. h.node_id) d.worsened_hotspots
        ++ flat_map (λ c. c.file_a ∷ (c.file_b ∷ [])) d.new_coupling)

abbrev set_metrics :
    JsMap String NodeMetrics → String → Option NodeMetrics → JsMap String NodeMetrics
set_metrics out id none = out
set_metrics out id (some m) = insert out id m

abbrev metrics_at :
    JsMap String NodeMetrics → JsMap String NodeMetrics → List String → JsMap String NodeMetrics
metrics_at metrics out [] = out
metrics_at metrics out (id ∷ ids) = metrics_at metrics (set_metrics out id (lookup metrics id)) ids

module _ {S : Type 0} where
  abbrev cluster_files : GraphReport S → List String
  cluster_files report = flat_map (λ c. c.file_a ∷ (c.file_b ∷ [])) report.coupling_clusters

  unfoldable pub referenced_nodes : GraphReport S → List String
  referenced_nodes report = add_all [] (
      map (λ h. h.node_id) report.hotspots
      ++ (map (λ b. b.node_id) report.bus_factor_risks
          ++ (map (λ t. t.node_id) report.test_coverage_risks
              ++ (cluster_files report
                  ++ (map (λ c. c.0) report.central_files ++ drift_nodes report.drift)))))

  unfoldable pub build_node_metrics :
      GraphReport S → JsMap String NodeMetrics → JsMap String NodeMetrics
  unfolding referenced_nodes
  build_node_metrics report metrics = metrics_at metrics [] (referenced_nodes report)

  abbrev set_scores : JsMap String S → List (String × S) → JsMap String S
  set_scores m [] = m
  set_scores m ((id, s) ∷ rest) = set_scores (insert m id s) rest

  abbrev fill_scores : S → JsMap String S → JsMap String S → List String → JsMap String S
  fill_scores zero_score centrality m [] = m
  fill_scores zero_score centrality m (id ∷ ids) =
      fill_scores zero_score centrality
        (if contains (keys m) id
          then m
          else insert m id (or_else (lookup centrality id) zero_score))
        ids

  -- `above a b` is `a > b` on scores; a `sort` by `b.score - a.score`.
  unfoldable pub build_central_files :
      (S → S → Bool) → S → GraphReport S → JsMap String S → List (String × S)
  build_central_files above zero_score report centrality =
      let referenced = add_all [] (
        map (λ h. h.node_id) report.hotspots
        ++ (map (λ b. b.node_id) report.bus_factor_risks ++ cluster_files report)) in
      sort_by (λ p q. above p.1 q.1)
        (fill_scores zero_score centrality (set_scores [] report.central_files) referenced)
