-- ===== src/Dashboard/Payload.antt =====
-- buildPayload of packages/cli/src/commands/dashboard-payload.ts, less the time of generation, the
-- index version, the reference name and the hints, which are only copied.
use codewatch.Base.{
  [], not, ◌&&◌, if◌then◌else◌, none, keep, insert, string_eq, or_else, ◌==◌, some, leb, ◌∷◌, true,
  length, false, JsMap, Bool, Option, map, List, String, ℕ,
}
use codewatch.Render.Collapse.{truthy}
use codewatch.Dashboard.Report.{
  GraphReport, Hotspot, BusFactorRisk, TestCoverageRisk, CouplingCluster, Drift, NewHotspot,
  HotspotDelta,
}
use codewatch.Dashboard.Health.{HealthComponent, compute_health}
use codewatch.Dashboard.NodeMetrics.{
  NodeMetrics, referenced_nodes, build_node_metrics, build_central_files,
}
use codewatch.Dashboard.Exports.{HotExport, BlastRadiusEntry, build_hot_exports, build_blast_radius}
use codewatch.Dashboard.Coupling.{SymbolCouplingRow, SymbolConsumerGroup}
use codewatch.Dashboard.Context.{SnapshotContext, CouplingClass, classify_coupling}

pub data ViolationStatus : Type 0 where
  new : ViolationStatus
  carry : ViolationStatus
  fixed : ViolationStatus

pub record Violation : Type 0 where
  pub rule : String
  pub is_warning : Bool
  pub file : String
  pub detail : String
  pub status : ViolationStatus

pub record PackageInfo (S : Type 0) : Type 0 where
  pub pkg_id : String
  pub instability : S
  pub abstractness : S
  pub file_count : ℕ
  pub layer : String
  pub cohesion : S
  pub cross_edges : ℕ

pub record ArchInfo (S : Type 0) : Type 0 where
  pub boundary_health : Option S
  pub packages : List (PackageInfo S)

pub record Kpis (S : Type 0) : Type 0 where
  pub health : ℕ
  pub health_breakdown : List HealthComponent
  pub scary_hotspots : ℕ
  pub knowledge_silos : ℕ
  pub boundary_health : Option S
  pub open_new : ℕ
  pub open_carry : ℕ
  pub max_complexity : ℕ

pub record CouplingRow : Type 0 where
  pub a : String
  pub b : String
  pub co_edits : ℕ
  pub class : CouplingClass

pub record DriftPayload : Type 0 where
  pub baseline_snapshot_id : ℕ
  pub new_hotspots : List NewHotspot
  pub worsened : List HotspotDelta
  pub improved : List HotspotDelta
  pub resolved : List HotspotDelta
  pub new_silos : List String
  pub new_coupling : List CouplingRow

pub record DashboardPayload (S : Type 0) : Type 0 where
  pub repo : String
  pub snapshot_id : ℕ
  pub author_count : Option ℕ
  pub baseline : Option (String × ℕ)
  pub kpis : Kpis S
  pub hotspots : List (Hotspot S)
  pub bus_factor_risks : List (BusFactorRisk S)
  pub test_coverage_risks : List (TestCoverageRisk S)
  pub coupling_clusters : List CouplingRow
  pub central_files : List (String × S)
  pub node_metrics : JsMap String NodeMetrics
  pub hot_exports : JsMap String (List HotExport)
  pub blast_radius : List BlastRadiusEntry
  pub symbol_coupling : List SymbolCouplingRow
  pub symbol_consumers : List SymbolConsumerGroup
  pub packages : List (PackageInfo S)
  pub violations : List Violation
  pub drift : Option DriftPayload

abbrev is_new : Violation → Bool
is_new v = elim v.status [ new ↦ true | carry ↦ false | fixed ↦ false ]

abbrev is_carry : Violation → Bool
is_carry v = elim v.status [ new ↦ false | carry ↦ true | fixed ↦ false ]

abbrev is_scary_rule : Violation → Bool
is_scary_rule v = v.rule == "scary-hotspots"

abbrev count_if {ℓ} : {A : Type ℓ} → (A → Bool) → List A → ℕ
count_if p xs = length (keep p xs)

abbrev most : ℕ → List ℕ → ℕ
most m [] = m
most m (n ∷ ns) = most (if leb n m then m else n) ns

abbrev set_churns : {S : Type 0} → JsMap String ℕ → List (Hotspot S) → JsMap String ℕ
set_churns m [] = m
set_churns m (h ∷ hs) = set_churns (insert m h.node_id h.churn) hs

pub record PayloadOptions : Type 0 where
  pub vs : Option String
  pub repo : Option String

-- The comparisons of the runtime: `<` on texts, `localeCompare`, and `>` on scores.
pub record Comparisons (S : Type 0) : Type 0 where
  pub code_before : String → String → Bool
  pub locale_before : String → String → Bool
  pub above : S → S → Bool
  pub zero_score : S

module _ {S : Type 0} (by : Comparisons S) where
  abbrev coupling_row : SnapshotContext S → CouplingCluster → CouplingRow
  coupling_row ctx c = record {
    a = c.file_a;
    b = c.file_b;
    co_edits = c.count;
    class = classify_coupling by.code_before c.file_a c.file_b ctx;
  }

  abbrev drift_payload : SnapshotContext S → Drift → DriftPayload
  drift_payload ctx d = record {
    baseline_snapshot_id = d.baseline_snapshot;
    new_hotspots = d.new_hotspots;
    worsened = d.worsened_hotspots;
    improved = d.improved_hotspots;
    resolved = d.resolved_hotspots;
    new_silos = d.new_silos;
    new_coupling = map (coupling_row ctx) d.new_coupling;
  }

  abbrev kpis_of : GraphReport S → List Violation → ArchInfo S → SnapshotContext S → Kpis S
  kpis_of report violations arch ctx =
      let scary = count_if (λ h. leb 3000 h.score) report.hotspots in
      let max_complexity = most 0 (map (λ h. h.complexity) report.hotspots) in
      let hidden =
        count_if (λ c. (classify_coupling by.code_before c.file_a c.file_b ctx).hidden)
          report.coupling_clusters in
      let result = compute_health (record {
        scary = scary;
        new_violations = count_if (λ v. is_new v && not (is_scary_rule v)) violations;
        carry_violations = count_if (λ v. is_carry v && not (is_scary_rule v)) violations;
        max_complexity = max_complexity;
        hidden_coupling = hidden;
      }) in
      record {
        health = result.health;
        health_breakdown = result.health_breakdown;
        scary_hotspots = scary;
        knowledge_silos = length report.bus_factor_risks;
        boundary_health = arch.boundary_health;
        open_new = count_if is_new violations;
        open_carry = count_if is_carry violations;
        max_complexity = max_complexity;
      }

  abbrev baseline_of : Option Drift → String → String × ℕ
  baseline_of none vs = (vs, 0)
  baseline_of (some d) vs = (vs, d.baseline_snapshot)

  unfoldable pub build_payload :
      GraphReport S
      → List Violation
      → ArchInfo S
      → PayloadOptions
      → Option ℕ
      → SnapshotContext S
      → DashboardPayload S
  build_payload report violations arch opts author_count ctx = record {
    repo = or_else opts.repo "repo";
    snapshot_id = report.snapshot_id;
    author_count = author_count;
    baseline = elim (truthy opts.vs) [ none ↦ none | some vs ↦ some (baseline_of report.drift vs) ];
    kpis = kpis_of report violations arch ctx;
    hotspots = report.hotspots;
    bus_factor_risks = report.bus_factor_risks;
    test_coverage_risks = report.test_coverage_risks;
    coupling_clusters = map (coupling_row ctx) report.coupling_clusters;
    central_files = build_central_files by.above by.zero_score report ctx.centrality;
    node_metrics = build_node_metrics report ctx.metrics;
    hot_exports =
        build_hot_exports ctx.metrics by.locale_before ctx.symbols (referenced_nodes report)
          ctx.consumers_by_symbol;
    blast_radius = build_blast_radius ctx.metrics ctx.symbols (set_churns [] report.hotspots) 15;
    symbol_coupling = elim ctx.symbol_coupling [ none ↦ [] | some p ↦ p.symbol_coupling ];
    symbol_consumers = elim ctx.symbol_coupling [ none ↦ [] | some p ↦ p.symbol_consumers ];
    packages = arch.packages;
    violations = violations;
    drift = elim report.drift [ none ↦ none | some d ↦ some (drift_payload ctx d) ];
  }
