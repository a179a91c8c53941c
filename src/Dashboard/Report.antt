-- ===== src/Dashboard/Report.antt =====
-- What the dashboard reads of a report on one churn window (runGraphReportCommand of
-- packages/cli/src/commands/graph-report.ts). `S` is the type of scores that are no whole numbers:
-- page ranks, shares and recencies.
use codewatch.Base.{Option, ℤ, List, String, ℕ}

pub record Hotspot (S : Type 0) : Type 0 where
  pub node_id : String
  pub churn : ℕ
  pub complexity : ℕ
  pub score : ℕ
  pub recency : S

pub record BusFactorRisk (S : Type 0) : Type 0 where
  pub node_id : String
  pub top_author_share : S
  pub churn : ℕ

pub record TestCoverageRisk (S : Type 0) : Type 0 where
  pub node_id : String
  pub test_bus_factor : ℕ
  pub test_top_author_share : S
  pub linked_tests : ℕ

pub record CouplingCluster : Type 0 where
  pub file_a : String
  pub file_b : String
  pub count : ℕ

pub record HotspotDelta : Type 0 where
  pub node_id : String
  pub before : ℕ
  pub after : ℕ
  pub delta : ℤ

pub record NewHotspot : Type 0 where
  pub node_id : String
  pub score : ℕ
  pub before : Option ℕ

pub record Drift : Type 0 where
  pub baseline_snapshot : ℕ
  pub new_hotspots : List NewHotspot
  pub worsened_hotspots : List HotspotDelta
  pub improved_hotspots : List HotspotDelta
  pub resolved_hotspots : List HotspotDelta
  pub new_silos : List String
  pub new_coupling : List CouplingCluster

pub record GraphReport (S : Type 0) : Type 0 where
  pub snapshot_id : ℕ
  pub hotspots : List (Hotspot S)
  pub bus_factor_risks : List (BusFactorRisk S)
  pub test_coverage_risks : List (TestCoverageRisk S)
  pub coupling_clusters : List CouplingCluster
  pub central_files : List (String × S)
  pub drift : Option Drift
