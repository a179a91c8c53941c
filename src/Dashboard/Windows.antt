-- ===== src/Dashboard/Windows.antt =====
-- computeWindowPayloads of packages/cli/src/commands/dashboard-payload.ts: one payload for each
-- churn window whose data differs; and storedChurnWindows of dashboard-windows.ts. The report on a
-- window, the context of a snapshot and the number of authors are parameters, and `stringify`
-- stands for `JSON.stringify`.
pub mod Keys
pub mod Kept
pub mod Result
use Prim.Native.Char.{code}
use codewatch.Base.{
  is_empty, ◌&&◌, leb, ◌-◌, contains, ◌+◌, keep, nat_eq, ◌++◌, add_all, ◌*◌, ◌==◌, true, ltb,
  insert, ◌||◌, add, false, map, some, string_eq, not, eqb, ◌∷◌, numeral, none, strip_prefix,
  sort_by, List, lookup, if◌then◌else◌, String, Option, [], JsMap, Bool, ℕ,
}
use codewatch.Dashboard.Report.{BusFactorRisk, GraphReport, Hotspot, TestCoverageRisk}
use codewatch.Dashboard.Context.{SnapshotContext}
use codewatch.Dashboard.NodeMetrics.{MetricRow}
use codewatch.Dashboard.Payload.{
  Violation, ArchInfo, CouplingRow, Kpis, PayloadOptions, Comparisons, DashboardPayload,
  build_payload,
}

pub data ChurnWindow : Type 0 where
  days : ℕ → ChurnWindow
  lifetime : ChurnWindow

abbrev pub same_window : ChurnWindow → ChurnWindow → Bool
same_window (ChurnWindow.days m) (ChurnWindow.days n) = eqb m n
same_window ChurnWindow.lifetime ChurnWindow.lifetime = true
same_window _ _ = false

-- `String(w)`, which is never empty.
abbrev pub window_key : ChurnWindow → String
window_key (ChurnWindow.days n) = numeral n
window_key ChurnWindow.lifetime = "lifetime"

pub record StoredWindows : Type 0 where
  pub finite : List ℕ
  pub lifetime : Bool

-- `/^(\d+)d$/`: at least one digit, then `d`.
abbrev days_then_d : Bool → ℕ → String → Option ℕ
days_then_d some_digit acc String.[] = none
days_then_d some_digit acc (String.◌∷◌ c s) =
    let more = days_then_d true (acc * 10 + (code c - 48)) s in
    if leb 48 (code c) && leb (code c) 57
    then more
    else if some_digit && eqb (code c) b'd' && is_empty s
    then some acc
    else none

abbrev churn_days : String → Option ℕ
churn_days name = elim (strip_prefix "churn_" name) [
  | none ↦ none
  | some rest ↦ days_then_d false 0 rest
]

abbrev add_days : List ℕ → Option ℕ → List ℕ
add_days finite none = finite
add_days finite (some n) = add finite n

-- The metric names of the latest snapshot, or none if there is none or it cannot be read.
unfoldable pub stored_churn_windows : StoredWindows → List String → StoredWindows
stored_churn_windows w [] = w
stored_churn_windows w (name ∷ names) =
    stored_churn_windows
      (record {
        finite = add_days w.finite (churn_days name);
        lifetime = w.lifetime || name == "churn_lifetime";
      })
      names

abbrev default_windows : List ℕ
default_windows = 30 ∷ (90 ∷ (180 ∷ []))

abbrev primary_finite : ChurnWindow → List ℕ
primary_finite (ChurnWindow.days n) = n ∷ []
primary_finite ChurnWindow.lifetime = []

-- The primary window, and the default ones that the snapshot stored.
abbrev pub offered_days : StoredWindows → ChurnWindow → List ℕ
offered_days stored primary =
    primary_finite primary ++ keep (λ w. contains stored.finite w) default_windows

abbrev pub finite_windows : StoredWindows → ChurnWindow → List ℕ
finite_windows stored primary = sort_by ltb (add_all [] (offered_days stored primary))

unfoldable pub windows_list : StoredWindows → ChurnWindow → List ChurnWindow
windows_list stored primary =
    let finite = map ChurnWindow.days (finite_windows stored primary) in
    if same_window primary ChurnWindow.lifetime || stored.lifetime
    then finite ++ ChurnWindow.lifetime ∷ []
    else finite

pub record WindowState (S : Type 0) : Type 0 where
  pub windows : JsMap String (DashboardPayload S)
  pub sig_to_key : JsMap String String
  pub snapshot_id : ℕ
  pub primary_key : String
  pub snap_ctx : SnapshotContext S

-- The fields of a payload that depend on the window.
pub record WindowData (S : Type 0) : Type 0 where
  pub hotspots : List (Hotspot S)
  pub bus_factor_risks : List (BusFactorRisk S)
  pub test_coverage_risks : List (TestCoverageRisk S)
  pub coupling_clusters : List CouplingRow
  pub violations : List Violation
  pub central_files : List (String × S)
  pub kpis : Kpis S
  pub author_count : Option ℕ

abbrev pub window_data : {S : Type 0} → DashboardPayload S → WindowData S
window_data p = record {
  hotspots = p.hotspots;
  bus_factor_risks = p.bus_factor_risks;
  test_coverage_risks = p.test_coverage_risks;
  coupling_clusters = p.coupling_clusters;
  violations = p.violations;
  central_files = p.central_files;
  kpis = p.kpis;
  author_count = p.author_count;
}

-- What the command reads for a window.
pub record WindowReads (S : Type 0) : Type 0 where
  pub report : ChurnWindow → GraphReport S
  pub context : ℕ → SnapshotContext S
  pub authors : ChurnWindow → Option ℕ
  pub violations : List Violation
  pub arch : ArchInfo S
  pub stringify : WindowData S → String

abbrev pub window_signature : {S : Type 0} → WindowReads S → DashboardPayload S → String
window_signature reads p = reads.stringify (window_data p)

module _ {S : Type 0} (by : Comparisons S) (reads : WindowReads S) (opts : PayloadOptions)
    (primary : ChurnWindow) where
  abbrev pub payload_in : SnapshotContext S → ChurnWindow → DashboardPayload S
  payload_in ctx w =
      build_payload by (reads.report w) reads.violations reads.arch opts (reads.authors w) ctx

  abbrev pub context_for : WindowState S → ChurnWindow → SnapshotContext S
  context_for s w =
      let id = (reads.report w).snapshot_id in
      if not (eqb id s.snapshot_id) then reads.context id else s.snap_ctx

  -- The window's data is that of an earlier one, kept under `key`, or new.
  abbrev pub keep_window :
      WindowState S → ChurnWindow → DashboardPayload S → Option String → WindowState S
  keep_window s w payload (some key) = record s {
    primary_key = if same_window w primary then key else s.primary_key;
  }
  keep_window s w payload none = record s {
    windows = insert s.windows (window_key w) payload;
    sig_to_key = insert s.sig_to_key (window_signature reads payload) (window_key w);
    primary_key = if same_window w primary then window_key w else s.primary_key;
  }

  abbrev pub window_step : WindowState S → ChurnWindow → WindowState S
  window_step s w =
      let ctx = context_for s w in
      let payload = payload_in ctx w in
      keep_window (record s { snapshot_id = (reads.report w).snapshot_id; snap_ctx = ctx }) w
        payload (lookup s.sig_to_key (window_signature reads payload))

  unfoldable pub window_steps : WindowState S → List ChurnWindow → WindowState S
  window_steps s [] = s
  window_steps s (w ∷ ws) = window_steps (window_step s w) ws

  abbrev pub no_context : SnapshotContext S
  no_context = record {
    linked_pairs = [];
    centrality = [];
    connected_nodes = [];
    metrics = [];
    symbols = [];
    consumers_by_symbol = [];
    symbol_coupling = none;
  }

  abbrev pub window_start : WindowState S
  window_start = record {
    windows = [];
    sig_to_key = [];
    snapshot_id = 0;
    primary_key = window_key primary;
    snap_ctx = no_context;
  }

  unfoldable pub compute_window_payloads : StoredWindows → WindowState S
  compute_window_payloads stored = window_steps window_start (windows_list stored primary)
