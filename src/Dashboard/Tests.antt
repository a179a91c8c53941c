-- ===== src/Dashboard/Tests.antt =====
-- Small cases of the dashboard.
use Prim.Native.Char.{code}
use text.Mathlib.TextEquality.{Char-path}
use codewatch.Graph.{GraphEdge, WeightAttr}
use codewatch.Dashboard.Report.{GraphReport}
use codewatch.Dashboard.Health.{HealthInput, compute_health, compute_health_bounds}
use codewatch.Dashboard.Context.{Reads, SnapshotContext, classify_coupling, snapshot_context}
use codewatch.Dashboard.Context.Hidden.{IsTextOrder, is_end, joins, classify_coupling_lem}
use codewatch.Dashboard.Payload.{Comparisons, DashboardPayload, PayloadOptions}
use codewatch.Dashboard.Windows.{
  ChurnWindow, StoredWindows, WindowData, WindowReads, window_data, compute_window_payloads,
  window_key, windows_list,
}
use codewatch.Dashboard.Windows.Kept.{payload_of}
use codewatch.Dashboard.Windows.Result.{IsFaithful, data_of, compute_window_payloads_lem}
use codewatch.Dashboard.Windows.{window_steps}
use codewatch.Dashboard.Payload.{build_payload}
use codewatch.Base.{
  read_digits, read_digits-numeral, ap, sort_by, string_eq, not, eqb, numeral, ◌&&◌, leb, ◌||◌,
  arith, some, lookup, ltb, refl, false, if◌then◌else◌, true, any, ◌↔◌, [], Bool, Memᴰ, ◌≤◌, String,
  ℕ, none, ◌∷◌, glue, ◌≡◌,
}

abbrev busy : HealthInput
busy = record {
  scary = 1;
  new_violations = 2;
  carry_violations = 0;
  max_complexity = 41;
  hidden_coupling = 1;
}

-- Ten points for the hotspot, sixteen for the rules, eleven for complexity, two for coupling.
busy_health : (compute_health busy).health ≡ 61
unfolding compute_health
busy_health = refl

compute_health_bounds_example :
    (25 ≤ (compute_health busy).health)
    × ((compute_health busy).health ≤ 100)
    × (((compute_health busy).health ≡ 100) ↔ (
        (busy.scary ≡ 0)
        × (busy.new_violations ≡ 0)
        × (busy.carry_violations ≡ 0)
        × (busy.max_complexity ≤ 30)
        × (busy.hidden_coupling ≡ 0)))
compute_health_bounds_example = compute_health_bounds busy

-- The order of texts by their characters' numbers.
abbrev earlier : String → String → Bool
earlier String.[] String.[] = false
earlier String.[] (String.◌∷◌ d t) = true
earlier (String.◌∷◌ c s) String.[] = false
earlier (String.◌∷◌ c s) (String.◌∷◌ d t) =
    ltb (code c) (code d) || (eqb (code c) (code d) && earlier s t)

earlier-asym : (a b : String) → earlier a b ≡ true → earlier b a ≡ false
earlier-asym String.[] String.[] h = cc
earlier-asym String.[] (String.◌∷◌ d t) h = refl
earlier-asym (String.◌∷◌ c s) String.[] h = cc
earlier-asym (String.◌∷◌ c s) (String.◌∷◌ d t) h = ground (arith, h, earlier-asym s t)

earlier-connex : (a b : String) → earlier a b ≡ false → earlier b a ≡ false → a ≡ b
earlier-connex String.[] String.[] h k = refl
earlier-connex String.[] (String.◌∷◌ d t) h k = cc
earlier-connex (String.◌∷◌ c s) String.[] h k = cc
earlier-connex (String.◌∷◌ c s) (String.◌∷◌ d t) h k =
    let same : code c ≡ code d = ground (arith, h, k) in
    let rest : s ≡ t = earlier-connex s t (ground (arith, h, same)) (ground (arith, k, same)) in
    λ i. String.◌∷◌ (Char-path c d same i) (rest i)

earlier-IsTextOrder : IsTextOrder earlier
earlier-IsTextOrder = record { asym = earlier-asym; connex = earlier-connex }

abbrev import : String → String → GraphEdge ℕ
import a b = record { src_id = a; dst_id = b; kind = "imports"; weight = WeightAttr.missing }

-- `a` imports `b`, `d` imports `c`; so `a` and `c` are linked to others, not to each other.
abbrev reads : Reads ℕ
reads = record {
  nodes = [];
  edges = import "a" "b" ∷ (import "d" "c" ∷ []);
  all_edges = [];
  metrics = [];
  symbol_nodes = [];
}

abbrev context : SnapshotContext ℕ
context =
    snapshot_context earlier (λ nodes edges. [])
      (λ edges. record { symbol_coupling = []; symbol_consumers = [] }) reads

classify_coupling_lem_example :
    ((classify_coupling earlier "c" "a" context).hidden ≡ (
      any (is_end "c") reads.edges
      && any (is_end "a") reads.edges
      && not (any (joins "c" "a") reads.edges)))
    × ((classify_coupling earlier "c" "a" context).unindexed
        ≡ not (any (is_end "c") reads.edges && any (is_end "a") reads.edges))
classify_coupling_lem_example =
    classify_coupling_lem earlier (λ nodes edges. [])
      (λ edges. record { symbol_coupling = []; symbol_consumers = [] }) reads "c" "a"
      earlier-IsTextOrder

abbrev by_code : Comparisons ℕ
by_code = record {
  code_before = earlier;
  locale_before = earlier;
  above = λ a b. ltb b a;
  zero_score = 0;
}

abbrev options : PayloadOptions
options = record { vs = none; repo = none }

-- The churn is the same in 90 and in 180 days.
abbrev churn_in : ChurnWindow → ℕ
churn_in (ChurnWindow.days n) = if leb 90 n then 8 else 3
churn_in ChurnWindow.lifetime = 20

-- A report with one hotspot.
abbrev report_with : ℕ → GraphReport ℕ
report_with churn = record {
  snapshot_id = 4;
  hotspots = record { node_id = "a"; churn = churn; complexity = 5; score = 5; recency = 1 } ∷ [];
  bus_factor_risks = [];
  test_coverage_risks = [];
  coupling_clusters = [];
  central_files = [];
  drift = none;
}

-- The text of the first hotspot's churn, in which alone the windows differ.
abbrev churns : WindowData ℕ → String
churns d = elim d.hotspots [ [] ↦ "" | h ∷ hs ↦ numeral h.churn ]

abbrev window_reads : WindowReads ℕ
window_reads = record {
  report = λ w. report_with (churn_in w);
  context = λ id. context;
  authors = λ w. none;
  violations = [];
  arch = record { boundary_health = none; packages = [] };
  stringify = churns;
}

abbrev stored : StoredWindows
stored = record { finite = 30 ∷ (90 ∷ (180 ∷ [])); lifetime = false }

abbrev half_year : ChurnWindow
half_year = ChurnWindow.days 180

-- The half year has the data of ninety days, which come first.
half_year_key :
    (compute_window_payloads by_code window_reads options half_year stored).primary_key ≡ "90"
unfolding compute_window_payloads glue window_steps windows_list sort_by build_payload
half_year_key = refl

abbrev data_with : ℕ → WindowData ℕ
data_with churn =
    window_data
      (build_payload by_code (report_with churn) [] window_reads.arch options none context)

numeral_inj : (m n : ℕ) → numeral m ≡ numeral n → m ≡ n
numeral_inj m n h =
    ground (arith, read_digits-numeral m, read_digits-numeral n, ap (read_digits 0) h)

churns_tell : IsFaithful by_code window_reads options half_year
unfolding build_payload
churns_tell v w h = ap data_with (numeral_inj (churn_in v) (churn_in w) h)

compute_window_payloads_lem_example :
    Memᴰ half_year (windows_list stored half_year)
    × ((v : ChurnWindow) × Memᴰ v (windows_list stored half_year)
        × (lookup
              (compute_window_payloads by_code window_reads options half_year stored).windows
              (window_key v)
            ≡ some (payload_of by_code window_reads options half_year v))
        × (data_of by_code window_reads options half_year v
            ≡ data_of by_code window_reads options half_year half_year)
        × ((k : String) (p : DashboardPayload ℕ)
            → lookup
                (compute_window_payloads by_code window_reads options half_year stored).windows
                k
              ≡ some p
            → window_data p ≡ data_of by_code window_reads options half_year half_year
            → k ≡ window_key v)
        × (half_year ≡ half_year
            → (compute_window_payloads by_code window_reads options half_year stored).primary_key
              ≡ window_key v))
unfolding windows_list sort_by
compute_window_payloads_lem_example =
    compute_window_payloads_lem by_code window_reads options half_year stored (λ v. cc) churns_tell
      half_year (Memᴰ.tail (Memᴰ.tail (Memᴰ.head refl)))
