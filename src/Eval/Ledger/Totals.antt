-- ===== src/Eval/Ledger/Totals.antt =====
-- The ledgers of coding-ledger.ts and how parseArmStream puts them together.
use codewatch.Base.{
  ◌+ℤ◌, string_eq, includes, ◌&&◌, ◌==◌, pos, ◌||◌, is_some, add_all, not, pos_part, values,
  or_else, keep, ltb, [], contains, some, length, ◌∷◌, none, Bool, if◌then◌else◌, map, String,
  Option, List, ℤ,
}
use codewatch.Eval.Json.{Json, get, is_text, entries}
use codewatch.Eval.Ledger.{
  TokenCounts, Ledger, ApiCall, ArmStreamLedgers, empty_counts, combine, uncombine, num,
  from_api_usage, StreamCalls, from_model_usage, parse_events, collect_calls,
}
use codewatch.Eval.Ledger.Trace.{trace_before_first_edit}

abbrev pub sum_counts : TokenCounts → List TokenCounts → TokenCounts
sum_counts acc [] = acc
sum_counts acc (c ∷ cs) = sum_counts (combine acc c) cs

abbrev pub ledger_of : List ApiCall → Ledger
ledger_of calls = record {
  counts = sum_counts empty_counts (map (λ c. c.usage) calls);
  calls = length calls;
}

-- `result` is `null` where the stream has none.
abbrev pub model_usage_entries : Json → List (String × Json)
model_usage_entries result = entries (get result "modelUsage")

abbrev pub usages : List (String × Json) → List TokenCounts
usages es = map (λ e. from_model_usage e.1) es

abbrev pub total_of : List (String × Json) → TokenCounts → TokenCounts
total_of [] other = other
total_of (e ∷ es) other = sum_counts empty_counts (usages (e ∷ es))

abbrev pub session_total : Json → TokenCounts
session_total result = total_of (model_usage_entries result) (from_api_usage (get result "usage"))

abbrev pub arm_model_matcher : String → List ApiCall → String → Bool
arm_model_matcher arm_model main_calls model =
    contains (add_all [] (map (λ c. c.model) main_calls)) model
    || (not (arm_model == "") && includes model arm_model)

abbrev pub helper_ledger : List ApiCall → Json → (String → Bool) → Ledger
helper_ledger sidechain result is_arm_model =
    let arm_sidechain = ledger_of (keep (λ c. is_arm_model c.model) sidechain) in
    let other_models =
      sum_counts empty_counts
        (usages (keep (λ e. not (is_arm_model e.0)) (model_usage_entries result))) in
    record { counts = combine arm_sidechain.counts other_models; calls = length sidechain }

abbrev sum_costs : ℤ → List (String × Json) → ℤ
sum_costs acc [] = acc
sum_costs acc (e ∷ es) = sum_costs (acc +ℤ num (get e.1 "costUSD")) es

abbrev pub result_cost : Json → ℤ
result_cost result =
    let reported = num (get result "total_cost_usd") in
    if ltb 0 (pos_part reported) then reported else sum_costs (pos 0) (model_usage_entries result)

abbrev last_result : Option Json → List Json → Option Json
last_result found [] = found
last_result found (e ∷ es) =
    last_result (if is_text (get e "type") "result" then some e else found) es

abbrev no_calls : StreamCalls
no_calls = record { calls = []; tools = record { seen = []; counts = [] } }

module _ (parse : String → Option Json) (show : Json → String) where
  -- `events.filter(…).at(-1)`, as `null` if there is none.
  abbrev pub result_of : String → Json
  result_of raw = or_else (last_result none (parse_events parse raw)) Json.null

  abbrev pub collected : String → StreamCalls
  collected raw = collect_calls show no_calls (parse_events parse raw)

  abbrev pub main_calls : String → List ApiCall
  main_calls raw = keep (λ c. not c.sidechain) (values (collected raw).calls)

  abbrev pub side_calls : String → List ApiCall
  side_calls raw = keep (λ c. c.sidechain) (values (collected raw).calls)

  abbrev pub is_arm_model : String → String → String → Bool
  is_arm_model raw arm_model = arm_model_matcher arm_model (main_calls raw)

  unfoldable pub parse_arm_stream : String → String → ArmStreamLedgers
  parse_arm_stream raw arm_model =
      let result = result_of raw in
      let main = ledger_of (main_calls raw) in
      let helper = helper_ledger (side_calls raw) result (is_arm_model raw arm_model) in
      let total = session_total result in
      record {
        main = main;
        helper = helper;
        result_total = total;
        ledger_gap = uncombine (uncombine total main.counts) helper.counts;
        has_result = is_some (last_result none (parse_events parse raw));
        tool_calls = (collected raw).tools.counts;
        num_turns = num (get result "num_turns");
        cost_usd = result_cost result;
        trace = trace_before_first_edit show (parse_events parse raw);
      }
