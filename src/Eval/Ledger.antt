-- ===== src/Eval/Ledger.antt =====
-- packages/cli/src/eval/coding-ledger.ts: the tokens of one agent run, split into the agent's own
-- calls and those of its helpers, and what the agent did before its first edit. `JSON.parse` is a
-- parameter, and so is `String(value)` of a value that is neither missing nor a text.
pub mod Trace
pub mod Totals
pub mod Gap
use codewatch.Base.{
  ◌+◌, lookup, add, ◌==◌, string_eq, none, numeral, strip_prefix, [], contains, length, lines_of,
  ◌||◌, insert, some, glue, ◌∷◌, is_some, trim, List, or_else, if◌then◌else◌, not, JsMap, Bool, ℤ,
  ◌+ℤ◌, ◌-ℤ◌, pos, String, Option, ℕ,
}
use codewatch.Eval.Json.{Json, get, is_null, text_of, is_text, items_of, entries}

pub record TokenCounts : Type 0 where
  pub input_tokens : ℤ
  pub cache_create_tokens : ℤ
  pub cache_read_tokens : ℤ
  pub output_tokens : ℤ

pub record Ledger : Type 0 where
  pub counts : TokenCounts
  pub calls : ℕ

pub record ApiCall : Type 0 where
  pub model : String
  pub sidechain : Bool
  pub usage : TokenCounts

pub record EditTrace : Type 0 where
  pub pre_edit_turns : Option ℕ
  pub read_files : List String

pub record ArmStreamLedgers : Type 0 where
  pub main : Ledger
  pub helper : Ledger
  pub result_total : TokenCounts
  pub ledger_gap : TokenCounts
  pub has_result : Bool
  pub tool_calls : JsMap String ℕ
  pub num_turns : ℤ
  pub cost_usd : ℤ
  pub trace : EditTrace

abbrev pub empty_counts : TokenCounts
empty_counts = record {
  input_tokens = pos 0;
  cache_create_tokens = pos 0;
  cache_read_tokens = pos 0;
  output_tokens = pos 0;
}

unfoldable pub total_tokens : TokenCounts → ℤ
total_tokens c =
    pos 0 +ℤ c.input_tokens +ℤ c.cache_create_tokens +ℤ c.cache_read_tokens +ℤ c.output_tokens

-- `combine(a, b, 1)` and `combine(a, b, -1)`
unfoldable pub combine : TokenCounts → TokenCounts → TokenCounts
combine a b = record {
  input_tokens = a.input_tokens +ℤ b.input_tokens;
  cache_create_tokens = a.cache_create_tokens +ℤ b.cache_create_tokens;
  cache_read_tokens = a.cache_read_tokens +ℤ b.cache_read_tokens;
  output_tokens = a.output_tokens +ℤ b.output_tokens;
}

unfoldable pub uncombine : TokenCounts → TokenCounts → TokenCounts
uncombine a b = record {
  input_tokens = a.input_tokens -ℤ b.input_tokens;
  cache_create_tokens = a.cache_create_tokens -ℤ b.cache_create_tokens;
  cache_read_tokens = a.cache_read_tokens -ℤ b.cache_read_tokens;
  output_tokens = a.output_tokens -ℤ b.output_tokens;
}

abbrev pub num : Json → ℤ
num (Json.num n) = n
num _ = pos 0

abbrev pub from_api_usage : Json → TokenCounts
from_api_usage u = record {
  input_tokens = num (get u "input_tokens");
  cache_create_tokens = num (get u "cache_creation_input_tokens");
  cache_read_tokens = num (get u "cache_read_input_tokens");
  output_tokens = num (get u "output_tokens");
}

abbrev pub from_model_usage : Json → TokenCounts
from_model_usage u = record {
  input_tokens = num (get u "inputTokens");
  cache_create_tokens = num (get u "cacheCreationInputTokens");
  cache_read_tokens = num (get u "cacheReadInputTokens");
  output_tokens = num (get u "outputTokens");
}

abbrev parsed : Option Json → List Json → List Json
parsed none events = events
parsed (some v) events = v ∷ events

-- Lines that do not parse are passed over.
abbrev pub parse_line : (String → Option Json) → String → Option Json
parse_line parse line =
    let trimmed = trim line in if is_some (strip_prefix "{" trimmed) then parse trimmed else none

abbrev events_of : (String → Option Json) → List String → List Json
events_of parse [] = []
events_of parse (l ∷ ls) = parsed (parse_line parse l) (events_of parse ls)

unfoldable pub parse_events : (String → Option Json) → String → List Json
parse_events parse raw = events_of parse (lines_of raw)

pub record ToolUses : Type 0 where
  pub seen : List String
  pub counts : JsMap String ℕ

pub record StreamCalls : Type 0 where
  pub calls : JsMap String ApiCall
  pub tools : ToolUses

module _ (show : Json → String) where
  -- `String(value ?? "")`
  abbrev pub string_of : Json → String
  string_of Json.null = ""
  string_of (Json.str s) = s
  string_of v = show v

  abbrev pub count_tool_use : ToolUses → Json → ToolUses
  count_tool_use t block =
      let id = string_of (get block "id") in
      let name = or_else (text_of (get block "name")) "unknown" in
      if not (is_text (get block "type") "tool_use") || contains t.seen id then t else record {
        seen = if id == "" then t.seen else add t.seen id;
        counts = insert t.counts name (or_else (lookup t.counts name) 0 + 1);
      }

  abbrev count_tool_uses : ToolUses → List Json → ToolUses
  count_tool_uses t [] = t
  count_tool_uses t (b ∷ bs) = count_tool_uses (count_tool_use t b) bs

  -- The call's id, or a name from the number of ids so far.
  abbrev pub call_id : Json → ℕ → String
  call_id message n = or_else (text_of (get message "id")) (glue "anon-" (numeral n))

  abbrev pub is_assistant : Json → Bool
  is_assistant event = is_text (get event "type") "assistant"

  abbrev pub is_sidechain : Json → Bool
  is_sidechain event = not (is_null (get event "parent_tool_use_id"))

  abbrev pub collect_call : StreamCalls → Json → StreamCalls
  collect_call s event =
      let message = get event "message" in
      if is_assistant event
      then record {
        calls = insert s.calls (call_id message (length s.calls)) (record {
          model = string_of (get message "model");
          sidechain = is_sidechain event;
          usage = from_api_usage (get message "usage");
        });
        tools = count_tool_uses s.tools (items_of (get message "content"));
      }
      else s

  unfoldable pub collect_calls : StreamCalls → List Json → StreamCalls
  collect_calls s [] = s
  collect_calls s (e ∷ es) = collect_calls (collect_call s e) es
