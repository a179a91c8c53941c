-- ===== src/Eval/Ledger/Trace.antt =====
-- traceBeforeFirstEdit of coding-ledger.ts: the turns and the files read before the first edit.
use codewatch.Base.{
  add_all, not, ◌-◌, add, string_eq, length, any, contains, ◌&&◌, ◌∷◌, none, Bool, flat_map, [],
  if◌then◌else◌, some, String, List,
}
use codewatch.Eval.Json.{Json, get, text_of, is_text, items_of}
use codewatch.Eval.Ledger.{EditTrace, call_id, string_of, is_assistant, is_sidechain}

abbrev edit_tools : List String
edit_tools = "Edit" ∷ ("Write" ∷ [])

abbrev read_path : Json → List String
read_path block =
    if is_text (get block "type") "tool_use" && is_text (get block "name") "Read"
    then elim (text_of (get (get block "input") "file_path")) [ none ↦ [] | some p ↦ p ∷ [] ]
    else []

abbrev read_paths : List Json → List String
read_paths blocks = flat_map read_path blocks

module _ (show : Json → String) where
  abbrev has_edit : List Json → Bool
  has_edit blocks =
      any
        (λ b.
          is_text (get b "type") "tool_use" && contains edit_tools (string_of show (get b "name")))
        blocks

  abbrev is_main_turn : Json → Bool
  is_main_turn event = is_assistant show event && not (is_sidechain show event)

  abbrev edit_found : List String → List String → String → EditTrace
  edit_found turns files id = record {
    pre_edit_turns = some (if contains turns id then length turns - 1 else length turns);
    read_files = files;
  }

  -- `turns` and `files` are the sets so far.
  unfoldable pub trace_from : List String → List String → List Json → EditTrace
  trace_from turns files [] = record { pre_edit_turns = none; read_files = files }
  trace_from turns files (e ∷ es) =
      let message = get e "message" in
      let id = call_id show message (length turns) in
      let blocks = items_of (get message "content") in
      let skipped = trace_from turns files es in
      let next = trace_from (add turns id) (add_all files (read_paths blocks)) es in
      if not (is_main_turn e)
      then skipped
      else if has_edit blocks
      then edit_found turns files id
      else next

  unfoldable pub trace_before_first_edit : List Json → EditTrace
  trace_before_first_edit events = trace_from [] [] events
