-- ===== src/Audit/GraphWalk.antt =====
-- packages/cli/src/commands/audit-graph-walk.ts: the tests that reach a symbol through its callers.
pub mod Reach
pub mod Calls
use codewatch.Base.{
  zero, ◌||◌, group_at, ◌++◌, ◌==◌, contains, keep, [], string_eq, not, Bool, if◌then◌else◌, push,
  ◌∷◌, suc, ℕ, JsMap, List, Option, String, none, some,
}
use codewatch.Graph.{GraphEdge}

abbrev caller_of : {N : Type 0} → GraphEdge N → Option (String × String)
caller_of e =
    if not (e.kind == "calls") || e.src_id == e.dst_id then none else some (e.dst_id, e.src_id)

abbrev add_caller :
    JsMap String (List String) → Option (String × String) → JsMap String (List String)
add_caller m none = m
add_caller m (some (callee, caller)) = push m callee caller

unfoldable pub callers_by_callee :
    {N : Type 0} → JsMap String (List String) → List (GraphEdge N) → JsMap String (List String)
callers_by_callee m [] = m
callers_by_callee m (e ∷ es) = callers_by_callee (add_caller m (caller_of e)) es

-- `seen`, and the stack with its top in front.
pub record Walk : Type 0 where
  pub seen : List String
  pub stack : List String

abbrev pub visit_caller : Walk → String → Walk
visit_caller w caller =
    if contains w.seen caller
    then w
    else record { seen = w.seen ++ caller ∷ []; stack = caller ∷ w.stack }

abbrev pub visit_callers : Walk → List String → Walk
visit_callers w [] = w
visit_callers w (c ∷ cs) = visit_callers (visit_caller w c) cs

-- The `while` loop, on fuel.
unfoldable pub walk_callers : JsMap String (List String) → ℕ → Walk → Walk
walk_callers callers zero w = w
walk_callers callers (suc fuel) w = elim w.stack [
  | [] ↦ w
  | id ∷ stack ↦
      walk_callers callers fuel
        (visit_callers (record { seen = w.seen; stack = stack }) (group_at callers id))
]

unfoldable pub reaching_tests :
    ℕ → String → JsMap String (List String) → (String → Bool) → List String
reaching_tests fuel id callers is_test =
    keep is_test (walk_callers callers fuel (record { seen = id ∷ []; stack = id ∷ [] })).seen
