-- ===== src/Eval/Reach.antt =====
-- packages/cli/src/eval/coding-reach.ts: how many imports away from the tests a file is. Reading
-- the sources of a batch of files is a parameter.
pub mod Level
pub mod Shortest
mod Tests
use codewatch.Eval.Imports.{extract_import_specifiers}
use codewatch.Eval.Stratify.{resolve_relative_specifier}
use codewatch.Eval.Workspace.{Workspace, resolve_workspace_specifier}
use codewatch.Base.{
  ◌++◌, string_eq, lookup, zero, none, ◌+◌, or_else, insert, keys, is_some, some, if◌then◌else◌,
  suc, ◌∷◌, [], Option, String, JsMap, ℕ, List,
}

-- `hops` and `next` of the loop.
pub record HopState : Type 0 where
  pub hops : JsMap String ℕ
  pub next : List String

abbrev pub reach_target : ℕ → HopState → String → HopState
reach_target depth s target =
    if is_some (lookup s.hops target)
    then s
    else record { hops = insert s.hops target depth; next = s.next ++ target ∷ [] }

unfoldable pub reach_targets : ℕ → HopState → List String → HopState
reach_targets depth s [] = s
reach_targets depth s (t ∷ ts) = reach_targets depth (reach_target depth s t) ts

abbrev pub first_of : Option String → Option String → Option String
first_of (some x) o = some x
first_of none o = o

abbrev pub root_hops : JsMap String ℕ → List String → JsMap String ℕ
root_hops m [] = m
root_hops m (r ∷ rs) = root_hops (insert m r 0) rs

abbrev pub add_target : Option String → List String → List String
add_target none targets = targets
add_target (some t) targets = t ∷ targets

module _ (file_ids : List String) (workspace : Workspace) where
  abbrev targets_of : String → List String → List String
  targets_of file [] = []
  targets_of file (spec ∷ specs) =
      add_target
        (first_of (resolve_relative_specifier file spec file_ids)
          (resolve_workspace_specifier file_ids workspace spec))
        (targets_of file specs)

  unfoldable pub resolved_imports : String → String → List String
  resolved_imports file source = targets_of file (extract_import_specifiers source)

  unfoldable pub reach_files : ℕ → JsMap String String → HopState → List String → HopState
  reach_files depth sources s [] = s
  reach_files depth sources s (f ∷ fs) =
      reach_files depth sources
        (reach_targets depth s (resolved_imports f (or_else (lookup sources f) ""))) fs

  -- The `for` loop, on fuel.
  unfoldable pub walk_hops :
      (List String → JsMap String String) → ℕ → ℕ → JsMap String ℕ → List String → JsMap String ℕ
  walk_hops read zero depth hops frontier = hops
  walk_hops read (suc fuel) depth hops frontier = elim frontier [
    | [] ↦ hops
    | f ∷ fs ↦
        let s = reach_files depth (read (f ∷ fs)) (record { hops = hops; next = [] }) (f ∷ fs) in
        walk_hops read fuel (depth + 1) s.hops s.next
  ]

  unfoldable pub import_hops :
      (List String → JsMap String String) → ℕ → List String → JsMap String ℕ
  import_hops read fuel roots =
      let hops = root_hops [] roots in walk_hops read fuel 1 hops (keys hops)

abbrev set_hops : JsMap String (Option ℕ) → List String → JsMap String ℕ → JsMap String (Option ℕ)
set_hops out [] hops = out
set_hops out (f ∷ fs) hops = set_hops (insert out f (lookup hops f)) fs hops

unfoldable pub edit_file_hops : List String → JsMap String ℕ → JsMap String (Option ℕ)
edit_file_hops edit_files hops = set_hops [] edit_files hops
