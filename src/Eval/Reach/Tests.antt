-- ===== src/Eval/Reach/Tests.antt =====
-- A small walk over imports.
use codewatch.Eval.Workspace.{Workspace}
use codewatch.Eval.Imports.{extract_import_specifiers, specifiers}
use codewatch.Eval.Stratify.{resolve_relative_specifier, strip_end, normalize_posix}
use codewatch.Eval.Reach.{import_hops, walk_hops, reach_files, reach_targets, resolved_imports}
use codewatch.Eval.Reach.Shortest.{Chain}
use codewatch.Eval.Reach.Shortest.Hops.{ReadsContent, import_hops_lem, imports_of}
use codewatch.Base.{
  strip_prefix, trim_start, glue, segments, before_last_slash, arith, ◌≤◌, ℕ, ◌↔◌, some, refl,
  string_eq, ◌≡◌, or_else, ◌∷◌, [], JsMap, lookup, String, List,
}

-- The test imports `b`, which imports `a`, which imports `b`.
abbrev sources : JsMap String String
sources =
    ("test/b.ts", "import { b } from '../src/b.js'")
    ∷ (("src/b.ts", "import './a'") ∷ (("src/a.ts", "require(\"./b\")") ∷ []))

abbrev files : List String
files = "src/a.ts" ∷ ("src/b.ts" ∷ [])

abbrev tests : List String
tests = "test/b.ts" ∷ []

abbrev read_all : List String → JsMap String String
read_all batch = sources

abbrev content : String → String
content f = or_else (lookup sources f) ""

abbrev no_workspace : Workspace
no_workspace = []

read_all-ReadsContent : ReadsContent read_all content
read_all-ReadsContent = record { reads = λ batch f m. refl }

hops_of_a : lookup (import_hops files no_workspace read_all 3 tests) "src/a.ts" ≡ some 2
unfolding import_hops walk_hops reach_files reach_targets resolved_imports extract_import_specifiers
    specifiers strip_prefix trim_start resolve_relative_specifier glue strip_end normalize_posix
    segments before_last_slash
hops_of_a = refl

import_hops_lem_example :
    (lookup (import_hops files no_workspace read_all 3 tests) "src/a.ts" ≡ some 2) ↔ (
      Chain (imports_of files no_workspace content) tests 2 "src/a.ts"
      × ((m : ℕ) → Chain (imports_of files no_workspace content) tests m "src/a.ts" → 2 ≤ m))
import_hops_lem_example =
    import_hops_lem files no_workspace read_all content 3 tests read_all-ReadsContent (omega arith)
      "src/a.ts" 2
