-- ===== src/Eval/Workspace.antt =====
-- packages/cli/src/eval/coding-workspace.ts: the packages of a monorepo, and the source file that a
-- scoped specifier names. `JSON.parse` is a parameter. A specifier has no line end, a part that a
-- star stands for has no `$`, and the path of a manifest ends with its name.
use Prim.Native.Char.{Char, code}
use codewatch.Eval.Json.{Fields, Items, Json, entries, get, text_of}
use codewatch.Eval.Stratify.{join_path, resolve_relative_specifier, strip_end, strip_one}
use codewatch.Base.{
  ◌+◌, ◌||◌, add_all, false, units, string_eq, length, ◌&&◌, ◌++◌, strip_prefix, insert, map, glue,
  eqb, not, ◌==◌, any, is_some, values, lookup, contains, ltb, ◌∷◌, flat_map, push_front, ℕ,
  or_else, segments, if◌then◌else◌, some, Bool, none, [], JsMap, String, Option, List,
}

pub record WorkspacePackage : Type 0 where
  pub name : String
  pub manifest_path : String
  pub manifest : Json

abbrev pub Workspace : Type 0
Workspace = JsMap String WorkspacePackage

unfoldable pub is_manifest_path : String → Bool
is_manifest_path path =
    if contains (segments path) "node_modules"
    then false
    else path == "package.json" || is_some (strip_end "/package.json" path)

abbrev add_package : Workspace → String → Json → Option String → Workspace
add_package out path manifest none = out
add_package out path manifest (some name) =
    insert out name (record { name = name; manifest_path = path; manifest = manifest })

abbrev add_manifest : Workspace → String → Option Json → Workspace
add_manifest out path none = out
add_manifest out path (some manifest) =
    add_package out path manifest (text_of (get manifest "name"))

unfoldable pub parse_workspace :
    (String → Option Json) → Workspace → JsMap String String → Workspace
parse_workspace parse out [] = out
parse_workspace parse out ((path, text) ∷ rest) =
    parse_workspace parse (add_manifest out path (parse text)) rest

unfoldable mutual
  pub string_leaves : Json → List String
  string_leaves (Json.str s) = s ∷ []
  string_leaves (Json.arr vs) = item_leaves vs
  string_leaves (Json.obj fs) = field_leaves fs
  string_leaves Json.null = []
  string_leaves (Json.truth b) = []
  string_leaves (Json.num n) = []

  pub item_leaves : Items → List String
  item_leaves Items.nil = []
  item_leaves (Items.cons v vs) = string_leaves v ++ item_leaves vs

  pub field_leaves : Fields → List String
  field_leaves Fields.end = []
  field_leaves (Fields.field k v fs) = string_leaves v ++ field_leaves fs

abbrev grow_part : Char → List String → List String
grow_part c [] = push_front c "" ∷ []
grow_part c (p ∷ ps) = push_front c p ∷ ps

-- `split("*")`
unfoldable pub split_star : String → List String
split_star String.[] = "" ∷ []
split_star (String.◌∷◌ c s) =
    if eqb (code c) 42 then "" ∷ split_star s else grow_part c (split_star s)

-- `replaceAll("*", word)`
unfoldable pub fill_star : String → String → String
fill_star word String.[] = ""
fill_star word (String.◌∷◌ c s) =
    if eqb (code c) 42 then glue word (fill_star word s) else push_front c (fill_star word s)

abbrev between : String → Option String → Option String
between suffix none = none
between suffix (some rest) = strip_end suffix rest

-- What the star stands for.
abbrev matched : List String → String → Option String
matched (prefix ∷ (suffix ∷ [])) key = between suffix (strip_prefix prefix key)
matched _ key = none

abbrev filled : Json → Option String → List String
filled target none = []
filled target (some word) = map (fill_star word) (string_leaves target)

unfoldable pub pattern_targets : String → Json → String → List String
pattern_targets pattern target key = filled target (matched (split_star pattern) key)

abbrev key_of : Json → String → Bool
key_of exports key = any (λ e. e.0 == key) (entries exports)

abbrev record_targets : Json → String → List String
record_targets exports key =
    if not (any (λ e. is_some (strip_prefix "." e.0)) (entries exports))
    then (if key == "." then string_leaves exports else [])
    else if key_of exports key
    then string_leaves (get exports key)
    else flat_map (λ e. pattern_targets e.0 e.1 key) (entries exports)

unfoldable pub export_targets : Json → String → List String
export_targets (Json.str s) key = if key == "." then s ∷ [] else []
export_targets exports key = record_targets exports key

abbrev build_dirs : List String
build_dirs = "dist/" ∷ ("lib/" ∷ ("build/" ∷ ("out/" ∷ [])))

abbrev declaration_suffixes : List String
declaration_suffixes = ".d.ts" ∷ (".d.cts" ∷ (".d.mts" ∷ []))

abbrev to_source : List String → String → String
to_source [] s = s
to_source (d ∷ ds) s = elim (strip_prefix d s) [
  | none ↦ to_source ds s
  | some rest ↦ glue "src/" rest
]

unfoldable pub source_twins : String → List String
source_twins target =
    let plain = strip_one declaration_suffixes (or_else (strip_prefix "./" target) target) in
    let source = to_source build_dirs plain in
    if source == plain then plain ∷ [] else plain ∷ (source ∷ [])

abbrev text_list : Option String → List String
text_list none = []
text_list (some s) = s ∷ []

abbrev entry_fields : Json → List String
entry_fields manifest =
    flat_map (λ k. text_list (text_of (get manifest k))) ("types" ∷ ("module" ∷ ("main" ∷ [])))

unfoldable pub entry_targets : Json → String → List String
entry_targets manifest subpath =
    let exports = get manifest "exports" in
    if subpath == ""
    then flat_map source_twins (export_targets exports "." ++ entry_fields manifest)
      ++ "src/index" ∷ []
    else flat_map source_twins (export_targets exports (glue "." subpath))
      ++ glue "src" subpath ∷ (or_else (strip_prefix "/" subpath) subpath ∷ [])

abbrev with_subpath : String → List String → Option (String × String)
with_subpath name [] = some (name, "")
with_subpath name (s ∷ ss) =
    let path = join_path (s ∷ ss) in if path == "" then none else some (name, glue "/" path)

abbrev scope_and_name : List String → Option (String × String)
scope_and_name [] = none
scope_and_name (a ∷ []) = none
scope_and_name (a ∷ (b ∷ rest)) =
    if is_some (strip_prefix "@" a) && not (a == "@") && not (b == "")
    then with_subpath (glue a (glue "/" b)) rest
    else none

-- `/^(@[^/]+\/[^/]+)(\/.+)?$/`
unfoldable pub scoped_specifier : String → Option (String × String)
scoped_specifier specifier = scope_and_name (segments specifier)

abbrev pub or_next : Option String → Option String → Option String
or_next (some x) o = some x
or_next none o = o

module _ (file_ids : List String) where
  abbrev pub first_resolved : String → List String → Option String
  first_resolved manifest_path [] = none
  first_resolved manifest_path (t ∷ ts) =
      or_next (resolve_relative_specifier manifest_path (glue "./" t) file_ids)
        (first_resolved manifest_path ts)

  abbrev pub in_package : String → Option WorkspacePackage → Option String
  in_package subpath none = none
  in_package subpath (some pkg) =
      first_resolved pkg.manifest_path (entry_targets pkg.manifest subpath)

  abbrev pub in_workspace : Workspace → Option (String × String) → Option String
  in_workspace workspace none = none
  in_workspace workspace (some (name, subpath)) = in_package subpath (lookup workspace name)

  unfoldable pub resolve_workspace_specifier : Workspace → String → Option String
  resolve_workspace_specifier workspace specifier =
      in_workspace workspace (scoped_specifier specifier)

abbrev root_of : WorkspacePackage → String
root_of pkg = or_else (strip_end "package.json" pkg.manifest_path) ""

abbrev deeper : Option (String × ℕ) → String × ℕ → Option (String × ℕ)
deeper none p = some p
deeper (some best) p = if ltb best.1 p.1 then some p else some best

abbrev best_owner : String → Option (String × ℕ) → List WorkspacePackage → Option (String × ℕ)
best_owner path best [] = best
best_owner path best (pkg ∷ pkgs) =
    let root = root_of pkg in
    best_owner path
      (if is_some (strip_prefix root path) then deeper best (pkg.name, units root) else best) pkgs

abbrev name_of : Option (String × ℕ) → Option String
name_of none = none
name_of (some best) = some best.0

unfoldable pub owning_package : String → Workspace → Option String
owning_package path workspace = name_of (best_owner path none (values workspace))

-- The names, and `null` once.
unfoldable pub packages_spanned : List String → Workspace → ℕ
packages_spanned edit_files workspace =
    let owners = map (λ f. owning_package f workspace) edit_files in
    length (add_all [] (flat_map text_list owners))
    + (if any (λ o. not (is_some o)) owners then 1 else 0)
