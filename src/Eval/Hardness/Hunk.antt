-- ===== src/Eval/Hardness/Hunk.antt =====
-- The kind of a dark file's change, of packages/cli/src/eval/coding-hardness.ts.
use Prim.Native.Char.{code}
use codewatch.Eval.Hardness.Lines.{after_word, is_re_export, is_type_line}
use codewatch.Base.{
  nat_eq, string_eq, all, ◌&&◌, [], ◌||◌, ◌==◌, contains, not, false, some, true, ◌∷◌, strip_prefix,
  is_some, none, ◌++◌, Option, Bool, trim, if◌then◌else◌, or_else, String, keep, List,
}

pub record HunkLines : Type 0 where
  pub added : List String
  pub removed : List String

pub data DarkHunkKind : Type 0 where
  comment_only : DarkHunkKind
  export_only : DarkHunkKind
  type_only : DarkHunkKind
  logic : DarkHunkKind

-- `/^[{}()[\];,]+$/`, with the empty text.
abbrev only_punctuation : String → Bool
only_punctuation String.[] = true
only_punctuation (String.◌∷◌ c s) =
    contains (123 ∷ (125 ∷ (40 ∷ (41 ∷ (91 ∷ (93 ∷ (59 ∷ (44 ∷ [])))))))) (code c)
    && only_punctuation s

abbrev begins : String → String → Bool
begins p s = is_some (strip_prefix p s)

unfoldable pub is_weighted : String → Bool
is_weighted line =
    let t = trim line in
    if only_punctuation t then false else not (begins "//" t || begins "/*" t || begins "*" t)

abbrev strip_default : String → String
strip_default s = or_else (after_word "default" s) s

unfoldable pub strip_export : String → String
strip_export line = elim (after_word "export" (trim line)) [
  | none ↦ trim line
  | some rest ↦ strip_default rest
]

unfoldable pub is_export_toggle : String → String → Bool
is_export_toggle a b = not (trim a == trim b) && strip_export a == strip_export b

abbrev put_back : String → Option (List String) → Option (List String)
put_back r none = none
put_back r (some kept) = some (r ∷ kept)

-- The list without its first twin, if it has one.
abbrev pub take_twin : (String → Bool) → List String → Option (List String)
take_twin twin [] = none
take_twin twin (r ∷ rs) =
    let rest = take_twin twin rs in if twin r then some rs else put_back r rest

-- `rest` grows at its end, then takes what is still pending.
unfoldable pub cancel_export_toggles : List String → List String → List String → List String
cancel_export_toggles rest pending [] = rest ++ pending
cancel_export_toggles rest pending (line ∷ added) =
    elim (take_twin (λ r. is_export_toggle r line) pending) [
      | none ↦ cancel_export_toggles (rest ++ line ∷ []) pending added
      | some fewer ↦ cancel_export_toggles rest fewer added
    ]

abbrev is_none_left : List String → Bool
is_none_left [] = true
is_none_left (x ∷ xs) = false

unfoldable pub dark_hunk_kind : HunkLines → DarkHunkKind
dark_hunk_kind hunk =
    let added = keep is_weighted hunk.added in
    let removed = keep is_weighted hunk.removed in
    if is_none_left (added ++ removed)
    then DarkHunkKind.comment_only
    else if is_none_left (keep (λ l. not (is_re_export l)) (cancel_export_toggles [] removed added))
    then DarkHunkKind.export_only
    else if all is_type_line (added ++ removed)
    then DarkHunkKind.type_only
    else DarkHunkKind.logic
