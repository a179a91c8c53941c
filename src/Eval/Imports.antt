-- ===== src/Eval/Imports.antt =====
-- The import specifiers that packages/cli/src/eval/coding-mine.ts reads from raw source.
use Prim.Native.Char.{Char, code}
use codewatch.Base.{
  ◌-◌, string_eq, ◌∷◌, false, true, ◌||◌, push_front, is_some, if◌then◌else◌, zero, trim_start, [],
  eqb, keep, some, none, suc, add_all, strip_prefix, String, Bool, Option, ℕ, List,
}

abbrev is_quote : Char → Bool
is_quote c = eqb (code c) 34 || eqb (code c) 39

abbrev or_try : Option String → Option String → Option String
or_try (some x) o = some x
or_try none o = o

-- `from|import|require`
abbrev after_keyword : String → Option String
after_keyword s =
    or_try (strip_prefix "from" s) (or_try (strip_prefix "import" s) (strip_prefix "require" s))

abbrev skip_paren : String → String
skip_paren s = elim (strip_prefix "(" s) [ some rest ↦ rest | none ↦ s ]

abbrev more_quoted : Char → Option (String × String) → Option (String × String)
more_quoted c none = none
more_quoted c (some (spec, rest)) = some (push_front c spec, rest)

-- `[^"']+["']`, with at least one character where `some_char` is false.
abbrev up_to_quote : Bool → String → Option (String × String)
up_to_quote some_char String.[] = none
up_to_quote some_char (String.◌∷◌ c s) =
    let more = up_to_quote true s in
    if is_quote c then (if some_char then some ("", s) else none) else more_quoted c more

abbrev quoted : String → Option (String × String)
quoted String.[] = none
quoted (String.◌∷◌ c s) = if is_quote c then up_to_quote false s else none

abbrev specifier_in : Option String → Option (String × String)
specifier_in none = none
specifier_in (some rest) = quoted (trim_start (skip_paren (trim_start rest)))

-- The specifier that a match here has, and what follows it.
abbrev specifier_here : String → Option (String × String)
specifier_here s = specifier_in (after_keyword s)

abbrev length_of : String → ℕ
length_of String.[] = 0
length_of (String.◌∷◌ c s) = suc (length_of s)

-- `skip` counts the characters of a match that are still to be passed over.
unfoldable pub specifiers : ℕ → String → List String
specifiers skip String.[] = []
specifiers (suc skip) (String.◌∷◌ c s) = specifiers skip s
specifiers zero (String.◌∷◌ c s) = elim (specifier_here (push_front c s)) [
  | none ↦ specifiers zero s
  | some (spec, rest) ↦ spec ∷ specifiers (length_of s - length_of rest) s
]

unfoldable pub extract_import_specifiers : String → List String
extract_import_specifiers source = add_all [] (specifiers zero source)

unfoldable pub extract_relative_specifiers : String → List String
extract_relative_specifiers source =
    keep (λ spec. is_some (strip_prefix "." spec)) (extract_import_specifiers source)
