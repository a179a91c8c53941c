-- ===== src/Eval/Hardness.antt =====
-- packages/cli/src/eval/coding-hardness.ts: which edit files a search for the identifiers of the
-- failing tests does not find. The share of two percent is exact.
pub mod Lines
pub mod Hunk
use Prim.Native.Char.{Char, code}
use codewatch.Eval.Imports.{extract_relative_specifiers}
use codewatch.Eval.Stratify.{resolve_relative_specifier, split_tokens, same_word, base_name}
use codewatch.Base.{
  none, some, ◌/◌, map, eqb, lookup, ◌||◌, units, flat_map, string_eq, insert, glue, [], or_else,
  keep, ◌&&◌, contains, ◌+◌, ◌∷◌, leb, add_all, push_front, not, any, ℕ, Bool, JsMap, if◌then◌else◌,
  String, List,
}

pub record DocumentFrequency : Type 0 where
  pub counts : JsMap String ℕ
  pub file_count : ℕ

pub data EditFileLight : Type 0 where
  dark : EditFileLight
  added : EditFileLight
  shares_identifier : EditFileLight
  shares_basename : EditFileLight
  test_imported : EditFileLight

pub record EditFileInput : Type 0 where
  pub path : String
  pub added : Bool
  pub parent_content : String

pub record TestContext : Type 0 where
  pub test_files : List String
  pub distinctive_seeds : List String
  pub test_imported : List String

abbrev is_digit : Char → Bool
is_digit c = leb 48 (code c) && leb (code c) 57

abbrev is_identifier_char : Char → Bool
is_identifier_char c =
    let n = code c in
    leb 65 n && leb n 90 || leb 97 n && leb n 122 || leb 48 n && leb n 57 || eqb n 95 || eqb n 36

abbrev grow_run : Char → List String → List String
grow_run c [] = push_front c "" ∷ []
grow_run c (r ∷ rs) = push_front c r ∷ rs

-- The runs of characters that may stand in an identifier.
unfoldable pub identifier_runs : String → List String
identifier_runs String.[] = "" ∷ []
identifier_runs (String.◌∷◌ c s) =
    if is_identifier_char c then grow_run c (identifier_runs s) else "" ∷ identifier_runs s

unfoldable pub drop_digits : String → String
drop_digits String.[] = ""
drop_digits (String.◌∷◌ c s) = if is_digit c then drop_digits s else push_front c s

-- A match of the pattern takes the rest of a run from the first character that is no digit; all
-- its characters are single units.
unfoldable pub extract_identifiers : String → List String
extract_identifiers source =
    add_all [] (keep (λ id. leb 4 (units id)) (map drop_digits (identifier_runs source)))

unfoldable pub seed_identifiers : List String → List String
seed_identifiers test_sources = add_all [] (flat_map extract_identifiers test_sources)

abbrev count_ids : JsMap String ℕ → List String → JsMap String ℕ
count_ids m [] = m
count_ids m (id ∷ ids) = count_ids (insert m id (or_else (lookup m id) 0 + 1)) ids

abbrev count_source : DocumentFrequency → String → DocumentFrequency
count_source df src = record {
  counts = count_ids df.counts (extract_identifiers src);
  file_count = df.file_count + 1;
}

unfoldable pub document_frequency : DocumentFrequency → List String → DocumentFrequency
document_frequency df [] = df
document_frequency df (src ∷ sources) = document_frequency (count_source df src) sources

abbrev larger_of : ℕ → ℕ → ℕ
larger_of m n = if leb m n then n else m

unfoldable pub is_distinctive : String → DocumentFrequency → Bool
is_distinctive id df = leb (or_else (lookup df.counts id) 0) (larger_of 4 (df.file_count / 50))

unfoldable pub distinctive_seeds : List String → DocumentFrequency → List String
distinctive_seeds seeds df = add_all [] (keep (λ id. is_distinctive id df) seeds)

abbrev resolved : List String → String → List String → List String
resolved repo_file_ids test_file [] = []
resolved repo_file_ids test_file (spec ∷ specs) =
    let rest = resolved repo_file_ids test_file specs in
    elim (resolve_relative_specifier test_file spec repo_file_ids) [
      | none ↦ rest
      | some file ↦ file ∷ rest
    ]

unfoldable pub test_imported_files : JsMap String String → List String → List String
test_imported_files test_sources repo_file_ids =
    add_all []
      (flat_map (λ e. resolved repo_file_ids e.0 (extract_relative_specifiers e.1)) test_sources)

abbrev shares_any : String → List String → Bool
shares_any content ids = any (contains ids) (extract_identifiers content)

abbrev shares_basename_token : String → List String → Bool
shares_basename_token path test_files =
    any
      (λ tf.
        any (λ t. any (same_word t) (split_tokens (base_name path))) (split_tokens (base_name tf)))
      test_files

unfoldable pub classify_edit_file : EditFileInput → TestContext → EditFileLight
classify_edit_file edit ctx =
    if edit.added
    then EditFileLight.added
    else if contains ctx.test_imported edit.path
    then EditFileLight.test_imported
    else if shares_basename_token edit.path ctx.test_files
    then EditFileLight.shares_basename
    else if shares_any edit.parent_content ctx.distinctive_seeds
    then EditFileLight.shares_identifier
    else EditFileLight.dark

abbrev join_lines : List String → String
join_lines [] = ""
join_lines (l ∷ []) = l
join_lines (l ∷ (k ∷ ls)) = glue l (glue "\n" (join_lines (k ∷ ls)))

unfoldable pub is_second_order_dark : String → List String → DocumentFrequency → Bool
is_second_order_dark dark_parent_content other_changed_lines df = not (
    shares_any dark_parent_content
      (keep (λ id. is_distinctive id df) (extract_identifiers (join_lines other_changed_lines))))
