-- ===== src/Eval/Stratify.antt =====
-- packages/cli/src/eval/stratify.ts: how a dependency could be found without the graph.
pub mod Dominant
pub mod Resolve
use Prim.Native.Char.{code}
use codewatch.Base.{
  not, length, nat_eq, any, leb, ◌+◌, false, keep, ◌++◌, ◌&&◌, nat_arith, ◌||◌, refl,
  before_last_slash, string_eq, push_front, ltb, segments, ◌↔◌, contains, opt_beq, or_else, tally,
  ◌==◌, strip_prefix, [], JsMap, ◌∷◌, glue, eqb, if◌then◌else◌, is_some, true, Bool, Eq, Option,
  List, ◌≡◌, ℕ, String, none, some,
}

pub data Stratum : Type 0 where
  semantic_findable : Stratum
  import_chain_reachable : Stratum
  structurally_hidden : Stratum

abbrev pub hardness : Stratum → ℕ
hardness Stratum.semantic_findable = 0
hardness Stratum.import_chain_reachable = 1
hardness Stratum.structurally_hidden = 2

abbrev pub stratum_beq : Stratum → Stratum → Bool
stratum_beq s t = eqb (hardness s) (hardness t)

pub stratum_beq_iff : (s t : Stratum) → (stratum_beq s t ≡ true) ↔ (s ≡ t)
stratum_beq_iff Stratum.semantic_findable Stratum.semantic_findable = (λ h. refl, λ h. refl)
stratum_beq_iff Stratum.semantic_findable Stratum.import_chain_reachable = (λ h. cc, λ h. cc)
stratum_beq_iff Stratum.semantic_findable Stratum.structurally_hidden = (λ h. cc, λ h. cc)
stratum_beq_iff Stratum.import_chain_reachable Stratum.semantic_findable = (λ h. cc, λ h. cc)
stratum_beq_iff Stratum.import_chain_reachable Stratum.import_chain_reachable =
    (λ h. refl, λ h. refl)
stratum_beq_iff Stratum.import_chain_reachable Stratum.structurally_hidden = (λ h. cc, λ h. cc)
stratum_beq_iff Stratum.structurally_hidden Stratum.semantic_findable = (λ h. cc, λ h. cc)
stratum_beq_iff Stratum.structurally_hidden Stratum.import_chain_reachable = (λ h. cc, λ h. cc)
stratum_beq_iff Stratum.structurally_hidden Stratum.structurally_hidden = (λ h. refl, λ h. refl)

instance abbrev pub stratum_eq : Eq Stratum
stratum_eq = record { beq = stratum_beq; beq_iff = stratum_beq_iff }

-- The best so far, `none` for a count of -1.
abbrev pub better : Stratum × Option ℕ → Stratum × ℕ → Stratum × Option ℕ
better (best, none) (s, c) = (s, some c)
better (best, some n) (s, c) =
    if ltb n c || eqb c n && ltb (hardness best) (hardness s) then (s, some c) else (best, some n)

abbrev pub best_of : Stratum × Option ℕ → JsMap Stratum ℕ → Stratum × Option ℕ
best_of b [] = b
best_of b (e ∷ es) = best_of (better b e) es

abbrev pub counts_of : List Stratum → JsMap Stratum ℕ
counts_of = tally (λ s. some (s, 1)) []

abbrev dominant : List Stratum → Stratum
dominant [] = Stratum.structurally_hidden
dominant (s ∷ ss) = (best_of (Stratum.semantic_findable, none) (counts_of (s ∷ ss))).0

unfoldable pub dominant_stratum : List Stratum → Stratum
dominant_stratum strata = dominant strata

abbrev pub extensions : List String
extensions = "" ∷ ".ts" ∷ ".tsx" ∷ ".js" ∷ ".jsx" ∷ ".mts" ∷ ".cts" ∷ ".mjs" ∷ ".cjs" ∷ []

abbrev pub index_bases : List String
index_bases =
    "/index.ts" ∷ "/index.tsx" ∷ "/index.js" ∷ "/index.jsx" ∷ "/index.mts" ∷ "/index.cts"
    ∷ "/index.mjs" ∷ "/index.cjs" ∷ []

-- `out.pop()`
abbrev pub drop_last : List String → List String
drop_last [] = []
drop_last (x ∷ []) = []
drop_last (x ∷ (y ∷ xs)) = x ∷ drop_last (y ∷ xs)

abbrev pub walk : List String → List String → List String
walk out [] = out
walk out (seg ∷ segs) =
    if seg == "" || seg == "."
    then walk out segs
    else if seg == ".."
    then walk (drop_last out) segs
    else walk (out ++ seg ∷ []) segs

-- `join("/")`
abbrev pub join_path : List String → String
join_path [] = ""
join_path (x ∷ []) = x
join_path (x ∷ (y ∷ xs)) = glue x (glue "/" (join_path (y ∷ xs)))

unfoldable pub normalize_posix : String → String
normalize_posix path = join_path (walk [] (segments path))

-- The text without the ending, where it ends so.
unfoldable pub strip_end : String → String → Option String
strip_end ending String.[] = if ending == "" then some "" else none
strip_end ending (String.◌∷◌ c s) =
    if push_front c s == ending
    then some ""
    else elim (strip_end ending s) [ none ↦ none | some t ↦ some (push_front c t) ]

-- No ending of the list is the ending of another, so at most one is found.
abbrev pub strip_one : List String → String → String
strip_one [] s = s
strip_one (e ∷ es) s = elim (strip_end e s) [ some t ↦ t | none ↦ strip_one es s ]

abbrev pub module_endings : List String
module_endings = ".ts" ∷ ".tsx" ∷ ".js" ∷ ".jsx" ∷ ".mts" ∷ ".cts" ∷ ".mjs" ∷ ".cjs" ∷ []

abbrev pub first_known : List String → String → List String → Option String
first_known file_ids stem [] = none
first_known file_ids stem (e ∷ es) =
    if contains file_ids (glue stem e) then some (glue stem e) else first_known file_ids stem es

abbrev pub starts_with_dot : String → Bool
starts_with_dot s = is_some (strip_prefix "." s)

abbrev pub stem_of : String → String → String
stem_of src_file_id specifier =
    strip_one module_endings
      (normalize_posix (glue (or_else (before_last_slash src_file_id) "") (glue "/" specifier)))

abbrev or_first : Option String → Option String → Option String
or_first (some x) o = some x
or_first none o = o

unfoldable pub resolve_relative_specifier : String → String → List String → Option String
resolve_relative_specifier src_file_id specifier file_ids =
    let stem = stem_of src_file_id specifier in
    if starts_with_dot specifier
    then or_first (first_known file_ids stem extensions) (first_known file_ids stem index_bases)
    else none

abbrev is_upper : ℕ → Bool
is_upper n = leb 65 n && leb n 90

abbrev is_lower_or_digit : ℕ → Bool
is_lower_or_digit n = leb 97 n && leb n 122 || leb 48 n && leb n 57

abbrev lowered : ℕ → ℕ
lowered n = if is_upper n then n + 32 else n

-- The words of a name as character codes: `word` is the current one, and `inner` says whether its
-- last character is a small letter or a digit.
unfoldable pub words : List ℕ → Bool → String → List (List ℕ)
words word inner String.[] = word ∷ []
words word inner (String.◌∷◌ c s) =
    let n = code c in
    let outside = words [] false s in
    let starts = words (lowered n ∷ []) false s in
    let goes_on = words (word ++ lowered n ∷ []) (is_lower_or_digit n) s in
    if not (is_upper n || is_lower_or_digit n)
    then word ∷ outside
    else if inner && is_upper n
    then word ∷ starts
    else goes_on

unfoldable pub split_tokens : String → List (List ℕ)
split_tokens text = keep (λ t. leb 3 (length t)) (words [] false text)

abbrev pub same_word : List ℕ → List ℕ → Bool
same_word [] [] = true
same_word (x ∷ xs) (y ∷ ys) = x == y && same_word xs ys
same_word _ _ = false

unfoldable pub before_dot : String → String
before_dot String.[] = ""
before_dot (String.◌∷◌ c s) = if eqb (code c) b'.' then "" else push_front c (before_dot s)

abbrev last_segment : String → List String → String
last_segment d [] = d
last_segment d (x ∷ xs) = last_segment x xs

abbrev pub base_name : String → String
base_name file_id = before_dot (last_segment "" (segments file_id))

unfoldable pub share_name_token : String → String → Bool
share_name_token symbol_name origin_file_id =
    any (λ t. any (same_word t) (split_tokens (base_name origin_file_id)))
      (split_tokens symbol_name)

abbrev classified : String × String → String → String → List String → Stratum
classified (origin, name) src_id specifier file_ids =
    if share_name_token name origin
    then Stratum.semantic_findable
    else if opt_beq (resolve_relative_specifier src_id specifier file_ids) (some origin)
    then Stratum.import_chain_reachable
    else Stratum.structurally_hidden

-- `parse_symbol_id` splits `<file>#<name>` where it can.
unfoldable pub classify_reference_edge :
    (String → Option (String × String)) → String → String → String → List String → Stratum
classify_reference_edge parse_symbol_id src_id dst_id specifier file_ids =
    classified (or_else (parse_symbol_id dst_id) (dst_id, "")) src_id specifier file_ids
