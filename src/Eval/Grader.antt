-- ===== src/Eval/Grader.antt =====
-- packages/cli/src/eval/grader.ts and retrieval-grader.ts: the scores of an answer against the
-- expected one. A score is the exact fraction that the program's floating-point number stands for.
pub mod Sets
pub mod TopK
use codewatch.Base.{
  nat_arith, ◌-◌, string_eq, contains, or_else, insert, ◌++◌, take, is_some, not, map, length, leb,
  [], eqb, tally, lookup, ◌∷◌, add_all, keep, false, String, if◌then◌else◌, ◌+◌, List, true, ℕ,
  JsMap, ◌*◌, Bool, none, some,
}

-- A numerator and a denominator.
abbrev pub Score : Type 0
Score = ℕ × ℕ

abbrev pub ratio : ℕ → ℕ → Score
ratio n d = if eqb d 0 then (0, 1) else (n, d)

pub record SetScore : Type 0 where
  pub precision : Score
  pub recall : Score
  pub f1 : Score
  pub true_positives : ℕ
  pub expected : ℕ
  pub predicted : ℕ

-- `ratio(2 * p * r, p + r)`, over the product of the denominators.
abbrev harmonic : Score → Score → Score
harmonic p r = ratio (2 * (p.0 * r.0)) (p.0 * r.1 + r.0 * p.1)

unfoldable pub grade_set : List String → List String → SetScore
grade_set expected predicted =
    let exp = add_all [] expected in
    let pred = add_all [] predicted in
    let true_positives = length (keep (contains exp) pred) in
    let precision = ratio true_positives (length pred) in
    let recall = ratio true_positives (length exp) in
    record {
      precision = precision;
      recall = recall;
      f1 = harmonic precision recall;
      true_positives = true_positives;
      expected = length exp;
      predicted = length pred;
    }

pub record Split : Type 0 where
  pub source : List String
  pub test : List String

-- The bucket that an item truly belongs to: `true` for tests, which overwrite.
abbrev set_role : Bool → JsMap String Bool → List String → JsMap String Bool
set_role bucket m [] = m
set_role bucket m (x ∷ xs) = set_role bucket (insert m x bucket) xs

abbrev placed : JsMap String Bool → Bool → String → Bool
placed role bucket item = elim (lookup role item) [
  | none ↦ false
  | some truth ↦ if bucket then truth else not truth
]

abbrev known : JsMap String Bool → List String → List String
known role = keep (λ item. is_some (lookup role item))

unfoldable pub compute_role_accuracy : Split → Split → Score
compute_role_accuracy expected predicted =
    let role = set_role true (set_role false [] expected.source) expected.test in
    ratio
      (length (keep (placed role false) predicted.source)
        + length (keep (placed role true) predicted.test))
      (length (known role predicted.source) + length (known role predicted.test))

pub record RoleSplitScore : Type 0 where
  pub source : SetScore
  pub test : SetScore
  pub macro_f1 : Score
  pub role_accuracy : Score

abbrev mean : Score → Score → Score
mean p q = (p.0 * q.1 + q.0 * p.1, 2 * (p.1 * q.1))

unfoldable pub grade_role_split : Split → Split → RoleSplitScore
grade_role_split expected predicted =
    let source = grade_set expected.source predicted.source in
    let test = grade_set expected.test predicted.test in
    record {
      source = source;
      test = test;
      macro_f1 = mean source.f1 test.f1;
      role_accuracy = compute_role_accuracy expected predicted;
    }

-- `slice(0, k)` of each, as sets; nothing for `k <= 0`.
unfoldable pub jaccard_top_k : List String → List String → ℕ → Score
jaccard_top_k expected predicted k =
    let exp = add_all [] (take k expected) in
    let pred = add_all [] (take k predicted) in
    let inter = length (keep (contains exp) pred) in
    if eqb k 0 then (0, 1) else ratio inter (length exp + length pred - inter)

-- `seen` and `out` of the loop, which stops once `out` has `k` items.
abbrev take_distinct : ℕ → List String → List String → List String → List String
take_distinct k seen out [] = out
take_distinct k seen out (id ∷ ids) =
    let skipped = take_distinct k seen out ids in
    let taken = take_distinct k (seen ++ id ∷ []) (out ++ id ∷ []) ids in
    if contains seen id then skipped else if leb k (length out + 1) then out ++ id ∷ [] else taken

unfoldable pub top_k : List String → ℕ → List String
top_k ranked k = take_distinct k [] [] ranked

abbrev first_rank : List String → ℕ → List String → List String → Score
first_rank seen rank relevant [] = (0, 1)
first_rank seen rank relevant (id ∷ ids) =
    let skipped = first_rank seen rank relevant ids in
    let later = first_rank (seen ++ id ∷ []) (rank + 1) relevant ids in
    if contains seen id then skipped else if contains relevant id then (1, rank + 1) else later

unfoldable pub reciprocal_rank : List String → List String → Score
reciprocal_rank ranked relevant = first_rank [] 0 relevant ranked

-- The relevant files with their strata.
abbrev stratum_totals : List (String × String) → JsMap String ℕ
stratum_totals = tally (λ n. some (n.1, 1)) []

abbrev stratum_hits : List String → List (String × String) → JsMap String ℕ
stratum_hits found = tally (λ n. if contains found n.0 then some (n.1, 1) else none) []

abbrev recalls : JsMap String ℕ → JsMap String ℕ → JsMap String Score
recalls hit [] = []
recalls hit ((stratum, count) ∷ total) =
    (stratum, ratio (or_else (lookup hit stratum) 0) count) ∷ recalls hit total

unfoldable pub recall_by_stratum : List (String × String) → List String → JsMap String Score
recall_by_stratum relevant found = recalls (stratum_hits found relevant) (stratum_totals relevant)

pub record RetrievalScore : Type 0 where
  pub k : ℕ
  pub precision_at_k : Score
  pub recall_at_k : Score
  pub reciprocal_rank : Score
  pub hits : ℕ
  pub relevant : ℕ
  pub recall_by_stratum : JsMap String Score

abbrev smaller : ℕ → ℕ → ℕ
smaller a b = if leb a b then a else b

abbrev or_k : ℕ → ℕ → ℕ
or_k n k = if eqb n 0 then k else n

unfoldable pub grade_retrieval : List (String × String) → List String → ℕ → RetrievalScore
grade_retrieval task ranked k =
    let relevant_set = add_all [] (map (λ n. n.0) task) in
    let top = top_k ranked k in
    let found = add_all [] (keep (contains relevant_set) top) in
    record {
      k = k;
      precision_at_k = ratio (length found) (or_k (smaller k (length top)) k);
      recall_at_k = ratio (length found) (length relevant_set);
      reciprocal_rank = reciprocal_rank ranked relevant_set;
      hits = length found;
      relevant = length relevant_set;
      recall_by_stratum = recall_by_stratum task found;
    }

-- An answer is a list, or is split by role.
pub data AnswerFor : Type 0 where
  listed : List String → AnswerFor
  split : List String → List String → AnswerFor

abbrev pub as_list : AnswerFor → List String
as_list (AnswerFor.listed items) = items
as_list (AnswerFor.split source test) = source ++ test

abbrev pub as_split : AnswerFor → List String × List String
as_split (AnswerFor.listed items) = (items, [])
as_split (AnswerFor.split source test) = (source, test)
