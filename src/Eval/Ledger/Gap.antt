-- ===== src/Eval/Ledger/Gap.antt =====
-- What the gap between the result's total and the two ledgers is.
use codewatch.Base.{
  refl, values, arith, ◌+◌, ◌≢◌, Option, length, inr, inl, [], Bool-cases, ap, ◌∙◌, not, ◌∷◌, keep,
  Bool, sym, List, String, int_laws, ◌≡◌,
}
use codewatch.Eval.Json.{get, Json}
use codewatch.Eval.Ledger.{
  from_api_usage, from_model_usage, TokenCounts, ApiCall, empty_counts, combine, uncombine,
}
use codewatch.Eval.Ledger.Totals.{
  total_of, sum_counts, ledger_of, usages, model_usage_entries, main_calls, side_calls,
  is_arm_model, result_of, collected, parse_arm_stream,
}

length-keep_split :
    (p : ApiCall → Bool) (xs : List ApiCall)
    → length (keep (λ x. not (p x)) xs) + length (keep p xs) ≡ length xs
length-keep_split p [] = omega arith
length-keep_split p (x ∷ xs) = ground (arith, length-keep_split p xs)

total_of_some :
    (es : List (String × Json)) (other : TokenCounts)
    → es ≢ []
    → total_of es other ≡ sum_counts empty_counts (usages es)
total_of_some [] other h = absurd (h refl)
total_of_some (e ∷ es) other h = refl

-- An equation of counts is one of each field.
by_fields :
    (a b : TokenCounts)
    → a.input_tokens ≡ b.input_tokens
    → a.cache_create_tokens ≡ b.cache_create_tokens
    → a.cache_read_tokens ≡ b.cache_read_tokens
    → a.output_tokens ≡ b.output_tokens
    → a ≡ b
by_fields a b p q r s = λ i. record {
  input_tokens = p i;
  cache_create_tokens = q i;
  cache_read_tokens = r i;
  output_tokens = s i;
}

combine_assoc : (a b c : TokenCounts) → combine (combine a b) c ≡ combine a (combine b c)
unfolding combine
combine_assoc a b c =
    by_fields _ _ (omega int_laws) (omega int_laws) (omega int_laws) (omega int_laws)

combine_empty : (a : TokenCounts) → combine empty_counts a ≡ a
unfolding combine
combine_empty a = by_fields _ _ (omega int_laws) (omega int_laws) (omega int_laws) (omega int_laws)

combine_empty_right : (a : TokenCounts) → combine a empty_counts ≡ a
unfolding combine
combine_empty_right a =
    by_fields _ _ (omega int_laws) (omega int_laws) (omega int_laws) (omega int_laws)

-- A sum that starts at `acc`.
sum_counts_from :
    (acc : TokenCounts) (cs : List TokenCounts)
    → sum_counts acc cs ≡ combine acc (sum_counts empty_counts cs)
sum_counts_from acc [] = sym (combine_empty_right acc)
sum_counts_from acc (c ∷ cs) =
    sum_counts_from (combine acc c) cs
    ∙ combine_assoc acc c (sum_counts empty_counts cs)
    ∙ ap (combine acc) (
        sym (
          sum_counts_from (combine empty_counts c) cs
          ∙ ap (λ t. combine t (sum_counts empty_counts cs)) (combine_empty c)))

sum_counts-cons :
    (c : TokenCounts) (cs : List TokenCounts)
    → sum_counts empty_counts (c ∷ cs) ≡ combine c (sum_counts empty_counts cs)
sum_counts-cons c cs =
    sum_counts_from (combine empty_counts c) cs
    ∙ ap (λ t. combine t (sum_counts empty_counts cs)) (combine_empty c)

combine_left_comm : (a b c : TokenCounts) → combine a (combine b c) ≡ combine b (combine a c)
unfolding combine
combine_left_comm a b c =
    by_fields _ _ (omega int_laws) (omega int_laws) (omega int_laws) (omega int_laws)

-- A sum is that of the entries that pass a test and that of the others.
sum_counts-keep :
    (p : String → Bool) (es : List (String × Json))
    → sum_counts empty_counts (usages es)
      ≡ combine
          (sum_counts empty_counts (usages (keep (λ e. p e.0) es)))
          (sum_counts empty_counts (usages (keep (λ e. not (p e.0)) es)))
sum_counts-keep p [] = sym (combine_empty empty_counts)
sum_counts-keep p (e ∷ es) =
    let u = from_model_usage e.1 in
    let first = sum_counts-cons u (usages es) ∙ ap (combine u) (sum_counts-keep p es) in
    let yes_sum = sum_counts empty_counts (usages (keep (λ e. p e.0) es)) in
    let no_sum = sum_counts empty_counts (usages (keep (λ e. not (p e.0)) es)) in
    elim (Bool-cases (p e.0)) [
      | inl t ↦ rw t (
          first
          ∙ sym (combine_assoc u yes_sum no_sum)
          ∙ ap (λ c. combine c no_sum) (sym (sum_counts-cons u (usages (keep (λ e. p e.0) es)))))
      | inr f ↦ rw f (
          first
          ∙ combine_left_comm u yes_sum no_sum
          ∙ ap (combine yes_sum) (sym (sum_counts-cons u (usages (keep (λ e. not (p e.0)) es)))))
    ]

gap_algebra :
    (arm other main side : TokenCounts)
    → combine
        (uncombine (uncombine (combine arm other) main) (combine side other))
        (combine main side)
      ≡ arm
unfolding combine uncombine
gap_algebra arm other main side =
    by_fields _ _ (omega int_laws) (omega int_laws) (omega int_laws) (omega int_laws)

-- Whatever the stream, the main and the helper calls are all of its calls; and where the result
-- reports the usage of its models, the gap is what it reports for the arm's models less what the
-- stream shows of them: the main calls and the side calls on a model of the arm. So the gap is zero
-- just when these two agree.
pub parse_arm_stream_gap :
    (parse : String → Option Json) (show : Json → String) (raw arm_model : String)
    → model_usage_entries (result_of parse show raw) ≢ []
    → ((parse_arm_stream parse show raw arm_model).main.calls
          + (parse_arm_stream parse show raw arm_model).helper.calls
        ≡ length (values (collected parse show raw).calls))
      × (combine (parse_arm_stream parse show raw arm_model).ledger_gap (
            combine
              (ledger_of (main_calls parse show raw)).counts
              (ledger_of (
                keep
                  (λ c. is_arm_model parse show raw arm_model c.model)
                  (side_calls parse show raw))).counts)
          ≡ sum_counts empty_counts (
              usages (
                keep
                  (λ e. is_arm_model parse show raw arm_model e.0)
                  (model_usage_entries (result_of parse show raw)))))
unfolding parse_arm_stream
parse_arm_stream_gap parse show raw arm_model some_usage =
    let is_arm = is_arm_model parse show raw arm_model in
    let es = model_usage_entries (result_of parse show raw) in
    (
      length-keep_split (λ c. c.sidechain) (values (collected parse show raw).calls),
      rw
          (
            total_of_some es (from_api_usage (get (result_of parse show raw) "usage")) some_usage,
            sum_counts-keep is_arm es,
          )
          (gap_algebra _ _ _ _),
    )
