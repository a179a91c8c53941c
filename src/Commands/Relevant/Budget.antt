-- ===== src/Commands/Relevant/Budget.antt =====
-- What a token budget keeps of the ranking.
use mathlib.Core.List.{append_assoc, append-nil}
use codewatch.Base.{
  ◌*◌, ◌/◌, length-append, sym, inr, inl, ◌&&◌, ltb, refl, Bool-cases, ◌∙◌, ◌⊎◌, arith, suc, ◌≤◌,
  [], ◌<◌, ap, ◌+◌, map, length, ◌++◌, sum, ◌≡◌, ◌∷◌, List, ℕ,
}
use codewatch.Commands.Relevant.{
  RelevantRow, Found, rows_from, line_chars, fill_budget, to_row, slice_by_token_budget,
}

module _ {S : Type 0} where
  -- The characters of some rows.
  abbrev pub chars : List (Found S) → ℕ
  chars fs = sum (map line_chars fs)

  -- `fs` fits, the next one would not.
  abbrev pub IsCut : ℕ → List (Found S) → List (Found S) → Type 0
  IsCut budget kept [] = Unit
  IsCut budget kept (f ∷ fs) = budget < chars kept + line_chars f

  chars-append : (xs ys : List (Found S)) → chars (xs ++ ys) ≡ chars xs + chars ys
  chars-append [] ys = omega arith
  chars-append (x ∷ xs) ys = omega (arith, chars-append xs ys)

  length-rows_from : (n : ℕ) (xs : List (Found S)) → length (rows_from n xs) ≡ length xs
  length-rows_from n [] = refl
  length-rows_from n (x ∷ xs) = ap suc (length-rows_from (n + 1) xs)

  rows_from-concat :
      (n : ℕ) (xs : List (Found S)) (f : Found S)
      → rows_from n (xs ++ f ∷ []) ≡ rows_from n xs ++ to_row f.0 (length xs + n) f.1 ∷ []
  rows_from-concat n [] f = ap (λ k. to_row f.0 k f.1 ∷ []) (omega arith)
  rows_from-concat n (x ∷ xs) f =
      ap (λ rows. to_row x.0 n x.1 ∷ rows)
        (rows_from-concat (n + 1) xs f
          ∙ ap (λ k. rows_from (n + 1) xs ++ to_row f.0 k f.1 ∷ []) (omega arith))

  -- The first row is shown, whatever it costs.
  abbrev pub ShowsFirst : List (Found S) → List (Found S) → Type 0
  ShowsFirst ranked kept = (length kept ≡ 0) → length ranked ≡ 0

  -- What the loop returns from the rows `kept` so far.
  abbrev pub Filled : ℕ → List (Found S) → List (Found S) → List (RelevantRow S) × ℕ → Type 0
  Filled budget kept fs out =
      (more : List (Found S)) × (left : List (Found S)) × (fs ≡ more ++ left)
      × (out ≡ (rows_from 1 (kept ++ more), chars (kept ++ more)))
      × ((length (kept ++ more) ≤ 1) ⊎ (chars (kept ++ more) ≤ budget))
      × IsCut budget (kept ++ more) left
      × ShowsFirst (kept ++ fs) (kept ++ more)

  Filled-push :
      (budget : ℕ) (kept fs : List (Found S)) (f : Found S) (out : List (RelevantRow S) × ℕ)
      → Filled budget (kept ++ f ∷ []) fs out
      → Filled budget kept (f ∷ fs) out
  Filled-push budget kept fs f out (more, left, split, same, fits, cut, first) =
      let e = append_assoc kept (f ∷ []) more in
      (
        f ∷ more,
        left,
        ap (λ xs. f ∷ xs) split,
        rw (← e) same,
        rw (← e) fits,
        rw (← e) cut,
        λ empty. absurd (ground (arith, empty, length-append kept (f ∷ more))),
      )

  Filled-stop :
      (budget : ℕ) (kept fs : List (Found S))
      → (length kept ≤ 1) ⊎ (chars kept ≤ budget)
      → IsCut budget kept fs
      → ShowsFirst (kept ++ fs) kept
      → Filled budget kept fs (rows_from 1 kept, chars kept)
  Filled-stop budget kept fs fits cut first = (
    [],
    fs,
    refl,
    rw (append-nil kept) refl,
    rw (append-nil kept) fits,
    rw (append-nil kept) cut,
    rw (append-nil kept) first,
  )

  next_rows :
      (kept : List (Found S)) (f : Found S)
      → rows_from 1 kept ++ to_row f.0 (length (rows_from 1 kept) + 1) f.1 ∷ []
        ≡ rows_from 1 (kept ++ f ∷ [])
  next_rows kept f =
      ap (λ n. rows_from 1 kept ++ to_row f.0 (n + 1) f.1 ∷ []) (length-rows_from 1 kept)
      ∙ sym (rows_from-concat 1 kept f)

  next_chars :
      (kept : List (Found S)) (f : Found S) → chars kept + line_chars f ≡ chars (kept ++ f ∷ [])
  next_chars kept f = omega (arith, chars-append kept (f ∷ []))

  fill_budget-Filled :
      (budget : ℕ) (kept fs : List (Found S))
      → (length kept ≤ 1) ⊎ (chars kept ≤ budget)
      → Filled budget kept fs (fill_budget budget (rows_from 1 kept) (chars kept) fs)
  unfolding fill_budget
  fill_budget-Filled budget kept [] fits =
      Filled-stop budget kept [] fits tt (rw (append-nil kept) (λ e. e))
  fill_budget-Filled budget kept (f ∷ fs) fits =
      elim (Bool-cases
        (ltb 0 (length (rows_from 1 kept)) && ltb budget (chars kept + line_chars f))) [
          | inl full ↦
              rw (full, fill_budget)
                (Filled-stop budget kept (f ∷ fs) fits (ground (arith, full))
                  (λ empty. absurd (ground (arith, full, empty, length-rows_from 1 kept))))
          | inr room ↦
              let next = kept ++ f ∷ [] in
              rw (room, fill_budget)
                (Filled-push budget kept fs f _ (
                  rw (next_rows kept f, next_chars kept f)
                    (fill_budget-Filled budget next fs (
                      ground (
                        arith,
                        room,
                        length-append kept (f ∷ []),
                        length-rows_from 1 kept,
                        next_chars kept f,
                      )))))
        ]

-- A token budget keeps the start of the ranking, numbered from 1: the first row whatever it costs,
-- and of more than one row only what fits into four characters for each token; the next row would
-- not fit. The estimate is the rows' characters over four, rounded up.
pub slice_by_token_budget_lem :
    {S : Type 0} (ranked : List (Found S)) (max_tokens : ℕ)
    → (kept : List (Found S)) × (left : List (Found S)) × (ranked ≡ kept ++ left)
      × (slice_by_token_budget ranked max_tokens ≡ (rows_from 1 kept, (chars kept + 3) / 4))
      × ((length kept ≤ 1) ⊎ (chars kept ≤ max_tokens * 4))
      × IsCut (max_tokens * 4) kept left
      × ShowsFirst ranked kept
unfolding slice_by_token_budget
slice_by_token_budget_lem ranked max_tokens =
    let (kept, left, split, same, fits, cut, first) =
      fill_budget-Filled (max_tokens * 4) [] ranked (inl (omega arith)) in
    (kept, left, split, rw same refl, fits, cut, first)
