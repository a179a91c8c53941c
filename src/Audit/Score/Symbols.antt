-- ===== src/Audit/Score/Symbols.antt =====
-- packages/cli/src/commands/audit-score.ts, symbolOf: a finding belongs to the innermost symbol.
use codewatch.Base.{
  if◌then◌else◌, ◌∙◌, ◌<◌, ◌++◌, ap, refl, Bool-cases, arith, ◌⊎◌, inr, inl, ◌≤◌, any, All, [], ◌∷◌,
  ◌≡◌,
}
use codewatch.Triage.Questions.{Finding}
use codewatch.Audit.Score.{
  ltb, false, some, none, keep, List, ℕ, SymbolSpan, symbol_key, contains_line, span_of, innermost,
  innermost_of, symbol_of, key_of_span,
}

-- The symbol is in the list, every earlier one is longer and no later one is shorter.
abbrev pub IsFirstShortest : List SymbolSpan → SymbolSpan → Type 0
IsFirstShortest spans s =
    (before : List SymbolSpan) × (after : List SymbolSpan) × (spans ≡ before ++ s ∷ after)
    × All (λ t. span_of s < span_of t) before
    × All (λ t. span_of s ≤ span_of t) after

heads : {a b : SymbolSpan} {xs bs : List SymbolSpan} → a ∷ xs ≡ b ∷ bs → a ≡ b
heads e = cc

tails : {a b : SymbolSpan} {xs bs : List SymbolSpan} → a ∷ xs ≡ b ∷ bs → xs ≡ bs
tails e = cc

second_shorter :
    (a b s : SymbolSpan) (bs : List SymbolSpan)
    → span_of b < span_of a
    → IsFirstShortest (b ∷ bs) s
    → IsFirstShortest (a ∷ (b ∷ bs)) s
second_shorter a b s bs lt ([], after, e, longer, least) =
    let same : span_of b ≡ span_of s = ap span_of (heads e) in
    (a ∷ [], after, ap (λ l. a ∷ l) e, (omega (arith, lt, same), tt), least)
second_shorter a b s bs lt (c ∷ before, after, e, (first, longer), least) =
    let same : span_of b ≡ span_of c = ap span_of (heads e) in
    (
      a ∷ (c ∷ before),
      after,
      ap (λ l. a ∷ l) e,
      (omega (arith, lt, same, first), (first, longer)),
      least,
    )

second_longer :
    (a b s : SymbolSpan) (bs : List SymbolSpan)
    → span_of a ≤ span_of b
    → IsFirstShortest (a ∷ bs) s
    → IsFirstShortest (a ∷ (b ∷ bs)) s
second_longer a b s bs le ([], after, e, longer, least) =
    let same : span_of a ≡ span_of s = ap span_of (heads e) in
    (
      [],
      b ∷ after,
      ap (λ h. h ∷ (b ∷ bs)) (heads e) ∙ ap (λ l. s ∷ (b ∷ l)) (tails e),
      tt,
      (omega (arith, le, same), least),
    )
second_longer a b s bs le (c ∷ before, after, e, (first, longer), least) =
    let same : span_of a ≡ span_of c = ap span_of (heads e) in
    (
      c ∷ (b ∷ before),
      after,
      ap (λ h. h ∷ (b ∷ bs)) (heads e) ∙ ap (λ l. c ∷ (b ∷ l)) (tails e),
      (first, (omega (arith, le, same, first), longer)),
      least,
    )

innermost_lem : (a : SymbolSpan) (bs : List SymbolSpan) → IsFirstShortest (a ∷ bs) (innermost a bs)
innermost_lem a [] = ([], [], refl, tt, tt)
innermost_lem a (b ∷ bs) = elim (Bool-cases (ltb (span_of b) (span_of a))) [
  | inl lt ↦
      let same : innermost a (b ∷ bs) ≡ innermost b bs =
        ap (λ c. innermost (if c then b else a) bs) lt in
      rw same (second_shorter a b _ bs (ground (arith, lt)) (innermost_lem b bs))
  | inr ge ↦
      let same : innermost a (b ∷ bs) ≡ innermost a bs =
        ap (λ c. innermost (if c then b else a) bs) ge in
      rw same (second_longer a b _ bs (ground (arith, ge)) (innermost_lem a bs))
]

none_hold :
    (line : ℕ) (spans : List SymbolSpan)
    → keep (contains_line line) spans ≡ []
    → any (contains_line line) spans ≡ false
none_hold line [] h = refl
none_hold line (s ∷ spans) h = elim (Bool-cases (contains_line line s)) [
  | inl holds ↦ absurd (ground (arith, h, holds))
  | inr other ↦ rw other (none_hold line spans (ground (arith, h, other)))
]

-- A finding that names no symbol but a line belongs, of the symbols of its file that hold the line,
-- to the shortest, the first of them in a tie; and to none only if none holds it.
pub symbol_of-IsInnermost :
    (f : Finding) (spans : List SymbolSpan) (line : ℕ)
    → f.symbol ≡ none
    → f.line_start ≡ some line
    → ((symbol_of f spans ≡ none) × (any (contains_line line) spans ≡ false))
      ⊎ ((s : SymbolSpan) × (symbol_of f spans ≡ some (symbol_key s.path s.symbol))
          × IsFirstShortest (keep (contains_line line) spans) s)
unfolding symbol_of
symbol_of-IsInnermost f spans line n l = rw (n, l) (held (keep (contains_line line) spans) refl)
  where
    held :
        (holders : List SymbolSpan)
        → keep (contains_line line) spans ≡ holders
        → ((key_of_span (innermost_of (keep (contains_line line) spans)) ≡ none)
            × (any (contains_line line) spans ≡ false))
          ⊎ ((s : SymbolSpan) × (key_of_span (innermost_of (keep (contains_line line) spans))
                ≡ some (symbol_key s.path s.symbol))
              × IsFirstShortest (keep (contains_line line) spans) s)
    held [] e = inl (rw e refl, none_hold line spans e)
    held (s ∷ ss) e = inr (innermost s ss, rw e refl, rw e (innermost_lem s ss))
