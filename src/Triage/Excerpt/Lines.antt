-- ===== src/Triage/Excerpt/Lines.antt =====
-- packages/cli/src/commands/triage-excerpt.ts: the lines of a range and of merged excerpts.
use text.Mathlib.TextEquality.{eq_iff}
use codewatch.Base.{
  inr, sym, lookup-insert, ap, contains-add_all, add_all, insert, inl, ◌==◌, Bool-cases, refl, ◌∷◌,
  [], zero, ◌∙◌, nat_eq, suc, ◌-◌, ◌+◌, ltb, none, arith, ◌&&◌, ◌||◌, leb, false, keys, ◌≡◌,
  contains, string_eq, HasNodup, [],
}
use codewatch.Triage.Excerpt.{
  larger, smaller, lookup, or_else, List, String, ℕ, ShownLines, count_up, line_range, merge_shown,
}

contains-count_up : (k n i : ℕ) → contains (count_up k n) i ≡ (leb n i && ltb i (n + k))
contains-count_up zero n i = ground arith
contains-count_up (suc k) n i = ground (arith, contains-count_up k (n + 1) i)

-- A range holds the lines between its ends that the text has; lines are counted from 1.
contains-line_range :
    (start stop max i : ℕ)
    → contains (line_range start stop max) i ≡ (leb 1 i && leb start i && leb i stop && leb i max)
unfolding line_range
contains-line_range start stop max i =
    contains-count_up (smaller max stop + 1 - larger 1 start) (larger 1 start) i ∙ ground arith

abbrev lines_at : ShownLines → String → List ℕ
lines_at shown p = or_else (lookup shown p) []

absent : (shown : ShownLines) (p : String) → contains (keys shown) p ≡ false → lookup shown p ≡ none
absent [] p h = refl
absent ((q, lines) ∷ shown) p h = ground (arith, absent shown p)

-- A line is shown in the merged excerpts if it is in one of them.
merge_shown_union :
    (into from : ShownLines) (p : String) (i : ℕ)
    → HasNodup (keys from)
    → contains (lines_at (merge_shown into from) p) i
      ≡ (contains (lines_at into p) i || contains (lines_at from p) i)
unfolding merge_shown
merge_shown_union into [] p i h = ground arith
merge_shown_union into ((q, lines) ∷ from) p i (c, h) = elim (Bool-cases (q == p)) [
  | inl same ↦
      let e : q ≡ p = (eq_iff q p).0 same in
      rw same (
        merge_shown_union (insert into q (add_all (lines_at into q) lines)) from p i h
        ∙ ground (
          arith,
          contains-add_all (lines_at into q) lines i,
          ap (λ o. contains (or_else o []) i)
              (lookup-insert into q p (add_all (lines_at into q) lines)),
          ap (λ o. contains (or_else o []) i)
              (absent from p (ap (contains (keys from)) (sym e) ∙ c)),
          ap (λ x. contains (lines_at into x) i) e,
          same,
        ))
  | inr other ↦ rw other (
      merge_shown_union (insert into q (add_all (lines_at into q) lines)) from p i h
      ∙ ground (
        arith,
        ap (λ o. contains (or_else o []) i)
            (lookup-insert into q p (add_all (lines_at into q) lines)),
        other,
      ))
]
