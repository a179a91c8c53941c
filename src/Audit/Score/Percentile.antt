-- ===== src/Audit/Score/Percentile.antt =====
-- packages/cli/src/commands/audit-score.ts, percentileRanks: the binary search counts what is below.
use codewatch.Base.{
  ◌∙◌, length-keep-le, sort_by-Sorted, ◌/◌, sort_by, insert_sorted, inr, inl, ◌↔◌, zero, refl,
  Bool-cases, [], true, arith, ◌∷◌, ◌+◌, Sorted, ◌≡◌, IsOrder, insert_sorted, All, ◌≤◌, ◌<◌,
}
use codewatch.Audit.Score.{
  leb, suc, false, ltb, keep, length, map, ℕ, List, nth, search_below, count_below, rising,
  percentile_counts,
}

abbrev pub below : ℕ → List ℕ → ℕ
below v xs = length (keep (λ x. ltb x v) xs)

none_below : (v x : ℕ) (xs : List ℕ) → v ≤ x → All (λ y. rising y x ≡ false) xs → below v xs ≡ 0
none_below v x [] h k = refl
none_below v x (y ∷ ys) h (p, k) = ground (arith, none_below v x ys h k)

nth_ge :
    (v x i : ℕ) (xs : List ℕ)
    → v ≤ x
    → All (λ y. rising y x ≡ false) xs
    → i < length xs
    → v ≤ nth xs i
nth_ge v x i [] h k l = absurd (omega (arith, l))
nth_ge v x zero (y ∷ ys) h (p, k) l = ground arith
nth_ge v x (suc i) (y ∷ ys) h (p, k) l = nth_ge v x i ys h k (omega (arith, l))

-- In a rising list, the values below `v` come first.
nth_iff :
    (v i : ℕ) (xs : List ℕ)
    → Sorted rising xs
    → i < length xs
    → (ltb (nth xs i) v ≡ true) ↔ (i < below v xs)
nth_iff v i [] s l = absurd (omega (arith, l))
nth_iff v zero (x ∷ xs) (p, s) l = ground (arith, none_below v x xs, p)
nth_iff v (suc i) (x ∷ xs) (p, s) l = elim (Bool-cases (ltb x v)) [
  | inl lt ↦ rw lt (ground (arith, nth_iff v i xs s (omega (arith, l))))
  | inr ge ↦ rw ge (
      ground (
        arith,
        nth_ge v x i xs (ground (arith, ge)) p (omega (arith, l)),
        none_below v x xs (ground (arith, ge)) p,
      ))
]

search_lem :
    (fuel : ℕ) (xs : List ℕ) (v lo hi : ℕ)
    → Sorted rising xs
    → lo ≤ below v xs
    → below v xs ≤ hi
    → hi ≤ length xs
    → hi ≤ lo + fuel
    → search_below fuel xs v lo hi ≡ below v xs
unfolding search_below
search_lem zero xs v lo hi s a b c f = omega (arith, a, b, f)
search_lem (suc fuel) xs v lo hi s a b c f = elim (Bool-cases (ltb lo hi)) [
  | inr done ↦ rw done (ground arith)
  | inl more ↦
      let lt : lo < hi = ground (arith, more) in
      elim (Bool-cases (ltb (nth xs ((lo + hi) / 2)) v)) [
        | inl small ↦
            rw (more, small)
              (search_lem fuel xs v ((lo + hi) / 2 + 1) hi s
                (omega (arith, (nth_iff v ((lo + hi) / 2) xs s (omega (arith, lt, c))).0 small)) b c
                (omega (arith, f, lt)))
        | inr large ↦
            rw (more, large)
              (search_lem fuel xs v lo ((lo + hi) / 2) s a
                (ground (arith, large, (nth_iff v ((lo + hi) / 2) xs s (omega (arith, lt, c))).1))
                (omega (arith, lt, c)) (omega (arith, f, lt)))
      ]
]

below-insert_sorted :
    (v x : ℕ) (xs : List ℕ) → below v (insert_sorted rising x xs) ≡ below v (x ∷ xs)
unfolding insert_sorted
below-insert_sorted v x [] = refl
below-insert_sorted v x (y ∷ ys) = ground (arith, below-insert_sorted v x ys)

below-sort_by : (v : ℕ) (xs : List ℕ) → below v (sort_by rising xs) ≡ below v xs
unfolding sort_by
below-sort_by v [] = refl
below-sort_by v (x ∷ xs) =
    ground (arith, below-insert_sorted v x (sort_by rising xs), below-sort_by v xs)

rising-IsOrder : IsOrder rising
rising-IsOrder = record { asym = λ a b h. ground arith; trans = λ a b c h k. ground arith }

cong_cons : {a b : ℕ} {xs ys : List ℕ} → a ≡ b → xs ≡ ys → a ∷ xs ≡ b ∷ ys
cong_cons p q = cc

counts_lem :
    (values vs : List ℕ)
    → map (count_below (sort_by rising values)) vs ≡ map (λ v. below v values) vs
counts_lem values [] = refl
counts_lem values (v ∷ vs) =
    cong_cons
      (search_lem (length (sort_by rising values)) (sort_by rising values) v 0
          (length (sort_by rising values)) (sort_by-Sorted rising rising-IsOrder values)
          (omega arith) (length-keep-le (λ x. ltb x v) (sort_by rising values)) (omega arith)
          (omega arith)
        ∙ below-sort_by v values)
      (counts_lem values vs)

-- With two or more values, each value's percentile is that of the number of values strictly below
-- it, so equal values share one: the binary search ends and finds that number.
pub percentile_counts_lem :
    (values : List ℕ)
    → 1 < length values
    → percentile_counts values ≡ map (λ v. below v values) values
unfolding percentile_counts
percentile_counts_lem values h = elim (Bool-cases (leb (length values) 1)) [
  | inl few ↦ absurd (ground (arith, few, h))
  | inr many ↦ rw many (counts_lem values values)
]
