-- ===== src/Base/Sort.antt =====
-- `Array.prototype.sort`: the stable sort by a comparator, here as insertion from the right. The
-- comparator is given as the test `before a b`, that `a` must stand before `b`.
use Prim.Native.Nat.{suc}
use mathlib.Core.Path.{◌≡◌, refl}
use mathlib.Core.Logic.{◌↔◌, inl, inr}
use mathlib.Core.Bool.{Bool, true, false}
use mathlib.Core.List.{List, [], ◌∷◌, Memᴰ}
use native.Mathlib.Omega.{arith}
use codewatch.Base.Tests.{if◌then◌else◌, Bool-cases}
use codewatch.Base.Lists.{length, All, Memᴰ-cons}

module _ {ℓ} {A : Type ℓ} (before : A → A → Bool) where
  -- Equal items keep their order: the new item goes in front of those that it is not behind.
  unfoldable pub insert_sorted : A → List A → List A
  insert_sorted x [] = x ∷ []
  insert_sorted x (y ∷ ys) = if before y x then y ∷ insert_sorted x ys else x ∷ y ∷ ys

  unfoldable pub sort_by : List A → List A
  unfolding insert_sorted
  sort_by [] = []
  sort_by (x ∷ xs) = insert_sorted x (sort_by xs)

  -- No item stands before one that must stand before it.
  abbrev pub Sorted : List A → Type 0
  Sorted [] = Unit
  Sorted (x ∷ xs) = All (λ y. before y x ≡ false) xs × Sorted xs

  length-insert_sorted : (x : A) (xs : List A) → length (insert_sorted x xs) ≡ suc (length xs)
  unfolding insert_sorted
  length-insert_sorted x [] = refl
  length-insert_sorted x (y ∷ ys) = ground (arith, length-insert_sorted x ys)

  pub length-sort_by : (xs : List A) → length (sort_by xs) ≡ length xs
  unfolding sort_by
  length-sort_by [] = refl
  length-sort_by (x ∷ xs) = omega (arith, length-insert_sorted x (sort_by xs), length-sort_by xs)

  Memᴰ-insert_sorted : (a x : A) (xs : List A) → Memᴰ a (insert_sorted x xs) ↔ Memᴰ a (x ∷ xs)
  unfolding insert_sorted
  Memᴰ-insert_sorted a x [] = (λ m. m, λ m. m)
  Memᴰ-insert_sorted a x (y ∷ ys) = elim (Bool-cases (before y x)) [
    | inl h ↦ rw h (
        ground (
          arith,
          Memᴰ-insert_sorted a x ys,
          Memᴰ-cons a y (insert_sorted x ys),
          Memᴰ-cons a y ys,
          Memᴰ-cons a x ys,
          Memᴰ-cons a x (y ∷ ys),
        ))
    | inr h ↦ rw h (λ m. m, λ m. m)
  ]

  pub Memᴰ-sort_by : (a : A) (xs : List A) → Memᴰ a (sort_by xs) ↔ Memᴰ a xs
  unfolding sort_by
  Memᴰ-sort_by a [] = (λ m. m, λ m. m)
  Memᴰ-sort_by a (x ∷ xs) = ground (
    arith,
    Memᴰ-insert_sorted a x (sort_by xs),
    Memᴰ-sort_by a xs,
    Memᴰ-cons a x xs,
    Memᴰ-cons a x (sort_by xs),
  )

  All-insert_sorted {κ} :
      (P : A → Type κ) (x : A) (xs : List A) → P x → All P xs → All P (insert_sorted x xs)
  unfolding insert_sorted
  All-insert_sorted P x [] p h = (p, tt)
  All-insert_sorted P x (y ∷ ys) p (q, h) = elim (Bool-cases (before y x)) [
    | inl e ↦ rw e (q, All-insert_sorted P x ys p h)
    | inr e ↦ rw e (p, (q, h))
  ]

  pub All-sort_by {κ} : (P : A → Type κ) (xs : List A) → All P xs → All P (sort_by xs)
  unfolding sort_by
  All-sort_by P [] h = tt
  All-sort_by P (x ∷ xs) (p, h) = All-insert_sorted P x (sort_by xs) p (All-sort_by P xs h)

  -- What a comparator must satisfy: nothing is before what is before it, and not being behind is
  -- transitive.
  pub record IsOrder : Type ℓ where
    pub asym : (a b : A) → before a b ≡ true → before b a ≡ false
    pub trans : (a b c : A) → before b a ≡ false → before c b ≡ false → before c a ≡ false

  module _ (o : IsOrder) where
    All-behind :
        (x y : A) (ys : List A)
        → before y x ≡ false
        → All (λ z. before z y ≡ false) ys
        → All (λ z. before z x ≡ false) ys
    All-behind x y [] h k = tt
    All-behind x y (z ∷ ys) h (p, k) = (o.trans x y z h p, All-behind x y ys h k)

    insert_sorted-Sorted : (x : A) (xs : List A) → Sorted xs → Sorted (insert_sorted x xs)
    unfolding insert_sorted
    insert_sorted-Sorted x [] h = (tt, tt)
    insert_sorted-Sorted x (y ∷ ys) (p, h) = elim (Bool-cases (before y x)) [
      | inl e ↦ rw e (
        All-insert_sorted (λ z. before z y ≡ false) x ys (o.asym y x e) p,
        insert_sorted-Sorted x ys h,
      )
      | inr e ↦ rw e ((e, All-behind x y ys e p), (p, h))
    ]

    pub sort_by-Sorted : (xs : List A) → Sorted (sort_by xs)
    unfolding sort_by
    sort_by-Sorted [] = tt
    sort_by-Sorted (x ∷ xs) = insert_sorted-Sorted x (sort_by xs) (sort_by-Sorted xs)
