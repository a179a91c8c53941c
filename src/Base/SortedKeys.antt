-- ===== src/Base/SortedKeys.antt =====
-- Sorting keys that are all different leaves them so.
use mathlib.Core.Path.{◌≡◌, refl, ◌∙◌}
use mathlib.Core.Logic.{inl, inr}
use mathlib.Core.Bool.{Bool, false, ◌||◌}
use mathlib.Core.List.{List, [], ◌∷◌}
use native.Mathlib.Omega.{arith}
use codewatch.Base.Tests.{Bool-cases}
use codewatch.Base.Equality.{Eq, ◌==◌, beq_sym}
use codewatch.Base.Maps.{contains, HasNodup}
use codewatch.Base.Sort.{insert_sorted, sort_by}

module _ {ℓ} {K : Type ℓ} ⦃e : Eq K⦄ (before : K → K → Bool) where
  contains-insert_sorted :
      (x : K) (ys : List K) (k : K)
      → contains (insert_sorted before x ys) k ≡ (x == k || contains ys k)
  unfolding insert_sorted
  contains-insert_sorted x [] k = refl
  contains-insert_sorted x (y ∷ ys) k = ground (arith, contains-insert_sorted x ys k)

  pub contains-sort_by : (xs : List K) (k : K) → contains (sort_by before xs) k ≡ contains xs k
  unfolding sort_by
  contains-sort_by [] k = refl
  contains-sort_by (x ∷ xs) k =
      ground (arith, contains-insert_sorted x (sort_by before xs) k, contains-sort_by xs k)

  HasNodup-insert_sorted :
      (x : K) (ys : List K)
      → contains ys x ≡ false
      → HasNodup ys
      → HasNodup (insert_sorted before x ys)
  unfolding insert_sorted
  HasNodup-insert_sorted x [] c h = (refl, tt)
  HasNodup-insert_sorted x (y ∷ ys) c h = elim (Bool-cases (before y x)) [
    | inl t ↦ rw t (
      ground (arith, contains-insert_sorted x ys y, beq_sym x y, c, h.0),
      HasNodup-insert_sorted x ys (ground (arith, c)) h.1,
    )
    | inr f ↦ rw f (c, h)
  ]

  pub HasNodup-sort_by : (xs : List K) → HasNodup xs → HasNodup (sort_by before xs)
  unfolding sort_by
  HasNodup-sort_by [] h = tt
  HasNodup-sort_by (x ∷ xs) h =
      HasNodup-insert_sorted x (sort_by before xs) (contains-sort_by xs x ∙ h.0)
        (HasNodup-sort_by xs h.1)
