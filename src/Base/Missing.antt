-- ===== src/Base/Missing.antt =====
-- How many of a fixed list of keys a growing set still lacks: the measure of a graph walk.
use Prim.Native.Nat.{ℕ, ◌+◌, ◌≤◌, ◌<◌}
use mathlib.Core.Path.{◌≡◌}
use mathlib.Core.Logic.{inl, inr}
use mathlib.Core.Bool.{false}
use mathlib.Core.List.{Memᴰ, List, [], ◌∷◌, ◌++◌}
use native.Mathlib.Omega.{arith}
use codewatch.Base.Tests.{if◌then◌else◌}
use codewatch.Base.Lists.{length, not-Memᴰ-nil, Memᴰ-cons}
use codewatch.Base.Maps.{contains, contains-append}
use codewatch.Base.Equality.{Eq}

module _ {ℓ} {K : Type ℓ} ⦃e : Eq K⦄ where
  unfoldable pub missing : List K → List K → ℕ
  missing [] seen = 0
  missing (x ∷ xs) seen = (if contains seen x then 0 else 1) + missing xs seen

  pub missing-le-length : (universe seen : List K) → missing universe seen ≤ length universe
  unfolding missing
  missing-le-length [] seen = omega arith
  missing-le-length (x ∷ xs) seen = ground (arith, missing-le-length xs seen)

  missing-concat-le :
      (universe seen : List K) (k : K) → missing universe (seen ++ k ∷ []) ≤ missing universe seen
  unfolding missing
  missing-concat-le [] seen k = omega arith
  missing-concat-le (x ∷ xs) seen k =
      ground (arith, missing-concat-le xs seen k, contains-append seen (k ∷ []) x)

  -- A key of the list that is new to the set is missing no longer.
  pub missing-concat :
      (universe seen : List K) (k : K)
      → contains seen k ≡ false
      → Memᴰ k universe
      → missing universe (seen ++ k ∷ []) < missing universe seen
  unfolding missing
  missing-concat [] seen k h m = absurd (not-Memᴰ-nil k m)
  missing-concat (x ∷ xs) seen k h m = elim ((Memᴰ-cons k x xs).0 m) [
    | inl same ↦
        ground
          (arith, missing-concat-le xs seen k, contains-append seen (k ∷ []) x, e.beq_iff k x, same)
    | inr later ↦ ground (arith, missing-concat xs seen k h later, contains-append seen (k ∷ []) x)
  ]
