-- ===== src/Base/Lists.antt =====
-- Lists measured by native numbers, predicates on lists, and filters by a Boolean test.
use Prim.Native.Nat.{ℕ, zero, suc, ◌+◌, ◌≤◌}
use mathlib.Core.Path.{ap, sym, ◌≡◌, refl}
use mathlib.Core.Logic.{◌⊎◌, ◌↔◌, inl, inr, ⊎_elim}
use mathlib.Core.Bool.{Bool, true, false, ◌&&◌, ◌||◌}
use mathlib.Core.Option.{Option, none, some}
use mathlib.Core.List.{map, List, [], ◌∷◌, ◌++◌, Memᴰ}
use mathlib.Core.List.Memᴰ
use native.Mathlib.Omega.{arith}
use codewatch.Base.Tests.{if◌then◌else◌, Bool-cases}

module _ {ℓ} {A : Type ℓ} where
  abbrev pub length : List A → ℕ
  length [] = 0
  length (x ∷ xs) = suc (length xs)

  abbrev pub get_elem? : List A → ℕ → Option A
  get_elem? [] i = none
  get_elem? (x ∷ xs) zero = some x
  get_elem? (x ∷ xs) (suc i) = get_elem? xs i

  -- `slice(0, n)`
  abbrev pub take : ℕ → List A → List A
  take zero xs = []
  take (suc n) [] = []
  take (suc n) (x ∷ xs) = x ∷ take n xs

  -- `filter` and `some`, `every`, by a Boolean test
  abbrev pub keep : (A → Bool) → List A → List A
  keep p [] = []
  keep p (x ∷ xs) = if p x then x ∷ keep p xs else keep p xs

  abbrev pub any : (A → Bool) → List A → Bool
  any p [] = false
  any p (x ∷ xs) = p x || any p xs

  abbrev pub all : (A → Bool) → List A → Bool
  all p [] = true
  all p (x ∷ xs) = p x && all p xs

  pub length-append : (xs ys : List A) → length (xs ++ ys) ≡ length xs + length ys
  length-append [] ys = omega arith
  length-append (x ∷ xs) ys = omega (arith, length-append xs ys)

  pub length-keep-le : (p : A → Bool) (xs : List A) → length (keep p xs) ≤ length xs
  length-keep-le p [] = omega arith
  length-keep-le p (x ∷ xs) = ground (arith, length-keep-le p xs)

  pub length-take-le : (n : ℕ) (xs : List A) → length (take n xs) ≤ n
  length-take-le zero xs = omega arith
  length-take-le (suc n) [] = omega arith
  length-take-le (suc n) (x ∷ xs) = omega (arith, length-take-le n xs)

  pub keep-append : (p : A → Bool) (xs ys : List A) → keep p (xs ++ ys) ≡ keep p xs ++ keep p ys
  keep-append p [] ys = refl
  keep-append p (x ∷ xs) ys = ground (arith, keep-append p xs ys)

-- `flatMap`
abbrev pub flat_map {ℓ κ} : {A : Type ℓ} {B : Type κ} → (A → List B) → List A → List B
flat_map f [] = []
flat_map f (x ∷ xs) = f x ++ flat_map f xs

module _ {ℓ} {A : Type ℓ} where
  pub Memᴰ-cons : (a x : A) (xs : List A) → Memᴰ a (x ∷ xs) ↔ ((a ≡ x) ⊎ Memᴰ a xs)
  Memᴰ-cons a x xs = (Memᴰ.cases_cons, ⊎_elim Memᴰ.head Memᴰ.tail)

  pub not-Memᴰ-nil : (a : A) → ¬ Memᴰ a []
  not-Memᴰ-nil a m = Memᴰ.not-nil m

  pub Memᴰ-append : (a : A) (xs ys : List A) → Memᴰ a (xs ++ ys) ↔ (Memᴰ a xs ⊎ Memᴰ a ys)
  Memᴰ-append a xs ys =
      (λ m. Memᴰ.append_cases xs m, ⊎_elim (Memᴰ.append_left _) (Memᴰ.append_right xs))

  pub Memᴰ-keep :
      (p : A → Bool) (a : A) (xs : List A) → Memᴰ a (keep p xs) ↔ (Memᴰ a xs × (p a ≡ true))
  Memᴰ-keep p a [] = (λ m. absurd (not-Memᴰ-nil a m), λ m. absurd (not-Memᴰ-nil a m.0))
  Memᴰ-keep p a (x ∷ xs) = elim (Bool-cases (p x)) [
    | inl h ↦ rw h (ground (arith, Memᴰ-cons a x xs, Memᴰ-cons a x (keep p xs), Memᴰ-keep p a xs))
    | inr h ↦ rw h (ground (arith, Memᴰ-cons a x xs, Memᴰ-keep p a xs))
  ]

  pub any_of_mem : (p : A → Bool) (x : A) (xs : List A) → Memᴰ x xs → p x ≡ true → any p xs ≡ true
  any_of_mem p x [] m h = absurd (not-Memᴰ-nil x m)
  any_of_mem p x (y ∷ xs) m h = elim ((Memᴰ-cons x y xs).0 m) [
    | inl e ↦ rw (sym e, h) refl
    | inr t ↦ ground (arith, any_of_mem p x xs t h)
  ]

-- A predicate on every item, by recursion: it computes to tuples.
abbrev pub All {ℓ κ} : {A : Type ℓ} → (A → Type κ) → List A → Type κ
All P [] = Unit
All P (x ∷ xs) = P x × All P xs

module _ {ℓ κ} {A : Type ℓ} (P : A → Type κ) where
  pub All-append : (xs ys : List A) → All P xs → All P ys → All P (xs ++ ys)
  All-append [] ys h k = k
  All-append (x ∷ xs) ys h k = (h.0, All-append xs ys h.1 k)

  pub All-keep : (p : A → Bool) (xs : List A) → All P xs → All P (keep p xs)
  All-keep p [] h = tt
  All-keep p (x ∷ xs) h = elim (Bool-cases (p x)) [
    | inl e ↦ rw e (h.0, All-keep p xs h.1)
    | inr e ↦ rw e (All-keep p xs h.1)
  ]

  pub All-of_forall : (xs : List A) → ((x : A) → Memᴰ x xs → P x) → All P xs
  All-of_forall [] h = tt
  All-of_forall (x ∷ xs) h = (h x (Memᴰ.head refl), All-of_forall xs (λ y m. h y (Memᴰ.tail m)))

  pub All-mem : (x : A) (xs : List A) → All P xs → Memᴰ x xs → P x
  All-mem x [] h m = absurd (not-Memᴰ-nil x m)
  All-mem x (y ∷ xs) h m = elim ((Memᴰ-cons x y xs).0 m) [
    | inl e ↦ rw e h.0
    | inr t ↦ All-mem x xs h.1 t
  ]

pub All-imp {ℓ κ μ} :
    {A : Type ℓ} (P : A → Type κ) (Q : A → Type μ) (xs : List A)
    → ((x : A) → P x → Q x)
    → All P xs
    → All Q xs
All-imp P Q [] f h = tt
All-imp P Q (x ∷ xs) f (p, h) = (f x p, All-imp P Q xs f h)

pub length-map {ℓ κ} :
    {A : Type ℓ} {B : Type κ} (f : A → B) (xs : List A) → length (map f xs) ≡ length xs
length-map f [] = refl
length-map f (x ∷ xs) = ap suc (length-map f xs)
