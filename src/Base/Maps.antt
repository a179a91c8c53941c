-- ===== src/Base/Maps.antt =====
-- The insertion-ordered `Map` and `Set` of JavaScript, as association lists and lists.
use mathlib.Core.Path.{◌≡◌, refl}
use mathlib.Core.Logic.{◌↔◌, inl, inr}
use mathlib.Core.Bool.{Bool, true, false, ◌||◌}
use mathlib.Core.Option.{Option, none, some}
use mathlib.Core.List.{List, [], ◌∷◌, ◌++◌, Memᴰ}
use native.Mathlib.Omega.{arith}
use codewatch.Base.Tests.{if◌then◌else◌, Bool-cases, is_some}
use codewatch.Base.Equality.{Eq, ◌==◌, beq_sym}
use codewatch.Base.Lists.{All, All-append, Memᴰ-cons, not-Memᴰ-nil}

abbrev pub JsMap {ℓ κ} : Type ℓ → Type κ → Type (ℓ ⊔ κ)
JsMap K V = List (K × V)

module _ {ℓ κ} {K : Type ℓ} {V : Type κ} ⦃e : Eq K⦄ where
  abbrev pub lookup : JsMap K V → K → Option V
  lookup [] k = none
  lookup ((j, v) ∷ m) k = if j == k then some v else lookup m k

  -- A key that is there keeps its place.
  abbrev pub insert : JsMap K V → K → V → JsMap K V
  insert [] k v = (k, v) ∷ []
  insert ((j, w) ∷ m) k v = if j == k then (j, v) ∷ m else (j, w) ∷ insert m k v

module _ {ℓ κ} {K : Type ℓ} {V : Type κ} where
  abbrev pub keys : JsMap K V → List K
  keys [] = []
  keys ((j, v) ∷ m) = j ∷ keys m

  abbrev pub values : JsMap K V → List V
  values [] = []
  values ((j, v) ∷ m) = v ∷ values m

module _ {ℓ} {K : Type ℓ} ⦃e : Eq K⦄ where
  abbrev pub contains : List K → K → Bool
  contains [] k = false
  contains (x ∷ xs) k = x == k || contains xs k

  -- `Set.add`
  abbrev pub add : List K → K → List K
  add xs k = if contains xs k then xs else xs ++ k ∷ []

  -- `new Set(xs)`
  abbrev pub add_all : List K → List K → List K
  add_all acc [] = acc
  add_all acc (x ∷ xs) = add_all (add acc x) xs

  abbrev pub HasNodup : List K → Type 0
  HasNodup [] = Unit
  HasNodup (x ∷ xs) = (contains xs x ≡ false) × HasNodup xs

  pub contains_iff : (xs : List K) (k : K) → (contains xs k ≡ true) ↔ Memᴰ k xs
  contains_iff [] k = (λ h. cc, λ m. absurd (not-Memᴰ-nil k m))
  contains_iff (x ∷ xs) k = ground (arith, Memᴰ-cons k x xs, contains_iff xs k, e.beq_iff x k)

  pub contains-append :
      (xs ys : List K) (k : K) → contains (xs ++ ys) k ≡ (contains xs k || contains ys k)
  contains-append [] ys k = refl
  contains-append (x ∷ xs) ys k = ground (arith, contains-append xs ys k)

  pub contains-add : (xs : List K) (k j : K) → contains (add xs k) j ≡ (k == j || contains xs j)
  contains-add xs k j =
      ground (arith, contains-append xs (k ∷ []) j, e.beq_iff k j, contains_iff xs k)

  pub contains-add_self : (xs : List K) (k : K) → contains (add xs k) k ≡ true
  contains-add_self xs k = ground (arith, contains-add xs k k, e.beq_iff k k)

  pub HasNodup-concat :
      (xs : List K) (k : K) → HasNodup xs → contains xs k ≡ false → HasNodup (xs ++ k ∷ [])
  HasNodup-concat [] k h c = (refl, tt)
  HasNodup-concat (x ∷ xs) k (h, t) c = (
    ground (arith, contains-append xs (k ∷ []) x, beq_sym x k),
    HasNodup-concat xs k t (ground arith),
  )

  pub HasNodup-add : (xs : List K) (k : K) → HasNodup xs → HasNodup (add xs k)
  HasNodup-add xs k h = elim (Bool-cases (contains xs k)) [
    | inl there ↦ rw there h
    | inr new ↦ rw new (HasNodup-concat xs k h new)
  ]

  pub HasNodup-add_all : (acc xs : List K) → HasNodup acc → HasNodup (add_all acc xs)
  HasNodup-add_all acc [] h = h
  HasNodup-add_all acc (x ∷ xs) h = HasNodup-add_all (add acc x) xs (HasNodup-add acc x h)

  pub All-add {κ} : (P : K → Type κ) (xs : List K) (k : K) → All P xs → P k → All P (add xs k)
  All-add P xs k h p = elim (Bool-cases (contains xs k)) [
    | inl there ↦ rw there h
    | inr new ↦ rw new (All-append P xs (k ∷ []) h (p, tt))
  ]

  pub All-add_all {κ} :
      (P : K → Type κ) (acc xs : List K) → All P acc → All P xs → All P (add_all acc xs)
  All-add_all P acc [] h k = h
  All-add_all P acc (x ∷ xs) h (p, k) = All-add_all P (add acc x) xs (All-add P acc x h p) k

  pub contains-add_all :
      (acc xs : List K) (j : K) → contains (add_all acc xs) j ≡ (contains acc j || contains xs j)
  contains-add_all acc [] j = ground arith
  contains-add_all acc (x ∷ xs) j =
      ground (arith, contains-add_all (add acc x) xs j, contains-add acc x j)

module _ {ℓ κ} {K : Type ℓ} {V : Type κ} ⦃e : Eq K⦄ where
  pub lookup-insert :
      (m : JsMap K V) (k j : K) (v : V)
      → lookup (insert m k v) j ≡ (if k == j then some v else lookup m j)
  lookup-insert [] k j v = refl
  lookup-insert ((i, w) ∷ m) k j v =
      ground (arith, e.beq_iff i k, e.beq_iff k j, e.beq_iff i j, lookup-insert m k j v)

  pub keys-insert : (m : JsMap K V) (k : K) (v : V) → keys (insert m k v) ≡ add (keys m) k
  keys-insert [] k v = refl
  keys-insert ((i, w) ∷ m) k v = ground (arith, keys-insert m k v)

  pub HasNodup-insert :
      (m : JsMap K V) (k : K) (v : V) → HasNodup (keys m) → HasNodup (keys (insert m k v))
  HasNodup-insert m k v h = rw (keys-insert m k v) (HasNodup-add (keys m) k h)

  contains-keys_of_mem :
      (m : JsMap K V) (k : K) (v : V) → Memᴰ (k, v) m → contains (keys m) k ≡ true
  contains-keys_of_mem [] k v t = absurd (not-Memᴰ-nil (k, v) t)
  contains-keys_of_mem ((i, w) ∷ m) k v t =
      ground (arith, Memᴰ-cons (k, v) (i, w) m, e.beq_iff i k, contains-keys_of_mem m k v)

  -- The entries of a map are what `lookup` finds.
  pub lookup_of_mem :
      (m : JsMap K V) (k : K) (v : V) → HasNodup (keys m) → Memᴰ (k, v) m → lookup m k ≡ some v
  lookup_of_mem [] k v h t = absurd (not-Memᴰ-nil (k, v) t)
  lookup_of_mem ((i, w) ∷ m) k v h t = elim ((Memᴰ-cons (k, v) (i, w) m).0 t) [
    | inl same ↦ ground (arith, e.beq_iff i k)
    | inr later ↦
        ground
          (arith, e.beq_iff i k, lookup_of_mem m k v h.1 later, contains-keys_of_mem m k v later)
  ]

  pub is_some-lookup : (m : JsMap K V) (k : K) → is_some (lookup m k) ≡ contains (keys m) k
  is_some-lookup [] k = refl
  is_some-lookup ((i, w) ∷ m) k = ground (arith, is_some-lookup m k)

  pub mem_of_lookup : (m : JsMap K V) (k : K) (v : V) → lookup m k ≡ some v → Memᴰ (k, v) m
  mem_of_lookup [] k v h = cc
  mem_of_lookup ((i, w) ∷ m) k v h =
      ground (arith, Memᴰ-cons (k, v) (i, w) m, e.beq_iff i k, mem_of_lookup m k v)
