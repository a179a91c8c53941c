-- ===== src/Base/Tally.antt =====
-- The two loops over a `Map` that the program writes again and again: adding up an amount per key
-- (`bump` of packages/render/src/focus-package.ts) and collecting items per key (`groupBy` of
-- packages/cli/src/commands/audit-score.ts). Numbers are an interface, since edge weights are
-- floating-point: the sums below are taken in the order of the loop, with no law assumed.
use Prim.Native.Nat.{ℕ, ◌+◌}
use mathlib.Core.Path.{◌≡◌, refl, ap, ◌∙◌}
use mathlib.Core.Logic.{inl, inr}
use mathlib.Core.Bool.{Bool, true, false}
use mathlib.Core.Option.{Option, none, some}
use mathlib.Core.List.{List, [], ◌∷◌, ◌++◌}
use native.Mathlib.Omega.{arith}
use codewatch.Base.Tests.{ltb, if◌then◌else◌, or_else, Bool-cases}
use codewatch.Base.Equality.{Eq, ◌==◌}
use codewatch.Base.Sort.{insert_sorted, sort_by}
use mathlib.Core.List.{map}
use codewatch.Base.Lists.{length, length-append}
use codewatch.Base.Maps.{
  HasNodup-insert, HasNodup, JsMap, lookup, insert, keys, values, add, add_all, lookup-insert,
  keys-insert,
}

-- The numbers of the program, as far as its loops use them.
pub record Arith (N : Type 0) : Type 0 where
  pub zero : N
  pub one : N
  pub plus : N → N → N
  pub is_finite : N → Bool
  pub is_positive : N → Bool
  pub round : N → N

instance abbrev pub nat_arith : Arith ℕ
nat_arith = record {
  zero = 0;
  one = 1;
  plus = ◌+◌;
  is_finite = λ n. true;
  is_positive = λ n. ltb 0 n;
  round = λ n. n;
}

module _ {N : Type 0} ⦃a : Arith N⦄ where
  -- Added to what is there; no entry where there is none and nothing is added.
  abbrev pub sum_onto : Option N → List N → Option N
  sum_onto o [] = o
  sum_onto o (w ∷ ws) = sum_onto (some (a.plus (or_else o a.zero) w)) ws

module _ {K : Type 0} {N : Type 0} ⦃e : Eq K⦄ ⦃a : Arith N⦄ where
  -- `m.set(key, (m.get(key) ?? 0) + amount)`
  unfoldable pub bump : JsMap K N → K → N → JsMap K N
  bump m k w = insert m k (a.plus (or_else (lookup m k) a.zero) w)

  abbrev pub bump_opt : JsMap K N → Option (K × N) → JsMap K N
  bump_opt m none = m
  bump_opt m (some (k, w)) = bump m k w

  -- The loop: an item with no entry is passed over by `continue`.
  unfoldable pub tally {ℓ} : {E : Type ℓ} → (E → Option (K × N)) → JsMap K N → List E → JsMap K N
  tally entry m [] = m
  tally entry m (x ∷ xs) = tally entry (bump_opt m (entry x)) xs

  abbrev pub amount_at : K → Option (K × N) → List N → List N
  amount_at k none ws = ws
  amount_at k (some (j, w)) ws = if j == k then w ∷ ws else ws

  -- The amounts that the items put under one key, in order.
  abbrev pub amounts {ℓ} : {E : Type ℓ} → (E → Option (K × N)) → K → List E → List N
  amounts entry k [] = []
  amounts entry k (x ∷ xs) = amount_at k (entry x) (amounts entry k xs)

  abbrev pub key_at : Option (K × N) → List K → List K
  key_at none ks = ks
  key_at (some (j, w)) ks = j ∷ ks

  abbrev pub entry_keys {ℓ} : {E : Type ℓ} → (E → Option (K × N)) → List E → List K
  entry_keys entry [] = []
  entry_keys entry (x ∷ xs) = key_at (entry x) (entry_keys entry xs)

  pub lookup-bump :
      (m : JsMap K N) (k j : K) (w : N)
      → lookup (bump m k w) j
        ≡ (if k == j then some (a.plus (or_else (lookup m k) a.zero) w) else lookup m j)
  unfolding bump
  lookup-bump m k j w = lookup-insert m k j (a.plus (or_else (lookup m k) a.zero) w)

  pub keys-bump : (m : JsMap K N) (k : K) (w : N) → keys (bump m k w) ≡ add (keys m) k
  unfolding bump
  keys-bump m k w = keys-insert m k (a.plus (or_else (lookup m k) a.zero) w)

  sum_onto-bump_opt :
      (m : JsMap K N) (o : Option (K × N)) (k : K) (ws : List N)
      → sum_onto (lookup (bump_opt m o) k) ws ≡ sum_onto (lookup m k) (amount_at k o ws)
  sum_onto-bump_opt m none k ws = refl
  sum_onto-bump_opt m (some (j, w)) k ws = elim (Bool-cases (j == k)) [
    | inl same ↦
        let e' : j ≡ k = (e.beq_iff j k).0 same in
        rw (lookup-bump m j k w, same)
          (ap (λ i. sum_onto (some (a.plus (or_else (lookup m i) a.zero) w)) ws) e')
    | inr other ↦ rw (lookup-bump m j k w, other) refl
  ]

  -- What the loop leaves under a key is the sum of the amounts put there, in the loop's order.
  pub lookup-tally {ℓ} :
      {E : Type ℓ} (entry : E → Option (K × N)) (m : JsMap K N) (xs : List E) (k : K)
      → lookup (tally entry m xs) k ≡ sum_onto (lookup m k) (amounts entry k xs)
  unfolding tally
  lookup-tally entry m [] k = refl
  lookup-tally entry m (x ∷ xs) k =
      lookup-tally entry (bump_opt m (entry x)) xs k
      ∙ sum_onto-bump_opt m (entry x) k (amounts entry k xs)

  keys-bump_opt :
      (m : JsMap K N) (o : Option (K × N)) (ks : List K)
      → add_all (keys (bump_opt m o)) ks ≡ add_all (keys m) (key_at o ks)
  keys-bump_opt m none ks = refl
  keys-bump_opt m (some (j, w)) ks = ap (λ l. add_all l ks) (keys-bump m j w)

  pub keys-tally {ℓ} :
      {E : Type ℓ} (entry : E → Option (K × N)) (m : JsMap K N) (xs : List E)
      → keys (tally entry m xs) ≡ add_all (keys m) (entry_keys entry xs)
  unfolding tally
  keys-tally entry m [] = refl
  keys-tally entry m (x ∷ xs) =
      keys-tally entry (bump_opt m (entry x)) xs ∙ keys-bump_opt m (entry x) (entry_keys entry xs)

abbrev pub sum : List ℕ → ℕ
sum [] = 0
sum (n ∷ ns) = n + sum ns

sum-insert_sorted {ℓ} :
    {A : Type ℓ} (before : A → A → Bool) (f : A → ℕ) (x : A) (xs : List A)
    → sum (map f (insert_sorted before x xs)) ≡ f x + sum (map f xs)
unfolding insert_sorted
sum-insert_sorted before f x [] = refl
sum-insert_sorted before f x (y ∷ ys) = ground (arith, sum-insert_sorted before f x ys)

pub sum-sort_by {ℓ} :
    {A : Type ℓ} (before : A → A → Bool) (f : A → ℕ) (xs : List A)
    → sum (map f (sort_by before xs)) ≡ sum (map f xs)
unfolding sort_by
sum-sort_by before f [] = refl
sum-sort_by before f (x ∷ xs) =
    omega (arith, sum-insert_sorted before f x (sort_by before xs), sum-sort_by before f xs)

module _ {K : Type 0} ⦃e : Eq K⦄ where
  sum-values-insert :
      (m : JsMap K ℕ) (k : K) (v : ℕ)
      → sum (values (insert m k v)) + or_else (lookup m k) 0 ≡ sum (values m) + v
  sum-values-insert [] k v = omega arith
  sum-values-insert ((j, w) ∷ m) k v = ground (arith, sum-values-insert m k v)

  pub sum-values-bump :
      (m : JsMap K ℕ) (k : K) (w : ℕ) → sum (values (bump m k w)) ≡ sum (values m) + w
  unfolding bump
  sum-values-bump m k w = omega (arith, sum-values-insert m k (or_else (lookup m k) 0 + w))

module _ {K : Type 0} {V : Type 0} ⦃e : Eq K⦄ where
  -- `const group = groups.get(k); if (group) group.push(item); else groups.set(k, [item])`
  unfoldable pub push : JsMap K (List V) → K → V → JsMap K (List V)
  push m k v = insert m k (or_else (lookup m k) [] ++ v ∷ [])

  unfoldable pub group_by : (V → Option K) → JsMap K (List V) → List V → JsMap K (List V)
  group_by key m [] = m
  group_by key m (x ∷ xs) = group_by key (elim (key x) [ none ↦ m | some k ↦ push m k x ]) xs

  -- `groups.get(k) ?? []`
  abbrev pub group_at : JsMap K (List V) → K → List V
  group_at m k = or_else (lookup m k) []

  abbrev pub has_key : (V → Option K) → K → V → Bool
  has_key key k x = elim (key x) [ none ↦ false | some j ↦ j == k ]

  pub lookup-push :
      (m : JsMap K (List V)) (k j : K) (v : V)
      → lookup (push m k v) j ≡ (if k == j then some (group_at m k ++ v ∷ []) else lookup m j)
  unfolding push
  lookup-push m k j v = lookup-insert m k j (group_at m k ++ v ∷ [])

  abbrev pub sizes : JsMap K (List V) → ℕ
  sizes [] = 0
  sizes ((k, g) ∷ m) = length g + sizes m

  sizes-insert :
      (m : JsMap K (List V)) (k : K) (g : List V)
      → sizes (insert m k g) + length (group_at m k) ≡ sizes m + length g
  sizes-insert [] k g = omega arith
  sizes-insert ((j, w) ∷ m) k g = ground (arith, sizes-insert m k g)

  -- One more item is held, and none is lost.
  pub sizes-push : (m : JsMap K (List V)) (k : K) (v : V) → sizes (push m k v) ≡ sizes m + 1
  unfolding push
  sizes-push m k v =
      omega
        (arith, sizes-insert m k (group_at m k ++ v ∷ []), length-append (group_at m k) (v ∷ []))

  pub HasNodup-push :
      (m : JsMap K (List V)) (k : K) (v : V) → HasNodup (keys m) → HasNodup (keys (push m k v))
  unfolding push
  HasNodup-push m k v h = HasNodup-insert m k (group_at m k ++ v ∷ []) h
