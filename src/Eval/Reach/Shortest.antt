-- ===== src/Eval/Reach/Shortest.antt =====
-- The walk over imports gives every file its distance from the tests.
pub mod Known
pub mod Hops
use mathlib.Core.List.Memᴰ
use codewatch.Eval.Reach.{
  HopState, import_hops, reach_files, reach_targets, resolved_imports, root_hops, walk_hops,
}
use codewatch.Eval.Reach.Level.{
  contains-reach_targets, kept_or, lookup-reach_targets, missing-reach_targets, new_at,
}
use codewatch.Base.{
  sym, leb, contains-append, eqb, refl, ap, arith, ◌∙◌, Memᴰ-cons, inr, string_eq, Bool-cases,
  contains_iff, inl, some, ◌∷◌, not-Memᴰ-nil, [], ◌⊎◌, true, ◌≤◌, lookup, ◌↔◌, ◌+◌, none, flat_map,
  ◌≡◌, JsMap, ℕ, contains, Memᴰ, Option, String, List,
}

known_or_not : (o : Option ℕ) → (o ≡ none) ⊎ ((n : ℕ) × (o ≡ some n))
known_or_not none = inl refl
known_or_not (some n) = inr (n, refl)

-- `m` imports lead from a root to the file.
pub data Chain (imports : String → List String) (roots : List String) : ℕ → String → Type 0 where
  at_root : {x : String} → Memᴰ x roots → Chain imports roots 0 x
  import :
      {n m : ℕ} {y x : String}
      → m ≡ n + 1
      → Chain imports roots n y
      → Memᴰ x (imports y)
      → Chain imports roots m x

module _ (imports : String → List String) where
  target_of :
      (f : List String) (x : String)
      → contains (flat_map imports f) x ≡ true
      → (y : String) × Memᴰ y f × Memᴰ x (imports y)
  target_of [] x h = cc
  target_of (y ∷ f) x h = elim (Bool-cases (contains (imports y) x)) [
    | inl here ↦ (y, Memᴰ.head refl, (contains_iff (imports y) x).0 here)
    | inr there ↦
        let later =
          target_of f x
            (ground (arith, h, there, contains-append (imports y) (flat_map imports f) x)) in
        (later.0, Memᴰ.tail later.1, later.2)
  ]

  target_in :
      (f : List String) (x y : String)
      → Memᴰ y f
      → Memᴰ x (imports y)
      → contains (flat_map imports f) x ≡ true
  target_in [] x y m t = absurd (not-Memᴰ-nil y m)
  target_in (z ∷ f) x y m t = elim ((Memᴰ-cons y z f).0 m) [
    | inl same ↦
        let here = ap (λ w. contains (imports w) x) (sym same) ∙ (contains_iff (imports y) x).1 t in
        ground (arith, contains-append (imports z) (flat_map imports f) x, here)
    | inr later ↦
        ground (arith, contains-append (imports z) (flat_map imports f) x, target_in f x y later t)
  ]

-- The table after level `k`, with the frontier `f`.
pub record IsLevel (imports : String → List String) (roots : List String) (k : ℕ)
    (h : JsMap String ℕ) (f : List String) : Type 0 where
  pub sound : (x : String) (n : ℕ) → lookup h x ≡ some n → (n ≤ k) × Chain imports roots n x
  pub complete :
      (x : String) (n : ℕ)
      → Chain imports roots n x
      → n ≤ k
      → (m : ℕ) × (m ≤ n) × (lookup h x ≡ some m)
  pub front : (x : String) → Memᴰ x f ↔ (lookup h x ≡ some k)

module _ (imports : String → List String) (roots : List String) (k : ℕ) (h : JsMap String ℕ)
    (f : List String) (i : IsLevel imports roots k h f) where
  abbrev after : HopState
  after = reach_targets (k + 1) (record { hops = h; next = [] }) (flat_map imports f)

  hop :
      (x : String)
      → lookup after.hops x
        ≡ kept_or (lookup h x) (new_at (contains (flat_map imports f) x) (k + 1))
  hop x = lookup-reach_targets (k + 1) (record { hops = h; next = [] }) (flat_map imports f) x

  stays : (x : String) (m : ℕ) → lookup h x ≡ some m → lookup after.hops x ≡ some m
  stays x m l = hop x ∙ ground (arith, l)

  after_sound :
      (x : String) (n : ℕ) → lookup after.hops x ≡ some n → (n ≤ k + 1) × Chain imports roots n x
  after_sound x n l = elim (known_or_not (lookup h x)) [
    | inr (j, held) ↦
        let (le, chain) = i.sound x j held in
        let same : j ≡ n = ground (arith, hop x, l, held) in
        (omega (arith, le, same), rw (← same) chain)
    | inl new ↦
        let found : contains (flat_map imports f) x ≡ true = ground (arith, hop x, l, new) in
        let depth : n ≡ k + 1 = ground (arith, hop x, l, new) in
        let (y, my, mx) = target_of imports f x found in
        let chain = (i.sound y k ((i.front y).0 my)).1 in
        (omega (arith, depth), import depth chain mx)
  ]

  after_new :
      (x : String) (n : ℕ)
      → Chain imports roots n x
      → n ≡ k + 1
      → (m : ℕ) × (m ≤ n) × (lookup after.hops x ≡ some m)
  after_new x n (at_root r) e = absurd (omega (arith, e))
  after_new x n (import {n = p} {y = y} e' chain mx) e =
      let (m, le, l) = i.complete y p chain (omega (arith, e, e')) in
      let (mk, short) = i.sound y m l in
      elim (Bool-cases (eqb m k)) [
        | inl last ↦
            let at_k : lookup h y ≡ some k = l ∙ ap some (ground (arith, last)) in
            let found = target_in imports f x y ((i.front y).1 at_k) mx in
            elim (known_or_not (lookup h x)) [
              | inr (j, held) ↦ (j, omega (arith, (i.sound x j held).0, e), stays x j held)
              | inl new ↦ (k + 1, omega (arith, e), hop x ∙ ground (arith, found, new))
            ]
        | inr earlier ↦
            let room : m + 1 ≤ k = ground (arith, earlier, mk) in
            let (j, jm, held) = i.complete x (m + 1) (import refl short mx) room in
            (j, omega (arith, jm, le, e, e'), stays x j held)
      ]

  after_complete :
      (x : String) (n : ℕ)
      → Chain imports roots n x
      → n ≤ k + 1
      → (m : ℕ) × (m ≤ n) × (lookup after.hops x ≡ some m)
  after_complete x n chain le = elim (Bool-cases (leb n k)) [
    | inl old ↦ let (m, mn, l) = i.complete x n chain (ground (arith, old)) in (m, mn, stays x m l)
    | inr new ↦ after_new x n chain (ground (arith, new, le))
  ]

  after_front : (x : String) → Memᴰ x after.next ↔ (lookup after.hops x ≡ some (k + 1))
  after_front x =
      let next =
        contains-reach_targets (k + 1) (record { hops = h; next = [] }) (flat_map imports f) x in
      let listed = contains_iff after.next x in
      (
        λ m. hop x ∙ ground (arith, next, listed.1 m),
        λ l. listed.0 (elim (known_or_not (lookup h x)) [
          | inr (j, held) ↦
              let le = (i.sound x j held).0 in
              let same : j ≡ k + 1 = ground (arith, hop x, l, held) in
              absurd (omega (arith, le, same))
          | inl new ↦ next ∙ ground (arith, hop x, l, new)
        ]),
      )

  pub IsLevel-after : IsLevel imports roots (k + 1) after.hops after.next
  IsLevel-after = record { sound = after_sound; complete = after_complete; front = after_front }
