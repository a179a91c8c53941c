-- ===== src/Eval/Stratify/Dominant.antt =====
-- packages/cli/src/eval/stratify.ts, dominantStratum: the modal stratum, ties to the harder one.
use codewatch.Base.{
  Option-cases, mem_of_lookup, lookup_of_mem, sym, All-mem, beq_refl, entry_keys, HasNodup-add_all,
  none, keys-tally, ◌∙◌, lookup-tally, keys, HasNodup, ap, ◌&&◌, eqb, [], nat_arith, refl, ◌||◌,
  Memᴰ, ◌+◌, ◌≤◌, ltb, All, amounts, ◌≡◌, Bool-cases, ◌==◌, lookup, ◌⊎◌, inr, arith, some, keep,
  inl, sum_onto, ◌<◌, ◌∷◌,
}
use codewatch.Eval.Stratify.{
  length, JsMap, or_else, Option, List, ℕ, Stratum, hardness, stratum_eq, best_of, counts_of,
  dominant_stratum,
}

-- How often a stratum occurs.
abbrev pub occurrences : Stratum → List Stratum → ℕ
occurrences t strata = length (keep (λ s. s == t) strata)

-- An entry that the other one is rightly preferred to.
abbrev pub Beats : Stratum × ℕ → Stratum × ℕ → Type 0
Beats r e = (e.1 < r.1) ⊎ ((e.1 ≡ r.1) × (hardness e.0 ≤ hardness r.0))

Beats-refl : (r : Stratum × ℕ) → Beats r r
Beats-refl r = inr (refl, omega arith)

Beats-trans : (r s t : Stratum × ℕ) → Beats r s → Beats s t → Beats r t
Beats-trans r s t h k = ground arith

abbrev Found : Stratum × ℕ → JsMap Stratum ℕ → Type 0
Found b m =
    (r : Stratum × ℕ) × (best_of (b.0, some b.1) m ≡ (r.0, some r.1))
    × Beats r b
    × All (Beats r) m
    × ((r ≡ b) ⊎ Memᴰ r m)

best_of_lem : (b : Stratum × ℕ) (m : JsMap Stratum ℕ) → Found b m
best_of_lem b [] = (b, refl, Beats-refl b, tt, inl refl)
best_of_lem b (e ∷ m) =
    elim (Bool-cases (ltb b.1 e.1 || eqb e.1 b.1 && ltb (hardness b.0) (hardness e.0))) [
      | inl yes_new ↦
          let f = best_of_lem e m in
          rw yes_new (
            f.0,
            f.1,
            Beats-trans f.0 e b f.2 (ground (arith, yes_new)),
            (f.2, f.3),
            elim f.4 [ inl p ↦ inr (Memᴰ.head p) | inr t ↦ inr (Memᴰ.tail t) ],
          )
      | inr no_new ↦
          let f = best_of_lem b m in
          rw no_new (
            f.0,
            f.1,
            f.2,
            (Beats-trans f.0 b e f.2 (ground (arith, no_new)), f.3),
            elim f.4 [ inl p ↦ inl p | inr t ↦ inr (Memᴰ.tail t) ],
          )
    ]

sum_onto-amounts :
    (o : Option ℕ) (t : Stratum) (xs : List Stratum)
    → or_else (sum_onto o (amounts (λ s. some (s, 1)) t xs)) 0 ≡ or_else o 0 + occurrences t xs
sum_onto-amounts o t [] = omega arith
sum_onto-amounts o t (x ∷ xs) = elim (Bool-cases (x == t)) [
  | inl same ↦ rw same (omega (arith, sum_onto-amounts (some (or_else o 0 + 1)) t xs))
  | inr other ↦ rw other (sum_onto-amounts o t xs)
]

counts_lem :
    (strata : List Stratum) (t : Stratum)
    → or_else (lookup (counts_of strata) t) 0 ≡ occurrences t strata
counts_lem strata t =
    ap (λ o. or_else o 0) (lookup-tally (λ s. some (s, 1)) [] strata t)
    ∙ sum_onto-amounts none t strata
    ∙ omega arith

one_each : Stratum → Option (Stratum × ℕ)
one_each s = some (s, 1)

counts-HasNodup : (strata : List Stratum) → HasNodup (keys (counts_of strata))
unfolding one_each
counts-HasNodup strata =
    rw (keys-tally one_each [] strata) (HasNodup-add_all [] (entry_keys one_each strata) tt)

All-beaten :
    (r : Stratum × ℕ) (m : JsMap Stratum ℕ) (t : Stratum) (c : ℕ)
    → All (Beats r) m
    → lookup m t ≡ some c
    → Beats r (t, c)
All-beaten r m t c h e = All-mem (Beats r) (t, c) m h (mem_of_lookup m t c e)

modal_in :
    (m : JsMap Stratum ℕ) (strata : List Stratum) (s t : Stratum)
    → HasNodup (keys m)
    → ((u : Stratum) → or_else (lookup m u) 0 ≡ occurrences u strata)
    → 0 < occurrences s strata
    → let best = (best_of (Stratum.semantic_findable, none) m).0 in
      (occurrences t strata < occurrences best strata)
      ⊎ ((occurrences t strata ≡ occurrences best strata) × (hardness t ≤ hardness best))
modal_in [] strata s t d c p = absurd (omega (arith, c s, p))
modal_in (e ∷ m) strata s t d c p = rw (ap (λ b. b.0) found.1) (beats_all (lookup (e ∷ m) t) refl)
  where
    found : Found e m
    found = best_of_lem e m

    r : Stratum × ℕ
    r = found.0

    beaten : All (Beats r) (e ∷ m)
    beaten = (found.2, found.3)

    inside : Memᴰ r (e ∷ m)
    inside = elim found.4 [ inl q ↦ Memᴰ.head q | inr q ↦ Memᴰ.tail q ]

    own : occurrences r.0 strata ≡ r.1
    own = sym (c r.0) ∙ ap (λ o. or_else o 0) (lookup_of_mem (e ∷ m) r.0 r.1 d inside)

    positive : 0 < r.1
    positive = elim (Option-cases (lookup (e ∷ m) s)) [
      | inl gone ↦ absurd (omega (arith, c s, p, ap (λ o. or_else o 0) gone))
      | inr (n, there) ↦
          let n_pos : 0 < n = omega (arith, c s, p, ap (λ o. or_else o 0) there) in
          elim (All-beaten r (e ∷ m) s n beaten there) [
            | inl lt ↦ omega (arith, lt, n_pos)
            | inr eq ↦ omega (arith, eq.0, n_pos)
          ]
    ]

    beats_all :
        (o : Option ℕ)
        → lookup (e ∷ m) t ≡ o
        → (occurrences t strata < occurrences r.0 strata)
          ⊎ ((occurrences t strata ≡ occurrences r.0 strata) × (hardness t ≤ hardness r.0))
    beats_all none q = inl (omega (arith, positive, own, c t, ap (λ x. or_else x 0) q))
    beats_all (some n) q =
        let n_is : n ≡ occurrences t strata = sym (ap (λ x. or_else x 0) q) ∙ c t in
        elim (All-beaten r (e ∷ m) t n beaten q) [
          | inl lt ↦ inl (omega (arith, lt, own, n_is))
          | inr eq ↦ inr (omega (arith, eq.0, own, n_is), eq.1)
        ]

first_occurs : (s : Stratum) (strata : List Stratum) → 0 < occurrences s (s ∷ strata)
first_occurs s strata = rw (beq_refl s) (omega arith)

-- The stratum of a task with edges occurs most often among them, and no other that does so is
-- harder to discover.
pub dominant_stratum_modal :
    (s : Stratum) (strata : List Stratum) (t : Stratum)
    → let best = dominant_stratum (s ∷ strata) in
      (occurrences t (s ∷ strata) < occurrences best (s ∷ strata))
      ⊎ ((occurrences t (s ∷ strata) ≡ occurrences best (s ∷ strata))
          × (hardness t ≤ hardness best))
unfolding dominant_stratum
dominant_stratum_modal s strata t =
    modal_in (counts_of (s ∷ strata)) (s ∷ strata) s t (counts-HasNodup (s ∷ strata))
      (counts_lem (s ∷ strata)) (first_occurs s strata)
