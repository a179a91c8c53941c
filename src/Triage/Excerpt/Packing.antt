-- ===== src/Triage/Excerpt/Packing.antt =====
-- packages/cli/src/commands/triage-bundle.ts, packUnits: nothing is lost and the cap is kept.
use codewatch.Base.{
  length-append, sym, ap, ◌∙◌, map, inr, Bool-cases, refl, All-append, true, sort_by, ◌<◌, arith,
  ◌⊎◌, ◌++◌, ◌≡◌, [], flat_map, inl, All, length, ◌∷◌,
}
use mathlib.Core.List.{append_assoc, append-nil}
use codewatch.Triage.Excerpt.{
  ℕ, String, List, ExcerptUnit, Group, ShownLines, start_group, copy_shown, merge_shown, fits,
  pack_from, pack, by_line, pack_groups, pack_units,
}

-- What the units of a group are shown as together.
abbrev pub shown_from : ShownLines → List ExcerptUnit → ShownLines
shown_from shown [] = shown
shown_from shown (u ∷ us) = shown_from (merge_shown (copy_shown shown) u.shown) us

abbrev pub shown_of : List ExcerptUnit → ShownLines
shown_of [] = []
shown_of (u ∷ us) = shown_from (copy_shown u.shown) us

shown_from-concat :
    (shown : ShownLines) (us : List ExcerptUnit) (u : ExcerptUnit)
    → shown_from shown (us ++ u ∷ []) ≡ merge_shown (copy_shown (shown_from shown us)) u.shown
shown_from-concat shown [] u = refl
shown_from-concat shown (v ∷ us) u = shown_from-concat (merge_shown (copy_shown shown) v.shown) us u

shown_of-concat :
    (us : List ExcerptUnit) (u : ExcerptUnit)
    → 0 < length us
    → shown_of (us ++ u ∷ []) ≡ merge_shown (copy_shown (shown_of us)) u.shown
shown_of-concat [] u h = absurd (omega (arith, h))
shown_of-concat (v ∷ us) u h = shown_from-concat (copy_shown v.shown) us u

module _ (text_of : String → List String) (cap : ℕ) where
  -- A bundle holds one unit, or several whose common excerpt is within the cap.
  abbrev pub IsBundle : List ExcerptUnit → Type 0
  IsBundle us = (length us ≡ 1) ⊎ ((1 < length us) × (fits text_of cap (shown_of us) ≡ true))

  record IsGroup (g : Group) : Type 0 where
    shown : g.shown ≡ shown_of g.units
    bundle : IsBundle g.units
    full : 0 < length g.units

  IsGroup-start_group : (u : ExcerptUnit) → IsGroup (start_group u)
  IsGroup-start_group u = record { shown = refl; bundle = inl refl; full = omega arith }

  IsGroup-joined :
      (g : Group) (u : ExcerptUnit)
      → IsGroup g
      → fits text_of cap (merge_shown (copy_shown g.shown) u.shown) ≡ true
      → IsGroup
          (record { shown = merge_shown (copy_shown g.shown) u.shown; units = g.units ++ u ∷ [] })
  IsGroup-joined g u h f = record {
    shown = same;
    bundle = inr (omega (arith, h.full, length-append g.units (u ∷ [])), rw (sym same) f);
    full = omega (arith, length-append g.units (u ∷ []));
  }
    where
      same : merge_shown (copy_shown g.shown) u.shown ≡ shown_of (g.units ++ u ∷ [])
      same =
          ap (λ s. merge_shown (copy_shown s) u.shown) h.shown
          ∙ sym (shown_of-concat g.units u h.full)

  pack_from-IsGroup :
      (closed : List Group) (g : Group) (us : List ExcerptUnit)
      → All IsGroup closed
      → IsGroup g
      → All IsGroup (pack_from text_of cap closed g us)
  unfolding pack_from
  pack_from-IsGroup closed g [] h k = All-append IsGroup closed (g ∷ []) h (k, tt)
  pack_from-IsGroup closed g (u ∷ us) h k =
      elim (Bool-cases (fits text_of cap (merge_shown (copy_shown g.shown) u.shown))) [
        | inl f ↦ rw f (pack_from-IsGroup closed _ us h (IsGroup-joined g u k f))
        | inr f ↦ rw f (
            pack_from-IsGroup (closed ++ g ∷ []) (start_group u) us
              (All-append IsGroup closed (g ∷ []) h (k, tt)) (IsGroup-start_group u))
      ]

  abbrev all_units : List Group → List ExcerptUnit
  all_units = flat_map (λ g. g.units)

  all_units-append : (gs hs : List Group) → all_units (gs ++ hs) ≡ all_units gs ++ all_units hs
  all_units-append [] hs = refl
  all_units-append (g ∷ gs) hs =
      ap (λ l. g.units ++ l) (all_units-append gs hs)
      ∙ sym (append_assoc g.units (all_units gs) (all_units hs))

  all_units_lem : (gs : List Group) → flat_map (λ us. us) (map (λ g. g.units) gs) ≡ all_units gs
  all_units_lem [] = refl
  all_units_lem (g ∷ gs) = ap (λ l. g.units ++ l) (all_units_lem gs)

  bundles_lem : (gs : List Group) → All IsGroup gs → All IsBundle (map (λ g. g.units) gs)
  bundles_lem [] h = tt
  bundles_lem (g ∷ gs) (p, h) = (p.bundle, bundles_lem gs h)

  pack_from-all_units :
      (closed : List Group) (g : Group) (us : List ExcerptUnit)
      → all_units (pack_from text_of cap closed g us) ≡ all_units closed ++ (g.units ++ us)
  unfolding pack_from
  pack_from-all_units closed g [] = all_units-append closed (g ∷ [])
  pack_from-all_units closed g (u ∷ us) =
      elim (Bool-cases (fits text_of cap (merge_shown (copy_shown g.shown) u.shown))) [
        | inl f ↦ rw f (
            pack_from-all_units closed _ us
            ∙ ap (λ l. all_units closed ++ l) (append_assoc g.units (u ∷ []) us))
        | inr f ↦ rw f (
            pack_from-all_units (closed ++ g ∷ []) (start_group u) us
            ∙ ap (λ l. l ++ (u ∷ us)) (all_units-append closed (g ∷ []))
            ∙ append_assoc (all_units closed) (g.units ++ []) (u ∷ us)
            ∙ ap (λ l. all_units closed ++ (l ++ (u ∷ us))) (append-nil g.units))
      ]

  packed :
      (us : List ExcerptUnit)
      → (all_units (pack text_of cap us) ≡ us) × All IsGroup (pack text_of cap us)
  packed [] = (refl, tt)
  packed (u ∷ us) = (
    pack_from-all_units [] (start_group u) us,
    pack_from-IsGroup [] (start_group u) us tt (IsGroup-start_group u),
  )

  -- The bundles of a file hold all of its units, in the order of their lines; each bundle has one
  -- unit, or several whose common excerpt stays within the token cap.
  pub pack_units_partition :
      (excerpts : List ExcerptUnit)
      → (flat_map (λ us. us) (pack_units text_of cap excerpts) ≡ sort_by (by_line) excerpts)
        × All IsBundle (pack_units text_of cap excerpts)
  unfolding pack_units pack_groups
  pack_units_partition excerpts =
      let p = packed (sort_by by_line excerpts) in
      (all_units_lem (pack text_of cap (sort_by by_line excerpts)) ∙ p.0, bundles_lem _ p.1)
