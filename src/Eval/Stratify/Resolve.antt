-- ===== src/Eval/Stratify/Resolve.antt =====
-- packages/cli/src/eval/stratify.ts: relative specifiers name files that are there.
use text.Mathlib.TextEquality.{eq_iff}
use codewatch.Base.{
  ap, Option-cases, ◌⊎◌, if◌then◌else◌, ◌||◌, ◌==◌, All-append, Bool, refl, ◌∙◌, Option, ◌++◌, [],
  string_eq, inr, sym, arith, inl, Bool-cases, false, ◌∷◌, glue, true, contains, All, some, none,
  ◌≡◌, ◌≢◌,
}
use mathlib.Core.List.{append_assoc, append-nil}
use codewatch.Eval.Stratify.{
  drop_last, or_first, index_bases, extensions, stem_of, starts_with_dot, walk,
  resolve_relative_specifier, ◌≡◌, List, String, first_known,
}

first_known-none :
    (file_ids : List String) (stem : String) (es : List String)
    → first_known file_ids stem es ≡ none
    → All (λ e. contains file_ids (glue stem e) ≡ false) es
first_known-none file_ids stem [] h = tt
first_known-none file_ids stem (e ∷ es) h = elim (Bool-cases (contains file_ids (glue stem e))) [
  | inl here ↦ absurd (ground (arith, h, here))
  | inr other ↦ (other, first_known-none file_ids stem es (ground (arith, h, other)))
]

none_is_not_some : {a : String} → none ≡ some a → ⊥
none_is_not_some e = cc

-- The first of the endings that makes the stem a known file, and that file.
abbrev pub IsFirstKnown : List String → String → List String → String → Type 0
IsFirstKnown file_ids stem es found =
    (before : List String) × (e : String) × (after : List String) × (es ≡ before ++ e ∷ after)
    × (found ≡ glue stem e)
    × (contains file_ids found ≡ true)
    × All (λ d. contains file_ids (glue stem d) ≡ false) before

first_known_lem :
    (file_ids : List String) (stem : String) (es : List String) (found : String)
    → first_known file_ids stem es ≡ some found
    → IsFirstKnown file_ids stem es found
first_known_lem file_ids stem [] found h = absurd (none_is_not_some h)
first_known_lem file_ids stem (e ∷ es) found h =
    elim (Bool-cases (contains file_ids (glue stem e))) [
      | inl here ↦
          let p : glue stem e ≡ found = ground (arith, h, here) in
          ([], e, es, refl, sym p, rw (sym p) here, tt)
      | inr other ↦
          let (before, d, after, split, same, known, unknown) =
            first_known_lem file_ids stem es found (ground (arith, h, other)) in
          (e ∷ before, d, after, ap (λ l. e ∷ l) split, same, known, (other, unknown))
    ]

-- A segment that names something.
abbrev pub IsProper : String → Type 0
IsProper seg = (seg ≢ "") × (seg ≢ ".") × (seg ≢ "..")

gate_some :
    (b : Bool) (o : Option String) (found : String)
    → (if b then o else none) ≡ some found
    → o ≡ some found
gate_some true o found h = h
gate_some false o found h = cc

gate_none : (b : Bool) (o : Option String) → b ≡ true → (if b then o else none) ≡ none → o ≡ none
gate_none true o d h = h
gate_none false o d h = cc

or_first-none : (a b : Option String) → or_first a b ≡ none → (a ≡ none) × (b ≡ none)
or_first-none none b h = (refl, h)
or_first-none (some x) b h = cc

or_first-some :
    (file_ids : List String) (stem : String) (es is : List String) (found : String)
    (a b : Option String)
    → first_known file_ids stem es ≡ a
    → first_known file_ids stem is ≡ b
    → or_first a b ≡ some found
    → IsFirstKnown file_ids stem (es ++ is) found
or_first-some file_ids stem es is found (some x) b p q h =
    let (before, e, after, split, same, known, unknown) =
      first_known_lem file_ids stem es found (p ∙ h) in
    (
      before,
      e,
      after ++ is,
      ap (λ l. l ++ is) split ∙ append_assoc before (e ∷ after) is,
      same,
      known,
      unknown,
    )
or_first-some file_ids stem es is found none b p q h =
    let (before, e, after, split, same, known, unknown) =
      first_known_lem file_ids stem is found (q ∙ h) in
    (
      es ++ before,
      e,
      after,
      ap (λ l. es ++ l) split ∙ sym (append_assoc es before (e ∷ after)),
      same,
      known,
      All-append (λ d. contains file_ids (glue stem d) ≡ false) es before
          (first_known-none file_ids stem es p) unknown,
    )

gate_true :
    (b : Bool) (o : Option String) (found : String)
    → (if b then o else none) ≡ some found
    → b ≡ true
gate_true true o found h = refl
gate_true false o found h = absurd (none_is_not_some h)

-- A specifier resolves only if it is relative, to the first known file that its path makes with an
-- ending or an index file, in their order; it stays unresolved only if it is not relative or if no
-- ending and no index file makes its path a known one.
pub resolve_relative_specifier_lem :
    (src_file_id specifier : String) (file_ids : List String)
    → ((found : String) × (resolve_relative_specifier src_file_id specifier file_ids ≡ some found)
        × (starts_with_dot specifier ≡ true)
        × IsFirstKnown file_ids (stem_of src_file_id specifier) (extensions ++ index_bases) found)
      ⊎ ((resolve_relative_specifier src_file_id specifier file_ids ≡ none)
          × ((starts_with_dot specifier ≡ false)
              ⊎ All
                  (λ e. contains file_ids (glue (stem_of src_file_id specifier) e) ≡ false)
                  (extensions ++ index_bases)))
unfolding resolve_relative_specifier
resolve_relative_specifier_lem src_file_id specifier file_ids =
    elim (Option-cases (resolve_relative_specifier src_file_id specifier file_ids)) [
      | inr (found, h) ↦ inl (
        found,
        h,
        gate_true (starts_with_dot specifier) _ found h,
        or_first-some file_ids stem extensions index_bases found _ _ refl refl
            (gate_some (starts_with_dot specifier) _ found h),
      )
      | inl h ↦ elim (Bool-cases (starts_with_dot specifier)) [
        | inr bare ↦ inr (h, inl bare)
        | inl d ↦
            let p =
              or_first-none (first_known file_ids stem extensions)
                (first_known file_ids stem index_bases)
                (gate_none (starts_with_dot specifier) _ d h) in
            inr (
              h,
              inr (
                  All-append (λ e. contains file_ids (glue stem e) ≡ false) extensions index_bases
                    (first_known-none file_ids stem extensions p.0)
                    (first_known-none file_ids stem index_bases p.1)),
            )
      ]
    ]
  where
    stem : String
    stem = stem_of src_file_id specifier

All-drop_last : (xs : List String) → All IsProper xs → All IsProper (drop_last xs)
All-drop_last [] h = tt
All-drop_last (x ∷ []) h = tt
All-drop_last (x ∷ (y ∷ xs)) (p, h) = (p, All-drop_last (y ∷ xs) h)

proper : (seg : String) → (seg == "" || seg == ".") ≡ false → seg == ".." ≡ false → IsProper seg
proper seg h k = (
  λ e. ground (arith, h, (eq_iff seg "").1 e),
  λ e. ground (arith, h, (eq_iff seg ".").1 e),
  λ e. ground (arith, k, (eq_iff seg "..").1 e),
)

improper : (seg : String) → IsProper seg → (seg == "" || seg == ".") ≡ false
improper seg (p, q, r) = elim (Bool-cases (seg == "")) [
  | inl e ↦ absurd (p ((eq_iff seg "").0 e))
  | inr e ↦ elim (Bool-cases (seg == ".")) [
    | inl f ↦ absurd (q ((eq_iff seg ".").0 f))
    | inr f ↦ ground (arith, e, f)
  ]
]

not_up : (seg : String) → IsProper seg → seg == ".." ≡ false
not_up seg (p, q, r) = elim (Bool-cases (seg == "..")) [
  | inl e ↦ absurd (r ((eq_iff seg "..").0 e))
  | inr e ↦ e
]

All-walk : (out segs : List String) → All IsProper out → All IsProper (walk out segs)
All-walk out [] h = h
All-walk out (seg ∷ segs) h = elim (Bool-cases (seg == "" || seg == ".")) [
  | inl dot ↦ rw dot (All-walk out segs h)
  | inr name ↦ elim (Bool-cases (seg == "..")) [
    | inl up ↦ rw (name, up) (All-walk (drop_last out) segs (All-drop_last out h))
    | inr down ↦
        rw (name, down)
          (All-walk (out ++ seg ∷ []) segs
            (All-append IsProper out (seg ∷ []) h (proper seg name down, tt)))
  ]
]

walk_proper : (out segs : List String) → All IsProper segs → walk out segs ≡ out ++ segs
walk_proper out [] h = sym (append-nil out)
walk_proper out (seg ∷ segs) (p, h) =
    rw (improper seg p, not_up seg p)
      (walk_proper (out ++ seg ∷ []) segs h ∙ append_assoc out (seg ∷ []) segs)

-- A normalised path has no empty, `.` or `..` segment, and normalising its segments again changes
-- nothing.
walk_normal :
    (segs : List String) → All IsProper (walk [] segs) × (walk [] (walk [] segs) ≡ walk [] segs)
walk_normal segs = (All-walk [] segs tt, walk_proper [] (walk [] segs) (All-walk [] segs tt))
