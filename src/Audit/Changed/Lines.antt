-- ===== src/Audit/Changed/Lines.antt =====
-- What it means for a change to touch a span.
use codewatch.Base.{
  refl, [], inr, inl, string_eq, ◌↔◌, Bool-cases, some, ◌&&◌, ◌∷◌, if◌then◌else◌, All, arith, true,
  ◌≤◌, ◌≡◌,
}
use codewatch.Audit.Changed.{
  leb, any, group_at, String, Bool, JsMap, ℕ, List, LineRange, hunk_range, meets, touches,
}

abbrev pub IsProper : LineRange → Type 0
IsProper r = r.start ≤ r.end

pub hunk_range-IsProper : (start count : ℕ) → IsProper (hunk_range start count)
unfolding hunk_range
hunk_range-IsProper start count = ground arith

-- The line `n` is in the range.
abbrev pub holds : ℕ → LineRange → Bool
holds n r = leb r.start n && leb n r.end

-- The later of two starts is in both ranges.
abbrev shared_line : LineRange → LineRange → ℕ
shared_line a b = if leb a.start b.start then b.start else a.start

meets_shared :
    (span r : LineRange)
    → IsProper span
    → IsProper r
    → meets span r ≡ true
    → (holds (shared_line span r) span ≡ true) × (holds (shared_line span r) r ≡ true)
meets_shared span r p q h = ground arith

meets_line :
    (span r : LineRange) (n : ℕ) → holds n span ≡ true → holds n r ≡ true → meets span r ≡ true
meets_line span r n h k = ground arith

any-meets :
    (span : LineRange) (rs : List LineRange)
    → IsProper span
    → All IsProper rs
    → any (meets span) rs ≡ true
    → (n : ℕ) × (holds n span ≡ true) × (any (holds n) rs ≡ true)
any-meets span [] p ps h = absurd (ground (arith, h))
any-meets span (r ∷ rs) p ps h = elim (Bool-cases (meets span r)) [
  | inl m ↦ let both = meets_shared span r p ps.0 m in (shared_line span r, both.0, rw both.1 refl)
  | inr m ↦
      let found = any-meets span rs p ps.1 (ground (arith, h, m)) in
      (found.0, found.1, ground (arith, found.2))
]

any-holds :
    (span : LineRange) (n : ℕ) (rs : List LineRange)
    → holds n span ≡ true
    → any (holds n) rs ≡ true
    → any (meets span) rs ≡ true
any-holds span n [] h k = absurd (ground (arith, k))
any-holds span n (r ∷ rs) h k = elim (Bool-cases (holds n r)) [
  | inl m ↦ rw (meets_line span r n h m) refl
  | inr m ↦ ground (arith, any-holds span n rs h (ground (arith, k, m)))
]

-- A span of lines is touched exactly if one of its lines is in a range that the diff changes in its
-- file, where neither the span nor one of these ranges ends before it starts.
pub touches_lem :
    (changed : JsMap String (List LineRange)) (path : String) (span : LineRange)
    → IsProper span
    → All IsProper (group_at changed path)
    → (touches (some changed) path span ≡ true)
      ↔ ((n : ℕ) × (holds n span ≡ true) × (any (holds n) (group_at changed path) ≡ true))
unfolding touches
touches_lem changed path span p ps = (
  any-meets span (group_at changed path) p ps,
  λ found. any-holds span found.0 (group_at changed path) found.1 found.2,
)
