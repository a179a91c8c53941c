-- ===== src/Eval/Reach/Level.antt =====
-- What one level of the walk over imports does to the table of hops.
use text.Mathlib.TextEquality.{eq_iff}
use codewatch.Eval.Reach.{HopState, reach_target, reach_targets}
use codewatch.Base.{
  length-append, missing-concat, keys-insert, is_some-lookup, sym, ◌≤◌, ◌∙◌, length,
  contains-append, ◌+◌, ◌&&◌, inr, is_some, keys, missing, not, inl, Memᴰ, All, Bool-cases, ◌||◌,
  [], string_eq, lookup-insert, ◌∷◌, arith, ◌==◌, contains, ◌≡◌, lookup, none, String,
  if◌then◌else◌, some, Bool, ℕ, Option, List,
}

abbrev pub kept_or : Option ℕ → Option ℕ → Option ℕ
kept_or (some n) o = some n
kept_or none o = o

abbrev pub new_at : Bool → ℕ → Option ℕ
new_at found depth = if found then some depth else none

lookup-reach_target_self :
    (depth : ℕ) (s : HopState) (x : String)
    → lookup (reach_target depth s x).hops x ≡ kept_or (lookup s.hops x) (new_at (x == x) depth)
lookup-reach_target_self depth s x = ground (arith, lookup-insert s.hops x x depth, eq_iff x x)

lookup-reach_target :
    (depth : ℕ) (s : HopState) (t x : String)
    → lookup (reach_target depth s t).hops x ≡ kept_or (lookup s.hops x) (new_at (t == x) depth)
lookup-reach_target depth s t x = elim (Bool-cases (t == x)) [
  | inl same ↦ rw ((eq_iff t x).0 same) (lookup-reach_target_self depth s x)
  | inr other ↦ ground (arith, lookup-insert s.hops t x depth, other)
]

-- The targets that were not known get the depth.
pub lookup-reach_targets :
    (depth : ℕ) (s : HopState) (ts : List String) (x : String)
    → lookup (reach_targets depth s ts).hops x
      ≡ kept_or (lookup s.hops x) (new_at (contains ts x) depth)
unfolding reach_targets
lookup-reach_targets depth s [] x = ground arith
lookup-reach_targets depth s (t ∷ ts) x = ground (
  arith,
  lookup-reach_targets depth (reach_target depth s t) ts x,
  lookup-reach_target depth s t x,
)

contains-reach_target_self :
    (depth : ℕ) (s : HopState) (x : String)
    → contains (reach_target depth s x).next x
      ≡ (contains s.next x || not (is_some (lookup s.hops x)))
contains-reach_target_self depth s x = ground (arith, contains-append s.next (x ∷ []) x, eq_iff x x)

contains-reach_target :
    (depth : ℕ) (s : HopState) (t x : String)
    → contains (reach_target depth s t).next x
      ≡ (contains s.next x || not (is_some (lookup s.hops x)) && t == x)
contains-reach_target depth s t x = elim (Bool-cases (t == x)) [
  | inl same ↦ rw (same, (eq_iff t x).0 same) (contains-reach_target_self depth s x ∙ ground arith)
  | inr other ↦ ground (arith, contains-append s.next (t ∷ []) x, other)
]

-- The next frontier is the targets that were not known.
pub contains-reach_targets :
    (depth : ℕ) (s : HopState) (ts : List String) (x : String)
    → contains (reach_targets depth s ts).next x
      ≡ (contains s.next x || not (is_some (lookup s.hops x)) && contains ts x)
unfolding reach_targets
contains-reach_targets depth s [] x = ground arith
contains-reach_targets depth s (t ∷ ts) x = ground (
  arith,
  contains-reach_targets depth (reach_target depth s t) ts x,
  contains-reach_target depth s t x,
  lookup-reach_target depth s t x,
)

-- What is still missing of the files pays for the next frontier.
missing-reach_target :
    (files : List String) (depth : ℕ) (s : HopState) (t : String)
    → Memᴰ t files
    → missing files (keys (reach_target depth s t).hops) + length (reach_target depth s t).next
      ≤ missing files (keys s.hops) + length s.next
missing-reach_target files depth s t m = elim (Bool-cases (is_some (lookup s.hops t))) [
  | inl known ↦ rw known (omega arith)
  | inr new ↦
      let absent = sym (is_some-lookup s.hops t) ∙ new in
      let grown = keys-insert s.hops t depth in
      rw (new, grown, absent)
        (omega
          (arith, missing-concat files (keys s.hops) t absent m, length-append s.next (t ∷ [])))
]

pub missing-reach_targets :
    (files : List String) (depth : ℕ) (s : HopState) (ts : List String)
    → All (λ t. Memᴰ t files) ts
    → missing files (keys (reach_targets depth s ts).hops) + length (reach_targets depth s ts).next
      ≤ missing files (keys s.hops) + length s.next
unfolding reach_targets
missing-reach_targets files depth s [] h = omega arith
missing-reach_targets files depth s (t ∷ ts) (m, h) = omega (
  arith,
  missing-reach_targets files depth (reach_target depth s t) ts h,
  missing-reach_target files depth s t m,
)
