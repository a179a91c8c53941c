-- ===== src/Triage/ControlPick/Kinds.antt =====
-- packages/cli/src/commands/triage-control-pick.ts: every question kind that a run asks is tested.
use codewatch.Base.{
  All-of_forall, glue, ◌%◌, if◌then◌else◌, inr, ◌+◌, Memᴰ-keep, ◌⊎◌, All-imp, eqb, inl, Bool-cases,
  refl, arith, [], ◌∷◌, ◌≤◌, ◌||◌, true, All, length, ◌++◌, ◌≡◌, keep, Memᴰ, ◌<◌,
}
use codewatch.Triage.ControlPick.{
  kind_name, kinds_asked, any, Bool, ℕ, String, List, ControlKind, PoolControl, is_kind, has_label,
  pick_kind, one_per_kind, asked_in, pick_run_controls, preferred_or,
}

module _ (pick : List PoolControl → String → ℕ → List PoolControl)
    (starts_low : String → Bool) where
  -- Picking returns items of the pool, as many as asked for or all of them.
  pub record Picks : Type 0 where
    pub members :
        (pool : List PoolControl) (seed : String) (n : ℕ) (c : PoolControl)
        → Memᴰ c (pick pool seed n)
        → Memᴰ c pool
    pub at_most : (pool : List PoolControl) (seed : String) (n : ℕ) → length (pick pool seed n) ≤ n
    pub one :
        (pool : List PoolControl) (seed : String) → 0 < length pool → 0 < length (pick pool seed 1)

  module _ (picks : Picks) where
    any-of_All :
        (p : PoolControl → Bool) (cs : List PoolControl)
        → All (λ c. p c ≡ true) cs
        → 0 < length cs
        → any p cs ≡ true
    any-of_All p [] h l = absurd (omega (arith, l))
    any-of_All p (c ∷ cs) (e, h) l = ground (arith, e)

    any_append {ℓ} :
        {A : Type ℓ} (p : A → Bool) (xs ys : List A) → any p (xs ++ ys) ≡ (any p xs || any p ys)
    any_append p [] ys = refl
    any_append p (x ∷ xs) ys = ground (arith, any_append p xs ys)

    any_left :
        (p : PoolControl → Bool) (xs ys : List PoolControl)
        → any p xs ≡ true
        → any p (xs ++ ys) ≡ true
    any_left p xs ys h = ground (arith, any_append p xs ys, h)

    any_right :
        (p : PoolControl → Bool) (xs ys : List PoolControl)
        → any p ys ≡ true
        → any p (xs ++ ys) ≡ true
    any_right p xs ys h = ground (arith, any_append p xs ys, h)

    has_pool :
        (pool : List PoolControl) (ks : List ControlKind)
        → All (λ kind. any (is_kind kind) pool ≡ true) (keep (λ kind. any (is_kind kind) pool) ks)
    has_pool pool [] = tt
    has_pool pool (k ∷ ks) = elim (Bool-cases (any (is_kind k) pool)) [
      | inl h ↦ rw h (h, has_pool pool ks)
      | inr h ↦ rw h (has_pool pool ks)
    ]

    some_of_kind :
        (kind : ControlKind) (pool : List PoolControl)
        → any (is_kind kind) pool ≡ true
        → 0 < length (keep (is_kind kind) pool)
    some_of_kind kind [] h = cc
    some_of_kind kind (c ∷ pool) h = ground (arith, some_of_kind kind pool)

    preferred_full : (a b : List PoolControl) → 0 < length b → 0 < length (preferred_or a b)
    preferred_full [] b h = h
    preferred_full (c ∷ a) b h = omega arith

    preferred_mem :
        (a b : List PoolControl) (c : PoolControl) → Memᴰ c (preferred_or a b) → Memᴰ c a ⊎ Memᴰ c b
    preferred_mem [] b c m = inr m
    preferred_mem (x ∷ a) b c m = inl m

    preferred_kind :
        (kind : ControlKind) (clean : Bool) (pool : List PoolControl) (c : PoolControl)
        → Memᴰ c (
            preferred_or
              (keep (has_label clean) (keep (is_kind kind) pool))
              (keep (is_kind kind) pool))
        → is_kind kind c ≡ true
    preferred_kind kind clean pool c m =
        elim (preferred_mem (keep (has_label clean) (keep (is_kind kind) pool))
          (keep (is_kind kind) pool) c m) [
            | inl a ↦
                ((Memᴰ-keep (is_kind kind) c pool).0
                  ((Memᴰ-keep (has_label clean) c (keep (is_kind kind) pool)).0 a).0).1
            | inr b ↦ ((Memᴰ-keep (is_kind kind) c pool).0 b).1
          ]

    picked_kind :
        (pool : List PoolControl) (seed : String) (i : ℕ) (kind : ControlKind)
        → any (is_kind kind) pool ≡ true
        → any (is_kind kind) (pick_kind pick starts_low pool seed i kind) ≡ true
    picked_kind pool seed i kind h =
        let of_kind = keep (is_kind kind) pool in
        let from_pool = preferred_or (keep (has_label (eqb (i % 2) 0)) of_kind) of_kind in
        let own_seed = glue seed (glue ":" (kind_name kind)) in
        any-of_All (is_kind kind) (pick from_pool own_seed 1)
          (All-of_forall (λ c. is_kind kind c ≡ true) (pick from_pool own_seed 1)
            (λ c m.
              preferred_kind kind (eqb (i % 2) 0) pool c (picks.members from_pool own_seed 1 c m)))
          (picks.one from_pool own_seed (
            preferred_full (keep (has_label (eqb (i % 2) 0)) of_kind) of_kind
              (some_of_kind kind pool h)))

    one_per_kind_lem :
        (pool : List PoolControl) (ks : List ControlKind) (seed : String) (i : ℕ)
        → All (λ kind. any (is_kind kind) pool ≡ true) ks
        → All (λ kind. any (is_kind kind) (one_per_kind pick starts_low pool ks seed i) ≡ true) ks
    one_per_kind_lem pool [] seed i h = tt
    one_per_kind_lem pool (kind ∷ ks) seed i (e, h) = (
      any_left (is_kind kind) (pick_kind pick starts_low pool seed i kind) _
          (picked_kind pool seed i kind e),
      All-imp _ _ ks (λ k t. any_right (is_kind k) (pick_kind pick starts_low pool seed i kind) _ t)
          (one_per_kind_lem pool ks seed (i + 1) h),
    )

    -- A run that plants controls, where picking returns what it is asked for, plants one for each
    -- kind whose question it asks and that the pool has.
    pub pick_run_controls_covers :
        (pool : List PoolControl) (signals : List String) (seed : String) (n : ℕ)
        → 0 < n
        → All
            (λ kind.
              any (is_kind kind) (pick_run_controls pick starts_low pool signals seed n) ≡ true)
            (asked_in pick starts_low pool signals)
    unfolding pick_run_controls
    pick_run_controls_covers pool signals seed n h = elim (Bool-cases (eqb n 0)) [
      | inl z ↦ absurd (ground (arith, z, h))
      | inr p ↦ rw p (
          All-imp _ _ (asked_in pick starts_low pool signals)
            (λ k t.
              any_left (is_kind k)
                (one_per_kind pick starts_low pool (asked_in pick starts_low pool signals) seed
                  (if starts_low seed then 0 else 1))
                _ t)
            (one_per_kind_lem pool (asked_in pick starts_low pool signals) seed
              (if starts_low seed then 0 else 1) (has_pool pool (kinds_asked signals))))
    ]
