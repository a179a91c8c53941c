-- ===== src/Commands/Coupled/Seeds.antt =====
-- Which file a seed names.
use text.Mathlib.TextEquality.{eq_iff}
use Prim.Native.Char.{code}
use codewatch.Base.{
  if◌then◌else◌, ◌≢◌, sym, ap, HasNodup-add_all, eqb_iff, push_front, false, strip_prefix, includes,
  refl, ◌||◌, Bool-cases, inl, ◌∙◌, arith, ◌↔◌, [], some, string_eq, ◌&&◌, ◌∷◌, ◌==◌, true, inr,
  flat_map, any, contains-add_all, keep, Bool, contains, ◌≡◌, HasNodup, ◌⊎◌, List, String,
}
use codewatch.Commands.Coupled.{
  resolve_seed, CoEditPair, SeedError, files_of, one_match, found_seed,
}

-- The file is in one of the pairs.
abbrev pub co_edited : List CoEditPair → String → Bool
co_edited pairs x = any (λ p. p.file_a == x || p.file_b == x) pairs

contains-pair_files :
    (pairs : List CoEditPair) (x : String)
    → contains (flat_map (λ p. p.file_a ∷ (p.file_b ∷ [])) pairs) x ≡ co_edited pairs x
contains-pair_files [] x = refl
contains-pair_files (p ∷ pairs) x = ground (arith, contains-pair_files pairs x)

contains-files_of :
    (pairs : List CoEditPair) (x : String) → contains (files_of pairs) x ≡ co_edited pairs x
contains-files_of pairs x =
    contains-add_all [] (flat_map (λ p. p.file_a ∷ (p.file_b ∷ [])) pairs) x
    ∙ contains-pair_files pairs x

contains-keep :
    (p : String → Bool) (xs : List String) (k : String)
    → contains (keep p xs) k ≡ (contains xs k && p k)
contains-keep p [] k = refl
contains-keep p (x ∷ xs) k = elim (Bool-cases (x == k)) [
  | inl t ↦ rw ((eq_iff x k).0 t) (ground (arith, contains-keep p xs k, eq_iff k k))
  | inr f ↦ ground (arith, contains-keep p xs k, f)
]

HasNodup-keep : (p : String → Bool) (xs : List String) → HasNodup xs → HasNodup (keep p xs)
HasNodup-keep p [] h = tt
HasNodup-keep p (x ∷ xs) h = elim (Bool-cases (p x)) [
  | inl t ↦ rw t (ground (arith, contains-keep p xs x, h.0), HasNodup-keep p xs h.1)
  | inr f ↦ rw f (HasNodup-keep p xs h.1)
]

-- The only one of a list that has none twice.
abbrev IsOnly : List String → String → Type 0
IsOnly xs f = (contains xs f ≡ true) × ((g : String) → contains xs g ≡ true → g ≡ f)

one_match-IsOnly :
    (xs : List String) (f : String) → HasNodup xs → (one_match xs ≡ inr f) ↔ IsOnly xs f
one_match-IsOnly [] f h = (λ e. cc, λ o. cc)
one_match-IsOnly (m ∷ []) f h = (
  λ e. (ground (arith, e, eq_iff m f), λ g c. ground (arith, e, c, eq_iff m g)),
  λ o. ground (arith, o.0, eq_iff m f),
)
one_match-IsOnly (m ∷ (n ∷ ms)) f h = (
  λ e. cc,
  λ o. absurd (
      ground (
        arith,
        h.0,
        o.1 m (ground (arith, eq_iff m m)),
        o.1 n (ground (arith, eq_iff n n)),
        eq_iff n m,
      )),
)

found_seed-eq : (r : SeedError ⊎ String) (f : String) → (found_seed r ≡ inr (some f)) ↔ (r ≡ inr f)
found_seed-eq (inl e) f = (λ h. cc, λ h. cc)
found_seed-eq (inr s) f = (λ h. cc, λ h. cc)

and_parts : {a b : Bool} → (a && b) ≡ true → (a ≡ true) × (b ≡ true)
and_parts h = ground (arith, h)

and_true : {a b : Bool} → a ≡ true → b ≡ true → (a && b) ≡ true
and_true h k = ground (arith, h, k)

and_rest : {a b : Bool} → a ≡ true → (a && b) ≡ false → b ≡ false
and_rest h k = ground (arith, h, k)

and_false : (a b : Bool) → (a ≡ true → b ≡ false) → (a && b) ≡ false
and_false true b h = h refl
and_false false b h = refl

not_both : (b : Bool) → b ≡ false → b ≢ true
not_both b h k = cc

strip_prefix_self : (s : String) → strip_prefix s s ≡ some ""
unfolding strip_prefix
strip_prefix_self String.[] = refl
strip_prefix_self (String.◌∷◌ c s) = rw ((eqb_iff (code c) (code c)).1 refl) (strip_prefix_self s)

includes_self : (s : String) → includes s s ≡ true
unfolding includes
includes_self String.[] = refl
includes_self (String.◌∷◌ c s) = rw (strip_prefix_self (push_front c s), includes) refl

one_match-none :
    (xs : List String)
    → (one_match xs ≡ inl SeedError.no_match) ↔ ((g : String) → contains xs g ≡ false)
one_match-none [] = (λ e g. refl, λ h. refl)
one_match-none (m ∷ []) = (λ e. cc, λ h. absurd (ground (arith, h m, eq_iff m m)))
one_match-none (m ∷ (n ∷ ms)) = (λ e. cc, λ h. absurd (ground (arith, h m, eq_iff m m)))

found_seed-none :
    (r : SeedError ⊎ String)
    → (found_seed r ≡ inl SeedError.no_match) ↔ (r ≡ inl SeedError.no_match)
found_seed-none (inl e) = (λ h. cc, λ h. cc)
found_seed-none (inr s) = (λ h. cc, λ h. cc)

module _ (pairs : List CoEditPair) (seed : String) where
  abbrev matches : List String
  matches = keep (λ id. includes id seed) (files_of pairs)

  matches-HasNodup : HasNodup matches
  matches-HasNodup =
      HasNodup-keep (λ id. includes id seed) (files_of pairs)
        (HasNodup-add_all {K = String} [] (flat_map (λ p. p.file_a ∷ (p.file_b ∷ [])) pairs) tt)

  contains-matches : (g : String) → contains matches g ≡ (co_edited pairs g && includes g seed)
  contains-matches g =
      contains-keep (λ id. includes id seed) (files_of pairs) g
      ∙ ap (λ b. b && includes g seed) (contains-files_of pairs g)

resolve_seed-given :
    (pairs : List CoEditPair) (seed : String)
    → seed == "" ≡ false
    → resolve_seed (some seed) pairs ≡ (
        if co_edited pairs seed
        then inr (some seed)
        else found_seed (one_match (matches pairs seed)))
unfolding resolve_seed
resolve_seed-given pairs seed given = rw (given, resolve_seed) refl

-- A seed that is not empty names itself if it is one of the co-edited files; if not, the co-edited
-- file that contains it, where exactly one does. The error that nothing matches is thrown exactly
-- if no co-edited file contains it.
pub resolve_seed_lem :
    (pairs : List CoEditPair) (seed f : String)
    → seed == "" ≡ false
    → ((resolve_seed (some seed) pairs ≡ inr (some f)) ↔ (
        (co_edited pairs f ≡ true)
        × ((f ≡ seed)
            ⊎ ((co_edited pairs seed ≡ false)
                × (includes f seed ≡ true)
                × ((g : String) → co_edited pairs g ≡ true → includes g seed ≡ true → g ≡ f)))))
      × ((resolve_seed (some seed) pairs ≡ inl SeedError.no_match)
          ↔ ((g : String) → co_edited pairs g ≡ true → includes g seed ≡ false))
resolve_seed_lem pairs seed f given = elim (Bool-cases (co_edited pairs seed)) [
  | inl t ↦
      rw (resolve_seed-given pairs seed given, t)
        (
          (
            λ e. (ground (arith, e, t), inl (ground (arith, e))),
            λ (c, o). elim o [ inl e ↦ ap (λ s. inr (some s)) (sym e) | inr (no', _, _) ↦ cc ],
          ),
          (λ e. cc, λ h. absurd (ground (arith, h seed t, includes_self seed))),
        )
  | inr n ↦
      let only = one_match-IsOnly (matches pairs seed) f (matches-HasNodup pairs seed) in
      let none_left = one_match-none (matches pairs seed) in
      let shape = found_seed-eq (one_match (matches pairs seed)) f in
      let no_shape = found_seed-none (one_match (matches pairs seed)) in
      let test = contains-matches pairs seed in
      rw (resolve_seed-given pairs seed given, n)
        (
          (
            λ e.
                let (c, u) = only.0 (shape.0 e) in
                let both = and_parts (sym (test f) ∙ c) in
                (both.0, inr (refl, both.1, λ g a b. u g (test g ∙ and_true a b))),
            λ (c, o). shape.1 (
                only.1 (elim o [
                  | inl e ↦ absurd (not_both (co_edited pairs seed) n (rw (← e) c))
                  | inr (_, i, u) ↦ (
                    test f ∙ and_true c i,
                    λ g m. let both = and_parts (sym (test g) ∙ m) in u g both.0 both.1,
                  )
                ])),
          ),
          (
            λ e g a. and_rest a (sym (test g) ∙ none_left.0 (no_shape.0 e) g),
            λ h.
                no_shape.1 (
                  none_left.1
                    (λ g. test g ∙ and_false (co_edited pairs g) (includes g seed) (h g))),
          ),
        )
]
