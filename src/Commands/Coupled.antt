-- ===== src/Commands/Coupled.antt =====
-- packages/cli/src/commands/graph-coupled.ts: the files that change together. Git's history, the
-- coupling computed from it, and the compiled patterns are parameters.
pub mod Seeds
use codewatch.Base.{
  includes, ◌||◌, ◌==◌, any, none, string_eq, ◌&&◌, flat_map, some, length, keep, ◌+◌, [], not, inr,
  ◌∷◌, add_all, take, if◌then◌else◌, or_else, inl, Option, ◌⊎◌, String, Bool, List, ℕ,
}
use codewatch.Render.Collapse.{truthy}

pub record CoEditPair : Type 0 where
  pub file_a : String
  pub file_b : String
  pub count : ℕ
  pub commits : List String

-- A file's partner, as `couplingFor` of the graph library gives it.
pub record Partner : Type 0 where
  pub partner : String
  pub count : ℕ
  pub commits : List String

pub data CoupledRow : Type 0 where
  seed_row : ℕ → Partner → CoupledRow
  top_row : ℕ → CoEditPair → CoupledRow

pub record CoupledResult : Type 0 where
  pub seed : Option String
  pub rows : List CoupledRow
  pub total_pairs : ℕ

-- Which of the two errors is thrown, with the number of matches.
pub data SeedError : Type 0 where
  ambiguous : ℕ → SeedError
  no_match : SeedError

-- `matches` is `matchesAny`, for the patterns that the command excludes; `has_patterns` whether
-- there are any.
unfoldable pub filter_pairs : Bool → (String → Bool) → List CoEditPair → List CoEditPair
filter_pairs has_patterns matches pairs =
    if not has_patterns
    then pairs
    else keep (λ p. not (matches p.file_a) && not (matches p.file_b)) pairs

abbrev pub files_of : List CoEditPair → List String
files_of pairs = add_all [] (flat_map (λ p. p.file_a ∷ (p.file_b ∷ [])) pairs)

abbrev pub one_match : List String → SeedError ⊎ String
one_match [] = inl SeedError.no_match
one_match (m ∷ []) = inr m
one_match (m ∷ (n ∷ ms)) = inl (SeedError.ambiguous (length (m ∷ (n ∷ ms))))

abbrev pub found_seed : SeedError ⊎ String → SeedError ⊎ Option String
found_seed (inl e) = inl e
found_seed (inr s) = inr (some s)

-- `none` where no seed is given.
unfoldable pub resolve_seed : Option String → List CoEditPair → SeedError ⊎ Option String
resolve_seed raw pairs = elim (truthy raw) [
  | none ↦ inr none
  | some seed ↦
      if any (λ p. p.file_a == seed || p.file_b == seed) pairs
      then inr (some seed)
      else found_seed (one_match (keep (λ id. includes id seed) (files_of pairs)))
]

abbrev ranked_from {ℓ} : {A : Type ℓ} → (ℕ → A → CoupledRow) → ℕ → List A → List CoupledRow
ranked_from row n [] = []
ranked_from row n (p ∷ ps) = row n p ∷ ranked_from row (n + 1) ps

abbrev build_seed_rows :
    (List CoEditPair → String → List Partner) → List CoEditPair → String → ℕ → List CoupledRow
build_seed_rows coupling_for pairs seed limit =
    ranked_from CoupledRow.seed_row 1 (take limit (coupling_for pairs seed))

abbrev build_top_rows : List CoEditPair → ℕ → List CoupledRow
build_top_rows pairs limit = ranked_from CoupledRow.top_row 1 (take limit pairs)

pub record CoupledOptions : Type 0 where
  pub seed : Option String
  pub limit : Option ℕ
  pub has_excludes : Bool

abbrev coupled_rows :
    (List CoEditPair → String → List Partner)
    → List CoEditPair
    → ℕ
    → SeedError ⊎ Option String
    → SeedError ⊎ CoupledResult
coupled_rows coupling_for filtered limit (inl e) = inl e
coupled_rows coupling_for filtered limit (inr seed) = inr (record {
  seed = seed;
  rows = elim (truthy seed) [
    | some s ↦ build_seed_rows coupling_for filtered s limit
    | none ↦ build_top_rows filtered limit
  ];
  total_pairs = length filtered;
})

-- After the history is read: `pairs` is what `computeChangeCoupling` returns.
unfoldable pub run_graph_coupled :
    (List CoEditPair → String → List Partner)
    → (String → Bool)
    → CoupledOptions
    → List CoEditPair
    → SeedError ⊎ CoupledResult
run_graph_coupled coupling_for matches options pairs =
    let filtered = filter_pairs options.has_excludes matches pairs in
    coupled_rows coupling_for filtered (or_else options.limit 25)
      (resolve_seed options.seed filtered)
