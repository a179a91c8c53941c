-- ===== src/Commands/Tests.antt =====
-- Small cases of the graph commands.
use codewatch.Base.{
  map, units, String, ◌*◌, ◌≤◌, false, ◌⊎◌, length, ◌/◌, true, ◌↔◌, ◌+◌, inl, none, strip_prefix,
  inr, ◌++◌, ◌∷◌, refl, ◌≡◌, String, includes, some, [], ℕ, List,
}
use codewatch.Commands.Coupled.{CoEditPair, SeedError, resolve_seed}
use codewatch.Commands.Coupled.Seeds.{co_edited, resolve_seed_lem}
use codewatch.Commands.Relevant.{Found, rows_from, slice_by_token_budget, fill_budget}
use codewatch.Commands.Relevant.Budget.{IsCut, ShowsFirst, chars, slice_by_token_budget_lem}

abbrev pairs : List CoEditPair
pairs =
    record { file_a = "src/cli.ts"; file_b = "src/index.ts"; count = 4; commits = [] }
    ∷ (record { file_a = "src/cli.ts"; file_b = "test/cli.ts"; count = 2; commits = [] } ∷ [])

-- One file has `index` in its name, two have `cli`.
one_index : resolve_seed (some "index") pairs ≡ inr (some "src/index.ts")
unfolding resolve_seed includes strip_prefix
one_index = refl

two_clis : resolve_seed (some "cli") pairs ≡ inl (SeedError.ambiguous 2)
unfolding resolve_seed includes strip_prefix
two_clis = refl

abbrev index_path : String
index_path = "src/index.ts"

abbrev index_name : String
index_name = "index"

resolve_seed_lem_example :
    ((resolve_seed (some index_name) pairs ≡ inr (some index_path)) ↔ (
      (co_edited pairs index_path ≡ true)
      × ((index_path ≡ index_name)
          ⊎ ((co_edited pairs index_name ≡ false)
              × (includes index_path index_name ≡ true)
              × ((g : String)
                  → co_edited pairs g ≡ true
                  → includes g index_name ≡ true
                  → g ≡ index_path)))))
    × ((resolve_seed (some index_name) pairs ≡ inl SeedError.no_match)
        ↔ ((g : String) → co_edited pairs g ≡ true → includes g index_name ≡ false))
resolve_seed_lem_example = resolve_seed_lem pairs index_name index_path refl

abbrev ranked_as : String → ℕ → Found ℕ
ranked_as id score = (
  record { node_id = id; score = score },
  record { name = id; kind = "file"; role = none; parent_id = none },
)

abbrev ranking : List (Found ℕ)
ranking = ranked_as "src/a.ts" 9 ∷ (ranked_as "src/b.ts" 5 ∷ (ranked_as "src/c.ts" 1 ∷ []))

-- Ten tokens are forty characters, which two rows of twenty fill.
two_rows : (slice_by_token_budget ranking 10).1 ≡ 10
unfolding slice_by_token_budget fill_budget units
two_rows = refl

-- A budget below the first row still shows it.
first_row_shown : map (λ r. r.rank) (slice_by_token_budget ranking 1).0 ≡ 1 ∷ []
unfolding slice_by_token_budget fill_budget units
first_row_shown = refl

slice_by_token_budget_lem_example :
    (kept : List (Found ℕ)) × (left : List (Found ℕ)) × (ranking ≡ kept ++ left)
    × (slice_by_token_budget ranking 10 ≡ (rows_from 1 kept, (chars kept + 3) / 4))
    × ((length kept ≤ 1) ⊎ (chars kept ≤ 10 * 4))
    × IsCut (10 * 4) kept left
    × ShowsFirst ranking kept
slice_by_token_budget_lem_example = slice_by_token_budget_lem ranking 10
