-- ===== src/Eval/Grader/Sets.antt =====
-- packages/cli/src/eval/grader.ts, gradeSet: its counts and bounds.
use codewatch.Base.{◌↔◌, Memᴰ, ℕ, string_eq, length, [], ◌==◌, if◌then◌else◌, HasNodup, ◌≡◌, ◌∷◌}
use codewatch.Eval.Grader.{String, List}

-- The list without the key.
abbrev without : String → List String → List String
without k [] = []
without k (x ∷ xs) = if x == k then xs else x ∷ without k xs

-- The number of the distinct items with the property.
abbrev pub IsCount : (String → Type 0) → ℕ → Type 0
IsCount Q n = (ks : List String) × HasNodup ks × ((k : String) → Memᴰ k ks ↔ Q k) × (n ≡ length ks)
