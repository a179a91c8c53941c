-- ===== src/Arch/Split.antt =====
-- packages/cli/src/commands/graph-arch-split-filter.ts: which packages the split diagnostic skips.
use codewatch.Base.{
  eqb, string_eq, keep, segments, length, contains, ◌*◌, leb, any, not, [], true, Bool, ℕ, ◌∷◌,
  String, List,
}

-- `SPLIT_MAX_SINGLETON_SHARE` is 0.9, nine in ten.
abbrev non_source_segments : List String
non_source_segments =
    "examples"
    ∷ ("example"
        ∷ ("docs"
            ∷ ("www"
                ∷ ("website" ∷ ("fixtures" ∷ ("__fixtures__" ∷ ("e2e" ∷ ("playground" ∷ []))))))))

unfoldable pub is_source_package : String → Bool
is_source_package pkg_id = not (any (contains non_source_segments) (segments pkg_id))

-- The clusters' sizes; `singletons / clusters.length >= 0.9`.
unfoldable pub is_fragmented : List ℕ → Bool
is_fragmented [] = true
is_fragmented (c ∷ cs) = leb (9 * length (c ∷ cs)) (10 * length (keep (λ n. eqb n 1) (c ∷ cs)))
