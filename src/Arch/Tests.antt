-- ===== src/Arch/Tests.antt =====
-- A small configuration of domains.
use codewatch.Base.{
  group_at, refl, map, sum, sort_by, keep, JsMap, ℕ, false, Bool, List, Memᴰ, String, flat_map,
  length, lookup, sizes, ◌≡◌, ◌∷◌, ◌==◌, ◌+◌, [], string_eq, pair_eq, nat_eq,
}
use codewatch.Graph.{GraphEdge, WeightAttr}
use codewatch.Arch.Evidence.{count_bridges, BridgeEdge, extract_bridges}
use codewatch.Arch.Evidence.Bridges.{crosses, crosses_at, extract_bridges_lem}
use codewatch.Arch.Domains.{DomainDef, assign_domains}
use codewatch.Arch.Domains.Laws.{
  assign_domains_partition, first_of, is_first, is_unmatched, matching, overlap_row,
}

abbrev two_domains : List DomainDef
two_domains =
    record { name = "core"; patterns = "src/core.ts" ∷ [] }
    ∷ (record { name = "all"; patterns = "src/core.ts" ∷ ("src/ui.ts" ∷ []) } ∷ [])

abbrev same_text : String → String → Bool
same_text glob file = glob == file

abbrev three_files : List String
three_files = "src/core.ts" ∷ ("src/ui.ts" ∷ ("readme.md" ∷ []))

assign_domains_partition_example :
    let a = assign_domains same_text three_files two_domains in
    ((name : String)
      → group_at a.file_by_domain name
        ≡ keep
            (λ f. is_first same_text two_domains name (matching same_text two_domains f))
            three_files)
    × (a.validation.unassigned_files
        ≡ length (
            keep
              (λ f. is_unmatched same_text two_domains (matching same_text two_domains f))
              three_files))
    × (sizes a.file_by_domain + a.validation.unassigned_files ≡ length three_files)
    × ((file : String)
        → Memᴰ file three_files
        → lookup a.domain_by_file file
          ≡ first_of same_text two_domains (matching same_text two_domains file))
    × (a.validation.overlaps
        ≡ flat_map
            (λ f. overlap_row same_text two_domains f (matching same_text two_domains f))
            three_files)
assign_domains_partition_example = assign_domains_partition same_text two_domains three_files

abbrev imports : String → String → GraphEdge ℕ
imports a b = record { src_id = a; dst_id = b; kind = "imports"; weight = WeightAttr.missing }

-- Two edges from `a` to `c`, which are in different clusters, and one within a cluster.
abbrev internal : List (GraphEdge ℕ)
internal = imports "a" "c" ∷ (imports "a" "b" ∷ (imports "a" "c" ∷ []))

abbrev clusters : JsMap String String
clusters = ("a", "1") ∷ (("b", "1") ∷ (("c", "2") ∷ []))

two_crossings : map (λ b. b.count) (extract_bridges (λ a b. false) internal clusters) ≡ 2 ∷ []
unfolding extract_bridges count_bridges sort_by
two_crossings = refl

extract_bridges_lem_example :
    ((b : BridgeEdge)
      → Memᴰ b (extract_bridges (λ a b. false) internal clusters)
      → b.count ≡ length (keep (crosses_at clusters (b.from, b.to)) internal))
    × (sum (map (λ b. b.count) (extract_bridges (λ a b. false) internal clusters))
        ≡ length (keep (crosses clusters) internal))
extract_bridges_lem_example = extract_bridges_lem clusters (λ a b. false) internal
