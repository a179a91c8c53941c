-- ===== src/Arch/Evidence/Packages.antt =====
-- computeArchSplit of packages/cli/src/commands/graph-arch-split.ts: the evidence of each package.
use codewatch.Base.{string_eq, ◌+◌, ◌&&◌, [], ◌*◌, if◌then◌else◌, ◌∷◌, keep, ℕ}
use codewatch.Graph.{GraphEdge}
use codewatch.Arch.Split.{is_source_package, is_fragmented}
use codewatch.Arch.Evidence.{
  some, none, leb, values, length, map, lookup, eqb, Bool, sum, or_else, contains, ltb, not, String,
  sort_by, List, JsMap, Option, Communities, Vectors, PackageRoot, PackageSplitEvidence, CoEditPair,
  label_by_file, external_vectors, build_clusters, extract_bridges, directory_alignment,
  co_edit_density,
}

-- `dot`, and the squares of the two norms: `quotient d a b` is d / (√a · √b).
abbrev dot : JsMap String ℕ → JsMap String ℕ → ℕ
dot [] b = 0
dot ((k, v) ∷ a) b = v * or_else (lookup b k) 0 + dot a b

abbrev norm_square : JsMap String ℕ → ℕ
norm_square v = sum (map (λ x. x * x) (values v))

-- Scores with a zero, a one, a minimum and the quotient.
pub record Scores (S : Type 0) : Type 0 where
  pub zero_score : S
  pub one_score : S
  pub smaller : S → S → S
  pub quotient : ℕ → ℕ → ℕ → S

-- The graph library, and `<` on texts.
pub record SplitLibrary (N S : Type 0) : Type 0 where
  pub detect_communities : List String → List (GraphEdge N) → Communities
  pub modularity_q : Communities → List (GraphEdge N) → S
  pub code_before : String → String → Bool

module _ {S : Type 0} (s : Scores S) where
  abbrev cosine : JsMap String ℕ → JsMap String ℕ → S
  cosine a b =
      if eqb (norm_square a * norm_square b) 0
      then s.zero_score
      else s.quotient (dot a b) (norm_square a) (norm_square b)

  abbrev min_with : JsMap String ℕ → S → List (JsMap String ℕ) → S
  min_with a m [] = m
  min_with a m (b ∷ bs) = min_with a (s.smaller m (cosine a b)) bs

  abbrev min_pairs : S → List (JsMap String ℕ) → S
  min_pairs m [] = m
  min_pairs m (a ∷ rest) = min_pairs (min_with a m rest) rest

  unfoldable pub min_cosine : Vectors → Option S
  min_cosine vectors =
      let with_deps = keep (λ v. ltb 0 (length v)) (values vectors) in
      if ltb (length with_deps) 2 then none else some (min_pairs s.one_score with_deps)

pub record SplitInput (N : Type 0) : Type 0 where
  -- Resolved edges between two different indexed files.
  pub edges : List (GraphEdge N)
  pub pkg_by_file : JsMap String String
  pub file_by_package : JsMap String (List String)
  pub packages : List PackageRoot
  pub co_edit_pairs : Option (List CoEditPair)
  pub min_files : ℕ

module _ {N S : Type 0} (scores : Scores S) (lib : SplitLibrary N S) (input : SplitInput N) where
  abbrev analyze_package : PackageRoot → List String → PackageSplitEvidence S
  analyze_package pkg files =
      let internal = keep (λ e. contains files e.src_id && contains files e.dst_id) input.edges in
      let communities = lib.detect_communities files internal in
      let community_of = label_by_file communities in
      let vectors = external_vectors community_of input.edges input.pkg_by_file pkg.id in
      record {
        pkg_id = pkg.id;
        name = pkg.name;
        file_count = length files;
        clusters = build_clusters lib.code_before communities vectors;
        sub_modularity_q = lib.modularity_q communities internal;
        bridges = extract_bridges lib.code_before internal community_of;
        min_external_cosine = min_cosine scores vectors;
        directory_alignment = directory_alignment communities;
        co_edit = co_edit_density community_of files input.co_edit_pairs;
      }

  abbrev files_in : PackageRoot → List String
  files_in p = or_else (lookup input.file_by_package p.id) []

  unfoldable pub compute_arch_split : List (PackageSplitEvidence S)
  compute_arch_split =
      sort_by (λ a b. lib.code_before a.pkg_id b.pkg_id)
        (keep (λ p. not (is_fragmented (map (λ c. length c.files) p.clusters)))
          (map (λ p. analyze_package p (files_in p))
            (keep (λ p. is_source_package p.id && leb input.min_files (length (files_in p)))
              input.packages)))
