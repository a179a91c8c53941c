-- ===== src/Arch/Evidence.antt =====
-- packages/cli/src/commands/graph-arch-split.ts: what speaks for splitting a package. The graph
-- library's communities and partition quality, `Math.sqrt` and the division of scores are
-- parameters; densities are exact fractions, with 0 as 0 / 1.
pub mod Packages
pub mod Bridges
use codewatch.Base.{
  opt_beq, pair_eq, ◌&&◌, length, keys, none, values, contains, string_eq, ◌||◌, add_all, ◌+◌,
  insert, not, leb, ◌==◌, lookup, ◌/◌, map, ltb, before_last_slash, sort_by, some, sum, Bool,
  or_else, ◌-◌, [], ◌∷◌, eqb, JsMap, ◌*◌, List, if◌then◌else◌, String, Option, ℕ,
}
use codewatch.Graph.{GraphEdge}
use codewatch.Arch.Split.{is_source_package, is_fragmented}

pub record BridgeEdge : Type 0 where
  pub from : String
  pub to : String
  pub from_cluster : String
  pub to_cluster : String
  pub count : ℕ

pub record ClusterEvidence : Type 0 where
  pub id : String
  pub files : List String
  pub external_packages : List String

pub record CoEditPair : Type 0 where
  pub file_a : String
  pub file_b : String
  pub count : ℕ

-- Fractions; `ratio` is `none` where the source has `null`.
pub record CoEditDensity : Type 0 where
  pub within : ℕ × ℕ
  pub cross : ℕ × ℕ
  pub ratio : Option (ℕ × ℕ)

pub record PackageRoot : Type 0 where
  pub id : String
  pub name : String

pub record PackageSplitEvidence (S : Type 0) : Type 0 where
  pub pkg_id : String
  pub name : String
  pub file_count : ℕ
  pub clusters : List ClusterEvidence
  pub sub_modularity_q : S
  pub bridges : List BridgeEdge
  pub min_external_cosine : Option S
  pub directory_alignment : ℕ × ℕ
  pub co_edit : Option CoEditDensity

-- The communities by id.
abbrev pub Communities : Type 0
Communities = JsMap String (List String)

abbrev label_files : JsMap String String → String → List String → JsMap String String
label_files out id [] = out
label_files out id (f ∷ fs) = label_files (insert out f id) id fs

abbrev label_from : JsMap String String → Communities → JsMap String String
label_from out [] = out
label_from out ((id, files) ∷ rest) = label_from (label_files out id files) rest

abbrev pub label_by_file : Communities → JsMap String String
label_by_file communities = label_from [] communities

abbrev pub Vectors : Type 0
Vectors = JsMap String (JsMap String ℕ)

abbrev no_vectors : JsMap String (JsMap String ℕ) → List String → Vectors
no_vectors out [] = out
no_vectors out (c ∷ cs) = no_vectors (insert out c []) cs

abbrev count_external : Vectors → String → Option String → Option String → Vectors
count_external out own (some c) (some dst_pkg) =
    if dst_pkg == own
    then out
    else let vec = or_else (lookup out c) [] in
      insert out c (insert vec dst_pkg (or_else (lookup vec dst_pkg) 0 + 1))
count_external out own _ _ = out

module _ {N : Type 0} where
  abbrev count_externals :
      JsMap String String → JsMap String String → String → Vectors → List (GraphEdge N) → Vectors
  count_externals community_of pkg_by_file own out [] = out
  count_externals community_of pkg_by_file own out (e ∷ es) =
      count_externals community_of pkg_by_file own
        (count_external out own (lookup community_of e.src_id) (lookup pkg_by_file e.dst_id)) es

  unfoldable pub external_vectors :
      JsMap String String → List (GraphEdge N) → JsMap String String → String → Vectors
  external_vectors community_of edges pkg_by_file own =
      count_externals community_of pkg_by_file own
        (no_vectors [] (add_all [] (values community_of))) edges

  -- Both ends of an internal edge have a community (`communityOf.get(e.srcId)!`).
  abbrev pub bridge_of : JsMap String String → GraphEdge N → Option BridgeEdge
  bridge_of community_of e =
      let from_cluster = or_else (lookup community_of e.src_id) "" in
      let to_cluster = or_else (lookup community_of e.dst_id) "" in
      if from_cluster == to_cluster
      then none
      else some (record {
        from = e.src_id;
        to = e.dst_id;
        from_cluster = from_cluster;
        to_cluster = to_cluster;
        count = 1;
      })

abbrev pub one_more : BridgeEdge → Option BridgeEdge → BridgeEdge
one_more b none = b
one_more b (some existing) = record existing { count = existing.count + 1 }

-- The key `JSON.stringify([src, dst])` stands for the pair.
abbrev pub add_bridge :
    JsMap (String × String) BridgeEdge → Option BridgeEdge → JsMap (String × String) BridgeEdge
add_bridge counts none = counts
add_bridge counts (some b) =
    insert counts (b.from, b.to) (one_more b (lookup counts (b.from, b.to)))

-- `code_before a b` is `a < b`; equal pairs are one bridge.
abbrev pub bridge_before : (String → String → Bool) → BridgeEdge → BridgeEdge → Bool
bridge_before code_before a b =
    ltb b.count a.count
    || eqb a.count b.count
      && (if a.from == b.from then code_before a.to b.to else code_before a.from b.from)

module _ {N : Type 0} where
  unfoldable pub count_bridges :
      JsMap String String
      → JsMap (String × String) BridgeEdge
      → List (GraphEdge N)
      → JsMap (String × String) BridgeEdge
  count_bridges community_of counts [] = counts
  count_bridges community_of counts (e ∷ es) =
      count_bridges community_of (add_bridge counts (bridge_of community_of e)) es

  unfoldable pub extract_bridges :
      (String → String → Bool) → List (GraphEdge N) → JsMap String String → List BridgeEdge
  extract_bridges code_before internal community_of =
      sort_by (bridge_before code_before) (values (count_bridges community_of [] internal))

abbrev cluster_of : (String → String → Bool) → Vectors → String × List String → ClusterEvidence
cluster_of code_before vectors (id, files) = record {
  id = id;
  files = sort_by code_before files;
  external_packages = sort_by code_before (keys (or_else (lookup vectors id) []));
}

unfoldable pub build_clusters :
    (String → String → Bool) → Communities → Vectors → List ClusterEvidence
build_clusters code_before communities vectors =
    sort_by (λ a b. code_before a.id b.id) (map (cluster_of code_before vectors) communities)

abbrev pub dir_name : String → String
dir_name f = or_else (before_last_slash f) "."

abbrev dir_counts : JsMap String ℕ → List String → JsMap String ℕ
dir_counts m [] = m
dir_counts m (f ∷ fs) =
    dir_counts (insert m (dir_name f) (or_else (lookup m (dir_name f)) 0 + 1)) fs

abbrev biggest : ℕ → List ℕ → ℕ
biggest m [] = m
biggest m (n ∷ ns) = biggest (if leb n m then m else n) ns

abbrev aligned : ℕ → ℕ → Communities → ℕ × ℕ
aligned pure total [] = if eqb total 0 then (0, 1) else (pure, total)
aligned pure total ((id, files) ∷ rest) =
    aligned (pure + biggest 0 (values (dir_counts [] files))) (total + length files) rest

unfoldable pub directory_alignment : Communities → ℕ × ℕ
directory_alignment communities = aligned 0 0 communities

abbrev pub cluster_sizes : JsMap String String → JsMap String ℕ → List String → JsMap String ℕ
cluster_sizes community_of m [] = m
cluster_sizes community_of m (f ∷ fs) =
    let c = or_else (lookup community_of f) "" in
    cluster_sizes community_of (insert m c (or_else (lookup m c) 0 + 1)) fs

-- `(n * (n - 1)) / 2`
abbrev pub pairs_in : ℕ → ℕ
pairs_in n = n * (n - 1) / 2

-- Within clusters, and across.
unfoldable pub possible_pairs : JsMap String String → List String → ℕ × ℕ
possible_pairs community_of pkg_files =
    let within = sum (map pairs_in (values (cluster_sizes community_of [] pkg_files))) in
    (within, pairs_in (length pkg_files) - within)

abbrev density : ℕ → ℕ → ℕ × ℕ
density n pairs = if eqb pairs 0 then (0, 1) else (n, pairs)

-- A quotient of two fractions.
abbrev divided : ℕ × ℕ → ℕ × ℕ → ℕ × ℕ
divided p q = (p.0 * q.1, p.1 * q.0)

module _ (community_of : JsMap String String) (pkg_files : List String) where
  abbrev counted : (Bool → Bool) → CoEditPair → ℕ
  counted side p =
      if not (contains pkg_files p.file_a) || not (contains pkg_files p.file_b)
      then 0
      else if side (opt_beq (lookup community_of p.file_a) (lookup community_of p.file_b))
      then p.count
      else 0

  unfoldable pub co_edit_density : Option (List CoEditPair) → Option CoEditDensity
  co_edit_density none = none
  co_edit_density (some pairs) =
      let within = sum (map (counted (λ same. same)) pairs) in
      let cross = sum (map (counted not) pairs) in
      let (within_pairs, cross_pairs) = possible_pairs community_of pkg_files in
      let within_density = density within within_pairs in
      let cross_density = density cross cross_pairs in
      some (record {
        within = within_density;
        cross = cross_density;
        ratio =
            if eqb within_density.0 0 then none else some (divided cross_density within_density);
      })
