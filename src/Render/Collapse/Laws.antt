-- ===== src/Render/Collapse/Laws.antt =====
-- What the shared loops compute, said without their maps.
use codewatch.Base.{
  JsMap, false, true, ◌||◌, map, amount_at, not, Arith, bump_opt, ℕ, suc, ◌+◌, String, Bool, ◌&&◌,
  Option, none, some, List, [], ◌∷◌, if◌then◌else◌, lookup, tally, nat_arith, ◌==◌, string_eq,
  pair_eq, any, keep, length, lookup-insert, lookup-tally, keys-tally, sum_onto, amounts, ◌≡◌, refl,
  ap, ◌∙◌, arith, Bool-cases, inl, inr, entry_keys, sum, values, sum-values-bump, keys, HasNodup,
  HasNodup-add_all, add_all, or_else,
}
use text.Mathlib.TextEquality.{eq_iff}
use codewatch.Graph.{edge_weight, GraphEdge, GraphNode}
use codewatch.Render.Collapse.{
  cross_weights, cross_entry, FileIndex, no_files, index_file, index_files,
}

module _ (counts : GraphNode → Bool) (group : String → String) where
  abbrev pub is_counted : List GraphNode → String → Bool
  is_counted ns id = any (λ n. counts n && n.id == id) ns

  abbrev pub in_group : String → GraphNode → Bool
  in_group g n = counts n && group n.id == g

  by_file-index_files :
      (ix : FileIndex) (ns : List GraphNode) (id : String)
      → lookup (index_files counts group ix ns).by_file id
        ≡ (if is_counted ns id then some (group id) else lookup ix.by_file id)
  unfolding index_files
  by_file-index_files ix [] id = refl
  by_file-index_files ix (n ∷ ns) id = ground (
    arith,
    by_file-index_files (index_file counts group ix n) ns id,
    lookup-insert ix.by_file n.id id (group n.id),
    eq_iff n.id id,
  )

  -- A file's group is found just when a counted node has its id.
  pub by_file_lem :
      (ns : List GraphNode) (id : String)
      → lookup (index_files counts group no_files ns).by_file id
        ≡ (if is_counted ns id then some (group id) else none)
  by_file_lem ns id = by_file-index_files no_files ns id

  abbrev one_each : GraphNode → Option (String × ℕ)
  one_each n = if counts n then some (group n.id, 1) else none

  count-index_file :
      (ix : FileIndex) (n : GraphNode)
      → (index_file counts group ix n).count ≡ bump_opt ix.count (one_each n)
  unfolding index_file
  count-index_file ix n = elim (Bool-cases (counts n)) [ inl h ↦ rw h | inr h ↦ rw h ]

  count-index_files :
      (ix : FileIndex) (ns : List GraphNode)
      → (index_files counts group ix ns).count ≡ tally one_each ix.count ns
  unfolding index_files tally
  count-index_files ix [] = refl
  count-index_files ix (n ∷ ns) =
      count-index_files (index_file counts group ix n) ns
      ∙ ap (λ m. tally one_each m ns) (count-index_file ix n)

  if_any :
      (ns : List GraphNode) (g : String) (k : ℕ)
      → (if any (in_group g) ns then some (k + 1 + length (keep (in_group g) ns)) else some (k + 1))
        ≡ some (k + suc (length (keep (in_group g) ns)))
  if_any [] g k = ground arith
  if_any (n ∷ ns) g k = ground (arith, if_any ns g k)

  sum_onto-ones :
      (o : Option ℕ) (ns : List GraphNode) (g : String)
      → sum_onto o (amounts one_each g ns)
        ≡ (if any (in_group g) ns then some (or_else o 0 + length (keep (in_group g) ns)) else o)
  sum_onto-ones o [] g = refl
  sum_onto-ones o (n ∷ ns) g = elim (Bool-cases (counts n)) [
    | inl h ↦ elim (Bool-cases (group n.id == g)) [
      | inl same ↦
          rw (h, same) (sum_onto-ones (some (or_else o 0 + 1)) ns g ∙ if_any ns g (or_else o 0))
      | inr other ↦ rw (h, other) (sum_onto-ones o ns g)
    ]
    | inr h ↦ rw h (sum_onto-ones o ns g)
  ]

  -- The number of files in a group; a group with no file has no entry.
  pub count_lem :
      (ns : List GraphNode) (g : String)
      → lookup (index_files counts group no_files ns).count g
        ≡ (if any (in_group g) ns then some (length (keep (in_group g) ns)) else none)
  count_lem ns g =
      ap (λ m. lookup m g) (count-index_files no_files ns)
      ∙ lookup-tally one_each [] ns g
      ∙ sum_onto-ones none ns g
      ∙ ground arith

  pub keys-count :
      (ns : List GraphNode)
      → keys (index_files counts group no_files ns).count ≡ add_all [] (entry_keys one_each ns)
  keys-count ns = ap keys (count-index_files no_files ns) ∙ keys-tally one_each [] ns

  pub HasNodup-count :
      (ns : List GraphNode) → HasNodup (keys (index_files counts group no_files ns).count)
  HasNodup-count ns = rw (keys-count ns) (HasNodup-add_all [] (entry_keys one_each ns) tt)

  sum-index_files :
      (ix : FileIndex) (ns : List GraphNode)
      → sum (values (index_files counts group ix ns).count)
        ≡ sum (values ix.count) + length (keep counts ns)
  unfolding index_files
  sum-index_files ix [] = omega arith
  sum-index_files ix (n ∷ ns) = ground (
    arith,
    sum-index_files (index_file counts group ix n) ns,
    sum-values-bump ix.count (group n.id) 1,
  )

  -- Every counted file is counted once, under its own group.
  pub sum-values-count :
      (ns : List GraphNode)
      → sum (values (index_files counts group no_files ns).count) ≡ length (keep counts ns)
  sum-values-count ns = sum-index_files no_files ns ∙ omega arith

-- Two different groups with a name.
abbrev pub is_pair : String → String → Bool
is_pair s d = not (s == "" || d == "" || s == d)

-- The weight of a pair of groups, for an index whose lookup is known.
module _ {N : Type 0} ⦃a : Arith N⦄ (counts : GraphNode → Bool) (group : String → String) where
  -- An edge from a counted file of group `s` to a counted file of group `d`.
  abbrev pub joins : List GraphNode → String → String → GraphEdge N → Bool
  joins ns s d e =
      is_counted counts group ns e.src_id
      && group e.src_id == s
      && is_counted counts group ns e.dst_id
      && group e.dst_id == d

  -- The weights of those edges, in order.
  abbrev pub weights_between : List GraphNode → String → String → List (GraphEdge N) → List N
  weights_between ns s d es = map edge_weight (keep (joins ns s d) es)

  amount_at-cross_entry :
      (ns : List GraphNode) (s d : String) (e : GraphEdge N) (ws : List N)
      → amount_at (s, d) (cross_entry (index_files counts group no_files ns).by_file e) ws
        ≡ (if is_pair s d && joins ns s d e then edge_weight e ∷ ws else ws)
  unfolding cross_entry
  amount_at-cross_entry ns s d e ws = ground (
    arith,
    by_file_lem counts group ns e.src_id,
    by_file_lem counts group ns e.dst_id,
    eq_iff (group e.src_id) "",
    eq_iff (group e.dst_id) "",
    eq_iff (group e.src_id) (group e.dst_id),
    eq_iff (group e.src_id) s,
    eq_iff (group e.dst_id) d,
    eq_iff s d,
    eq_iff s "",
    eq_iff d "",
  )

  if_weights :
      (p : Bool) (f : GraphEdge N → Bool) (e : GraphEdge N) (es : List (GraphEdge N)) (ws : List N)
      → ws ≡ (if p then map edge_weight (keep f es) else [])
      → (if p && f e then edge_weight e ∷ ws else ws)
        ≡ (if p then map edge_weight (keep f (e ∷ es)) else [])
  if_weights false f e es ws h = h
  if_weights true f e es ws h = elim (Bool-cases (f e)) [
    | inl there ↦ rw there (ap (λ l. edge_weight e ∷ l) h)
    | inr gone ↦ rw gone h
  ]

  amounts-cross_entry :
      (ns : List GraphNode) (s d : String) (es : List (GraphEdge N))
      → amounts (cross_entry (index_files counts group no_files ns).by_file) (s, d) es
        ≡ (if is_pair s d then weights_between ns s d es else [])
  amounts-cross_entry ns s d [] = ground arith
  amounts-cross_entry ns s d (e ∷ es) =
      let by_file = (index_files counts group no_files ns).by_file in
      amount_at-cross_entry ns s d e (amounts (cross_entry by_file) (s, d) es)
      ∙ if_weights (is_pair s d) (joins ns s d) e es (amounts (cross_entry by_file) (s, d) es)
          (amounts-cross_entry ns s d es)

  sum_onto-if :
      (p : Bool) (ws : List N)
      → sum_onto none (if p then ws else []) ≡ (if p then sum_onto none ws else none)
  sum_onto-if true ws = refl
  sum_onto-if false ws = refl

  -- The weight under a pair is the sum of those weights in order, and there is no entry where no
  -- edge joins the two groups, where they are one, or where one has the empty name.
  pub cross_weights_lem :
      (ns : List GraphNode) (s d : String) (es : List (GraphEdge N))
      → lookup (cross_weights (index_files counts group no_files ns).by_file es) (s, d)
        ≡ (if is_pair s d then sum_onto none (weights_between ns s d es) else none)
  unfolding cross_weights
  cross_weights_lem ns s d es =
      lookup-tally (cross_entry (index_files counts group no_files ns).by_file) [] es (s, d)
      ∙ ap (sum_onto none) (amounts-cross_entry ns s d es)
      ∙ sum_onto-if (is_pair s d) (weights_between ns s d es)

  pub HasNodup-cross_weights :
      (by_file : JsMap String String) (es : List (GraphEdge N))
      → HasNodup (keys (cross_weights by_file es))
  unfolding cross_weights
  HasNodup-cross_weights by_file es =
      rw (keys-tally (cross_entry by_file) [] es)
        (HasNodup-add_all [] (entry_keys (cross_entry by_file) es) tt)
