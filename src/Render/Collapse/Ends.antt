-- ===== src/Render/Collapse/Ends.antt =====
-- The ends of the entries of `cross_weights` are groups that hold a counted file.
use codewatch.Base.{
  refl, none, inr, inl, pair_eq, string_eq, ◌==◌, All-add_all, [], Bool-cases, key_at, arith,
  keys-tally, ◌∷◌, entry_keys, some, keys, true, All, ◌≡◌, lookup, Option, any, Arith, List, String,
  Bool,
}
use text.Mathlib.TextEquality.{eq_iff}
use codewatch.Graph.{GraphNode, GraphEdge, edge_weight}
use codewatch.Render.Collapse.{index_files, no_files, truthy, pair_of, cross_entry, cross_weights}
use codewatch.Render.Collapse.Laws.{is_counted, in_group, by_file_lem}

module _ (counts : GraphNode → Bool) (group : String → String) where
  -- Both ends of an entry are groups with a file.
  abbrev pub HasFiles : List GraphNode → String × String → Type 0
  HasFiles ns k =
      (any (in_group counts group k.0) ns ≡ true) × (any (in_group counts group k.1) ns ≡ true)

  in_group_of_counted :
      (ns : List GraphNode) (id g : String)
      → is_counted counts group ns id ≡ true
      → group id ≡ g
      → any (in_group counts group g) ns ≡ true
  in_group_of_counted [] id g h e = cc
  in_group_of_counted (n ∷ ns) id g h e =
      ground (arith, in_group_of_counted ns id g, eq_iff n.id id, eq_iff (group n.id) g)

  in_group_of_lookup :
      (ns : List GraphNode) (id g : String)
      → truthy (lookup (index_files counts group no_files ns).by_file id) ≡ some g
      → any (in_group counts group g) ns ≡ true
  in_group_of_lookup ns id g h =
      ground
        (arith, by_file_lem counts group ns id, in_group_of_counted ns id g, eq_iff (group id) "")

module _ {N : Type 0} ⦃a : Arith N⦄ (counts : GraphNode → Bool) (group : String → String) where
  HasFiles-pair_of :
      (ns : List GraphNode) (s d : Option String) (w : N) (ks : List (String × String))
      → ((g : String) → s ≡ some g → any (in_group counts group g) ns ≡ true)
      → ((g : String) → d ≡ some g → any (in_group counts group g) ns ≡ true)
      → All (HasFiles counts group ns) ks
      → All (HasFiles counts group ns) (key_at (pair_of s d w) ks)
  HasFiles-pair_of ns none d w ks hs hd h = h
  HasFiles-pair_of ns (some s) none w ks hs hd h = h
  HasFiles-pair_of ns (some s) (some d) w ks hs hd h = elim (Bool-cases (s == d)) [
    | inl e ↦ rw e h
    | inr e ↦ rw e ((hs s refl, hd d refl), h)
  ]

  HasFiles-entry_keys :
      (ns : List GraphNode) (es : List (GraphEdge N))
      → All
          (HasFiles counts group ns)
          (entry_keys (cross_entry (index_files counts group no_files ns).by_file) es)
  unfolding cross_entry
  HasFiles-entry_keys ns [] = tt
  HasFiles-entry_keys ns (e ∷ es) =
      HasFiles-pair_of ns _ _ (edge_weight e) _ (in_group_of_lookup counts group ns e.src_id)
        (in_group_of_lookup counts group ns e.dst_id) (HasFiles-entry_keys ns es)

  pub HasFiles-cross_weights :
      (ns : List GraphNode) (es : List (GraphEdge N))
      → All
          (HasFiles counts group ns)
          (keys (cross_weights (index_files counts group no_files ns).by_file es))
  unfolding cross_weights
  HasFiles-cross_weights ns es =
      rw (keys-tally (cross_entry (index_files counts group no_files ns).by_file) [] es)
        (All-add_all (HasFiles counts group ns) [] _ tt (HasFiles-entry_keys ns es))
