-- ===== src/Render/Focus/Edges.antt =====
-- packages/render/src/focus-package.ts: which pairs and which neighbours the edge loop collects.
use codewatch.Base.{
  Arith, Bool, Bool-cases, List, String, any, arith, contains, contains-add, keys, keys-bump, not,
  pair_eq, string_eq, inl, inr, [], ◌∷◌, ◌≡◌, ◌==◌, ◌&&◌, ◌||◌, if◌then◌else◌, ap,
}
use codewatch.Graph.{GraphEdge, edge_weight}
use codewatch.Render.Focus.{Fold, enter, fold_edge, fold_edges, inside, leave, pkg_of}

-- What the view makes of the ids: `files` are known files, `shows` those shown in full.
module _ (pkg : String) (files shows : String → Bool) where
  -- An end of an edge in the view: the file, or its package's stub.
  abbrev pub view_end : String → String
  view_end x = if shows x then x else pkg_of x

  -- The end is shown in full, or its package is another one.
  abbrev has_end : String → Bool
  has_end x = shows x || not (pkg_of x == pkg)

  -- The edge joins known files, one of them shown in full and the other too or in another package.
  abbrev pub is_counted : {N : Type 0} → GraphEdge N → Bool
  is_counted e =
      files e.src_id
      && files e.dst_id
      && (shows e.src_id || shows e.dst_id)
      && has_end e.src_id
      && has_end e.dst_id

  -- The edge is one between these ends of the view.
  abbrev pub is_drawn_as : {N : Type 0} → String × String → GraphEdge N → Bool
  is_drawn_as k e = is_counted e && (view_end e.src_id, view_end e.dst_id) == k

  -- The edge makes the package a neighbour.
  abbrev pub is_crossing : {N : Type 0} → String → GraphEdge N → Bool
  is_crossing nb e =
      is_counted e
      && ((not (shows e.src_id) && pkg_of e.src_id == nb)
          || (not (shows e.dst_id) && pkg_of e.dst_id == nb))

module _ {N : Type 0} ⦃a : Arith N⦄ (pkg : String) (file_ids all_files : List String)
    (files shows : String → Bool) (all_lem : (x : String) → contains all_files x ≡ files x)
    (file_lem : (x : String) → contains file_ids x ≡ shows x) where
  -- The pair is an entry of one of the three maps.
  abbrev pub reaches : Fold N → String × String → Bool
  reaches s k = contains (keys s.intra) k || (contains (keys s.out) k || contains (keys s.inc) k)

  reaches-leave :
      (s : Fold N) (e : GraphEdge N) (k : String × String)
      → reaches (leave pkg file_ids all_files s e) k
        ≡ (reaches s k || (not (pkg_of e.dst_id == pkg) && (e.src_id, pkg_of e.dst_id) == k))
  unfolding leave
  reaches-leave s e k = elim (Bool-cases (pkg_of e.dst_id == pkg)) [
    | inl own ↦ rw own (ground arith)
    | inr other ↦ rw other (
        ground (
          arith,
          ap (λ l. contains l k) (keys-bump s.out (e.src_id, pkg_of e.dst_id) (edge_weight e)),
          contains-add (keys s.out) (e.src_id, pkg_of e.dst_id) k,
        ))
  ]

  reaches-enter :
      (s : Fold N) (e : GraphEdge N) (k : String × String)
      → reaches (enter pkg file_ids all_files s e) k
        ≡ (reaches s k || (not (pkg_of e.src_id == pkg) && (pkg_of e.src_id, e.dst_id) == k))
  unfolding enter
  reaches-enter s e k = elim (Bool-cases (pkg_of e.src_id == pkg)) [
    | inl own ↦ rw own (ground arith)
    | inr other ↦ rw other (
        ground (
          arith,
          ap (λ l. contains l k) (keys-bump s.inc (pkg_of e.src_id, e.dst_id) (edge_weight e)),
          contains-add (keys s.inc) (pkg_of e.src_id, e.dst_id) k,
        ))
  ]

  reaches-inside :
      (s : Fold N) (e : GraphEdge N) (k : String × String)
      → reaches (inside pkg file_ids all_files s e) k ≡ (reaches s k || (e.src_id, e.dst_id) == k)
  unfolding inside
  reaches-inside s e k = ground (
    arith,
    ap (λ l. contains l k) (keys-bump s.intra (e.src_id, e.dst_id) (edge_weight e)),
    contains-add (keys s.intra) (e.src_id, e.dst_id) k,
  )

  reaches-fold_edge :
      (s : Fold N) (e : GraphEdge N) (k : String × String)
      → reaches (fold_edge pkg file_ids all_files s e) k
        ≡ (reaches s k || is_drawn_as pkg files shows k e)
  unfolding fold_edge
  reaches-fold_edge s e k =
      rw (all_lem e.src_id, all_lem e.dst_id, file_lem e.src_id, file_lem e.dst_id)
        (elim (Bool-cases (files e.src_id)) [
          | inr f ↦ rw f (ground arith)
          | inl f ↦ elim (Bool-cases (files e.dst_id)) [
            | inr g ↦ rw (f, g) (ground arith)
            | inl g ↦ elim (Bool-cases (shows e.src_id)) [
              | inl c ↦ elim (Bool-cases (shows e.dst_id)) [
                | inl d ↦ rw (f, g, c, d) (ground (arith, reaches-inside s e k))
                | inr d ↦ rw (f, g, c, d) (ground (arith, reaches-leave s e k))
              ]
              | inr c ↦ elim (Bool-cases (shows e.dst_id)) [
                | inl d ↦ rw (f, g, c, d) (ground (arith, reaches-enter s e k))
                | inr d ↦ rw (f, g, c, d) (ground arith)
              ]
            ]
          ]
        ])

  pub reaches-fold_edges :
      (s : Fold N) (es : List (GraphEdge N)) (k : String × String)
      → reaches (fold_edges pkg file_ids all_files s es) k
        ≡ (reaches s k || any (is_drawn_as pkg files shows k) es)
  unfolding fold_edges
  reaches-fold_edges s [] k = ground arith
  reaches-fold_edges s (e ∷ es) k = ground (
    arith,
    reaches-fold_edges (fold_edge pkg file_ids all_files s e) es k,
    reaches-fold_edge s e k,
  )

  near-leave :
      (s : Fold N) (e : GraphEdge N) (nb : String)
      → contains (leave pkg file_ids all_files s e).neighbours nb
        ≡ (contains s.neighbours nb || (not (pkg_of e.dst_id == pkg) && pkg_of e.dst_id == nb))
  unfolding leave
  near-leave s e nb = elim (Bool-cases (pkg_of e.dst_id == pkg)) [
    | inl own ↦ rw own (ground arith)
    | inr other ↦ rw other (ground (arith, contains-add s.neighbours (pkg_of e.dst_id) nb))
  ]

  near-enter :
      (s : Fold N) (e : GraphEdge N) (nb : String)
      → contains (enter pkg file_ids all_files s e).neighbours nb
        ≡ (contains s.neighbours nb || (not (pkg_of e.src_id == pkg) && pkg_of e.src_id == nb))
  unfolding enter
  near-enter s e nb = elim (Bool-cases (pkg_of e.src_id == pkg)) [
    | inl own ↦ rw own (ground arith)
    | inr other ↦ rw other (ground (arith, contains-add s.neighbours (pkg_of e.src_id) nb))
  ]

  near-fold_edge :
      (s : Fold N) (e : GraphEdge N) (nb : String)
      → contains (fold_edge pkg file_ids all_files s e).neighbours nb
        ≡ (contains s.neighbours nb || is_crossing pkg files shows nb e)
  unfolding fold_edge inside
  near-fold_edge s e nb =
      rw (all_lem e.src_id, all_lem e.dst_id, file_lem e.src_id, file_lem e.dst_id)
        (elim (Bool-cases (files e.src_id)) [
          | inr f ↦ rw f (ground arith)
          | inl f ↦ elim (Bool-cases (files e.dst_id)) [
            | inr g ↦ rw (f, g) (ground arith)
            | inl g ↦ elim (Bool-cases (shows e.src_id)) [
              | inl c ↦ elim (Bool-cases (shows e.dst_id)) [
                | inl d ↦ rw (f, g, c, d) (ground arith)
                | inr d ↦ rw (f, g, c, d) (ground (arith, near-leave s e nb))
              ]
              | inr c ↦ elim (Bool-cases (shows e.dst_id)) [
                | inl d ↦ rw (f, g, c, d) (ground (arith, near-enter s e nb))
                | inr d ↦ rw (f, g, c, d) (ground arith)
              ]
            ]
          ]
        ])

  pub near-fold_edges :
      (s : Fold N) (es : List (GraphEdge N)) (nb : String)
      → contains (fold_edges pkg file_ids all_files s es).neighbours nb
        ≡ (contains s.neighbours nb || any (is_crossing pkg files shows nb) es)
  unfolding fold_edges
  near-fold_edges s [] nb = ground arith
  near-fold_edges s (e ∷ es) nb =
      ground
        (arith, near-fold_edges (fold_edge pkg file_ids all_files s e) es nb, near-fold_edge s e nb)
