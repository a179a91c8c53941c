-- ===== src/Render/Focus/Closed.antt =====
-- packages/render/src/focus-package.ts: an edge that the loop collects joins files of the package and
-- neighbours.
use codewatch.Base.{
  contains-add_self, All-imp, ◌||◌, inr, pair_eq, inl, not, All-add, ◌==◌, [], keys-bump, string_eq,
  Bool-cases, false, contains-add, true, arith, ◌∷◌, ◌≡◌, add, Arith, contains, keys, String, List,
  All,
}
use codewatch.Graph.{edge_weight, GraphEdge}
use codewatch.Render.Focus.{pkg_of, Fold, fold_edge, fold_edges, leave, enter, inside}

-- The loop's invariant: an entry joins files of the package, or one of them and a neighbour; the
-- package is no neighbour of itself.
module _ (pkg : String) (file_ids : List String) where
  abbrev pub BothFiles : String × String → Type 0
  BothFiles k = (contains file_ids k.0 ≡ true) × (contains file_ids k.1 ≡ true)

  abbrev pub Leaves : List String → String × String → Type 0
  Leaves nbs k = (contains file_ids k.0 ≡ true) × (contains nbs k.1 ≡ true)

  abbrev pub Enters : List String → String × String → Type 0
  Enters nbs k = (contains nbs k.0 ≡ true) × (contains file_ids k.1 ≡ true)

  pub record IsClosed {N : Type 0} (s : Fold N) : Type 0 where
    pub intra : All BothFiles (keys s.intra)
    pub out : All (Leaves s.neighbours) (keys s.out)
    pub inc : All (Enters s.neighbours) (keys s.inc)
    pub others : contains s.neighbours pkg ≡ false

  Leaves-add :
      (nbs : List String) (nb : String) (k : String × String) → Leaves nbs k → Leaves (add nbs nb) k
  Leaves-add nbs nb k h = ground (arith, contains-add nbs nb k.1)

  Enters-add :
      (nbs : List String) (nb : String) (k : String × String) → Enters nbs k → Enters (add nbs nb) k
  Enters-add nbs nb k h = ground (arith, contains-add nbs nb k.0)

  module _ {N : Type 0} ⦃a : Arith N⦄ (all_files : List String) where
    leave-IsClosed :
        (s : Fold N) (e : GraphEdge N)
        → IsClosed s
        → contains file_ids e.src_id ≡ true
        → IsClosed (leave pkg file_ids all_files s e)
    unfolding leave
    leave-IsClosed s e h c = elim (Bool-cases (pkg_of e.dst_id == pkg)) [
      | inl own ↦ rw own h
      | inr other ↦ rw other (record {
        intra = h.intra;
        out = rw (keys-bump s.out (e.src_id, pkg_of e.dst_id) (edge_weight e)) (
            All-add (Leaves (add s.neighbours (pkg_of e.dst_id))) (keys s.out)
              (e.src_id, pkg_of e.dst_id)
              (All-imp _ _ (keys s.out) (Leaves-add s.neighbours (pkg_of e.dst_id)) h.out)
              (c, contains-add_self s.neighbours (pkg_of e.dst_id)));
        inc = All-imp _ _ (keys s.inc) (Enters-add s.neighbours (pkg_of e.dst_id)) h.inc;
        others = ground (arith, contains-add s.neighbours (pkg_of e.dst_id) pkg, h.others);
      })
    ]

    enter-IsClosed :
        (s : Fold N) (e : GraphEdge N)
        → IsClosed s
        → contains file_ids e.dst_id ≡ true
        → IsClosed (enter pkg file_ids all_files s e)
    unfolding enter
    enter-IsClosed s e h c = elim (Bool-cases (pkg_of e.src_id == pkg)) [
      | inl own ↦ rw own h
      | inr other ↦ rw other (record {
        intra = h.intra;
        out = All-imp _ _ (keys s.out) (Leaves-add s.neighbours (pkg_of e.src_id)) h.out;
        inc = rw (keys-bump s.inc (pkg_of e.src_id, e.dst_id) (edge_weight e)) (
            All-add (Enters (add s.neighbours (pkg_of e.src_id))) (keys s.inc)
              (pkg_of e.src_id, e.dst_id)
              (All-imp _ _ (keys s.inc) (Enters-add s.neighbours (pkg_of e.src_id)) h.inc)
              (contains-add_self s.neighbours (pkg_of e.src_id), c));
        others = ground (arith, contains-add s.neighbours (pkg_of e.src_id) pkg, h.others);
      })
    ]

    inside-IsClosed :
        (s : Fold N) (e : GraphEdge N)
        → IsClosed s
        → contains file_ids e.src_id ≡ true
        → contains file_ids e.dst_id ≡ true
        → IsClosed (inside pkg file_ids all_files s e)
    unfolding inside
    inside-IsClosed s e h c d = record {
      intra =
          rw (keys-bump s.intra (e.src_id, e.dst_id) (edge_weight e))
            (All-add BothFiles (keys s.intra) (e.src_id, e.dst_id) h.intra (c, d));
      out = h.out;
      inc = h.inc;
      others = h.others;
    }

    fold_edge-IsClosed :
        (s : Fold N) (e : GraphEdge N)
        → IsClosed s
        → IsClosed (fold_edge pkg file_ids all_files s e)
    unfolding fold_edge
    fold_edge-IsClosed s e h =
        elim (Bool-cases (not (contains all_files e.src_id) || not (contains all_files e.dst_id))) [
          | inl foreign ↦ rw foreign h
          | inr known ↦ elim (Bool-cases (contains file_ids e.src_id)) [
            | inl c ↦ elim (Bool-cases (contains file_ids e.dst_id)) [
              | inl d ↦ rw (known, c, d) (inside-IsClosed s e h c d)
              | inr d ↦ rw (known, c, d) (leave-IsClosed s e h c)
            ]
            | inr c ↦ elim (Bool-cases (contains file_ids e.dst_id)) [
              | inl d ↦ rw (known, c, d) (enter-IsClosed s e h d)
              | inr d ↦ rw (known, c, d) h
            ]
          ]
        ]

    pub fold_edges-IsClosed :
        (s : Fold N) (es : List (GraphEdge N))
        → IsClosed s
        → IsClosed (fold_edges pkg file_ids all_files s es)
    unfolding fold_edges
    fold_edges-IsClosed s [] h = h
    fold_edges-IsClosed s (e ∷ es) h =
        fold_edges-IsClosed (fold_edge pkg file_ids all_files s e) es (fold_edge-IsClosed s e h)
