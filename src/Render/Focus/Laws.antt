-- ===== src/Render/Focus/Laws.antt =====
-- The focus view (packages/render/src/focus-package.ts) is a closed graph over the package's files
-- and the stubs of its neighbours.
use codewatch.Base.{
  none, sym, ◌&&◌, ◌↔◌, any, Memᴰ-keep, contains-add_all, Memᴰ-append, contains-append, All-append,
  ◌∙◌, Memᴰ-cons, refl, add_all, not-Memᴰ-nil, keep, ◌++◌, ap, ◌⊎◌, Memᴰ, ◌||◌, inr, map, pair_eq,
  inl, ◌==◌, [], string_eq, Bool-cases, true, arith, ◌∷◌, ◌≡◌, Arith, contains, keys, Bool, String,
  List, All, JsMap,
}
use text.Mathlib.TextEquality.{eq_iff}
use codewatch.Graph.{stub, GraphNode, GraphEdge, RenderInput}
use mathlib.Core.List.{map-append}
use codewatch.Render.Packages.{is_file}
use codewatch.Render.Collapse.Edges.{endpoints, endpoints-entry_edge, entry_edge}
use codewatch.Render.Focus.Closed.{BothFiles, Enters, IsClosed, Leaves, fold_edges-IsClosed}
use codewatch.Render.Focus.Edges.{is_crossing, is_drawn_as, near-fold_edges, reaches-fold_edges}
use codewatch.Render.Focus.{
  entry_edge, Fold, no_edges, fold_edges, focus_package, is_kept, stub_node,
}

-- Both ends of the edge are among the ids.
abbrev pub HasEnds : {N : Type 0} → List String → GraphEdge N → Type 0
HasEnds ids e = (contains ids e.src_id ≡ true) × (contains ids e.dst_id ≡ true)

HasEnds-entry_edge :
    {N : Type 0} (P : String × String → Type 0) (ids : List String) (m : JsMap (String × String) N)
    → ((k : String × String) → P k → (contains ids k.0 ≡ true) × (contains ids k.1 ≡ true))
    → All P (keys m)
    → All (HasEnds ids) (map (entry_edge (λ w. w)) m)
HasEnds-entry_edge P ids [] f h = tt
HasEnds-entry_edge P ids (p ∷ m) f (q, h) = (f p.0 q, HasEnds-entry_edge P ids m f h)

ids-stub_node : (nbs : List String) → map (λ n. n.id) (map stub_node nbs) ≡ nbs
ids-stub_node [] = refl
ids-stub_node (nb ∷ nbs) = ap (λ l. nb ∷ l) (ids-stub_node nbs)

contains-ids :
    (files : List GraphNode) (nbs : List String) (x : String)
    → contains (map (λ n. n.id) (files ++ map stub_node nbs)) x
      ≡ (contains (add_all [] (map (λ n. n.id) files)) x || contains nbs x)
contains-ids files nbs x =
    ap (λ l. contains l x) (map-append (λ (n : GraphNode). n.id) files (map stub_node nbs))
    ∙ contains-append (map (λ n. n.id) files) (map (λ n. n.id) (map stub_node nbs)) x
    ∙ ground (
      arith,
      contains-add_all [] (map (λ n. n.id) files) x,
      ap (λ l. contains l x) (ids-stub_node nbs),
    )

Memᴰ-map-stub_node :
    (nbs : List String) (n : GraphNode)
    → Memᴰ n (map stub_node nbs) ↔ ((nb : String) × (n ≡ stub_node nb) × (contains nbs nb ≡ true))
Memᴰ-map-stub_node [] n = (λ m. absurd (not-Memᴰ-nil n m), λ (nb, e, c). absurd (ground (arith, c)))
Memᴰ-map-stub_node (x ∷ nbs) n = (
  λ m. elim ((Memᴰ-cons n (stub_node x) (map stub_node nbs)).0 m) [
    | inl e ↦ (x, e, ground (arith, eq_iff x x))
    | inr t ↦ let (nb, e, c) = (Memᴰ-map-stub_node nbs n).0 t in (nb, e, ground (arith, c))
  ],
  λ (nb, e, c). elim (Bool-cases (x == nb)) [
    | inl h ↦ Memᴰ.head (e ∙ ap stub_node (sym ((eq_iff x nb).0 h)))
    | inr h ↦ Memᴰ.tail ((Memᴰ-map-stub_node nbs n).1 (nb, e, ground (arith, c, h)))
  ],
)

-- Some node with the property has the id.
abbrev pub has_node : (GraphNode → Bool) → List GraphNode → String → Bool
has_node p ns x = any (λ n. p n && n.id == x) ns

contains-node_ids :
    (p : GraphNode → Bool) (ns : List GraphNode) (x : String)
    → contains (map (λ n. n.id) (keep p ns)) x ≡ has_node p ns x
contains-node_ids p [] x = refl
contains-node_ids p (n ∷ ns) x = elim (Bool-cases (p n)) [
  | inl h ↦ rw h (ground (arith, contains-node_ids p ns x))
  | inr h ↦ rw h (contains-node_ids p ns x)
]

contains-file_ids :
    (p : GraphNode → Bool) (ns : List GraphNode) (x : String)
    → contains (add_all [] (map (λ n. n.id) (keep p ns))) x ≡ has_node p ns x
contains-file_ids p ns x =
    contains-add_all [] (map (λ n. n.id) (keep p ns)) x ∙ contains-node_ids p ns x

contains-endpoints :
    {N : Type 0} (intra out inc : JsMap (String × String) N) (k : String × String)
    → contains
        (map endpoints (
          map (entry_edge (λ w. w)) intra
          ++ (map (entry_edge (λ w. w)) out ++ map (entry_edge (λ w. w)) inc)))
        k
      ≡ (contains (keys intra) k || (contains (keys out) k || contains (keys inc) k))
contains-endpoints intra out inc k =
    ap (λ l. contains l k)
      (map-append endpoints (map (entry_edge (λ w. w)) intra)
          (map (entry_edge (λ w. w)) out ++ map (entry_edge (λ w. w)) inc)
        ∙ ap (λ l. map endpoints (map (entry_edge (λ w. w)) intra) ++ l)
            (map-append endpoints (map (entry_edge (λ w. w)) out) (map (entry_edge (λ w. w)) inc)))
    ∙ contains-append (map endpoints (map (entry_edge (λ w. w)) intra)) _ k
    ∙ ground (
      arith,
      contains-append (map endpoints (map (entry_edge (λ w. w)) out))
          (map endpoints (map (entry_edge (λ w. w)) inc)) k,
      ap (λ l. contains l k) (endpoints-entry_edge (λ w. w) intra),
      ap (λ l. contains l k) (endpoints-entry_edge (λ w. w) out),
      ap (λ l. contains l k) (endpoints-entry_edge (λ w. w) inc),
    )

module _ {N : Type 0} ⦃a : Arith N⦄ (input : RenderInput N) (pkg : String)
    (include_tests : Bool) where
  -- The known files, and those that are shown in full.
  abbrev pub is_known : String → Bool
  is_known = has_node is_file input.nodes

  abbrev pub is_full : String → Bool
  is_full = has_node (is_kept include_tests pkg) input.nodes

  -- Every edge of the view starts and ends at a node of the view. The nodes are the package's files
  -- (tests only if asked for) and the stubs of the other packages that some edge joins to them, all
  -- of both and nothing else. The view's edges join the very pairs of ends that the edges between
  -- known files make that join two of those files, or one of them and another package.
  pub focus_package_closed :
      let view = focus_package input pkg include_tests in
      All (HasEnds (map (λ n. n.id) view.nodes)) view.edges
      × ((n : GraphNode)
          → Memᴰ n view.nodes ↔ (
              (Memᴰ n input.nodes × (is_kept include_tests pkg n ≡ true))
              ⊎ ((nb : String) × (n
                    ≡ record { id = nb; kind = "package"; name = nb; role = none; attrs = stub })
                  × (any (is_crossing pkg is_known is_full nb) input.edges ≡ true))))
      × ((k : String × String)
          → contains (map endpoints view.edges) k
            ≡ any (is_drawn_as pkg is_known is_full k) input.edges)
  unfolding focus_package
  focus_package_closed = (
    All-append (HasEnds ids) (map (entry_edge (λ w. w)) s.intra) _
        (HasEnds-entry_edge (BothFiles pkg file_ids) ids s.intra
          (λ k h.
            ground
              (arith, contains-ids files s.neighbours k.0, contains-ids files s.neighbours k.1))
          closed.intra)
        (All-append (HasEnds ids) (map (entry_edge (λ w. w)) s.out) _
          (HasEnds-entry_edge (Leaves pkg file_ids s.neighbours) ids s.out
            (λ k h.
              ground
                (arith, contains-ids files s.neighbours k.0, contains-ids files s.neighbours k.1))
            closed.out)
          (HasEnds-entry_edge (Enters pkg file_ids s.neighbours) ids s.inc
            (λ k h.
              ground
                (arith, contains-ids files s.neighbours k.0, contains-ids files s.neighbours k.1))
            closed.inc)),
    λ n. (
      λ m. elim ((Memᴰ-append n files (map stub_node s.neighbours)).0 m) [
        | inl file ↦ inl ((Memᴰ-keep (is_kept include_tests pkg) n input.nodes).0 file)
        | inr other ↦
            let (nb, e, c) = (Memᴰ-map-stub_node s.neighbours n).0 other in
            inr (nb, e, sym (near nb) ∙ c)
      ],
      λ h. (Memᴰ-append n files (map stub_node s.neighbours)).1 (elim h [
        | inl file ↦ inl ((Memᴰ-keep (is_kept include_tests pkg) n input.nodes).1 file)
        | inr (nb, e, c) ↦ inr ((Memᴰ-map-stub_node s.neighbours n).1 (nb, e, near nb ∙ c))
      ]),
    ),
    λ k.
        contains-endpoints s.intra s.out s.inc k
        ∙ reaches-fold_edges pkg file_ids all_files is_known is_full
            (contains-file_ids is_file input.nodes)
            (contains-file_ids (is_kept include_tests pkg) input.nodes) no_edges input.edges k,
  )
    where
      files : List GraphNode
      files = keep (is_kept include_tests pkg) input.nodes

      file_ids : List String
      file_ids = add_all [] (map (λ n. n.id) files)

      all_files : List String
      all_files = add_all [] (map (λ n. n.id) (keep is_file input.nodes))

      s : Fold N
      s = fold_edges pkg file_ids all_files no_edges input.edges

      ids : List String
      ids = map (λ n. n.id) (files ++ map stub_node s.neighbours)

      closed : IsClosed pkg file_ids s
      closed =
          fold_edges-IsClosed pkg file_ids all_files no_edges input.edges
            (record { intra = tt; out = tt; inc = tt; others = refl })

      near :
          (nb : String)
          → contains s.neighbours nb ≡ any (is_crossing pkg is_known is_full nb) input.edges
      near nb =
          near-fold_edges pkg file_ids all_files is_known is_full
            (contains-file_ids is_file input.nodes)
            (contains-file_ids (is_kept include_tests pkg) input.nodes) no_edges input.edges nb
