-- ===== src/Render/Diff/Status.antt =====
-- What the status table of a diff view says of each edge (`classifyEdges` of
-- packages/render/src/diff-snapshot.ts).
use codewatch.Base.{
  inr, inl, contains-add_all, add_all, HasNodup-insert, Bool-cases, HasNodup, refl, ◌∙◌,
  contains-add, [], ◌||◌, keys-insert, lookup-insert, ap, string_eq, is_some-lookup, true, arith,
  ◌==◌, ◌∷◌, none, some, keys, map, contains, ◌≡◌, lookup, Bool, String, List, JsMap, if◌then◌else◌,
}
use text.Mathlib.TextEquality.{eq_iff}
use codewatch.Graph.{GraphEdge}
use codewatch.Render.Diff.{
  add_new_edges, no_union, remapped_key, unchanged, added, union_edges, classify_edges, GraphDiff,
  EdgeStatus, removed, key_of, classify_new, classify_old,
}
use codewatch.Render.Diff.Edges.{
  add_old_edges-IsTracked, keys-classify_new, keys-classify_old, add_new_edges-IsTracked,
  fresh_status, new_status, old_status,
}

module _ {N : Type 0} where
  lookup-classify_new :
      (added_keys : List String) (status : JsMap String EdgeStatus) (es : List (GraphEdge N))
      (k : String)
      → lookup (classify_new added_keys status es) k
        ≡ (if contains (map key_of es) k then some (fresh_status added_keys k) else lookup status k)
  unfolding classify_new
  lookup-classify_new added_keys status [] k = refl
  lookup-classify_new added_keys status (e ∷ es) k =
      lookup-classify_new added_keys (new_status added_keys status e) es k
      ∙ one (contains (map key_of es) k)
    where
      here :
          (key_of e == k ≡ true)
          → some (fresh_status added_keys (key_of e)) ≡ some (fresh_status added_keys k)
      here h = ap (λ x. some (fresh_status added_keys x)) ((eq_iff (key_of e) k).0 h)

      one :
          (b : Bool)
          → (if b
              then some (fresh_status added_keys k)
              else lookup (new_status added_keys status e) k)
            ≡ (if key_of e == k || b then some (fresh_status added_keys k) else lookup status k)
      one b =
          ground
            (arith, here, lookup-insert status (key_of e) k (fresh_status added_keys (key_of e)))

  lookup-old_status :
      (renames : JsMap String String) (status : JsMap String EdgeStatus) (e : GraphEdge N)
      (k : String)
      → lookup (old_status renames status e) k ≡ (
          if contains (keys status) k
          then lookup status k
          else if contains (keys (old_status renames status e)) k
          then some removed
          else none)
  lookup-old_status renames status e k = ground (
    arith,
    is_some-lookup status k,
    lookup-insert status (key_of e) k removed,
    ap (λ l. contains l k) (keys-insert status (key_of e) removed),
    contains-add (keys status) (key_of e) k,
    eq_iff (key_of e) k,
  )

  lookup-classify_old :
      (renames : JsMap String String) (status : JsMap String EdgeStatus) (es : List (GraphEdge N))
      (k : String)
      → lookup (classify_old renames status es) k ≡ (
          if contains (keys status) k
          then lookup status k
          else if contains (keys (classify_old renames status es)) k
          then some removed
          else none)
  unfolding classify_old
  lookup-classify_old renames status [] k = ground (arith, is_some-lookup status k)
  lookup-classify_old renames status (e ∷ es) k = ground (
    arith,
    lookup-classify_old renames (old_status renames status e) es k,
    lookup-old_status renames status e k,
    is_some-lookup (old_status renames status e) k,
    is_some-lookup status k,
    is_some-lookup (classify_old renames (old_status renames status e) es) k,
  )

  module _ (diff : GraphDiff N) (from_edges to_edges : List (GraphEdge N))
      (renames : JsMap String String) where
    HasNodup-classify_new :
        (added_keys : List String) (status : JsMap String EdgeStatus) (es : List (GraphEdge N))
        → HasNodup (keys status)
        → HasNodup (keys (classify_new added_keys status es))
    unfolding classify_new
    HasNodup-classify_new added_keys status [] h = h
    HasNodup-classify_new added_keys status (e ∷ es) h =
        HasNodup-classify_new added_keys (new_status added_keys status e) es
          (HasNodup-insert status (key_of e) (fresh_status added_keys (key_of e)) h)

    HasNodup-classify_old :
        (status : JsMap String EdgeStatus) (es : List (GraphEdge N))
        → HasNodup (keys status)
        → HasNodup (keys (classify_old renames status es))
    unfolding classify_old
    HasNodup-classify_old status [] h = h
    HasNodup-classify_old status (e ∷ es) h =
        HasNodup-classify_old (old_status renames status e) es
          (elim (Bool-cases (contains (keys status) (remapped_key renames e))) [
            | inl c ↦ rw c h
            | inr c ↦ elim (Bool-cases (contains (keys status) (key_of e))) [
              | inl d ↦ rw (c, d) h
              | inr d ↦ rw (c, d) (HasNodup-insert status (key_of e) removed h)
            ]
          ])

    contains-classify_new :
        (added_keys : List String) (k : String)
        → contains (keys (classify_new added_keys [] to_edges)) k ≡ contains (map key_of to_edges) k
    contains-classify_new added_keys k = ground (
      arith,
      is_some-lookup (classify_new added_keys [] to_edges) k,
      lookup-classify_new added_keys [] to_edges k,
    )

    keys-classify_edges :
        keys (classify_edges diff from_edges to_edges renames)
        ≡ map key_of (union_edges from_edges to_edges renames)
    unfolding classify_edges union_edges
    keys-classify_edges =
        let tracked = add_new_edges-IsTracked no_union to_edges refl in
        keys-classify_old renames (classify_new added_keys [] to_edges)
          (add_new_edges no_union to_edges) from_edges
          (keys-classify_new added_keys [] no_union to_edges refl)
        ∙ add_old_edges-IsTracked renames (add_new_edges no_union to_edges) from_edges tracked
      where
        added_keys : List String
        added_keys = add_all [] (map key_of diff.added_edges)

    -- The edges shown have distinct keys, and the status table has one entry for each of them and no
    -- other, in the same order. An edge of the new snapshot is "added" if the diff lists its key as
    -- added and "unchanged" if not; every other edge shown is "removed".
    pub classify_edges_lem :
        HasNodup (map key_of (union_edges from_edges to_edges renames))
        × (keys (classify_edges diff from_edges to_edges renames)
            ≡ map key_of (union_edges from_edges to_edges renames))
        × ((k : String)
            → lookup (classify_edges diff from_edges to_edges renames) k ≡ (
                if contains (map key_of to_edges) k
                then some (if contains (map key_of diff.added_edges) k then added else unchanged)
                else if contains (map key_of (union_edges from_edges to_edges renames)) k
                then some removed
                else none))
    unfolding classify_edges
    classify_edges_lem = (
      rw (← keys-classify_edges) (
          HasNodup-classify_old (classify_new added_keys [] to_edges) from_edges
            (HasNodup-classify_new added_keys [] to_edges tt)),
      keys-classify_edges,
      λ k. ground (
        arith,
        lookup-classify_old renames (classify_new added_keys [] to_edges) from_edges k,
        lookup-classify_new added_keys [] to_edges k,
        contains-classify_new added_keys k,
        ap (λ l. contains l k) keys-classify_edges,
        contains-add_all [] (map key_of diff.added_edges) k,
      ),
    )
      where
        added_keys : List String
        added_keys = add_all [] (map key_of diff.added_edges)
