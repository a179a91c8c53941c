-- ===== src/Render/Diff/Edges.antt =====
-- The edges of a diff view and their statuses (`unionEdges` and `classifyEdges` of
-- packages/render/src/diff-snapshot.ts).
use codewatch.Base.{
  sym, ◌++◌, ◌∙◌, ap, inr, [], keys-insert, map, add, insert, inl, string_eq, ◌∷◌, keys, ◌≡◌,
  contains, Bool-cases, String, List, JsMap, if◌then◌else◌,
}
use mathlib.Core.List.{map-append}
use codewatch.Graph.{GraphEdge}
use codewatch.Render.Diff.{
  unchanged, added, EdgeStatus, removed, Union, take_edge, key_of, remapped_key, add_new_edges,
  add_old_edges, classify_new, classify_old,
}

-- The status of an edge of the new snapshot.
abbrev pub fresh_status : List String → String → EdgeStatus
fresh_status added_keys k = if contains added_keys k then added else unchanged

module _ {N : Type 0} where
  abbrev pub new_step : Union N → GraphEdge N → Union N
  new_step u e = if contains u.seen (key_of e) then u else take_edge u e

  abbrev pub old_step : JsMap String String → Union N → GraphEdge N → Union N
  old_step renames u e =
      if contains u.seen (remapped_key renames e)
      then u
      else if contains u.seen (key_of e)
      then u
      else take_edge u e

  seen-new_step : (u : Union N) (e : GraphEdge N) → (new_step u e).seen ≡ add u.seen (key_of e)
  seen-new_step u e = elim (Bool-cases (contains u.seen (key_of e))) [ inl h ↦ rw h | inr h ↦ rw h ]

  -- `seen` holds the keys of `out`.
  abbrev pub IsTracked : Union N → Type 0
  IsTracked u = u.seen ≡ map key_of u.out

  take_edge-IsTracked : (u : Union N) (e : GraphEdge N) → IsTracked u → IsTracked (take_edge u e)
  take_edge-IsTracked u e h = rw (map-append key_of u.out (e ∷ [])) (ap (λ l. l ++ key_of e ∷ []) h)

  new_step-IsTracked : (u : Union N) (e : GraphEdge N) → IsTracked u → IsTracked (new_step u e)
  new_step-IsTracked u e h = elim (Bool-cases (contains u.seen (key_of e))) [
    | inl c ↦ rw c h
    | inr c ↦ rw c (take_edge-IsTracked u e h)
  ]

  old_step-IsTracked :
      (renames : JsMap String String) (u : Union N) (e : GraphEdge N)
      → IsTracked u
      → IsTracked (old_step renames u e)
  old_step-IsTracked renames u e h = elim (Bool-cases (contains u.seen (remapped_key renames e))) [
    | inl c ↦ rw c h
    | inr c ↦ rw c (new_step-IsTracked u e h)
  ]

  pub add_new_edges-IsTracked :
      (u : Union N) (es : List (GraphEdge N)) → IsTracked u → IsTracked (add_new_edges u es)
  unfolding add_new_edges
  add_new_edges-IsTracked u [] h = h
  add_new_edges-IsTracked u (e ∷ es) h =
      add_new_edges-IsTracked (new_step u e) es (new_step-IsTracked u e h)

  pub add_old_edges-IsTracked :
      (renames : JsMap String String) (u : Union N) (es : List (GraphEdge N))
      → IsTracked u
      → IsTracked (add_old_edges renames u es)
  unfolding add_old_edges
  add_old_edges-IsTracked renames u [] h = h
  add_old_edges-IsTracked renames u (e ∷ es) h =
      add_old_edges-IsTracked renames (old_step renames u e) es (old_step-IsTracked renames u e h)

  abbrev pub new_status :
      List String → JsMap String EdgeStatus → GraphEdge N → JsMap String EdgeStatus
  new_status added_keys status e = insert status (key_of e) (fresh_status added_keys (key_of e))

  pub keys-classify_new :
      (added_keys : List String) (status : JsMap String EdgeStatus) (u : Union N)
      (es : List (GraphEdge N))
      → keys status ≡ u.seen
      → keys (classify_new added_keys status es) ≡ (add_new_edges u es).seen
  unfolding classify_new add_new_edges
  keys-classify_new added_keys status u [] h = h
  keys-classify_new added_keys status u (e ∷ es) h =
      keys-classify_new added_keys (new_status added_keys status e) (new_step u e) es (
        keys-insert status (key_of e) (fresh_status added_keys (key_of e))
        ∙ ap (λ l. add l (key_of e)) h
        ∙ sym (seen-new_step u e))

  abbrev pub old_status :
      JsMap String String → JsMap String EdgeStatus → GraphEdge N → JsMap String EdgeStatus
  old_status renames status e =
      if contains (keys status) (remapped_key renames e)
      then status
      else if contains (keys status) (key_of e)
      then status
      else insert status (key_of e) removed

  keys-old_status :
      (renames : JsMap String String) (status : JsMap String EdgeStatus) (u : Union N)
      (e : GraphEdge N)
      → keys status ≡ u.seen
      → keys (old_status renames status e) ≡ (old_step renames u e).seen
  keys-old_status renames status u e h =
      elim (Bool-cases (contains u.seen (remapped_key renames e))) [
        | inl c ↦ rw (h, c) h
        | inr c ↦ elim (Bool-cases (contains u.seen (key_of e))) [
          | inl d ↦ rw (h, c, d) h
          | inr d ↦ rw (h, c, d) (keys-insert status (key_of e) removed ∙ rw (h, d))
        ]
      ]

  pub keys-classify_old :
      (renames : JsMap String String) (status : JsMap String EdgeStatus) (u : Union N)
      (es : List (GraphEdge N))
      → keys status ≡ u.seen
      → keys (classify_old renames status es) ≡ (add_old_edges renames u es).seen
  unfolding classify_old add_old_edges
  keys-classify_old renames status u [] h = h
  keys-classify_old renames status u (e ∷ es) h =
      keys-classify_old renames (old_status renames status e) (old_step renames u e) es
        (keys-old_status renames status u e h)
