-- ===== src/Dashboard/Context/Hidden.antt =====
-- Which couplings are hidden, in terms of the snapshot's edges.
use text.Mathlib.TextEquality.{eq_iff}
use codewatch.Base.{
  add, contains-add, pair_eq, ◌∙◌, ◌∷◌, [], false, string_eq, not, arith, true, ◌||◌, any, contains,
  ◌&&◌, List, ◌==◌, ◌≡◌, Bool, String,
}
use codewatch.Graph.{GraphNode, GraphEdge}
use codewatch.Dashboard.Coupling.{SymbolCouplingPayload, ReferenceEdge}
use codewatch.Dashboard.Context.{
  Links, Reads, pair_key, is_internal_import, link, links_of, classify_coupling, snapshot_context,
}

-- The comparison of texts by `<`.
pub record IsTextOrder (code_before : String → String → Bool) : Type 0 where
  pub asym : (a b : String) → code_before a b ≡ true → code_before b a ≡ false
  pub connex : (a b : String) → code_before a b ≡ false → code_before b a ≡ false → a ≡ b

module _ {N : Type 0} where
  -- The edge has the file at one end.
  abbrev pub is_end : String → GraphEdge N → Bool
  is_end x e = is_internal_import e && (e.src_id == x || e.dst_id == x)

  -- The edge joins the two files, in either direction.
  abbrev pub joins : String → String → GraphEdge N → Bool
  joins a b e =
      is_internal_import e && (e.src_id == a && e.dst_id == b || e.src_id == b && e.dst_id == a)

module _ (before : String → String → Bool) (o : IsTextOrder before) where
  pair_key-eq :
      (a b c d : String)
      → pair_key before a b == pair_key before c d ≡ (a == c && b == d || a == d && b == c)
  unfolding pair_key
  pair_key-eq a b c d = ground (
    arith,
    o.asym a b,
    o.asym c d,
    o.connex a b,
    o.connex c d,
    o.asym b a,
    o.asym d c,
    eq_iff a c,
    eq_iff b d,
    eq_iff a d,
    eq_iff b c,
  )

  module _ {N : Type 0} where
    contains-connected :
        (l : Links) (es : List (GraphEdge N)) (x : String)
        → contains (links_of before l es).connected x
          ≡ (contains l.connected x || any (is_end x) es)
    unfolding links_of
    contains-connected l [] x = ground arith
    contains-connected l (e ∷ es) x =
        contains-connected (link before l e) es x
        ∙ ground (
          arith,
          contains-add (add l.connected e.src_id) e.dst_id x,
          contains-add l.connected e.src_id x,
        )

    contains-pairs :
        (l : Links) (es : List (GraphEdge N)) (a b : String)
        → contains (links_of before l es).pairs (pair_key before a b)
          ≡ (contains l.pairs (pair_key before a b) || any (joins a b) es)
    unfolding links_of
    contains-pairs l [] a b = ground arith
    contains-pairs l (e ∷ es) a b =
        contains-pairs (link before l e) es a b
        ∙ ground (
          arith,
          contains-add l.pairs (pair_key before e.src_id e.dst_id) (pair_key before a b),
          pair_key-eq e.src_id e.dst_id a b,
        )

-- Where `<` compares texts, a coupling of two files is hidden exactly if each is at an end of an
-- import or re-export between files of the repository, and none of these joins the two in either
-- direction; and it counts as unindexed exactly if one of the two is at no end.
pub classify_coupling_lem :
    {N S : Type 0} (before : String → String → Bool)
    (page_ranks : List GraphNode → List (GraphEdge N) → List (String × S))
    (symbol_payload : List ReferenceEdge → SymbolCouplingPayload) (db : Reads N) (a b : String)
    → IsTextOrder before
    → ((classify_coupling before a b (snapshot_context before page_ranks symbol_payload db)).hidden
        ≡ (any (is_end a) db.edges && any (is_end b) db.edges && not (any (joins a b) db.edges)))
      × ((classify_coupling before a b
            (snapshot_context before page_ranks symbol_payload db)).unindexed
          ≡ not (any (is_end a) db.edges && any (is_end b) db.edges))
unfolding classify_coupling snapshot_context
classify_coupling_lem before page_ranks symbol_payload db a b o =
    let start : Links = record { pairs = []; connected = [] } in
    ground (
      arith,
      contains-connected before o start db.edges a,
      contains-connected before o start db.edges b,
      contains-pairs before o start db.edges a b,
    )
