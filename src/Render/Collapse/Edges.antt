-- ===== src/Render/Collapse/Edges.antt =====
-- Finding an edge or a node of a view by its ids.
use codewatch.Base.{
  contains-add, add, arith, any, contains, ◌||◌, ◌+◌, false, true, values, sum, Bool, String,
  Option, none, some, List, [], ◌∷◌, map, if◌then◌else◌, JsMap, lookup, ◌==◌, string_eq, pair_eq,
  keys, ◌≡◌, refl, ◌&&◌, Bool-cases, inl, inr, ℕ, ap,
}
use text.Mathlib.TextEquality.{eq_iff}
use codewatch.Render.Collapse.{connect}
use codewatch.Graph.{GraphEdge, GraphNode, WeightAttr, number, file_count}

abbrev pub map_opt : {A B : Type 0} → (A → B) → Option A → Option B
map_opt f none = none
map_opt f (some a) = some (f a)

pub map_opt-if :
    {A B : Type 0} (f : A → B) (p : Bool) (o : Option A)
    → map_opt f (if p then o else none) ≡ (if p then map_opt f o else none)
map_opt-if f true o = refl
map_opt-if f false o = refl

abbrev pub endpoints : {N : Type 0} → GraphEdge N → String × String
endpoints e = (e.src_id, e.dst_id)

-- The weight attribute of the first edge from `s` to `d`.
abbrev pub find_edge : {N : Type 0} → List (GraphEdge N) → String → String → Option (WeightAttr N)
find_edge [] s d = none
find_edge (e ∷ es) s d = if e.src_id == s && e.dst_id == d then some e.weight else find_edge es s d

abbrev pub find_node : List GraphNode → String → Option GraphNode
find_node [] id = none
find_node (n ∷ ns) id = if n.id == id then some n else find_node ns id

-- One end of the edge is `g`.
abbrev pub has_end : {N : Type 0} → String → GraphEdge N → Bool
has_end g e = e.src_id == g || e.dst_id == g

pub contains-connect :
    {N : Type 0} (seen : List String) (es : List (GraphEdge N)) (g : String)
    → contains (connect seen es) g ≡ (contains seen g || any (has_end g) es)
unfolding connect
contains-connect seen [] g = ground arith
contains-connect seen (e ∷ es) g = ground (
  arith,
  contains-connect (add (add seen e.src_id) e.dst_id) es g,
  contains-add (add seen e.src_id) e.dst_id g,
  contains-add seen e.src_id g,
)

-- The file count that a node of a view carries; 0 for any other node.
abbrev pub count_of : GraphNode → ℕ
count_of n = elim n.attrs [ file_count c ↦ c | _ ↦ 0 ]

-- The edges that a view makes of the entries of a map, the weight put through `r`.
module _ {N : Type 0} (r : N → N) where
  abbrev pub entry_edge : (String × String) × N → GraphEdge N
  entry_edge p = record {
    src_id = p.0.0;
    dst_id = p.0.1;
    kind = "imports";
    weight = number (r p.1);
  }

  pub find_edge-entry_edge :
      (m : JsMap (String × String) N) (s d : String)
      → find_edge (map entry_edge m) s d ≡ map_opt (λ w. number (r w)) (lookup m (s, d))
  find_edge-entry_edge [] s d = refl
  find_edge-entry_edge (((i, j), w) ∷ m) s d = elim (Bool-cases (i == s && j == d)) [
    | inl h ↦ rw h
    | inr h ↦ rw h (find_edge-entry_edge m s d)
  ]

  pub endpoints-entry_edge :
      (m : JsMap (String × String) N) → map endpoints (map entry_edge m) ≡ keys m
  endpoints-entry_edge [] = refl
  endpoints-entry_edge (p ∷ m) = ap (λ l. p.0 ∷ l) (endpoints-entry_edge m)

-- The nodes that a view makes of the file counts, each with the label of its group.
module _ (label : String → String) where
  abbrev pub entry_node : String × ℕ → GraphNode
  entry_node p = record {
    id = p.0;
    kind = "package";
    name = label p.0;
    role = none;
    attrs = file_count p.1;
  }

  pub find_node-entry_node :
      (m : JsMap String ℕ) (g : String)
      → find_node (map entry_node m) g ≡ map_opt (λ c. entry_node (g, c)) (lookup m g)
  find_node-entry_node [] g = refl
  find_node-entry_node ((k, c) ∷ m) g = elim (Bool-cases (k == g)) [
    | inl h ↦ rw h (ap (λ i. some (entry_node (i, c))) ((eq_iff k g).0 h))
    | inr h ↦ rw h (find_node-entry_node m g)
  ]

  pub ids-entry_node : (m : JsMap String ℕ) → map (λ n. n.id) (map entry_node m) ≡ keys m
  ids-entry_node [] = refl
  ids-entry_node (p ∷ m) = ap (λ l. p.0 ∷ l) (ids-entry_node m)

  pub sum-count_of : (m : JsMap String ℕ) → sum (map count_of (map entry_node m)) ≡ sum (values m)
  sum-count_of [] = refl
  sum-count_of (p ∷ m) = ap (λ t. p.1 + t) (sum-count_of m)
