-- ===== src/Audit/GraphWalk/Calls.antt =====
-- The table of callers has the calls of the graph, and the tests found are those from which calls
-- lead to the symbol.
use text.Mathlib.TextEquality.{eq_iff}
use codewatch.Audit.GraphWalk.Reach.{
  Reached, IsWalk, walk_callers_lem, every_caller-Reached, AllCallersIn, here, by_caller,
}
use mathlib.Core.List.Memᴰ
use codewatch.Base.{
  length-map, missing-le-length, Memᴰ-keep, ◌≤◌, contains_iff, ◌+◌, missing, ◌<◌, All-of_forall,
  true, length, map, refl, false, none, Memᴰ-append, [], lookup-push, string_eq, Memᴰ-cons, ◌==◌,
  ◌∷◌, Bool-cases, not-Memᴰ-nil, arith, inr, inl, ◌⊎◌, ◌↔◌, ◌≡◌, Memᴰ,
}
use codewatch.Graph.{GraphEdge}
use codewatch.Audit.GraphWalk.{
  walk_callers, Walk, Bool, contains, ℕ, reaching_tests, some, group_at, Option, String, JsMap,
  List, caller_of, add_caller, callers_by_callee,
}

group_at-add_caller :
    (m : JsMap String (List String)) (o : Option (String × String)) (k c : String)
    → Memᴰ c (group_at (add_caller m o) k) ↔ (Memᴰ c (group_at m k) ⊎ (o ≡ some (k, c)))
group_at-add_caller m none k c =
    (λ h. inl h, λ h. elim h [ inl a ↦ a | inr b ↦ absurd (ground (arith, b)) ])
group_at-add_caller m (some (j, d)) k c = elim (Bool-cases (j == k)) [
  | inl same ↦
      rw (lookup-push m j k d, same, (eq_iff j k).0 same)
        (ground (arith, Memᴰ-append c (group_at m k) (d ∷ []), Memᴰ-cons c d [], not-Memᴰ-nil c))
  | inr other ↦ rw (lookup-push m j k d, other) (ground (arith, eq_iff j k, other))
]

only_itself : (id x : String) → contains (id ∷ []) x ≡ true → x ≡ id
only_itself id x h = ground (arith, h, eq_iff id x)

IsWalk-start :
    (callers : JsMap String (List String)) (id : String)
    → IsWalk callers id (record { seen = id ∷ []; stack = id ∷ [] })
IsWalk-start callers id = record {
  started = ground (arith, eq_iff id id);
  sound = λ x h. rw (← only_itself id x h) here;
  stacked = λ x h. h;
  closed = λ x h. inl h;
}

module _ {N : Type 0} where
  -- `c` calls `k` in the graph, and is not `k` itself.
  abbrev Calls : List (GraphEdge N) → String → String → Type 0
  Calls es c k = (e : GraphEdge N) × Memᴰ e es × (caller_of e ≡ some (k, c))

  callers_by_callee_lem :
      (m : JsMap String (List String)) (es : List (GraphEdge N)) (k c : String)
      → Memᴰ c (group_at (callers_by_callee m es) k) ↔ (Memᴰ c (group_at m k) ⊎ Calls es c k)
  unfolding callers_by_callee
  callers_by_callee_lem m [] k c =
      (λ h. inl h, λ h. elim h [ inl a ↦ a | inr (e, t, q) ↦ absurd (not-Memᴰ-nil e t) ])
  callers_by_callee_lem m (e ∷ es) k c =
      let ih = callers_by_callee_lem (add_caller m (caller_of e)) es k c in
      let one = group_at-add_caller m (caller_of e) k c in
      (
        λ h. elim (ih.0 h) [
          | inr (f, t, q) ↦ inr (f, Memᴰ.tail t, q)
          | inl g ↦ elim (one.0 g) [ inl old ↦ inl old | inr q ↦ inr (e, Memᴰ.head refl, q) ]
        ],
        λ h. elim h [
          | inl old ↦ ih.1 (inl (one.1 (inl old)))
          | inr (f, t, q) ↦ elim ((Memᴰ-cons f e es).0 t) [
            | inl same ↦ ih.1 (inl (one.1 (inr (rw (← same) q))))
            | inr later ↦ ih.1 (inr (f, later, q))
          ]
        ],
      )

  -- Calls lead from a symbol to `id`.
  pub data CallPath (es : List (GraphEdge N)) (id : String) : String → Type 0 where
    arrived : CallPath es id id
    call :
        {k c : String} (e : GraphEdge N)
        → Memᴰ e es
        → e.kind ≡ "calls"
        → e.src_id ≡ c
        → e.dst_id ≡ k
        → CallPath es id k
        → CallPath es id c

  caller_of-eq :
      (e : GraphEdge N) (k c : String)
      → caller_of e ≡ some (k, c)
      → (e.kind ≡ "calls") × (e.src_id ≡ c) × (e.dst_id ≡ k)
  caller_of-eq e k c h = ground (arith, h, eq_iff e.kind "calls")

  caller_of_call :
      (e : GraphEdge N) (k c : String)
      → e.kind ≡ "calls"
      → e.src_id ≡ c
      → e.dst_id ≡ k
      → c == k ≡ false
      → caller_of e ≡ some (k, c)
  caller_of_call e k c h s d n = rw (h, s, d, n) refl

  callers_in :
      (es : List (GraphEdge N)) → AllCallersIn (callers_by_callee [] es) (map (λ e. e.src_id) es)
  callers_in es k =
      All-of_forall (λ c. Memᴰ c (map (λ e. e.src_id) es)) (group_at (callers_by_callee [] es) k)
        λ c m. elim ((callers_by_callee_lem [] es k c).0 m) [
          | inl old ↦ absurd (not-Memᴰ-nil c old)
          | inr (e, t, q) ↦ rw (← (caller_of-eq e k c q).1) (Memᴰ.map (λ e. e.src_id) t)
        ]

  within :
      (es : List (GraphEdge N)) (id : String) (fuel : ℕ)
      → length es < fuel
      → missing (map (λ e. e.src_id) es) (id ∷ []) + 1 ≤ fuel
  within es id fuel h =
      omega
        (arith, missing-le-length (map (λ e. e.src_id) es) (id ∷ []), length-map (λ e. e.src_id) es)

  CallPath-of_chain :
      (es : List (GraphEdge N)) (id x : String)
      → Reached (callers_by_callee [] es) id x
      → CallPath es id x
  CallPath-of_chain es id x here = arrived
  CallPath-of_chain es id x (by_caller {callee} r m) =
      elim ((callers_by_callee_lem [] es callee x).0 m) [
        | inl old ↦ absurd (not-Memᴰ-nil x old)
        | inr (e, t, q) ↦
            let ends = caller_of-eq e callee x q in
            call e t ends.0 ends.1 ends.2 (CallPath-of_chain es id callee r)
      ]

  caller_chain_of :
      (es : List (GraphEdge N)) (id x : String)
      → CallPath es id x
      → Reached (callers_by_callee [] es) id x
  caller_chain_of es id x arrived = here
  caller_chain_of es id x (call {k} e t h s d p) = elim (Bool-cases (x == k)) [
    | inl same ↦ rw ((eq_iff x k).0 same) (caller_chain_of es id k p)
    | inr other ↦
        by_caller (caller_chain_of es id k p)
          ((callers_by_callee_lem [] es k x).1 (inr (e, t, caller_of_call e k x h s d other)))
  ]

-- For any graph and any set of tests, with fuel for one round more than the graph has edges, the walk
-- ends, and its tests are exactly those that are the symbol itself or from which a chain of calls
-- leads to it.
pub reaching_tests_lem :
    {N : Type 0} (es : List (GraphEdge N)) (id : String) (is_test : String → Bool) (fuel : ℕ)
    → length es < fuel
    → (x : String)
    → Memᴰ x (reaching_tests fuel id (callers_by_callee [] es) is_test)
      ↔ (CallPath es id x × (is_test x ≡ true))
unfolding reaching_tests
reaching_tests_lem es id is_test fuel enough x =
    let callers = callers_by_callee [] es in
    let w0 : Walk = record { seen = id ∷ []; stack = id ∷ [] } in
    let (walked, ended) =
      walk_callers_lem callers (map (λ e. e.src_id) es) id fuel w0 (callers_in es)
        (within es id fuel enough) (IsWalk-start callers id) in
    let v = walk_callers callers fuel w0 in
    (
      λ m. (
        CallPath-of_chain es id x
            (walked.sound x ((contains_iff v.seen x).1 ((Memᴰ-keep is_test x v.seen).0 m).0)),
        ((Memᴰ-keep is_test x v.seen).0 m).1,
      ),
      λ (p, t). (Memᴰ-keep is_test x v.seen).1 (
        (contains_iff v.seen x).0
            (every_caller-Reached callers id v walked ended x (caller_chain_of es id x p)),
        t,
      ),
    )
