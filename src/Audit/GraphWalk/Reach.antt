-- ===== src/Audit/GraphWalk/Reach.antt =====
-- The walk over callers ends, and finds exactly the tests from which calls lead to the symbol.
use text.Mathlib.TextEquality.{eq_iff}
use codewatch.Base.{
  zero, ap, ◌≢◌, refl, false, ◌==◌, string_eq, missing-concat, inr, true, length, contains-append,
  Memᴰ-cons, Bool-cases, [], arith, inl, ◌≡◌, ◌+◌, ◌≤◌, missing, ◌⊎◌, not-Memᴰ-nil, All, ◌∷◌, Memᴰ,
  ℕ,
}
use codewatch.Audit.GraphWalk.{
  suc, walk_callers, group_at, contains, List, String, JsMap, Walk, visit_caller, visit_callers,
}

head_only : (x c : String) → Memᴰ x (c ∷ []) → x ≡ c
head_only x c m = elim ((Memᴰ-cons x c []).0 m) [ inl e ↦ e | inr t ↦ absurd (not-Memᴰ-nil x t) ]

still_waiting :
    (x y : String) (rest : List String)
    → x == y ≡ false
    → contains (x ∷ rest) y ≡ true
    → contains rest y ≡ true
still_waiting x y rest other h = ground (arith, other, h)

stack_cases :
    (xs : List String) → (xs ≡ []) ⊎ ((x : String) × (rest : List String) × (xs ≡ x ∷ rest))
stack_cases [] = inl refl
stack_cases (x ∷ xs) = inr (x, xs, refl)

empty_of_length : (xs : List String) → length xs ≤ 0 → xs ≡ []
empty_of_length [] h = refl
empty_of_length (x ∷ xs) h = absurd (omega arith)

none_waiting : (x : String) → contains {K = String} [] x ≢ true
none_waiting x h = cc

-- `universe` has every caller.
module _ (universe : List String) where
  abbrev pub work : Walk → ℕ
  work w = missing universe w.seen + length w.stack

  abbrev pub InUniverse : List String → Type 0
  InUniverse cs = All (λ c. Memᴰ c universe) cs

  work-visit_caller : (w : Walk) (c : String) → Memᴰ c universe → work (visit_caller w c) ≤ work w
  work-visit_caller w c m = elim (Bool-cases (contains w.seen c)) [
    | inl there ↦ rw there (omega arith)
    | inr new ↦ rw new (omega (arith, missing-concat universe w.seen c new m))
  ]

  work-visit_callers :
      (w : Walk) (cs : List String) → InUniverse cs → work (visit_callers w cs) ≤ work w
  work-visit_callers w [] h = omega arith
  work-visit_callers w (c ∷ cs) h =
      omega (arith, work-visit_caller w c h.0, work-visit_callers (visit_caller w c) cs h.1)

-- What visiting the callers of a popped symbol does to a walk.
abbrev pub Has : List String → String → Type 0
Has xs x = contains xs x ≡ true

pub record Visits (w v : Walk) (cs : List String) : Type 0 where
  pub seen_kept : (x : String) → Has w.seen x → Has v.seen x
  pub stack_kept : (x : String) → Has w.stack x → Has v.stack x
  pub all_seen : (x : String) → Memᴰ x cs → Has v.seen x
  pub only_seen : (x : String) → Has v.seen x → Has w.seen x ⊎ (Memᴰ x cs × Has v.stack x)
  pub only_stack : (x : String) → Has v.stack x → Has w.stack x ⊎ Memᴰ x cs

Visits-visit_caller : (w : Walk) (c : String) → Visits w (visit_caller w c) (c ∷ [])
Visits-visit_caller w c = record {
  seen_kept = λ x h. ground (arith, h, contains-append w.seen (c ∷ []) x);
  stack_kept = λ x h. ground (arith, h);
  all_seen = λ x m.
      ground
        (arith, Memᴰ-cons x c [], not-Memᴰ-nil x, m, contains-append w.seen (c ∷ []) x, eq_iff c x);
  only_seen =
      λ x h. ground (arith, Memᴰ-cons x c [], h, contains-append w.seen (c ∷ []) x, eq_iff c x);
  only_stack = λ x h. ground (arith, h, Memᴰ-cons x c [], eq_iff c x);
}

Visits-visit_callers : (w : Walk) (cs : List String) → Visits w (visit_callers w cs) cs
Visits-visit_callers w [] = record {
  seen_kept = λ x h. h;
  stack_kept = λ x h. h;
  all_seen = λ x m. absurd (not-Memᴰ-nil x m);
  only_seen = λ x h. inl h;
  only_stack = λ x h. inl h;
}
Visits-visit_callers w (c ∷ cs) =
    let one = Visits-visit_caller w c in
    let more = Visits-visit_callers (visit_caller w c) cs in
    record {
      seen_kept = λ x h. more.seen_kept x (one.seen_kept x h);
      stack_kept = λ x h. more.stack_kept x (one.stack_kept x h);
      all_seen = λ x m. elim ((Memᴰ-cons x c cs).0 m) [
        | inl e ↦ more.seen_kept x (one.all_seen x (Memᴰ.head e))
        | inr t ↦ more.all_seen x t
      ];
      only_seen = λ x h. elim (more.only_seen x h) [
        | inl before ↦ elim (one.only_seen x before) [
          | inl old ↦ inl old
          | inr (m, s) ↦ inr ((Memᴰ-cons x c cs).1 (inl (head_only x c m)), more.stack_kept x s)
        ]
        | inr (m, s) ↦ inr (Memᴰ.tail m, s)
      ];
      only_stack = λ x h. elim (more.only_stack x h) [
        | inl before ↦ elim (one.only_stack x before) [
          | inl old ↦ inl old
          | inr m ↦ inr ((Memᴰ-cons x c cs).1 (inl (head_only x c m)))
        ]
        | inr m ↦ inr (Memᴰ.tail m)
      ];
    }

module _ (callers : JsMap String (List String)) where
  -- The symbols from which calls lead to `id`.
  pub data Reached (id : String) : String → Type 0 where
    here : Reached id id
    by_caller :
        {callee c : String} → Reached id callee → Memᴰ c (group_at callers callee) → Reached id c

  pub record IsWalk (id : String) (w : Walk) : Type 0 where
    pub started : Has w.seen id
    pub sound : (x : String) → Has w.seen x → Reached id x
    pub stacked : (x : String) → Has w.stack x → Has w.seen x
    pub closed :
        (x : String)
        → Has w.seen x
        → Has w.stack x ⊎ ((c : String) → Memᴰ c (group_at callers x) → Has w.seen c)

  IsWalk-step :
      (id : String) (w : Walk) (x : String) (rest : List String)
      → w.stack ≡ x ∷ rest
      → IsWalk id w
      → IsWalk id (visit_callers (record { seen = w.seen; stack = rest }) (group_at callers x))
  IsWalk-step id w x rest e i =
      let cs = group_at callers x in
      let v = Visits-visit_callers (record { seen = w.seen; stack = rest }) cs in
      let top : Has w.seen x = i.stacked x (rw e (ground (arith, eq_iff x x))) in
      record {
        started = v.seen_kept id i.started;
        sound = λ y h. elim (v.only_seen y h) [
          | inl old ↦ i.sound y old
          | inr (m, s) ↦ by_caller (i.sound x top) m
        ];
        stacked = λ y h. elim (v.only_stack y h) [
          | inl old ↦ v.seen_kept y (i.stacked y (rw e (ground (arith, old))))
          | inr m ↦ v.all_seen y m
        ];
        closed = λ y h. elim (v.only_seen y h) [
          | inr (m, s) ↦ inl s
          | inl old ↦ elim (i.closed y old) [
            | inr done ↦ inr (λ c m. v.seen_kept c (done c m))
            | inl waiting ↦ elim (Bool-cases (x == y)) [
              | inl same ↦ inr (λ c m. v.all_seen c (rw ((eq_iff x y).0 same) m))
              | inr other ↦ inl (v.stack_kept y (still_waiting x y rest other (rw e at waiting)))
            ]
          ]
        ];
      }

  pub every_caller-Reached :
      (id : String) (w : Walk)
      → IsWalk id w
      → w.stack ≡ []
      → (x : String) → Reached id x
      → Has w.seen x
  every_caller-Reached id w i e x here = i.started
  every_caller-Reached id w i e x (by_caller {callee} r m) =
      elim (i.closed callee (every_caller-Reached id w i e callee r)) [
        | inl waiting ↦ absurd (none_waiting callee (rw e at waiting))
        | inr done ↦ done x m
      ]

module _ (callers : JsMap String (List String)) (universe : List String) where
  abbrev pub AllCallersIn : Type 0
  AllCallersIn = (x : String) → InUniverse universe (group_at callers x)

  pub walk_callers_lem :
      (id : String) (fuel : ℕ) (w : Walk)
      → AllCallersIn
      → work universe w ≤ fuel
      → IsWalk callers id w
      → IsWalk callers id (walk_callers callers fuel w) × ((walk_callers callers fuel w).stack ≡ [])
  unfolding walk_callers
  walk_callers_lem id zero w a h i = (i, empty_of_length w.stack (omega arith))
  walk_callers_lem id (suc fuel) w a h i = elim (stack_cases w.stack) [
    | inl e ↦ rw (e, walk_callers) (i, e)
    | inr (x, rest, e) ↦
        let next : Walk = record { seen = w.seen; stack = rest } in
        rw (e, walk_callers)
          (walk_callers_lem id fuel (visit_callers next (group_at callers x)) a
            (omega
              (arith, ap length e, work-visit_callers universe next (group_at callers x) (a x)))
            (IsWalk-step callers id w x rest e i))
  ]
