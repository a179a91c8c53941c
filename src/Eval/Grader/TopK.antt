-- ===== src/Eval/Grader/TopK.antt =====
-- packages/cli/src/eval/retrieval-grader.ts, topK: the loop is a prefix of the distinct items.
use codewatch.Base.{
  length-append, true, arith, ◌≤◌, ◌∙◌, false, ◌+◌, leb, inr, inl, refl, contains, ap, Bool-cases,
  zero, sym, string_eq, ◌∷◌, ◌<◌, suc, ◌++◌, [], ◌≡◌,
}
use mathlib.Core.List.{append_assoc, append-nil}
use codewatch.Eval.Grader.{length, add_all, take, String, List, ℕ, take_distinct, top_k}

-- `k`, but one for none.
abbrev pub at_least_one : ℕ → ℕ
at_least_one zero = 1
at_least_one (suc k) = suc k

take-length : (xs ys : List String) → take (length xs) (xs ++ ys) ≡ xs
take-length [] [] = refl
take-length [] (y ∷ ys) = refl
take-length (x ∷ xs) ys = ap (λ l. x ∷ l) (take-length xs ys)

add_all_extends : (xs ys : List String) → (zs : List String) × (add_all xs ys ≡ xs ++ zs)
add_all_extends xs [] = ([], sym (append-nil xs))
add_all_extends xs (y ∷ ys) = elim (Bool-cases (contains xs y)) [
  | inl old ↦ rw old (add_all_extends xs ys)
  | inr new ↦
      let r = add_all_extends (xs ++ y ∷ []) ys in
      rw new (y ∷ r.0, r.1 ∙ append_assoc xs (y ∷ []) r.0)
]

take_all : (n : ℕ) (xs : List String) → length xs ≤ n → take n xs ≡ xs
take_all zero [] h = refl
take_all zero (x ∷ xs) h = absurd (omega (arith, h))
take_all (suc n) [] h = refl
take_all (suc n) (x ∷ xs) h = ap (λ l. x ∷ l) (take_all n xs (omega (arith, h)))

full_lem :
    (k : ℕ) (out : List String) (id : String)
    → length out < at_least_one k
    → leb k (length out + 1) ≡ true
    → at_least_one k ≡ length (out ++ id ∷ [])
full_lem zero out id h f = omega (arith, h, length-append out (id ∷ []))
full_lem (suc k) out id h f = ground (arith, length-append out (id ∷ []))

more_lem :
    (k : ℕ) (out : List String) (id : String)
    → length out < at_least_one k
    → leb k (length out + 1) ≡ false
    → length (out ++ id ∷ []) < at_least_one k
more_lem zero out id h f = ground (arith, length-append out (id ∷ []))
more_lem (suc k) out id h f = ground (arith, length-append out (id ∷ []))

positive : (k : ℕ) → 0 < at_least_one k
positive zero = omega arith
positive (suc k) = omega arith

take_distinct_lem :
    (k : ℕ) (out ids : List String)
    → length out < at_least_one k
    → take_distinct k out out ids ≡ take (at_least_one k) (add_all out ids)
take_distinct_lem k out [] h = sym (take_all (at_least_one k) out (omega (arith, h)))
take_distinct_lem k out (id ∷ ids) h = elim (Bool-cases (contains out id)) [
  | inl old ↦ rw old (take_distinct_lem k out ids h)
  | inr new ↦ elim (Bool-cases (leb k (length out + 1))) [
    | inl full ↦
        rw (new, full)
          (let r = add_all_extends (out ++ id ∷ []) ids in
            sym (
              ap (take (at_least_one k)) r.1
              ∙ ap (λ n. take n ((out ++ id ∷ []) ++ r.0)) (full_lem k out id h full)
              ∙ take-length (out ++ id ∷ []) r.0))
    | inr more ↦
        rw (new, more) (take_distinct_lem k (out ++ id ∷ []) ids (more_lem k out id h more))
  ]
]

-- The ranking's cut at `k` is the first `k` of its distinct items in order, except that a cut at
-- zero still takes one.
pub top_k_lem :
    (ranked : List String) (k : ℕ) → top_k ranked k ≡ take (at_least_one k) (add_all [] ranked)
unfolding top_k
top_k_lem ranked k = take_distinct_lem k [] ranked (positive k)
