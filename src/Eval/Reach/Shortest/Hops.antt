-- ===== src/Eval/Reach/Shortest/Hops.antt =====
-- The end of the walk, and that its fuel is enough.
use codewatch.Eval.Reach.{
  extract_import_specifiers, walk_hops, reach_target, import_hops, HopState, reach_files,
  reach_targets, resolved_imports, root_hops,
}
use codewatch.Eval.Reach.Shortest.{
  IsLevel-after, missing-reach_targets, Chain, IsLevel, at_root, import,
}
use mathlib.Core.Path.{subst}
use codewatch.Eval.Workspace.{Workspace}
use codewatch.Eval.Reach.Shortest.Known.{targets_of_known}
use codewatch.Base.{
  zero, suc, All-append, missing, missing-le-length, All, refl, inr, not-Memᴰ-nil, inl,
  length-append, is_some, lookup-insert, eqb, is_some-lookup, string_eq, keys-insert, Bool-cases,
  ◌∙◌, insert, sym, ap, arith, ◌+◌, contains_iff, flat_map, ◌↔◌, contains, or_else, some,
  if◌then◌else◌, ◌≤◌, keys, ◌∷◌, length, ◌++◌, ◌≡◌, lookup, Memᴰ, [], String, Option, JsMap, ℕ,
  List,
}

-- At the end, every file that a chain reaches is in the table.
all_found :
    (imports : String → List String) (roots : List String) (k : ℕ) (h : JsMap String ℕ)
    → IsLevel imports roots k h []
    → (x : String) (n : ℕ) → Chain imports roots n x
    → (m : ℕ) × (m ≤ n) × (lookup h x ≡ some m)
all_found imports roots k h i x n (at_root r) = i.complete x 0 (at_root r) (omega arith)
all_found imports roots k h i x n (import {n = p} {y = y} e chain mx) =
    let (m, le, l) = all_found imports roots k h i y p chain in
    let (mk, short) = i.sound y m l in
    elim (Bool-cases (eqb m k)) [
      | inl last ↦
          let at_k : lookup h y ≡ some k = l ∙ ap some (ground (arith, last)) in
          absurd (not-Memᴰ-nil y ((i.front y).1 at_k))
      | inr earlier ↦
          let room : m + 1 ≤ k = ground (arith, earlier, mk) in
          let (j, jm, held) = i.complete x (m + 1) (import refl short mx) room in
          (j, omega (arith, jm, le, e), held)
    ]

same_hop : {o : Option ℕ} {m n : ℕ} → o ≡ some m → o ≡ some n → m ≡ n
same_hop h g = cc

shortest :
    (imports : String → List String) (roots : List String) (k : ℕ) (h : JsMap String ℕ)
    → IsLevel imports roots k h []
    → (x : String) (n : ℕ)
    → (lookup h x ≡ some n)
      ↔ (Chain imports roots n x × ((m : ℕ) → Chain imports roots m x → n ≤ m))
shortest imports roots k h i x n = (
  λ l. (
    (i.sound x n l).1,
    λ m chain.
        let (j, jm, held) = all_found imports roots k h i x m chain in
        let same = same_hop held l in omega (arith, jm, same),
  ),
  λ (chain, least).
      let (j, jn, held) = all_found imports roots k h i x n chain in
      let nj = least j (i.sound x j held).1 in held ∙ ap some (omega (arith, jn, nj)),
)

root_hops_lem :
    (m : JsMap String ℕ) (roots : List String) (x : String)
    → lookup (root_hops m roots) x ≡ (if contains roots x then some 0 else lookup m x)
root_hops_lem m [] x = refl
root_hops_lem m (r ∷ roots) x =
    ground (arith, root_hops_lem (insert m r 0) roots x, lookup-insert m r x 0)

length-keys-root_hops :
    (m : JsMap String ℕ) (roots : List String)
    → length (keys (root_hops m roots)) ≤ length (keys m) + length roots
length-keys-root_hops m [] = omega arith
length-keys-root_hops m (r ∷ roots) = ground (
  arith,
  length-keys-root_hops (insert m r 0) roots,
  keys-insert m r 0,
  length-append (keys m) (r ∷ []),
)

from_root :
    (imports : String → List String) (roots : List String) (x : String) (n : ℕ)
    → Chain imports roots n x
    → n ≡ 0
    → (m : ℕ) × (m ≤ n) × (lookup (root_hops [] roots) x ≡ some m)
from_root imports roots x n (at_root r) e =
    let listed = (contains_iff roots x).1 r in
    (0, omega arith, root_hops_lem [] roots x ∙ ground (arith, listed))
from_root imports roots x n (import e' chain mx) e = absurd (omega (arith, e, e'))

IsLevel-roots :
    (imports : String → List String) (roots : List String)
    → IsLevel imports roots 0 (root_hops [] roots) (keys (root_hops [] roots))
IsLevel-roots imports roots =
    let h = root_hops [] roots in
    let zero_of : (x : String) (n : ℕ) → lookup h x ≡ some n → (n ≡ 0) × Memᴰ x roots = λ x n l. (
      ground (arith, root_hops_lem [] roots x, l),
      (contains_iff roots x).0 (ground (arith, root_hops_lem [] roots x, l)),
    ) in
    record {
      sound = λ x n l. let (z, m) = zero_of x n l in (omega (arith, z), rw z (at_root m));
      complete = λ x n chain le. from_root imports roots x n chain (omega (arith, le));
      front = λ x. (
        λ m.
            ground
              (arith, contains_iff (keys h) x, m, is_some-lookup h x, root_hops_lem [] roots x),
        λ l. (contains_iff (keys h) x).0 (sym (is_some-lookup h x) ∙ ap is_some l),
      );
    }

reach_targets-append :
    (depth : ℕ) (s : HopState) (ts us : List String)
    → reach_targets depth s (ts ++ us) ≡ reach_targets depth (reach_targets depth s ts) us
unfolding reach_targets
reach_targets-append depth s [] us = refl
reach_targets-append depth s (t ∷ ts) us = reach_targets-append depth (reach_target depth s t) ts us

module _ (file_ids : List String) (workspace : Workspace) (content : String → String) where
  -- What a file imports.
  abbrev pub imports_of : String → List String
  imports_of f = resolved_imports file_ids workspace f (content f)

  reach_files-flat :
      (depth : ℕ) (sources : JsMap String String) (s : HopState) (fs : List String)
      → ((f : String) → Memᴰ f fs → or_else (lookup sources f) "" ≡ content f)
      → reach_files file_ids workspace depth sources s fs
        ≡ reach_targets depth s (flat_map imports_of fs)
  unfolding reach_files
  reach_files-flat depth sources s [] says = unfold reach_targets in refl
  reach_files-flat depth sources s (f ∷ fs) says =
      ap
        (λ c.
          reach_files file_ids workspace depth sources
            (reach_targets depth s (resolved_imports file_ids workspace f c)) fs)
        (says f (Memᴰ.head refl))
      ∙ reach_files-flat depth sources (reach_targets depth s (imports_of f)) fs
          (λ g m. says g (Memᴰ.tail m))
      ∙ sym (reach_targets-append depth s (imports_of f) (flat_map imports_of fs))

-- A batch of sources has the content of each of its files, the empty one of a missing file.
pub record ReadsContent (read : List String → JsMap String String) (content : String → String)
    : Type 0 where
  pub reads :
      (batch : List String) (f : String)
      → Memᴰ f batch
      → or_else (lookup (read batch) f) "" ≡ content f

module _ (file_ids : List String) (workspace : Workspace) where
  module _ (content : String → String) where
    imports_known :
        (fs : List String)
        → All (λ t. Memᴰ t file_ids) (flat_map (imports_of file_ids workspace content) fs)
    unfolding resolved_imports
    imports_known [] = tt
    imports_known (f ∷ fs) =
        All-append (λ t. Memᴰ t file_ids) (imports_of file_ids workspace content f)
          (flat_map (imports_of file_ids workspace content) fs)
          (targets_of_known file_ids workspace f (extract_import_specifiers (content f)))
          (imports_known fs)

    walk_hops_lem :
        (read : List String → JsMap String String) (roots : List String)
        → ReadsContent read content
        → (fuel k : ℕ) (h : JsMap String ℕ) (f : List String)
        → IsLevel (imports_of file_ids workspace content) roots k h f
        → missing file_ids (keys h) + length f ≤ fuel
        → (j : ℕ) × IsLevel
            (imports_of file_ids workspace content)
            roots
            j
            (walk_hops file_ids workspace read fuel (k + 1) h f)
            []
    unfolding walk_hops
    walk_hops_lem read roots says zero k h [] i enough = (k, i)
    walk_hops_lem read roots says zero k h (x ∷ f) i enough = absurd (omega (arith, enough))
    walk_hops_lem read roots says (suc fuel) k h [] i enough = (k, i)
    walk_hops_lem read roots says (suc fuel) k h (x ∷ f) i enough =
        let imports = imports_of file_ids workspace content in
        let s0 : HopState = record { hops = h; next = [] } in
        let s1 = reach_targets (k + 1) s0 (flat_map imports (x ∷ f)) in
        let same =
          reach_files-flat file_ids workspace content (k + 1) (read (x ∷ f)) s0 (x ∷ f)
            (λ g m. says.reads (x ∷ f) g m) in
        let paid =
          missing-reach_targets file_ids (k + 1) s0 (flat_map imports (x ∷ f))
            (imports_known (x ∷ f)) in
        let (j, done) =
          walk_hops_lem read roots says fuel (k + 1) s1.hops s1.next
            (IsLevel-after imports roots k h (x ∷ f) i) (omega (arith, paid, enough)) in
        (
          j,
          subst
              (λ s.
                IsLevel imports roots j
                  (walk_hops file_ids workspace read fuel (k + 1 + 1) s.hops s.next) [])
              (sym same) done,
        )

-- With fuel for as many rounds as there are files and tests, the walk over imports ends, cycles
-- included: a file's hop is `n` exactly if `n` imports lead to it from a test and no fewer do; so
-- a file that no test reaches has none. The sources of a batch are those of its files.
pub import_hops_lem :
    (file_ids : List String) (workspace : Workspace) (read : List String → JsMap String String)
    (content : String → String) (fuel : ℕ) (roots : List String)
    → ReadsContent read content
    → length file_ids + length roots ≤ fuel
    → (x : String) (n : ℕ)
    → (lookup (import_hops file_ids workspace read fuel roots) x ≡ some n) ↔ (
        Chain (imports_of file_ids workspace content) roots n x
        × ((m : ℕ) → Chain (imports_of file_ids workspace content) roots m x → n ≤ m))
unfolding import_hops
import_hops_lem file_ids workspace read content fuel roots says enough x n =
    let imports = imports_of file_ids workspace content in
    let h = root_hops [] roots in
    let few = missing-le-length file_ids (keys h) in
    let short = length-keys-root_hops [] roots in
    let (j, done) =
      walk_hops_lem file_ids workspace content read roots says fuel 0 h (keys h)
        (IsLevel-roots imports roots) (omega (arith, few, short, enough)) in
    shortest imports roots j (walk_hops file_ids workspace read fuel 1 h (keys h)) done x n
