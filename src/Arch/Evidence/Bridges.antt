-- ===== src/Arch/Evidence/Bridges.antt =====
-- The bridges of a package are its crossing edges, counted by pair.
use codewatch.Base.{
  sum-sort_by, false, Memᴰ-sort_by, lookup_of_mem, true, Memᴰ-cons, HasNodup-insert, ap,
  lookup-insert, suc, sym, HasNodup, if◌then◌else◌, refl, ◌&&◌, pair_beq_iff, ◌∙◌, inr, inl, [],
  Bool-cases, ◌∷◌, ◌==◌, string_eq, pair_eq, keep, arith, ◌+◌, none, ◌≡◌, ℕ,
}
use mathlib.Core.List.{Memᴰ}
use mathlib.Core.List.Memᴰ
use codewatch.Graph.{GraphEdge}
use codewatch.Arch.Evidence.{
  bridge_before, extract_bridges, keys, values, or_else, not, length, map, lookup, Bool, insert,
  List, sum, some, String, Option, JsMap, BridgeEdge, one_more, add_bridge, count_bridges,
}

abbrev total : JsMap (String × String) BridgeEdge → ℕ
total m = sum (map (λ b. b.count) (values m))

abbrev count_at : Option BridgeEdge → ℕ
count_at none = 0
count_at (some b) = b.count

some_same {ℓ} : {A : Type ℓ} {a b : A} → some a ≡ some b → a ≡ b
some_same h = cc

total-insert :
    (m : JsMap (String × String) BridgeEdge) (k : String × String) (b : BridgeEdge)
    → total (insert m k b) + count_at (lookup m k) ≡ total m + b.count
total-insert [] k b = omega arith
total-insert ((j, c) ∷ m) k b = ground (arith, total-insert m k b)

total-one_more :
    (m : JsMap (String × String) BridgeEdge) (k : String × String) (b : BridgeEdge)
    (o : Option BridgeEdge)
    → b.count ≡ 1
    → total (insert m k (one_more b o)) + count_at o ≡ total m + (one_more b o).count
    → total (insert m k (one_more b o)) ≡ total m + 1
total-one_more m k b none one h = omega (arith, h, one)
total-one_more m k b (some c) one h = omega (arith, h)

total-add_bridge :
    (m : JsMap (String × String) BridgeEdge) (b : BridgeEdge)
    → b.count ≡ 1
    → total (add_bridge m (some b)) ≡ total m + 1
total-add_bridge m b one =
    total-one_more m (b.from, b.to) b (lookup m (b.from, b.to)) one
      (total-insert m (b.from, b.to) (one_more b (lookup m (b.from, b.to))))

abbrev ends : BridgeEdge → String × String
ends b = (b.from, b.to)

-- Each bridge stands under its own pair, and each pair once.
pub record IsKeyed (m : JsMap (String × String) BridgeEdge) : Type 0 where
  pub keyed : (k : String × String) (b : BridgeEdge) → lookup m k ≡ some b → k ≡ ends b
  pub single : HasNodup (keys m)

one_more-ends :
    (b : BridgeEdge) (o : Option BridgeEdge)
    → ((c : BridgeEdge) → o ≡ some c → ends b ≡ ends c)
    → ends b ≡ ends (one_more b o)
one_more-ends b none h = refl
one_more-ends b (some c) h = h c refl

IsKeyed-add_bridge :
    (m : JsMap (String × String) BridgeEdge) (b : BridgeEdge)
    → IsKeyed m
    → IsKeyed (add_bridge m (some b))
IsKeyed-add_bridge m b i =
    let k0 : String × String = (b.from, b.to) in
    let more = one_more b (lookup m k0) in
    record {
      keyed = λ k c l. elim (Bool-cases (k0 == k)) [
        | inl t ↦
            let same = (pair_beq_iff k0 k).0 t in
            let held = sym (lookup-insert m k0 k more) ∙ l in
            sym same
            ∙ one_more-ends b (lookup m k0) (λ d e. i.keyed k0 d e)
            ∙ ap ends (some_same (rw t at held))
        | inr f ↦ let held = sym (lookup-insert m k0 k more) ∙ l in i.keyed k c (rw f at held)
      ];
      single = HasNodup-insert m k0 more i.single;
    }

count-one_more :
    (b : BridgeEdge) (o : Option BridgeEdge) → b.count ≡ 1 → (one_more b o).count ≡ count_at o + 1
count-one_more b none one = omega (arith, one)
count-one_more b (some c) one = refl

count-add_bridge :
    (m : JsMap (String × String) BridgeEdge) (b : BridgeEdge) (k : String × String) (n : ℕ)
    → b.count ≡ 1
    → count_at (lookup (add_bridge m (some b)) k) + n
      ≡ count_at (lookup m k) + (if b.from == k.0 && b.to == k.1 then suc n else n)
count-add_bridge m b k n one = elim (Bool-cases (b.from == k.0 && b.to == k.1)) [
  | inl t ↦
      rw
        (
          lookup-insert m (b.from, b.to) k (one_more b (lookup m (b.from, b.to))),
          t,
          ← (pair_beq_iff (b.from, b.to) k).0 t,
        )
        (omega (arith, count-one_more b (lookup m (b.from, b.to)) one))
  | inr f ↦ rw (lookup-insert m (b.from, b.to) k (one_more b (lookup m (b.from, b.to))), f) refl
]

length-if :
    {A : Type 0} (t : Bool) (x : A) (xs : List A)
    → length (if t then x ∷ xs else xs) ≡ (if t then suc (length xs) else length xs)
length-if true x xs = refl
length-if false x xs = refl

mem_of_values :
    (m : JsMap (String × String) BridgeEdge) (b : BridgeEdge)
    → Memᴰ b (values m)
    → (k : String × String) × Memᴰ (k, b) m
mem_of_values [] b h = absurd (Memᴰ.not-nil h)
mem_of_values ((j, c) ∷ m) b h = elim ((Memᴰ-cons b c (values m)).0 h) [
  | inl same ↦ (j, Memᴰ.head (ap (λ d. (j, d)) same))
  | inr later ↦ let (k, there) = mem_of_values m b later in (k, Memᴰ.tail there)
]

lookup-ends :
    (m : JsMap (String × String) BridgeEdge) (b : BridgeEdge)
    → IsKeyed m
    → Memᴰ b (values m)
    → lookup m (ends b) ≡ some b
lookup-ends m b i h =
    let (k, there) = mem_of_values m b h in
    let held = lookup_of_mem m k b i.single there in ap (lookup m) (sym (i.keyed k b held)) ∙ held

module _ {N : Type 0} (community_of : JsMap String String) where
  -- The edge's two files are in different clusters.
  abbrev pub crosses : GraphEdge N → Bool
  crosses e =
      not (or_else (lookup community_of e.src_id) "" == or_else (lookup community_of e.dst_id) "")

  -- A crossing edge from `k.0` to `k.1`.
  abbrev pub crosses_at : String × String → GraphEdge N → Bool
  crosses_at k e = crosses e && (e.src_id == k.0 && e.dst_id == k.1)

  count_bridges_lem :
      (m : JsMap (String × String) BridgeEdge) (es : List (GraphEdge N))
      → IsKeyed m
      → IsKeyed (count_bridges community_of m es)
        × (total (count_bridges community_of m es) ≡ total m + length (keep crosses es))
        × ((k : String × String)
            → count_at (lookup (count_bridges community_of m es) k)
              ≡ count_at (lookup m k) + length (keep (crosses_at k) es))
  unfolding count_bridges
  count_bridges_lem m [] i = (i, omega arith, λ k. omega arith)
  count_bridges_lem m (e ∷ es) i =
      elim (Bool-cases
        (or_else (lookup community_of e.src_id) "" == or_else (lookup community_of e.dst_id) "")) [
          | inl same ↦ rw same (count_bridges_lem m es i)
          | inr other ↦
              let b : BridgeEdge = record {
                from = e.src_id;
                to = e.dst_id;
                from_cluster = or_else (lookup community_of e.src_id) "";
                to_cluster = or_else (lookup community_of e.dst_id) "";
                count = 1;
              } in
              let (keyed, sums, each) =
                count_bridges_lem (add_bridge m (some b)) es (IsKeyed-add_bridge m b i) in
              rw other (
                keyed,
                omega (arith, sums, total-add_bridge m b refl),
                λ k.
                    each k
                    ∙ count-add_bridge m b k (length (keep (crosses_at k) es)) refl
                    ∙ ap (λ n. count_at (lookup m k) + n)
                        (sym (
                          length-if (e.src_id == k.0 && e.dst_id == k.1) e
                            (keep (crosses_at k) es))),
              )
        ]

no_bridges : IsKeyed []
no_bridges = record { keyed = λ k b h. cc; single = tt }

-- Every bridge counts the internal edges from its first file to its second that join two clusters,
-- and the counts of all the bridges add up to the number of edges that join two clusters.
pub extract_bridges_lem :
    {N : Type 0} (community_of : JsMap String String) (code_before : String → String → Bool)
    (internal : List (GraphEdge N))
    → ((b : BridgeEdge)
        → Memᴰ b (extract_bridges code_before internal community_of)
        → b.count ≡ length (keep (crosses_at community_of (b.from, b.to)) internal))
      × (sum (map (λ b. b.count) (extract_bridges code_before internal community_of))
          ≡ length (keep (crosses community_of) internal))
unfolding extract_bridges
extract_bridges_lem community_of code_before internal =
    let (keyed, sums, each) = count_bridges_lem community_of [] internal no_bridges in
    let counts = count_bridges community_of [] internal in
    (
      λ b m.
          let held =
            lookup-ends counts b keyed
              ((Memᴰ-sort_by (bridge_before code_before) b (values counts)).0 m) in
          let found = ap count_at (sym held) in
          let counted = each (ends b) in omega (arith, found, counted),
      let sorted = sum-sort_by (bridge_before code_before) (λ b. b.count) (values counts) in
          omega (arith, sorted, sums),
    )
