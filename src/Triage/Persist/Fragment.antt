-- ===== src/Triage/Persist/Fragment.antt =====
-- packages/cli/src/commands/triage-persist.ts, writeVerdictFragment and its neighbours: a rerun
-- never loses a verdict, and a carry starts from the latest judged snapshot.
use text.Mathlib.TextEquality.{eq_iff}
use codewatch.Base.{
  Memᴰ-keep, keep, All-mem, ltb, opt_beq, ◌≤◌, true, ◌<◌, ℕ, Memᴰ-sort_by, sort_by-Sorted, sort_by,
  Sorted, false, none, is_some, arith, IsOrder, not, mem_of_lookup, any, Memᴰ-cons, lookup_of_mem,
  map, Bool, not-Memᴰ-nil, inr, refl, ◌↔◌, values, lookup-insert, sym, ap, some, Memᴰ,
  HasNodup-insert, inl, ◌==◌, string_eq, keys, ◌∙◌, ◌≡◌, [], if◌then◌else◌, All, Bool-cases,
  HasNodup, ◌∷◌,
}
use codewatch.Triage.Persist.{
  Provenance, lookup, List, insert, Option, JsMap, String, VerdictRecord, FragmentWrite,
  StoredFinding, set_all, merged, readable, record_before, write_verdict_fragment,
  prior_judged_snapshot, first_judged, file_verdict_for, same_excerpt,
}

-- The last of the items under a key, if there is one, else what was there.
abbrev pub last_with {ℓ} : {A : Type ℓ} → (A → String) → String → Option A → List A → Option A
last_with key k o [] = o
last_with key k o (x ∷ xs) = last_with key k (if key x == k then some x else o) xs

pub lookup-set_all {ℓ} :
    {A : Type ℓ} (key : A → String) (m : JsMap String A) (xs : List A) (k : String)
    → lookup (set_all key m xs) k ≡ last_with key k (lookup m k) xs
lookup-set_all key m [] k = refl
lookup-set_all key m (x ∷ xs) k =
    lookup-set_all key (insert m (key x) x) xs k
    ∙ ap (λ o. last_with key k o xs) (lookup-insert m (key x) k x)

-- An entry is under its own key.
abbrev HasKeys {ℓ} : {A : Type ℓ} → (A → String) → JsMap String A → Type 0
HasKeys key m = All (λ e. key e.1 ≡ e.0) m

HasKeys-insert {ℓ} :
    {A : Type ℓ} (key : A → String) (m : JsMap String A) (x : A)
    → HasKeys key m
    → HasKeys key (insert m (key x) x)
HasKeys-insert key [] x h = (refl, tt)
HasKeys-insert key ((j, y) ∷ m) x (p, h) = elim (Bool-cases (j == key x)) [
  | inl same ↦ rw same (sym ((eq_iff j (key x)).0 same), h)
  | inr other ↦ rw other (p, HasKeys-insert key m x h)
]

HasKeys-set_all {ℓ} :
    {A : Type ℓ} (key : A → String) (m : JsMap String A) (xs : List A)
    → HasKeys key m
    → HasKeys key (set_all key m xs)
HasKeys-set_all key m [] h = h
HasKeys-set_all key m (x ∷ xs) h =
    HasKeys-set_all key (insert m (key x) x) xs (HasKeys-insert key m x h)

HasNodup-set_all {ℓ} :
    {A : Type ℓ} (key : A → String) (m : JsMap String A) (xs : List A)
    → HasNodup (keys m)
    → HasNodup (keys (set_all key m xs))
HasNodup-set_all key m [] h = h
HasNodup-set_all key m (x ∷ xs) h =
    HasNodup-set_all key (insert m (key x) x) xs (HasNodup-insert m (key x) x h)

value_mem {ℓ} :
    {A : Type ℓ} (key : A → String) (m : JsMap String A) (x : A)
    → HasKeys key m
    → Memᴰ x (values m)
    → Memᴰ (key x, x) m
value_mem key [] x h t = absurd (not-Memᴰ-nil x t)
value_mem key ((j, y) ∷ m) x (p, h) t = elim ((Memᴰ-cons x y (values m)).0 t) [
  | inl e ↦ Memᴰ.head (rw e (ap (λ k. (k, y)) p))
  | inr later ↦ Memᴰ.tail (value_mem key m x h later)
]

mem_value {ℓ} :
    {A : Type ℓ} (m : JsMap String A) (k : String) (x : A) → Memᴰ (k, x) m → Memᴰ x (values m)
mem_value [] k x t = absurd (not-Memᴰ-nil (k, x) t)
mem_value ((j, y) ∷ m) k x t = elim ((Memᴰ-cons (k, x) (j, y) m).0 t) [
  | inl e ↦ Memᴰ.head (ap (λ p. p.1) e)
  | inr later ↦ Memᴰ.tail (mem_value m k x later)
]

-- In a map whose entries are under their own keys, the values with a key are what `lookup` finds.
value_iff {ℓ} :
    {A : Type ℓ} (key : A → String) (m : JsMap String A) (x : A)
    → HasKeys key m
    → HasNodup (keys m)
    → Memᴰ x (values m) ↔ (lookup m (key x) ≡ some x)
value_iff key m x h d = (
  λ t. lookup_of_mem m (key x) x d (value_mem key m x h t),
  λ e. mem_value m (key x) x (mem_of_lookup m (key x) x e),
)

record_before-IsOrder :
    (locale_before : String → String → Bool)
    → IsOrder locale_before
    → IsOrder (record_before locale_before)
record_before-IsOrder locale_before o = record {
  asym = λ a b h. ground (arith, o.asym a.path b.path, o.asym b.path a.path, o.asym a.key b.key);
  trans = λ a b c h k. ground (
    arith,
    o.trans a.path b.path c.path,
    o.trans c.path b.path a.path,
    o.trans b.path a.path c.path,
    o.trans b.path c.path a.path,
    o.trans a.path c.path b.path,
    o.trans c.path a.path b.path,
    o.trans a.key b.key c.key,
    o.asym a.path b.path,
    o.asym b.path c.path,
    o.asym a.path c.path,
  );
}

readable_lem : (rs : List VerdictRecord) → readable (map some rs) ≡ rs
readable_lem [] = refl
readable_lem (r ∷ rs) = ap (λ l. r ∷ l) (readable_lem rs)

all_readable : (rs : List VerdictRecord) → any (λ l. not (is_some l)) (map some rs) ≡ false
all_readable [] = refl
all_readable (r ∷ rs) = all_readable rs

-- A rerun writes exactly the rows that are the last with their key, looked for among its own
-- records first and the earlier fragment's next, in the order of paths and keys, where the
-- locale's comparison is an order. (Every line of the earlier fragment can be read.)
pub write_verdict_fragment_merges :
    (locale_before : String → String → Bool) (earlier : List VerdictRecord) (r : VerdictRecord)
    (records : List VerdictRecord)
    → IsOrder locale_before
    → (rows : List VerdictRecord) × (write_verdict_fragment locale_before
          (map some earlier)
          (r ∷ records)
        ≡ FragmentWrite.written rows)
      × ((x : VerdictRecord)
          → Memᴰ x rows ↔ (
              last_with (λ v. v.key) x.key (last_with (λ v. v.key) x.key none earlier) (r ∷ records)
              ≡ some x))
      × Sorted (record_before locale_before) rows
unfolding write_verdict_fragment
write_verdict_fragment_merges locale_before earlier r records o = (
  sort_by before (values all),
  rw (all_readable earlier, readable_lem earlier) refl,
  λ x.
      let sorted = Memᴰ-sort_by before x (values all) in
      let found = value_iff key all x own_keys distinct in
      (λ t. sym (last x.key) ∙ found.0 (sorted.0 t), λ e. sorted.1 (found.1 (last x.key ∙ e))),
  sort_by-Sorted before (record_before-IsOrder locale_before o) (values all),
)
  where
    before : VerdictRecord → VerdictRecord → Bool
    before = record_before locale_before

    all : JsMap String VerdictRecord
    all = merged earlier (r ∷ records)

    key : VerdictRecord → String
    key v = v.key

    old : JsMap String VerdictRecord
    old = set_all key [] earlier

    own_keys : HasKeys key all
    own_keys = HasKeys-set_all key old (r ∷ records) (HasKeys-set_all key [] earlier tt)

    distinct : HasNodup (keys all)
    distinct = HasNodup-set_all key old (r ∷ records) (HasNodup-set_all key [] earlier tt)

    last :
        (k : String) → lookup all k ≡ last_with key k (last_with key k none earlier) (r ∷ records)
    last k =
        lookup-set_all key old (r ∷ records) k
        ∙ ap (λ o. last_with key k o (r ∷ records)) (lookup-set_all key [] earlier k)

opt_beq_lem : (s : String) (o : Option String) → opt_beq (some s) o ≡ true → o ≡ some s
opt_beq_lem s none h = cc
opt_beq_lem s (some t) h = ap some (sym ((eq_iff s t).0 h))

abbrev pub carried_to : StoredFinding → VerdictRecord → VerdictRecord
carried_to stored old = record old {
  path = stored.finding.path;
  signal = stored.finding.signal;
  tool = stored.finding.tool;
  provenance = Provenance.file;
}

same_excerpt_lem :
    (stored : StoredFinding) (old r : VerdictRecord)
    → same_excerpt stored old ≡ some r
    → (stored.excerpt_hash ≡ some old.excerpt_hash) × (r ≡ carried_to stored old)
same_excerpt_lem stored old r h =
    elim (Bool-cases (opt_beq (some old.excerpt_hash) stored.excerpt_hash)) [
      | inl same ↦ (opt_beq_lem old.excerpt_hash stored.excerpt_hash same, ground (arith, h, same))
      | inr other ↦ absurd (ground (arith, h, other))
    ]

filed_lem :
    (stored : StoredFinding) (o : Option VerdictRecord) (r : VerdictRecord)
    → (elim o [ none ↦ none | some old ↦ same_excerpt stored old ]) ≡ some r
    → (old : VerdictRecord) × (o ≡ some old)
      × (stored.excerpt_hash ≡ some old.excerpt_hash)
      × (r ≡ carried_to stored old)
filed_lem stored none r h = cc
filed_lem stored (some old) r h = let p = same_excerpt_lem stored old r h in (old, refl, p.0, p.1)

pub file_verdict_for_lem :
    (stored : StoredFinding) (files : JsMap String VerdictRecord) (r : VerdictRecord)
    → file_verdict_for stored files ≡ some r
    → (old : VerdictRecord) × (lookup files stored.key ≡ some old)
      × (stored.excerpt_hash ≡ some old.excerpt_hash)
      × (r ≡ carried_to stored old)
unfolding file_verdict_for
file_verdict_for_lem stored files r h = filed_lem stored (lookup files stored.key) r h

abbrev falling : ℕ → ℕ → Bool
falling a b = ltb b a

falling-IsOrder : IsOrder falling
falling-IsOrder = record { asym = λ a b h. ground arith; trans = λ a b c h k. ground arith }

below : (i id found : ℕ) → i ≡ found → falling id i ≡ false → id ≤ found
below i id found e h = ground arith

first_judged_lem :
    (judged : ℕ → Bool) (ids : List ℕ) (found : ℕ)
    → Sorted falling ids
    → first_judged judged ids ≡ some found
    → Memᴰ found ids
      × (judged found ≡ true)
      × ((id : ℕ) → Memᴰ id ids → judged id ≡ true → id ≤ found)
first_judged_lem judged [] found s h = cc
first_judged_lem judged (i ∷ ids) found (b, s) h = elim (Bool-cases (judged i)) [
  | inl yes_here ↦
      let e : i ≡ found = ground (arith, h, yes_here) in
      (
        Memᴰ.head (sym e),
        rw (sym e) yes_here,
        λ id t j. elim ((Memᴰ-cons id i ids).0 t) [
          | inl p ↦ omega (arith, e, p)
          | inr later ↦ below i id found e (All-mem (λ y. falling y i ≡ false) id ids b later)
        ],
      )
  | inr not_here ↦
      let rest : first_judged judged ids ≡ some found = ground (arith, h, not_here) in
      let r = first_judged_lem judged ids found s rest in
      (
        Memᴰ.tail r.0,
        r.1,
        λ id t j. elim ((Memᴰ-cons id i ids).0 t) [
          | inl p ↦ absurd (ground (arith, not_here, j, ap judged p))
          | inr later ↦ r.2 id later j
        ],
      )
]

-- The carry starts from the latest earlier snapshot that holds verdicts.
prior_judged_snapshot_latest :
    (judged : ℕ → Bool) (ids : List ℕ) (snapshot found : ℕ)
    → prior_judged_snapshot judged ids snapshot ≡ some found
    → Memᴰ found ids
      × (found < snapshot)
      × (judged found ≡ true)
      × ((id : ℕ) → Memᴰ id ids → judged id ≡ true → id < snapshot → id ≤ found)
unfolding prior_judged_snapshot
prior_judged_snapshot_latest judged ids snapshot found h =
    let earlier = keep (λ id. ltb id snapshot) ids in
    let r =
      first_judged_lem judged (sort_by falling earlier) found
        (sort_by-Sorted falling falling-IsOrder earlier) h in
    let m =
      (Memᴰ-keep (λ id. ltb id snapshot) found ids).0
        ((Memᴰ-sort_by falling found earlier).0 r.0) in
    (
      m.0,
      ground (arith, m.1),
      r.1,
      λ id t j lt.
          r.2 id
            ((Memᴰ-sort_by falling id earlier).1
              ((Memᴰ-keep (λ i. ltb i snapshot) id ids).1 (t, ground (arith, lt))))
            j,
    )
