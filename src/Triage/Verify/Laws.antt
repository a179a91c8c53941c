-- ===== src/Triage/Verify/Laws.antt =====
-- packages/cli/src/commands/triage-verify.ts: what a kept verdict is.
use text.Mathlib.TextEquality.{eq_iff}
use codewatch.Base.{
  suc, contains-append, ap, ◌∙◌, ◌++◌, All-append, if◌then◌else◌, HasNodup-concat, Bool, not,
  contains-add, HasNodup, length-append, false, length, ◌+◌, contains, true, map, Option-cases, ℕ,
  inr, sym, inl, string_eq, ◌==◌, Bool-cases, lookup-insert, insert, arith, [], ◌||◌, refl, ◌∷◌,
  none, lookup, All, is_some, ◌≡◌, Memᴰ, ◌⊎◌,
}
use mathlib.Core.List.{Memᴰ, map-append}
use codewatch.Triage.Verify.{
  first_failure, some, ◌⊎◌, String, JsMap, List, Option, TriageItem, VerdictRow, Citation, Failure,
  ItemQuestion, VerifiedRow, Verifying, redact_spec, row_failure, citation_failure, settle,
  normalised, verify_rows, verify_item_output, asks, by_key, spec_path,
}

key-redact_spec :
    (row : VerdictRow) (spec : Option (List String)) → (redact_spec row spec).key ≡ row.key
unfolding redact_spec
key-redact_spec row none = refl
key-redact_spec row (some spec) = refl

pub IsQuestion : List ItemQuestion → String → ItemQuestion → Type 0
IsQuestion qs key q = (q.key ≡ key) × Memᴰ q qs

-- Every entry of the map is a question under its own key.
by_key-IsQuestion :
    (all qs : List ItemQuestion) (m : JsMap String ItemQuestion)
    → ((q : ItemQuestion) → Memᴰ q qs → Memᴰ q all)
    → ((key : String) (q : ItemQuestion) → lookup m key ≡ some q → IsQuestion all key q)
    → (key : String) (q : ItemQuestion) → lookup (by_key m qs) key ≡ some q
    → IsQuestion all key q
unfolding IsQuestion
by_key-IsQuestion all [] m sub h = h
by_key-IsQuestion all (p ∷ qs) m sub h =
    by_key-IsQuestion all qs (insert m p.key p) (λ q t. sub q (Memᴰ.tail t))
      (λ key q e. elim (Bool-cases (p.key == key)) [
        | inl same ↦
            let found : p ≡ q = ground (arith, lookup-insert m p.key key p) in
            rw (sym found) ((eq_iff p.key key).0 same, sub p (Memᴰ.head refl))
        | inr other ↦ h key q (ground (arith, lookup-insert m p.key key p))
      ])

is_some-by_key :
    (qs : List ItemQuestion) (m : JsMap String ItemQuestion) (key : String)
    → is_some (lookup (by_key m qs) key) ≡ (is_some (lookup m key) || asks key qs)
is_some-by_key [] m key = ground arith
is_some-by_key (q ∷ qs) m key =
    ground (arith, is_some-by_key qs (insert m q.key q) key, lookup-insert m q.key key q)

first_failure_lem :
    (o later : Option Failure) → first_failure o later ≡ none → (o ≡ none) × (later ≡ none)
first_failure_lem none later h = (refl, h)
first_failure_lem (some f) later h = cc

if-some_lem :
    (b : Bool) (f : Failure) (o : Option Failure)
    → (if b then some f else o) ≡ none
    → (b ≡ false) × (o ≡ none)
if-some_lem true f o h = cc
if-some_lem false f o h = (refl, h)

n_zero : (n : ℕ) → n + 0 ≡ n
n_zero n = omega arith

n_suc : (n m : ℕ) → n + suc m ≡ n + 1 + m
n_suc n m = omega arith

abbrev pub kept_keys : List VerifiedRow → List String
kept_keys vs = map (λ v. v.row.key) vs

module _ (verify_citation : TriageItem → Citation → Option Failure) where
  abbrev pub IsCited : TriageItem → List Citation → Type 0
  IsCited item cs = All (λ c. verify_citation item c ≡ none) cs

  citation_failure_lem :
      (item : TriageItem) (cs : List Citation)
      → citation_failure verify_citation item cs ≡ none
      → IsCited item cs
  unfolding citation_failure
  citation_failure_lem item [] h = tt
  citation_failure_lem item (c ∷ cs) h =
      let p =
        first_failure_lem (verify_citation item c) (citation_failure verify_citation item cs) h in
      (p.0, citation_failure_lem item cs p.1)

  -- The verdict is one of the returned rows under the key it means, with the spec taken out; all
  -- its citations check out, and its question is one of the item's and has its key.
  pub record IsKept (item : TriageItem) (rows : List VerdictRow) (v : VerifiedRow) : Type 0 where
    row : VerdictRow
    returned : Memᴰ row rows
    redacted : v.row ≡ redact_spec (normalised row) (item.lines spec_path)
    cited : IsCited item row.citations
    question : ItemQuestion
    found : v.question ≡ some question
    asked : IsQuestion item.questions v.row.key question

  row_failure_lem :
      (item : TriageItem) (row : VerdictRow) (seen : List String)
      → row_failure verify_citation item row seen ≡ none
      → (asks row.key item.questions ≡ true)
        × (contains seen row.key ≡ false)
        × IsCited item row.citations
  unfolding row_failure
  row_failure_lem item row seen h =
      let a = if-some_lem (not (asks row.key item.questions)) _ _ h in
      let c = if-some_lem (contains seen row.key) _ _ a.1 in
      (ground (arith, a.0), c.0, citation_failure_lem item row.citations c.1)

  IsKept_lem :
      (item : TriageItem) (rows : List VerdictRow) (r : VerdictRow)
      → Memᴰ r rows
      → asks (normalised r).key item.questions ≡ true
      → IsCited item r.citations
      → IsKept item rows (record {
        row = redact_spec (normalised r) (item.lines spec_path);
        question = lookup (by_key [] item.questions) (normalised r).key;
      })
  IsKept_lem item rows r t a c =
      elim (Option-cases (lookup (by_key [] item.questions) (normalised r).key)) [
        | inl gone ↦ absurd (
            ground (arith, a, is_some-by_key item.questions [] (normalised r).key, ap is_some gone))
        | inr (q, e) ↦ record {
          row = r;
          returned = t;
          redacted = refl;
          cited = c;
          question = q;
          found = e;
          asked = rw (key-redact_spec (normalised r) (item.lines spec_path)) (
              by_key-IsQuestion item.questions item.questions [] (λ p m. m) (λ k p none_there. cc)
                (normalised r).key q e);
        }
      ]

  record Inv (item : TriageItem) (rows : List VerdictRow) (n : ℕ) (s : Verifying) : Type 0 where
    counted : length s.kept + length s.dropped ≡ n
    distinct : HasNodup (kept_keys s.kept)
    among : (k : String) → contains (kept_keys s.kept) k ≡ true → contains s.seen k ≡ true
    kept : All (IsKept item rows) s.kept

  settle-Inv :
      (item : TriageItem) (rows : List VerdictRow) (n : ℕ) (s : Verifying) (r : VerdictRow)
      → Memᴰ r rows
      → (o : Option Failure) → row_failure verify_citation item (normalised r) s.seen ≡ o
      → Inv item rows n s
      → Inv item rows (n + 1) (settle verify_citation item s (normalised r) o)
  settle-Inv item rows n s r t (some f) e h = record {
    counted = omega (
      arith,
      h.counted,
      length-append s.dropped
          (record { item = item.id; key = some (normalised r).key; failure = f } ∷ []),
    );
    distinct = h.distinct;
    among = λ k c. ground (arith, contains-add s.seen (normalised r).key k, h.among k c);
    kept = h.kept;
  }
  settle-Inv item rows n s r t none e h = record {
    counted = omega (arith, h.counted, length-append s.kept (v ∷ []));
    distinct = rw keyed (HasNodup-concat (kept_keys s.kept) key h.distinct fresh);
    among = λ k c. ground (
      arith,
      contains-add s.seen key k,
      h.among k,
      contains-append (kept_keys s.kept) (key ∷ []) k,
      ap (λ l. contains l k) keyed,
    );
    kept =
        All-append (IsKept item rows) s.kept (v ∷ []) h.kept
          (IsKept_lem item rows r t ok.0 ok.2, tt);
  }
    where
      key : String
      key = (normalised r).key

      v : VerifiedRow
      v = record {
        row = redact_spec (normalised r) (item.lines spec_path);
        question = lookup (by_key [] item.questions) key;
      }

      same : v.row.key ≡ key
      same = key-redact_spec (normalised r) (item.lines spec_path)

      ok :
          (asks key item.questions ≡ true)
          × (contains s.seen key ≡ false)
          × IsCited item r.citations
      ok = row_failure_lem item (normalised r) s.seen e

      keyed : kept_keys (s.kept ++ v ∷ []) ≡ kept_keys s.kept ++ key ∷ []
      keyed =
          map-append (λ (x : VerifiedRow). x.row.key) s.kept (v ∷ [])
          ∙ ap (λ k. kept_keys s.kept ++ k ∷ []) same

      fresh : contains (kept_keys s.kept) key ≡ false
      fresh = ground (arith, h.among key, ok.1)

  verify_rows-Inv :
      (item : TriageItem) (all rows : List VerdictRow) (n : ℕ) (s : Verifying)
      → ((r : VerdictRow) → Memᴰ r rows → Memᴰ r all)
      → Inv item all n s
      → Inv item all (n + length rows) (verify_rows verify_citation item s rows)
  verify_rows-Inv item all [] n s sub h = rw (n_zero n) h
  verify_rows-Inv item all (r ∷ rows) n s sub h = rw (n_suc n (length rows)) (
      verify_rows-Inv item all rows (n + 1) _ (λ x t. sub x (Memᴰ.tail t))
        (settle-Inv item all n s r (sub r (Memᴰ.head refl)) _ refl h))

  -- A parsed output is split without loss into kept and dropped rows. The kept ones answer
  -- different questions, and each is a returned row whose key, freed of the header's brackets, is
  -- that of a question of the item, whose citations all check out, and whose spec text is taken out.
  pub verify_item_output_sound :
      (parse_output : Option String → List VerdictRow ⊎ String) (item : TriageItem)
      (output : Option String) (rows : List VerdictRow)
      → parse_output output ≡ inl rows
      → let v = verify_item_output verify_citation parse_output item output in
        (v.returned ≡ length rows)
        × (length v.kept + length v.dropped ≡ v.returned)
        × HasNodup (kept_keys v.kept)
        × All (IsKept item rows) v.kept
  unfolding verify_item_output
  verify_item_output_sound parse_output item output rows e =
      rw e (refl, omega (arith, inv.counted), inv.distinct, inv.kept)
    where
      inv :
          Inv item rows
            (0 + length rows)
            (verify_rows verify_citation item (record { kept = []; dropped = []; seen = [] }) rows)
      inv =
          verify_rows-Inv item rows rows 0 _ (λ r t. t)
            (record { counted = refl; distinct = tt; among = λ k c. c; kept = tt })
