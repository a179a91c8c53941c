-- ===== src/Triage/Persist/Reuse.antt =====
-- packages/cli/src/commands/triage-persist.ts, skipJudged and fileVerdictFor: which findings stay
-- open, and which committed verdicts are reused.
use text.Mathlib.TextEquality.{eq_iff}
use codewatch.Base.{
  Bool, JsMap, List, Memᴰ, Memᴰ-append, Memᴰ-cons, Memᴰ-keep, Option-cases, String, any, ap, arith,
  false, flat_map, inl, inr, is_some, keep-append, lookup, lookup-insert, if◌then◌else◌, none,
  not-Memᴰ-nil, opt_beq, refl, some, string_eq, sym, true, insert, [], ◌++◌, ◌==◌, ◌||◌, ◌↔◌, ◌∙◌,
  ◌∷◌, ◌≡◌, Option,
}
use codewatch.Triage.Questions.{Finding}
use codewatch.Triage.Select.{SelectedFile}
use codewatch.Triage.Persist.{
  StoredFinding, StoredVerdict, VerdictRecord, Judged, same_excerpt, file_verdict_for, judge,
  set_all, skip_judged,
}
use codewatch.Triage.Persist.Fragment.{carried_to, file_verdict_for_lem}
use codewatch.Triage.Persist.Skip.{
  all_findings, file_row, is_open, open_file, open_files, open_findings, skip_judged_splits,
}

pub Memᴰ-flat_map {ℓ κ} :
    {A : Type ℓ} {B : Type κ} (g : A → List B) (y : B) (xs : List A)
    → Memᴰ y (flat_map g xs) ↔ ((x : A) × Memᴰ x xs × Memᴰ y (g x))
Memᴰ-flat_map g y [] = (λ m. absurd (not-Memᴰ-nil y m), λ (x, m, t). absurd (not-Memᴰ-nil x m))
Memᴰ-flat_map g y (x ∷ xs) = (
  λ m. elim ((Memᴰ-append y (g x) (flat_map g xs)).0 m) [
    | inl here ↦ (x, Memᴰ.head refl, here)
    | inr later ↦ let (z, m, t) = (Memᴰ-flat_map g y xs).0 later in (z, Memᴰ.tail m, t)
  ],
  λ (z, m, t). (Memᴰ-append y (g x) (flat_map g xs)).1 (elim ((Memᴰ-cons z x xs).0 m) [
    | inl e ↦ inl (rw e at t)
    | inr later ↦ inr ((Memᴰ-flat_map g y xs).1 (z, later, t))
  ]),
)

is_some-set_all {ℓ} :
    {A : Type ℓ} (key : A → String) (m : JsMap String A) (xs : List A) (k : String)
    → is_some (lookup (set_all key m xs) k) ≡ (is_some (lookup m k) || any (λ x. key x == k) xs)
is_some-set_all key m [] k = ground arith
is_some-set_all key m (x ∷ xs) k =
    ground (arith, is_some-set_all key (insert m (key x) x) xs k, lookup-insert m (key x) k x)

file_verdict_for-found :
    (stored : StoredFinding) (files : JsMap String VerdictRecord) (old : VerdictRecord)
    → lookup files stored.key ≡ some old
    → stored.excerpt_hash ≡ some old.excerpt_hash
    → file_verdict_for stored files ≡ some (carried_to stored old)
unfolding file_verdict_for
file_verdict_for-found stored files old found same =
    let hash = old.excerpt_hash in
    let equal : opt_beq (some hash) stored.excerpt_hash ≡ true =
      ap (opt_beq (some hash)) same ∙ (eq_iff hash hash).1 refl in
    ap (λ o. elim o [ none ↦ none | some r ↦ same_excerpt stored r ]) found
    ∙ ap (λ b. if b then some (carried_to stored old) else none) equal

some_inj : {a b : VerdictRecord} → some a ≡ some b → a ≡ b
some_inj e = cc

none_is_not_some : {r : VerdictRecord} → none ≡ some r → ⊥
none_is_not_some e = cc

module _ (stored_of : Finding → StoredFinding) (judged : List StoredVerdict)
    (files : JsMap String VerdictRecord) where
  -- The snapshot holds a verdict for the finding's key.
  abbrev pub has_stored : Finding → Bool
  has_stored f = any (λ v. v.key == (stored_of f).key) judged

  -- The committed verdict for the finding's key, if it judged the finding's excerpt.
  abbrev pub IsCommitted : Finding → VerdictRecord → Type 0
  IsCommitted f old =
      (lookup files (stored_of f).key ≡ some old)
      × ((stored_of f).excerpt_hash ≡ some old.excerpt_hash)

  -- What a finding's verdict can be.
  data Answer (f : Finding) (j : Judged) : Type 0 where
    by_store : (v : StoredVerdict) → j ≡ Judged.in_store v → has_stored f ≡ true → Answer f j
    by_files :
        (old : VerdictRecord)
        → j ≡ Judged.in_files (carried_to (stored_of f) old)
        → has_stored f ≡ false
        → IsCommitted f old
        → Answer f j
    by_none :
        j ≡ Judged.unjudged
        → has_stored f ≡ false
        → ((old : VerdictRecord) → ¬ IsCommitted f old)
        → Answer f j

  stored_lem :
      (f : Finding) (o : Option StoredVerdict)
      → lookup (set_all (λ v. v.key) [] judged) (stored_of f).key ≡ o
      → is_some o ≡ has_stored f
  stored_lem f o e = ap is_some (sym e) ∙ is_some-set_all (λ v. v.key) [] judged (stored_of f).key

  judge-Answer : (f : Finding) → Answer f (judge stored_of judged files f)
  unfolding judge
  judge-Answer f = elim (Option-cases (lookup (set_all (λ v. v.key) [] judged) (stored_of f).key)) [
    | inr (v, e) ↦ rw (e, judge) (Answer.by_store v refl (sym (stored_lem f (some v) e)))
    | inl e ↦
        rw (e, judge)
          (elim (Option-cases (file_verdict_for (stored_of f) files)) [
            | inr (r, found) ↦
                let (old, at, same, carried) = file_verdict_for_lem (stored_of f) files r found in
                rw found (
                  Answer.by_files old (ap Judged.in_files carried) (sym (stored_lem f none e))
                    (at, same))
            | inl none_filed ↦ rw none_filed (
                Answer.by_none refl (sym (stored_lem f none e)) (λ old (at, same).
                  none_is_not_some
                    (sym none_filed ∙ file_verdict_for-found (stored_of f) files old at same)))
          ])
  ]

  abbrev pub Reuses : Finding → VerdictRecord → Type 0
  Reuses f r =
      (has_stored f ≡ false)
      × ((old : VerdictRecord) × IsCommitted f old × (r ≡ carried_to (stored_of f) old))

  -- Neither the snapshot nor the committed files have a verdict for the finding.
  abbrev pub IsOpen : Finding → Type 0
  IsOpen f = (has_stored f ≡ false) × ((old : VerdictRecord) → ¬ IsCommitted f old)

  not_both : (b : Bool) → b ≡ false → b ≡ true → ⊥
  not_both b h k = cc

  is_open-Answer : (f : Finding) (j : Judged) → Answer f j → (is_open j ≡ true) ↔ IsOpen f
  is_open-Answer f j (Answer.by_store v e h) =
      rw e (λ t. absurd (not_both false refl t), λ (n, u). absurd (not_both (has_stored f) n h))
  is_open-Answer f j (Answer.by_files old e n c) =
      rw e (λ t. absurd (not_both false refl t), λ (m, u). absurd (u old c))
  is_open-Answer f j (Answer.by_none e n u) = rw e (λ t. (n, u), λ o. refl)

  file_row-Answer :
      (f : Finding) (j : Judged) (r : VerdictRecord) → Answer f j → Memᴰ r (file_row j) ↔ Reuses f r
  file_row-Answer f j r (Answer.by_store v e h) =
      rw e (λ m. absurd (not-Memᴰ-nil r m), λ (n, u). absurd (not_both (has_stored f) n h))
  file_row-Answer f j r (Answer.by_files old e n c) = rw e (
    λ m. elim ((Memᴰ-cons r (carried_to (stored_of f) old) []).0 m) [
      | inl same ↦ (n, (old, c, same))
      | inr rest ↦ absurd (not-Memᴰ-nil r rest)
    ],
    λ (m, (other, (at, hash), same)).
        let one : other ≡ old = some_inj (sym at ∙ c.0) in
        Memᴰ.head (same ∙ ap (carried_to (stored_of f)) one),
  )
  file_row-Answer f j r (Answer.by_none e n u) =
      rw e (λ m. absurd (not-Memᴰ-nil r m), λ (m, (old, c, same)). absurd (u old c))

  open_findings-append :
      (xs ys : List Finding)
      → open_findings stored_of judged files (xs ++ ys)
        ≡ open_findings stored_of judged files xs ++ open_findings stored_of judged files ys
  open_findings-append xs ys = keep-append _ xs ys

  findings-open_file :
      (sel : SelectedFile) (fs : List Finding) (rest : List SelectedFile)
      → all_findings stored_of judged files (open_file sel fs ++ rest)
        ≡ fs ++ all_findings stored_of judged files rest
  findings-open_file sel [] rest = refl
  findings-open_file sel (f ∷ fs) rest = refl

  findings-open_files :
      (sels : List SelectedFile)
      → all_findings stored_of judged files (open_files stored_of judged files sels)
        ≡ open_findings stored_of judged files (all_findings stored_of judged files sels)
  findings-open_files [] = refl
  findings-open_files (sel ∷ sels) =
      findings-open_file sel (open_findings stored_of judged files sel.findings) _
      ∙ ap (λ l. open_findings stored_of judged files sel.findings ++ l) (findings-open_files sels)
      ∙ sym (open_findings-append sel.findings (all_findings stored_of judged files sels))

  -- A finding of the selection stays open exactly if the snapshot holds no verdict for its key and
  -- no committed verdict has both its key and its excerpt. The verdicts taken from the committed
  -- files are exactly those with the key and the excerpt of a finding that the snapshot has no
  -- verdict for, at the finding's place and with the files as their provenance.
  pub skip_judged-Reuses :
      (sels : List SelectedFile)
      → let s = skip_judged stored_of judged files sels in
        let all = all_findings stored_of judged files sels in
        ((f : Finding)
          → Memᴰ f (all_findings stored_of judged files s.files) ↔ (Memᴰ f all × IsOpen f))
        × ((r : VerdictRecord) → Memᴰ r s.from_files ↔ ((f : Finding) × Memᴰ f all × Reuses f r))
  skip_judged-Reuses sels =
      let (opened, reused, taken, counted) = skip_judged_splits stored_of judged files sels in
      let all = all_findings stored_of judged files sels in
      let open_test = λ (f : Finding). is_open (judge stored_of judged files f) in
      (
        λ f.
            let kept = ap (all_findings stored_of judged files) opened ∙ findings-open_files sels in
            let m = Memᴰ-keep open_test f all in
            let o = is_open-Answer f (judge stored_of judged files f) (judge-Answer f) in
            rw kept (λ t. ((m.0 t).0, o.0 (m.0 t).1), λ (t, p). m.1 (t, o.1 p)),
        λ r.
            let m = Memᴰ-flat_map (λ f. file_row (judge stored_of judged files f)) r all in
            rw taken (
              λ t.
                  let (f, u, row) = m.0 t in
                  (
                    f,
                    u,
                    (file_row-Answer f (judge stored_of judged files f) r (judge-Answer f)).0 row,
                  ),
              λ (f, u, p). m.1 (
                f,
                u,
                (file_row-Answer f (judge stored_of judged files f) r (judge-Answer f)).1 p,
              ),
            ),
      )
