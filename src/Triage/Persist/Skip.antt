-- ===== src/Triage/Persist/Skip.antt =====
-- packages/cli/src/commands/triage-persist.ts, skipJudged: the filter that notes what it skips.
use codewatch.Base.{
  length-append, keep-append, ℕ, suc, arith, map, ◌+◌, ap, sum, length, ◌∙◌, refl, if◌then◌else◌,
  sym, ◌++◌, keep, ◌≡◌, flat_map, false, String, [], ◌∷◌,
}
use codewatch.Triage.Questions.{Finding}
use codewatch.Triage.Select.{SelectedFile}
use codewatch.Triage.Persist.{
  skip_files, Splitting, skip_judged, add_file, true, JsMap, List, Bool, StoredVerdict,
  StoredFinding, VerdictRecord, ReusedVerdict, Judged, Judging, judge, settle, skip_findings,
  reused_of, reused_file,
}
use mathlib.Core.List.{map-append, append_assoc, append-nil}

-- The three answers, read off where the finding's verdict is.
abbrev pub is_open : Judged → Bool
is_open Judged.unjudged = true
is_open _ = false

abbrev pub reused_row : Finding → Judged → List ReusedVerdict
reused_row f (Judged.in_store v) = reused_of f v ∷ []
reused_row f (Judged.in_files r) = reused_file f r ∷ []
reused_row f Judged.unjudged = []

abbrev pub file_row : Judged → List VerdictRecord
file_row (Judged.in_files r) = r ∷ []
file_row _ = []

abbrev pub open_file : SelectedFile → List Finding → List SelectedFile
open_file sel [] = []
open_file sel (f ∷ fs) = record sel { findings = f ∷ fs } ∷ []

Judging_eq :
    {a a' : List Finding} {b b' : List ReusedVerdict} {c c' : List VerdictRecord}
    → a ≡ a'
    → b ≡ b'
    → c ≡ c'
    → ◌≡◌ {A = Judging}
        (record { still_open = a; reused = b; from_files = c })
        (record { still_open = a'; reused = b'; from_files = c' })
Judging_eq p q r = cc

Splitting_eq :
    {a a' : List SelectedFile} {b b' : List ReusedVerdict} {c c' : List VerdictRecord}
    → a ≡ a'
    → b ≡ b'
    → c ≡ c'
    → ◌≡◌ {A = Splitting}
        (record { files = a; reused = b; from_files = c })
        (record { files = a'; reused = b'; from_files = c' })
Splitting_eq p q r = cc

add_file_lem :
    (files : List SelectedFile) (sel : SelectedFile) (fs : List Finding)
    → add_file files sel fs ≡ files ++ open_file sel fs
add_file_lem files sel [] = sym (append-nil files)
add_file_lem files sel (f ∷ fs) = refl

flat_map-append {ℓ κ} :
    {A : Type ℓ} {B : Type κ} (f : A → List B) (xs ys : List A)
    → flat_map f (xs ++ ys) ≡ flat_map f xs ++ flat_map f ys
flat_map-append f [] ys = refl
flat_map-append f (x ∷ xs) ys =
    ap (λ l. f x ++ l) (flat_map-append f xs ys)
    ∙ sym (append_assoc (f x) (flat_map f xs) (flat_map f ys))

split_one :
    (f : Finding) (j : Judged) (fs : List Finding) (rs : List ReusedVerdict)
    → length (if is_open j then f ∷ fs else fs) + length (reused_row f j ++ rs)
      ≡ suc (length fs + length rs)
split_one f (Judged.in_store v) fs rs = omega arith
split_one f (Judged.in_files r) fs rs = omega arith
split_one f Judged.unjudged fs rs = omega arith

sum-open_file :
    (sel : SelectedFile) (fs : List Finding)
    → sum (map (λ x. length x.findings) (open_file sel fs)) ≡ length fs
sum-open_file sel [] = refl
sum-open_file sel (f ∷ fs) = omega arith

sum-append : (ns ms : List ℕ) → sum (ns ++ ms) ≡ sum ns + sum ms
sum-append [] ms = omega arith
sum-append (n ∷ ns) ms = omega (arith, sum-append ns ms)

module _ (stored_of : Finding → StoredFinding) (judged : List StoredVerdict)
    (files : JsMap String VerdictRecord) where
  abbrev pub where_is : Finding → Judged
  where_is = judge stored_of judged files

  abbrev pub open_findings : List Finding → List Finding
  open_findings = keep (λ f. is_open (where_is f))

  abbrev pub reused_rows : List Finding → List ReusedVerdict
  reused_rows = flat_map (λ f. reused_row f (where_is f))

  abbrev pub file_rows : List Finding → List VerdictRecord
  file_rows = flat_map (λ f. file_row (where_is f))

  abbrev settled : Judging → List Finding → Judging
  settled s fs = record {
    still_open = s.still_open ++ open_findings fs;
    reused = s.reused ++ reused_rows fs;
    from_files = s.from_files ++ file_rows fs;
  }

  settled-settle :
      (s : Judging) (f : Finding) (j : Judged) (fs : List Finding)
      → settled (settle s f j) fs ≡ record {
        still_open = s.still_open ++ (if is_open j then f ∷ open_findings fs else open_findings fs);
        reused = s.reused ++ (reused_row f j ++ reused_rows fs);
        from_files = s.from_files ++ (file_row j ++ file_rows fs);
      }
  settled-settle s f (Judged.in_store v) fs =
      Judging_eq refl (append_assoc s.reused (reused_of f v ∷ []) (reused_rows fs)) refl
  settled-settle s f (Judged.in_files r) fs =
      Judging_eq refl (append_assoc s.reused (reused_file f r ∷ []) (reused_rows fs))
        (append_assoc s.from_files (r ∷ []) (file_rows fs))
  settled-settle s f Judged.unjudged fs =
      Judging_eq (append_assoc s.still_open (f ∷ []) (open_findings fs)) refl refl

  skip_findings_lem :
      (s : Judging) (fs : List Finding) → skip_findings stored_of judged files s fs ≡ settled s fs
  skip_findings_lem s [] =
      Judging_eq (sym (append-nil s.still_open)) (sym (append-nil s.reused))
        (sym (append-nil s.from_files))
  skip_findings_lem s (f ∷ fs) =
      skip_findings_lem (settle s f (where_is f)) fs ∙ settled-settle s f (where_is f) fs

  abbrev pub all_findings : List SelectedFile → List Finding
  all_findings = flat_map (λ sel. sel.findings)

  -- The files with their unjudged findings only, those without any left out.
  abbrev pub open_files : List SelectedFile → List SelectedFile
  open_files = flat_map (λ sel. open_file sel (open_findings sel.findings))

  abbrev skipped : Splitting → List SelectedFile → Splitting
  skipped s sels = record {
    files = s.files ++ open_files sels;
    reused = s.reused ++ reused_rows (all_findings sels);
    from_files = s.from_files ++ file_rows (all_findings sels);
  }

  skipped-step :
      (s : Splitting) (sel : SelectedFile) (rest : List SelectedFile)
      → skipped
          (record {
            files = add_file s.files sel (open_findings sel.findings);
            reused = s.reused ++ reused_rows sel.findings;
            from_files = s.from_files ++ file_rows sel.findings;
          })
          rest
        ≡ skipped s (sel ∷ rest)
  skipped-step s sel rest =
      Splitting_eq
        (ap (λ l. l ++ open_files rest) (add_file_lem s.files sel (open_findings sel.findings))
          ∙ append_assoc s.files (open_file sel (open_findings sel.findings)) (open_files rest))
        (append_assoc s.reused (reused_rows sel.findings) (reused_rows (all_findings rest))
          ∙ ap (λ l. s.reused ++ l)
              (sym (
                flat_map-append (λ f. reused_row f (where_is f)) sel.findings (all_findings rest))))
        (append_assoc s.from_files (file_rows sel.findings) (file_rows (all_findings rest))
          ∙ ap (λ l. s.from_files ++ l)
              (sym (flat_map-append (λ f. file_row (where_is f)) sel.findings (all_findings rest))))

  skip_files_lem :
      (s : Splitting) (sels : List SelectedFile)
      → skip_files stored_of judged files s sels ≡ skipped s sels
  skip_files_lem s [] =
      Splitting_eq (sym (append-nil s.files)) (sym (append-nil s.reused))
        (sym (append-nil s.from_files))
  skip_files_lem s (sel ∷ rest) =
      ap
        (λ (t : Judging).
          skip_files stored_of judged files
            (record {
              files = add_file s.files sel t.still_open;
              reused = t.reused;
              from_files = t.from_files;
            })
            rest)
        (skip_findings_lem
          (record { still_open = []; reused = s.reused; from_files = s.from_files }) sel.findings)
      ∙ skip_files_lem
          (record {
            files = add_file s.files sel (open_findings sel.findings);
            reused = s.reused ++ reused_rows sel.findings;
            from_files = s.from_files ++ file_rows sel.findings;
          })
          rest
      ∙ skipped-step s sel rest

  length-split :
      (fs : List Finding) → length (open_findings fs) + length (reused_rows fs) ≡ length fs
  length-split [] = omega arith
  length-split (f ∷ fs) =
      omega (arith, split_one f (where_is f) (open_findings fs) (reused_rows fs), length-split fs)

  sum-open_files :
      (sels : List SelectedFile)
      → sum (map (λ sel. length sel.findings) (open_files sels))
        ≡ length (open_findings (all_findings sels))
  sum-open_files [] = refl
  sum-open_files (sel ∷ sels) =
      rw
        (
          keep-append (λ f. is_open (where_is f)) sel.findings (all_findings sels),
          map-append (λ (x : SelectedFile). length x.findings)
              (open_file sel (open_findings sel.findings)) (open_files sels),
          length-append (open_findings sel.findings) (open_findings (all_findings sels)),
        )
        (omega (
          arith,
          sum-append (map (λ x. length x.findings) (open_file sel (open_findings sel.findings)))
              (map (λ x. length x.findings) (open_files sels)),
          sum-open_file sel (open_findings sel.findings),
          sum-open_files sels,
        ))

  -- The filter leaves of each file the findings that neither the snapshot nor the committed files
  -- have a verdict for, drops the files with none left, and notes each of the others once, in order.
  pub skip_judged_splits :
      (sels : List SelectedFile)
      → let s = skip_judged stored_of judged files sels in
        (s.files ≡ open_files sels)
        × (s.reused ≡ reused_rows (all_findings sels))
        × (s.from_files ≡ file_rows (all_findings sels))
        × (sum (map (λ sel. length sel.findings) s.files) + length s.reused
            ≡ length (all_findings sels))
  unfolding skip_judged
  skip_judged_splits sels = (
    ap (λ s. s.files) whole,
    ap (λ s. s.reused) whole,
    ap (λ s. s.from_files) whole,
    rw whole (omega (arith, sum-open_files sels, length-split (all_findings sels))),
  )
    where
      whole :
          skip_files stored_of judged files
            (record { files = []; reused = []; from_files = [] })
            sels
          ≡ skipped (record { files = []; reused = []; from_files = [] }) sels
      whole = skip_files_lem (record { files = []; reused = []; from_files = [] }) sels
