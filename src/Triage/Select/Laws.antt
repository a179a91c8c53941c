-- ===== src/Triage/Select/Laws.antt =====
-- packages/cli/src/commands/triage-select.ts: every finding is selected or counted once.
use text.Mathlib.TextEquality.{eq_iff}
use codewatch.Base.{
  sort_by-Sorted, beq_refl, Memᴰ-sort_by, any_of_mem, All-sort_by, Sorted, length-keep-le, any,
  mem_of_lookup, sum-sort_by, IsOrder, not-Memᴰ-nil, Option-cases, false, lookup_of_mem, All, true,
  lookup, map, Memᴰ, or_else, sum, ◌∙◌, HasNodup-push, refl, inr, ap, lookup-push, inl, Bool-cases,
  is_some, none, [], not, sym, keep, ◌∷◌, some, ◌&&◌, keys, ◌==◌, string_eq, sizes-push,
  if◌then◌else◌, HasNodup, length, ◌++◌, group_at, arith, sizes, List, Bool, ◌+◌, String, ◌≡◌,
}
use codewatch.Triage.Questions.{Finding}
use mathlib.Core.List.Memᴰ
use mathlib.Core.List.{append_assoc, append-nil}
use codewatch.Triage.Select.{
  Option, JsMap, ℕ, TriageSelectOptions, Chosen, Excluded, Exclusion, SelectedFile, choose,
  choose_all, none_chosen, reason_of, is_eligible, selected_file, file_before, select_triage_files,
  rank_by_path, count,
}

abbrev pub total : Excluded → ℕ
total e = e.below_rank + e.tests + e.unscored

total-count : (e : Excluded) (r : Exclusion) → total (count e r) ≡ total e + 1
total-count e Exclusion.below_rank = omega arith
total-count e Exclusion.tests = omega arith
total-count e Exclusion.unscored = omega arith

abbrev held : Chosen → ℕ
held s = total s.excluded + sizes s.by_path

held-choose : (s : Chosen) (f : Finding) (r : Option Exclusion) → held (choose s f r) ≡ held s + 1
held-choose s f none = omega (arith, sizes-push s.by_path f.path f)
held-choose s f (some r) = omega (arith, total-count s.excluded r)

module _ (ranks : JsMap String ℕ) (roles : JsMap String String)
    (options : TriageSelectOptions) where
  held-choose_all :
      (s : Chosen) (fs : List Finding)
      → held (choose_all ranks roles options s fs) ≡ held s + length fs
  held-choose_all s [] = omega arith
  held-choose_all s (f ∷ fs) = omega (
    arith,
    held-choose_all (choose s f (reason_of ranks roles options f)) fs,
    held-choose s f (reason_of ranks roles options f),
  )

  -- The findings of a path that no reason excludes.
  abbrev pub is_chosen : String → Finding → Bool
  is_chosen p f = f.path == p && not (is_some (reason_of ranks roles options f))

  group_at-choose :
      (s : Chosen) (f : Finding) (r : Option Exclusion) (p : String)
      → group_at (choose s f r).by_path p ≡ (
          if f.path == p && not (is_some r)
          then group_at s.by_path p ++ f ∷ []
          else group_at s.by_path p)
  group_at-choose s f (some r) p = ground arith
  group_at-choose s f none p = elim (Bool-cases (f.path == p)) [
    | inl same ↦
        let e : f.path ≡ p = (eq_iff f.path p).0 same in
        rw (lookup-push s.by_path f.path p f, same) (ap (λ i. group_at s.by_path i ++ f ∷ []) e)
    | inr other ↦ rw (lookup-push s.by_path f.path p f, other) refl
  ]

  group_at-choose_all :
      (s : Chosen) (fs : List Finding) (p : String)
      → group_at (choose_all ranks roles options s fs).by_path p
        ≡ group_at s.by_path p ++ keep (is_chosen p) fs
  group_at-choose_all s [] p = sym (append-nil (group_at s.by_path p))
  group_at-choose_all s (f ∷ fs) p =
      group_at-choose_all (choose s f (reason_of ranks roles options f)) fs p
      ∙ ap (λ g. g ++ keep (is_chosen p) fs)
          (group_at-choose s f (reason_of ranks roles options f) p)
      ∙ then_rest (is_chosen p f) (group_at s.by_path p)
    where
      then_rest :
          (b : Bool) (g : List Finding)
          → (if b then g ++ f ∷ [] else g) ++ keep (is_chosen p) fs
            ≡ g ++ (if b then f ∷ keep (is_chosen p) fs else keep (is_chosen p) fs)
      then_rest true g = append_assoc g (f ∷ []) (keep (is_chosen p) fs)
      then_rest false g = refl

  HasNodup-choose :
      (s : Chosen) (f : Finding) (r : Option Exclusion)
      → HasNodup (keys s.by_path)
      → HasNodup (keys (choose s f r).by_path)
  HasNodup-choose s f (some r) h = h
  HasNodup-choose s f none h = HasNodup-push s.by_path f.path f h

  HasNodup-choose_all :
      (s : Chosen) (fs : List Finding)
      → HasNodup (keys s.by_path)
      → HasNodup (keys (choose_all ranks roles options s fs).by_path)
  HasNodup-choose_all s [] h = h
  HasNodup-choose_all s (f ∷ fs) h =
      HasNodup-choose_all (choose s f (reason_of ranks roles options f)) fs
        (HasNodup-choose s f (reason_of ranks roles options f) h)

  -- A file shows its own rank and, in order, all the findings of its path that are not excluded.
  abbrev pub IsSelected : List Finding → SelectedFile → Type 0
  IsSelected fs file =
      (file.findings ≡ keep (is_chosen file.path) fs)
      × (file.rank ≡ or_else (lookup ranks file.path) 0)

  entry-IsSelected :
      (s : Chosen) (fs : List Finding) (m : JsMap String (List Finding))
      → ((p : String) → group_at s.by_path p ≡ keep (is_chosen p) fs)
      → HasNodup (keys s.by_path)
      → ((e : String × List Finding) → Memᴰ e m → Memᴰ e s.by_path)
      → All (IsSelected fs) (map (selected_file ranks roles options) m)
  entry-IsSelected s fs [] g h sub = tt
  entry-IsSelected s fs (e ∷ m) g h sub = (
    (
      sym (ap (λ o. or_else o []) (lookup_of_mem s.by_path e.0 e.1 h (sub e (Memᴰ.head refl))))
          ∙ g e.0,
      refl,
    ),
    entry-IsSelected s fs m g h (λ x t. sub x (Memᴰ.tail t)),
  )

  chosen_mem :
      (f : Finding) (m : JsMap String (List Finding))
      → Memᴰ f (group_at m f.path)
      → Memᴰ (f.path, group_at m f.path) m
  chosen_mem f m t = elim (Option-cases (lookup m f.path)) [
    | inl gone ↦ absurd (not-Memᴰ-nil f (rw (sym (ap (λ o. or_else o []) gone)) t))
    | inr (g, e) ↦
        mem_of_lookup m f.path (group_at m f.path) (e ∙ ap some (ap (λ o. or_else o []) (sym e)))
  ]

  abbrev files_of : Chosen → List SelectedFile
  files_of s = map (selected_file ranks roles options) s.by_path

  sizes_lem :
      (m : JsMap String (List Finding))
      → sum (map (λ x. length x.findings) (map (selected_file ranks roles options) m)) ≡ sizes m
  sizes_lem [] = refl
  sizes_lem (e ∷ m) = omega (arith, sizes_lem m)

file_before-IsOrder :
    (locale_before : String → String → Bool)
    → IsOrder locale_before
    → IsOrder (file_before locale_before)
file_before-IsOrder locale_before o = record {
  asym = λ a b h. ground (arith, o.asym a.path b.path);
  trans = λ a b c h k. ground (arith, o.trans a.path b.path c.path);
}

module _ (locale_before : String → String → Bool) (findings : List Finding)
    (scores : List (String × ℕ)) (roles : JsMap String String) (options : TriageSelectOptions) where
  -- Every finding is accounted for once: it is in a selected file, or counted under one reason for
  -- leaving it out, or counted as having no question.
  pub select_triage_files_conserves :
      let s = select_triage_files locale_before findings scores roles options in
      total s.excluded + sum (map (λ f. length f.findings) s.files) + s.ineligible ≡ length findings
  unfolding select_triage_files
  select_triage_files_conserves =
      rw
        (
          sum-sort_by (file_before locale_before) (λ f. length f.findings)
              (files_of ranks roles options chosen),
          sizes_lem ranks roles options chosen.by_path,
        )
        (omega (
          arith,
          held-choose_all ranks roles options none_chosen eligible,
          length-keep-le is_eligible findings,
        ))
    where
      ranks : JsMap String ℕ
      ranks = rank_by_path [] scores

      eligible : List Finding
      eligible = keep is_eligible findings

      chosen : Chosen
      chosen = choose_all ranks roles options none_chosen eligible

  -- Each file comes with its rank and with all the findings of its path that have a question and
  -- that no reason leaves out, in order; every such finding is in a file; and the files stand by
  -- falling rank, then by path, where the locale's comparison is an order.
  pub select_triage_files_exact :
      IsOrder locale_before
      → let s = select_triage_files locale_before findings scores roles options in
        let ranks = rank_by_path [] scores in
        All (IsSelected ranks roles options (keep is_eligible findings)) s.files
        × ((f : Finding)
            → Memᴰ f (keep (is_chosen ranks roles options f.path) (keep is_eligible findings))
            → any (λ file. file.path == f.path) s.files ≡ true)
        × Sorted (file_before locale_before) s.files
  unfolding select_triage_files
  select_triage_files_exact o = (
    All-sort_by before (IsSelected ranks roles options eligible)
        (files_of ranks roles options chosen)
        (entry-IsSelected ranks roles options chosen eligible chosen.by_path grouped distinct
          (λ e t. t)),
    λ f t.
        any_of_mem (λ file. file.path == f.path)
          (selected_file ranks roles options (f.path, group_at chosen.by_path f.path)) _
          ((Memᴰ-sort_by before _ (files_of ranks roles options chosen)).1 (
            Memᴰ.map (selected_file ranks roles options)
              (chosen_mem ranks roles options f chosen.by_path (rw (grouped f.path) t))))
          (beq_refl f.path),
    sort_by-Sorted before (file_before-IsOrder locale_before o)
        (files_of ranks roles options chosen),
  )
    where
      ranks : JsMap String ℕ
      ranks = rank_by_path [] scores

      eligible : List Finding
      eligible = keep is_eligible findings

      chosen : Chosen
      chosen = choose_all ranks roles options none_chosen eligible

      before : SelectedFile → SelectedFile → Bool
      before = file_before locale_before

      grouped :
          (p : String) → group_at chosen.by_path p ≡ keep (is_chosen ranks roles options p) eligible
      grouped = group_at-choose_all ranks roles options none_chosen eligible

      distinct : HasNodup (keys chosen.by_path)
      distinct = HasNodup-choose_all ranks roles options none_chosen eligible tt
