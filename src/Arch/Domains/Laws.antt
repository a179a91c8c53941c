-- ===== src/Arch/Domains/Laws.antt =====
-- packages/cli/src/commands/graph-arch-domains.ts: each file goes to the first domain that matches
-- it.
use text.Mathlib.TextEquality.{eq_iff}
use codewatch.Base.{
  false, true, contains_iff, ap, Memᴰ, ◌∙◌, lookup-insert, refl, [], sizes-push, ◌∷◌, ◌&&◌, arith,
  string_eq, sym, ◌==◌, if◌then◌else◌, Option, ◌++◌, ◌+◌, sizes, ◌≡◌,
}
use mathlib.Core.List.{append_assoc, append-nil}
use codewatch.Base.{Bool-cases, JsMap, group_at, push, inl, inr, lookup-push, not, or_else}
use codewatch.Arch.Domains.{
  group_at, not, flat_map, some, is_some, length, contains, none, keep, map, lookup, ℕ, List, Bool,
  String, DomainDef, hit_patterns, Matching, Assigning, match_domains, is_in, place, assign_files,
  no_files_assigned, assign_domains,
}

group_at-push :
    (m : JsMap String (List String)) (k v j : String)
    → group_at (push m k v) j ≡ group_at m j ++ (if k == j then v ∷ [] else [])
group_at-push m k v j = elim (Bool-cases (k == j)) [
  | inl h ↦
      let same : group_at m k ≡ group_at m j = ap (group_at m) ((eq_iff k j).0 h) in
      let found : lookup (push m k v) j ≡ some (group_at m k ++ v ∷ []) =
        ground (arith, lookup-push m k j v, h) in
      rw h (ap (λ o. or_else o []) found ∙ ap (λ l. l ++ v ∷ []) same)
  | inr h ↦
      let found : lookup (push m k v) j ≡ lookup m j = ground (arith, lookup-push m k j v, h) in
      rw h (ap (λ o. or_else o []) found ∙ sym (append-nil (group_at m j)))
]

module _ (matches : String → String → Bool) (domains : List DomainDef) where
  -- The names of the domains that match, in the configuration's order.
  abbrev pub matching : String → List String
  matching file = map (λ d. d.name) (keep (is_in matches file) domains)

  names_lem :
      (file : String) (m : Matching) (ds : List DomainDef)
      → (match_domains matches file m ds).names
        ≡ m.names ++ map (λ d. d.name) (keep (is_in matches file) ds)
  names_lem file m [] = sym (append-nil m.names)
  names_lem file m (d ∷ ds) =
      names_lem file
        (record {
          names = if is_in matches file d then m.names ++ d.name ∷ [] else m.names;
          hits = hit_patterns matches file d.name d.patterns m.hits;
        })
        ds
      ∙ then_rest (is_in matches file d)
    where
      rest : List DomainDef
      rest = keep (is_in matches file) ds

      then_rest :
          (b : Bool)
          → (if b then m.names ++ d.name ∷ [] else m.names) ++ map (λ x. x.name) rest
            ≡ m.names ++ map (λ x. x.name) (if b then d ∷ rest else rest)
      then_rest true = append_assoc m.names (d.name ∷ []) (map (λ x. x.name) rest)
      then_rest false = refl

  -- The first of the matching domains, if there is one.
  abbrev pub first_of : List String → Option String
  first_of [] = none
  first_of (name ∷ names) = some name

  abbrev matched : Assigning → String → Matching
  matched s file = match_domains matches file (record { names = []; hits = s.hits }) domains

  abbrev next : Assigning → String → Assigning
  next s file = place file s (matched s file).hits (matched s file).names

  abbrev assigned : Assigning → ℕ
  assigned s = sizes s.file_by_domain + s.unassigned

  assigned-place :
      (file : String) (s : Assigning) (hits names : List String)
      → assigned (place file s hits names) ≡ assigned s + 1
  assigned-place file s hits [] = omega arith
  assigned-place file s hits (name ∷ []) = omega (arith, sizes-push s.file_by_domain name file)
  assigned-place file s hits (name ∷ (other ∷ names)) =
      omega (arith, sizes-push s.file_by_domain name file)

  assigned-assign_files :
      (s : Assigning) (files : List String)
      → assigned (assign_files matches domains s files) ≡ assigned s + length files
  assigned-assign_files s [] = omega arith
  assigned-assign_files s (file ∷ files) = omega (
    arith,
    assigned-assign_files (next s file) files,
    assigned-place file s (matched s file).hits (matched s file).names,
  )

  domain-place :
      (file : String) (s : Assigning) (hits names : List String) (g : String)
      → lookup (place file s hits names).domain_by_file g ≡ (
          if file == g && is_some (first_of names)
          then first_of names
          else lookup s.domain_by_file g)
  domain-place file s hits [] g = ground arith
  domain-place file s hits (name ∷ []) g =
      ground (arith, lookup-insert s.domain_by_file file g name)
  domain-place file s hits (name ∷ (other ∷ names)) g =
      ground (arith, lookup-insert s.domain_by_file file g name)

  domain_lem :
      (s : Assigning) (files : List String) (g : String)
      → lookup (assign_files matches domains s files).domain_by_file g ≡ (
          if contains files g && is_some (first_of (matching g))
          then first_of (matching g)
          else lookup s.domain_by_file g)
  domain_lem s [] g = refl
  domain_lem s (file ∷ files) g =
      domain_lem (next s file) files g
      ∙ ground (
        arith,
        domain-place file s (matched s file).hits (matched s file).names g,
        ap first_of (names_lem file (record { names = []; hits = s.hits }) domains),
        eq_iff file g,
      )

  -- The first of the names is the given one.
  abbrev pub is_first : String → List String → Bool
  is_first name [] = false
  is_first name (x ∷ xs) = x == name

  group-place :
      (file : String) (s : Assigning) (hits names : List String) (g : String)
      → group_at (place file s hits names).file_by_domain g
        ≡ group_at s.file_by_domain g ++ (if is_first g names then file ∷ [] else [])
  group-place file s hits [] g = sym (append-nil (group_at s.file_by_domain g))
  group-place file s hits (name ∷ []) g = group_at-push s.file_by_domain name file g
  group-place file s hits (name ∷ (other ∷ names)) g = group_at-push s.file_by_domain name file g

  group_lem :
      (s : Assigning) (files : List String) (g : String)
      → group_at (assign_files matches domains s files).file_by_domain g
        ≡ group_at s.file_by_domain g ++ keep (λ f. is_first g (matching f)) files
  group_lem s [] g = sym (append-nil (group_at s.file_by_domain g))
  group_lem s (file ∷ files) g =
      group_lem (next s file) files g
      ∙ ap (λ l. l ++ keep (λ f. is_first g (matching f)) files)
          (group-place file s (matched s file).hits (matched s file).names g
            ∙ ap (λ ns. group_at s.file_by_domain g ++ (if is_first g ns then file ∷ [] else []))
                (names_lem file (record { names = []; hits = s.hits }) domains))
      ∙ append_assoc (group_at s.file_by_domain g) _ (keep (λ f. is_first g (matching f)) files)
      ∙ ap (λ l. group_at s.file_by_domain g ++ l) (one_more (is_first g (matching file)))
    where
      one_more :
          (b : Bool)
          → (if b then file ∷ [] else []) ++ keep (λ f. is_first g (matching f)) files ≡ (
              if b
              then file ∷ keep (λ f. is_first g (matching f)) files
              else keep (λ f. is_first g (matching f)) files)
      one_more true = refl
      one_more false = refl

  abbrev pub is_unmatched : List String → Bool
  is_unmatched names = not (is_some (first_of names))

  unassigned-place :
      (file : String) (s : Assigning) (hits names : List String)
      → (place file s hits names).unassigned ≡ s.unassigned + (if is_unmatched names then 1 else 0)
  unassigned-place file s hits [] = refl
  unassigned-place file s hits (name ∷ []) = omega arith
  unassigned-place file s hits (name ∷ (other ∷ names)) = omega arith

  unassigned_lem :
      (s : Assigning) (files : List String)
      → (assign_files matches domains s files).unassigned
        ≡ s.unassigned + length (keep (λ f. is_unmatched (matching f)) files)
  unassigned_lem s [] = omega arith
  unassigned_lem s (file ∷ files) = ground (
    arith,
    unassigned_lem (next s file) files,
    unassigned-place file s (matched s file).hits (matched s file).names,
    ap is_unmatched (names_lem file (record { names = []; hits = s.hits }) domains),
  )

  abbrev pub overlap_row : String → List String → List (String × List String)
  overlap_row file (name ∷ (other ∷ names)) = (file, name ∷ (other ∷ names)) ∷ []
  overlap_row file _ = []

  overlaps-place :
      (file : String) (s : Assigning) (hits names : List String)
      → (place file s hits names).overlaps ≡ s.overlaps ++ overlap_row file names
  overlaps-place file s hits [] = sym (append-nil s.overlaps)
  overlaps-place file s hits (name ∷ []) = sym (append-nil s.overlaps)
  overlaps-place file s hits (name ∷ (other ∷ names)) = refl

  overlaps_lem :
      (s : Assigning) (files : List String)
      → (assign_files matches domains s files).overlaps
        ≡ s.overlaps ++ flat_map (λ f. overlap_row f (matching f)) files
  overlaps_lem s [] = sym (append-nil s.overlaps)
  overlaps_lem s (file ∷ files) =
      overlaps_lem (next s file) files
      ∙ ap (λ l. l ++ flat_map (λ f. overlap_row f (matching f)) files)
          (overlaps-place file s (matched s file).hits (matched s file).names
            ∙ ap (λ ns. s.overlaps ++ overlap_row file ns)
                (names_lem file (record { names = []; hits = s.hits }) domains))
      ∙ append_assoc s.overlaps (overlap_row file (matching file)) _

  -- The files of a domain are those for which it is the first, in the configuration's order, with a
  -- glob that matches, in their own order; those that no domain matches are counted as unassigned;
  -- so every file is in one domain or counted. The index of domains by file says the same, and the
  -- files that more than one domain matches are reported with all of them.
  pub assign_domains_partition :
      (files : List String)
      → let a = assign_domains matches files domains in
        ((name : String)
          → group_at a.file_by_domain name ≡ keep (λ f. is_first name (matching f)) files)
        × (a.validation.unassigned_files ≡ length (keep (λ f. is_unmatched (matching f)) files))
        × (sizes a.file_by_domain + a.validation.unassigned_files ≡ length files)
        × ((file : String)
            → Memᴰ file files
            → lookup a.domain_by_file file ≡ first_of (matching file))
        × (a.validation.overlaps ≡ flat_map (λ f. overlap_row f (matching f)) files)
  unfolding assign_domains
  assign_domains_partition files = (
    λ name. group_lem no_files_assigned files name,
    omega (arith, unassigned_lem no_files_assigned files),
    omega (arith, assigned-assign_files no_files_assigned files),
    λ file t.
        ground (arith, domain_lem no_files_assigned files file, (contains_iff files file).1 t),
    overlaps_lem no_files_assigned files,
  )
