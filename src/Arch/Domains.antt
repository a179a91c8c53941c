-- ===== src/Arch/Domains.antt =====
-- packages/cli/src/commands/graph-arch-domains.ts: the architecture by configured domains. Glob
-- matching (`patternToRegex`) is a parameter.
pub mod Laws
use codewatch.Base.{
  lookup, ◌&&◌, is_some, string_eq, contains, push, not, add, eqb, ◌++◌, if◌then◌else◌, insert,
  keep, flat_map, sort_by, group_at, ◌∷◌, [], map, ◌+◌, any, push_front, length, Bool, ℕ, glue,
  JsMap, String, List, none, some,
}

pub record DomainDef : Type 0 where
  pub name : String
  pub patterns : List String

pub record DomainValidation : Type 0 where
  pub empty_domains : List String
  pub empty_patterns : List String
  pub overlaps : List (String × List String)
  pub unassigned_files : ℕ

pub record DomainAssignment : Type 0 where
  pub file_by_domain : JsMap String (List String)
  pub domain_by_file : JsMap String String
  pub validation : DomainValidation

pub record ArchPackage : Type 0 where
  pub id : String
  pub name : String
  pub files : ℕ

-- `${domain} ${glob}`
unfoldable pub pattern_key : String → String → String
pattern_key domain glob = glue domain (glue " " glob)

-- The names matched so far and the hit patterns.
pub record Matching : Type 0 where
  pub names : List String
  pub hits : List String

pub record Assigning : Type 0 where
  pub file_by_domain : JsMap String (List String)
  pub domain_by_file : JsMap String String
  pub overlaps : List (String × List String)
  pub hits : List String
  pub unassigned : ℕ

abbrev pub no_files_assigned : Assigning
no_files_assigned = record {
  file_by_domain = [];
  domain_by_file = [];
  overlaps = [];
  hits = [];
  unassigned = 0;
}

-- What the loop does with the names that one file matched.
abbrev pub place : String → Assigning → List String → List String → Assigning
place file s hits [] = record s { hits = hits; unassigned = s.unassigned + 1 }
place file s hits (name ∷ []) = record s {
  hits = hits;
  domain_by_file = insert s.domain_by_file file name;
  file_by_domain = push s.file_by_domain name file;
}
place file s hits (name ∷ (other ∷ names)) = record s {
  hits = hits;
  overlaps = s.overlaps ++ (file, name ∷ (other ∷ names)) ∷ [];
  domain_by_file = insert s.domain_by_file file name;
  file_by_domain = push s.file_by_domain name file;
}

module _ (matches : String → String → Bool) where
  abbrev pub hit_patterns : String → String → List String → List String → List String
  hit_patterns file name [] hits = hits
  hit_patterns file name (glob ∷ globs) hits =
      hit_patterns file name globs
        (if matches glob file then add hits (pattern_key name glob) else hits)

  abbrev pub is_in : String → DomainDef → Bool
  is_in file d = any (λ glob. matches glob file) d.patterns

  abbrev pub match_domains : String → Matching → List DomainDef → Matching
  match_domains file m [] = m
  match_domains file m (d ∷ ds) =
      match_domains file
        (record {
          names = if is_in file d then m.names ++ d.name ∷ [] else m.names;
          hits = hit_patterns file d.name d.patterns m.hits;
        })
        ds

  abbrev pub assign_files : List DomainDef → Assigning → List String → Assigning
  assign_files domains s [] = s
  assign_files domains s (file ∷ files) =
      let m = match_domains file (record { names = []; hits = s.hits }) domains in
      assign_files domains (place file s m.hits m.names) files

  abbrev empty_globs : List String → DomainDef → List String
  empty_globs hits d =
      map (λ glob. glue d.name (glue ": " glob))
        (keep (λ glob. not (contains hits (pattern_key d.name glob))) d.patterns)

  abbrev build_validation : List DomainDef → Assigning → DomainValidation
  build_validation domains s = record {
    empty_domains =
        map (λ d. d.name) (keep (λ d. not (is_some (lookup s.file_by_domain d.name))) domains);
    empty_patterns = flat_map (empty_globs s.hits) domains;
    overlaps = s.overlaps;
    unassigned_files = s.unassigned;
  }

  unfoldable pub assign_domains : List String → List DomainDef → DomainAssignment
  assign_domains file_ids domains =
      let s = assign_files domains no_files_assigned file_ids in
      record {
        file_by_domain = s.file_by_domain;
        domain_by_file = s.domain_by_file;
        validation = build_validation domains s;
      }

-- `referenced` are the packages that the counted edges name; sorted by `id`.
abbrev domain_node : JsMap String (List String) → List String → DomainDef → List ArchPackage
domain_node file_by_domain referenced d =
    let files = length (group_at file_by_domain d.name) in
    if eqb files 0 && not (contains referenced d.name)
    then []
    else record { id = d.name; name = d.name; files = files } ∷ []

unfoldable pub build_domain_nodes :
    (String → String → Bool)
    → List DomainDef
    → JsMap String (List String)
    → List String
    → List ArchPackage
build_domain_nodes before domains file_by_domain referenced =
    sort_by (λ a b. before a.id b.id) (flat_map (domain_node file_by_domain referenced) domains)
