-- ===== src/Eval/Reach/Shortest/Known.antt =====
-- Every import is resolved to a known file.
use codewatch.Eval.Reach.{resolve_relative_specifier, add_target, first_of, targets_of}
use codewatch.Eval.Stratify.Resolve.{resolve_relative_specifier_lem}
use codewatch.Eval.Workspace.{
  Workspace, WorkspacePackage, entry_targets, first_resolved, in_package, in_workspace,
  resolve_workspace_specifier, scoped_specifier,
}
use codewatch.Base.{
  glue, true, All, none, refl, inr, inl, string_eq, ◌∙◌, sym, ap, arith, contains_iff, contains,
  some, ◌∷◌, ◌≡◌, lookup, Memᴰ, [], String, Option, List,
}

module _ (file_ids : List String) (workspace : Workspace) where
  first_resolved_known :
      (manifest_path : String) (ts : List String) (found : String)
      → first_resolved file_ids manifest_path ts ≡ some found
      → contains file_ids found ≡ true
  first_resolved_known manifest_path [] found h = cc
  first_resolved_known manifest_path (t ∷ ts) found h =
      elim (resolve_relative_specifier_lem manifest_path (glue "./" t) file_ids) [
        | inl (u, e, d, (before, ending, after, split, glued, c, unknown)) ↦
            let same : u ≡ found = ground (arith, h, e) in ap (contains file_ids) (sym same) ∙ c
        | inr (e, why) ↦ first_resolved_known manifest_path ts found (ground (arith, h, e))
      ]

  in_package_known :
      (subpath : String) (o : Option WorkspacePackage) (found : String)
      → in_package file_ids subpath o ≡ some found
      → contains file_ids found ≡ true
  in_package_known subpath none found h = cc
  in_package_known subpath (some pkg) found h =
      first_resolved_known pkg.manifest_path (entry_targets pkg.manifest subpath) found h

  in_workspace_known :
      (o : Option (String × String)) (found : String)
      → in_workspace file_ids workspace o ≡ some found
      → contains file_ids found ≡ true
  in_workspace_known none found h = cc
  in_workspace_known (some (name, subpath)) found h =
      in_package_known subpath (lookup workspace name) found h

  resolve_workspace_specifier_known :
      (spec found : String)
      → resolve_workspace_specifier file_ids workspace spec ≡ some found
      → contains file_ids found ≡ true
  unfolding resolve_workspace_specifier
  resolve_workspace_specifier_known spec found h =
      in_workspace_known (scoped_specifier spec) found h

  resolved_known :
      (file spec found : String)
      → first_of
          (resolve_relative_specifier file spec file_ids)
          (resolve_workspace_specifier file_ids workspace spec)
        ≡ some found
      → Memᴰ found file_ids
  resolved_known file spec found h = elim (resolve_relative_specifier_lem file spec file_ids) [
    | inl (t, e, d, (before, ending, after, split, glued, c, unknown)) ↦
        let same : t ≡ found = ground (arith, h, e) in
        (contains_iff file_ids found).0 (ap (contains file_ids) (sym same) ∙ c)
    | inr (e, why) ↦
        (contains_iff file_ids found).0
          (resolve_workspace_specifier_known spec found (ground (arith, h, e)))
  ]

  add_target_known :
      (o : Option String) (ts : List String)
      → ((t : String) → o ≡ some t → Memᴰ t file_ids)
      → All (λ t. Memᴰ t file_ids) ts
      → All (λ t. Memᴰ t file_ids) (add_target o ts)
  add_target_known none ts h a = a
  add_target_known (some t) ts h a = (h t refl, a)

  pub targets_of_known :
      (file : String) (specs : List String)
      → All (λ t. Memᴰ t file_ids) (targets_of file_ids workspace file specs)
  targets_of_known file [] = tt
  targets_of_known file (spec ∷ specs) =
      add_target_known
        (first_of (resolve_relative_specifier file spec file_ids)
          (resolve_workspace_specifier file_ids workspace spec))
        (targets_of file_ids workspace file specs) (resolved_known file spec)
        (targets_of_known file specs)
