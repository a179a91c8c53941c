-- ===== src/Eval/Screen.antt =====
-- packages/cli/src/eval/coding-screen.ts: the screen of a mined candidate by the darkness, reach and
-- change of its edit files.
pub mod Verdict
pub mod Diff
mod Tests
use codewatch.Eval.Stratify.{Stratum, dominant_stratum}
use codewatch.Eval.Hardness.{
  DocumentFrequency, EditFileInput, EditFileLight, TestContext, classify_edit_file,
  is_second_order_dark,
}
use codewatch.Eval.Hardness.Hunk.{DarkHunkKind, HunkLines, dark_hunk_kind}
use codewatch.Base.{
  string_eq, ◌++◌, ◌-◌, ltb, ◌==◌, leb, not, true, flat_map, some, ◌&&◌, none, ◌∷◌, if◌then◌else◌,
  lookup, false, [], Option, ℕ, JsMap, Bool, keep, map, or_else, length, String, List,
}

-- `hunk_kind` and `second_order_dark` are of dark files only.
pub record EditFileScreen : Type 0 where
  pub path : String
  pub light : EditFileLight
  pub hop : Option ℕ
  pub hunk_kind : Option DarkHunkKind
  pub second_order_dark : Option Bool

pub record HardnessFeatures : Type 0 where
  pub dark_files : ℕ
  pub trivial_dark_files : ℕ
  pub dark_reachable : ℕ
  pub max_hop : Option ℕ
  pub second_order_dark : ℕ
  pub files : List EditFileScreen

pub record ScreenInput : Type 0 where
  pub edits : List EditFileInput
  pub ctx : TestContext
  pub hunks : JsMap String HunkLines
  pub hops : JsMap String (Option ℕ)
  pub df : DocumentFrequency

pub data ScreenVerdict : Type 0 where
  pass : ScreenVerdict
  dark_rejected : ScreenVerdict
  trivial_rejected : ScreenVerdict

abbrev pub is_dark : EditFileLight → Bool
is_dark EditFileLight.dark = true
is_dark _ = false

abbrev empty_hunk : HunkLines
empty_hunk = record { added = []; removed = [] }

unfoldable pub other_changed_lines : String → JsMap String HunkLines → List String
other_changed_lines path hunks =
    flat_map (λ e. if e.0 == path then [] else e.1.added ++ e.1.removed) hunks

unfoldable pub screen_edit_file : ScreenInput → EditFileInput → EditFileScreen
screen_edit_file input edit =
    let light = classify_edit_file edit input.ctx in
    let hop = or_else (lookup input.hops edit.path) none in
    if not (is_dark light)
    then record {
      path = edit.path;
      light = light;
      hop = hop;
      hunk_kind = none;
      second_order_dark = none;
    }
    else record {
      path = edit.path;
      light = light;
      hop = hop;
      hunk_kind = some (dark_hunk_kind (or_else (lookup input.hunks edit.path) empty_hunk));
      second_order_dark = some (
          is_second_order_dark edit.parent_content (other_changed_lines edit.path input.hunks)
            input.df);
    }

unfoldable pub screen_edit_files : ScreenInput → List EditFileScreen
screen_edit_files input = map (screen_edit_file input) input.edits

abbrev pub is_comment_only : Option DarkHunkKind → Bool
is_comment_only (some DarkHunkKind.comment_only) = true
is_comment_only _ = false

abbrev pub is_export_only : Option DarkHunkKind → Bool
is_export_only (some DarkHunkKind.export_only) = true
is_export_only _ = false

abbrev is_reached_late : Option ℕ → Bool
is_reached_late none = false
is_reached_late (some hop) = leb 2 hop

-- `Math.max(...reached)`, where anything is reached.
abbrev max_of : Option ℕ → List EditFileScreen → Option ℕ
max_of m [] = m
max_of m (f ∷ fs) =
    max_of
      (elim f.hop [ none ↦ m | some h ↦ some (let b = or_else m h in if leb b h then h else b) ]) fs

abbrev pub dark_of : List EditFileScreen → List EditFileScreen
dark_of = keep (λ f. is_dark f.light && not (is_comment_only f.hunk_kind))

unfoldable pub hardness_features : List EditFileScreen → HardnessFeatures
hardness_features files =
    let dark = dark_of files in
    record {
      dark_files = length dark;
      trivial_dark_files = length (keep (λ f. is_export_only f.hunk_kind) dark);
      dark_reachable = length (keep (λ f. is_reached_late f.hop) dark);
      max_hop = max_of none files;
      second_order_dark = length (keep (λ f. or_else f.second_order_dark false) dark);
      files = files;
    }

-- The trivial dark files are some of the dark ones, so the difference does not stop at 0.
unfoldable pub screen_verdict : HardnessFeatures → ℕ → ScreenVerdict
screen_verdict h min_dark =
    if ltb h.dark_files min_dark
    then ScreenVerdict.dark_rejected
    else if ltb (h.dark_files - h.trivial_dark_files) min_dark
    then ScreenVerdict.trivial_rejected
    else ScreenVerdict.pass

abbrev light_stratum : EditFileLight → Stratum
light_stratum EditFileLight.dark = Stratum.structurally_hidden
light_stratum EditFileLight.test_imported = Stratum.import_chain_reachable
light_stratum EditFileLight.added = Stratum.semantic_findable
light_stratum EditFileLight.shares_basename = Stratum.semantic_findable
light_stratum EditFileLight.shares_identifier = Stratum.semantic_findable

unfoldable pub stratum_of : List EditFileScreen → Stratum
stratum_of files = dominant_stratum (map (λ f. light_stratum f.light) files)
