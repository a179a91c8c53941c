-- ===== src/Eval/Screen/Tests.antt =====
-- Small cases of the screen of mined candidates.
use codewatch.Eval.Hardness.{EditFileLight}
use codewatch.Eval.Hardness.Hunk.{DarkHunkKind}
use codewatch.Eval.Screen.{
  EditFileScreen, ScreenVerdict, dark_of, hardness_features, is_export_only, screen_verdict,
}
use codewatch.Eval.Screen.Verdict.{is_hard, screen_verdict_lem}
use codewatch.Eval.Screen.Diff.{parse_diff_hunks}
use codewatch.Eval.Screen.Diff.Printed.{BodyLine, FilePatch, changes, patch_text, body_text}
use codewatch.HunkHeader.{hunk_header, number}
use codewatch.Eval.Localize.{
  DiffLocation, parse_diff_locations, flush, parse_lines, parse_line, diff_header, start_file,
  old_side_file, new_side_file, start_hunk, hunk_body, strip_side, before_last_b, header_name,
  rename_file,
}
use codewatch.Eval.Screen.Diff.Roundtrip.{parse_diff_hunks-printed}
use codewatch.Base.{
  sort_by, trim_end, trim_start, strip_prefix, lines_of, ◌+◌, ◌<◌, refl, keep, ◌++◌, length, true,
  flat_map, ◌≤◌, [], some, glue, ◌↔◌, String, strip_prefix, ◌≡◌, lines_of, ◌∷◌, List,
}

abbrev dark_file : String → DarkHunkKind → EditFileScreen
dark_file path kind = record {
  path = path;
  light = EditFileLight.dark;
  hop = some 2;
  hunk_kind = some kind;
  second_order_dark = some true;
}

abbrev screened : List EditFileScreen
screened =
    dark_file "src/a.ts" DarkHunkKind.logic
    ∷ (dark_file "src/b.ts" DarkHunkKind.export_only
        ∷ (dark_file "src/c.ts" DarkHunkKind.comment_only ∷ []))

screen_verdict_lem_example :
    ((screen_verdict (hardness_features screened) 2 ≡ ScreenVerdict.pass)
      ↔ (2 ≤ length (keep is_hard screened)))
    × ((screen_verdict (hardness_features screened) 2 ≡ ScreenVerdict.trivial_rejected) ↔ (
        (length (keep is_hard screened) < 2)
        × (2
            ≤ length (keep is_hard screened)
              + length (keep (λ f. is_export_only f.hunk_kind) (dark_of screened)))))
screen_verdict_lem_example = screen_verdict_lem screened 2

-- The last line added looks like the header of a file.
abbrev patches : List FilePatch
patches =
    record {
      names = "a/x b/x";
      between = "--- a/x" ∷ [];
      path = "x";
      hunks =
          record {
            header = " -1,2 +1,2 @@";
            body = BodyLine.context "one" ∷ (BodyLine.minus "two" ∷ (BodyLine.plus "++ b/y" ∷ []));
          }
          ∷ [];
    }
    ∷ []

abbrev printed : String
printed = "diff --git a/x b/x\n--- a/x\n+++ b/x\n@@ -1,2 +1,2 @@\n one\n-two\n+++ b/y\n"

printed_lines : lines_of printed ≡ flat_map patch_text patches ++ "" ∷ []
unfolding lines_of body_text glue
printed_lines = refl

-- Line 2 goes, and what comes in its place stands after it.
abbrev in_x : DiffLocation
in_x = record { file = "x"; parent_lines = 2 ∷ [] }

parent_lines_of_x : parse_diff_locations printed ≡ in_x ∷ []
unfolding parse_diff_locations lines_of strip_prefix trim_end trim_start hunk_header number sort_by
    flush parse_lines parse_line diff_header start_file old_side_file new_side_file start_hunk
    hunk_body strip_side before_last_b header_name rename_file
parent_lines_of_x = refl

parse_diff_hunks-printed_example : parse_diff_hunks printed ≡ changes [] patches
unfolding strip_prefix
parse_diff_hunks-printed_example =
    parse_diff_hunks-printed printed patches (((refl, refl, refl), tt), tt) printed_lines
