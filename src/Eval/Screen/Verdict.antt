-- ===== src/Eval/Screen/Verdict.antt =====
-- What the verdict of the screen counts.
use codewatch.Eval.Screen.{
  EditFileScreen, ScreenVerdict, hardness_features, is_comment_only, is_dark, is_export_only,
  screen_verdict, dark_of,
}
use codewatch.Base.{[], ◌∷◌, arith, ◌<◌, ◌≤◌, ◌+◌, ◌↔◌, keep, not, ◌&&◌, ◌≡◌, Bool, length, ℕ, List}

-- Dark with a change that is more than comments and exports.
abbrev pub is_hard : EditFileScreen → Bool
is_hard f = is_dark f.light && not (is_comment_only f.hunk_kind) && not (is_export_only f.hunk_kind)

-- The dark files are the hard ones and those with an export-only change.
split_dark :
    (files : List EditFileScreen)
    → length (dark_of files)
      ≡ length (keep (λ f. is_export_only f.hunk_kind) (dark_of files))
        + length (keep is_hard files)
split_dark [] = omega arith
split_dark (f ∷ files) = ground (arith, split_dark files)

-- A candidate passes exactly if it has at least `min_dark` hard files. It is turned down as trivial
-- exactly if it has fewer, and enough once the files with an export-only change count too.
pub screen_verdict_lem :
    (files : List EditFileScreen) (min_dark : ℕ)
    → ((screen_verdict (hardness_features files) min_dark ≡ ScreenVerdict.pass)
        ↔ (min_dark ≤ length (keep is_hard files)))
      × ((screen_verdict (hardness_features files) min_dark ≡ ScreenVerdict.trivial_rejected) ↔ (
          (length (keep is_hard files) < min_dark)
          × (min_dark
              ≤ length (keep is_hard files)
                + length (keep (λ f. is_export_only f.hunk_kind) (dark_of files)))))
unfolding screen_verdict hardness_features
screen_verdict_lem files min_dark = ground (arith, split_dark files)
