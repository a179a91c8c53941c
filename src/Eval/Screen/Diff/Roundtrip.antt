-- ===== src/Eval/Screen/Diff/Roundtrip.antt =====
-- What parseDiffHunks reads from a whole diff.
use mathlib.Core.List.{append_assoc}
use codewatch.Eval.Hardness.Hunk.{HunkLines}
use codewatch.Eval.Screen.Diff.{
  start, no_lines, parse_diff_hunks, HunkState, hunk_line, hunk_lines, push_line,
}
use codewatch.Eval.Screen.Diff.Printed.{
  FilePatch, hunk_text, patch_text, IsPlain, changes_of, changes, inside, entered,
  hunk_lines-append, insert_again, lookup_inserted, each_hunk,
}
use codewatch.Base.{
  or_else, lines_of, ◌∙◌, All, ap, false, refl, none, string_eq, true, insert, Bool, ◌≡◌, [], glue,
  ◌++◌, String, strip_prefix, ◌∷◌, flat_map, JsMap, List,
}

abbrev outside : JsMap String HunkLines → HunkState
outside out = record { out = out; current = none; in_hunk = false }

passed_over :
    (out : JsMap String HunkLines) (l : String)
    → IsPlain l
    → hunk_line (outside out) l ≡ outside out
unfolding hunk_line
passed_over out l (git, new, hunk) = rw (git, new, hunk) refl

passed_each :
    (out : JsMap String HunkLines) (ls : List String)
    → All IsPlain ls
    → hunk_lines (outside out) ls ≡ outside out
unfolding hunk_lines
passed_each out [] h = refl
passed_each out (l ∷ ls) (p, h) =
    ap (λ st. hunk_lines st ls) (passed_over out l p) ∙ passed_each out ls h

begun : (st : HunkState) (names : String) → hunk_line st (glue "diff --git " names) ≡ outside st.out
unfolding hunk_line glue strip_prefix
begun st names = refl

named_file :
    (out : JsMap String HunkLines) (path : String)
    → hunk_line (outside out) (glue "+++ b/" path) ≡ inside out path no_lines false
unfolding hunk_line glue strip_prefix
named_file out path = refl

one_patch :
    (st : HunkState) (p : FilePatch)
    → All IsPlain p.between
    → hunk_lines st (patch_text p)
      ≡ inside st.out p.path (changes_of p.hunks) (entered false p.hunks)
unfolding hunk_lines
one_patch st p plain =
    let after = glue "+++ b/" p.path ∷ flat_map hunk_text p.hunks in
    ap (λ s. hunk_lines s (p.between ++ after)) (begun st p.names)
    ∙ hunk_lines-append (outside st.out) p.between after
    ∙ ap (λ s. hunk_lines s after) (passed_each st.out p.between plain)
    ∙ ap (λ s. hunk_lines s (flat_map hunk_text p.hunks)) (named_file st.out p.path)
    ∙ each_hunk st.out p.path no_lines false p.hunks

-- An empty line changes nothing.
abbrev IsSettled : HunkState → Type 0
IsSettled st = (hunk_line st "").out ≡ st.out

inside-IsSettled :
    (out : JsMap String HunkLines) (path : String) (h : HunkLines) (b : Bool)
    → IsSettled (inside out path h b)
unfolding hunk_line strip_prefix
inside-IsSettled out path h false = refl
inside-IsSettled out path h true =
    ap (λ o. insert (insert out path h) path (push_line (or_else o no_lines) ""))
      (lookup_inserted out path h)
    ∙ insert_again out path h h

each_patch :
    (st : HunkState) (ps : List FilePatch)
    → All (λ p. All IsPlain p.between) ps
    → IsSettled st
    → (hunk_lines st (flat_map patch_text ps ++ "" ∷ [])).out ≡ changes st.out ps
each_patch st [] h settled = unfold hunk_lines in settled
each_patch st (p ∷ ps) (q, h) settled =
    let next = inside st.out p.path (changes_of p.hunks) (entered false p.hunks) in
    let after = flat_map patch_text ps ++ "" ∷ [] in
    ap (λ ls. (hunk_lines st ls).out)
      (append_assoc (patch_text p) (flat_map patch_text ps) ("" ∷ []))
    ∙ ap (λ s. s.out) (hunk_lines-append st (patch_text p) after)
    ∙ ap (λ s. (hunk_lines s after).out) (one_patch st p q)
    ∙ each_patch next ps h
        (inside-IsSettled st.out p.path (changes_of p.hunks) (entered false p.hunks))

start-IsSettled : IsSettled start
unfolding hunk_line strip_prefix
start-IsSettled = refl

-- From a diff whose lines are those that git prints for some files, and an empty last one, where no
-- line between the names and the new side is read as another header, come each file's added and
-- removed lines without their signs, in order, under its new path; if a path stands twice, the
-- later ones.
pub parse_diff_hunks-printed :
    (diff : String) (ps : List FilePatch)
    → All (λ p. All IsPlain p.between) ps
    → lines_of diff ≡ flat_map patch_text ps ++ "" ∷ []
    → parse_diff_hunks diff ≡ changes [] ps
unfolding parse_diff_hunks
parse_diff_hunks-printed diff ps plain lines =
    ap (λ ls. (hunk_lines start ls).out) lines ∙ each_patch start ps plain start-IsSettled
