-- ===== src/Eval/Screen/Diff/Printed.antt =====
-- A diff as git prints it, and what parseDiffHunks reads from its hunks.
use text.Mathlib.TextEquality.{eq_iff}
use mathlib.Core.List.{append_assoc, append-nil}
use codewatch.Eval.Hardness.Hunk.{HunkLines}
use codewatch.Eval.Screen.Diff.{no_lines, HunkState, body_line, hunk_line, hunk_lines, push_line}
use codewatch.Base.{
  or_else, lookup-insert, ◌∙◌, ap, lookup, false, refl, none, string_eq, some, true, sym, arith,
  insert, Bool, map, ◌≡◌, [], glue, ◌++◌, String, strip_prefix, ◌∷◌, flat_map, JsMap, List,
}

pub data BodyLine : Type 0 where
  context : String → BodyLine
  plus : String → BodyLine
  minus : String → BodyLine
  remark : String → BodyLine

pub record Hunk : Type 0 where
  pub header : String
  pub body : List BodyLine

pub record FilePatch : Type 0 where
  pub names : String
  pub between : List String
  pub path : String
  pub hunks : List Hunk

unfoldable pub body_text : BodyLine → String
body_text (BodyLine.context s) = glue " " s
body_text (BodyLine.plus s) = glue "+" s
body_text (BodyLine.minus s) = glue "-" s
body_text (BodyLine.remark s) = glue "\\" s

abbrev pub hunk_text : Hunk → List String
hunk_text h = glue "@@" h.header ∷ map body_text h.body

abbrev pub patch_text : FilePatch → List String
patch_text p =
    glue "diff --git " p.names ∷ (p.between ++ glue "+++ b/" p.path ∷ flat_map hunk_text p.hunks)

-- A line that begins no file, no new side and no hunk.
abbrev pub IsPlain : String → Type 0
IsPlain l =
    (strip_prefix "diff --git " l ≡ none)
    × (strip_prefix "+++ b/" l ≡ none)
    × (strip_prefix "@@" l ≡ none)

abbrev pub added_in : List BodyLine → List String
added_in [] = []
added_in (BodyLine.context s ∷ bs) = added_in bs
added_in (BodyLine.plus s ∷ bs) = s ∷ added_in bs
added_in (BodyLine.minus s ∷ bs) = added_in bs
added_in (BodyLine.remark s ∷ bs) = added_in bs

abbrev pub removed_in : List BodyLine → List String
removed_in [] = []
removed_in (BodyLine.context s ∷ bs) = removed_in bs
removed_in (BodyLine.plus s ∷ bs) = removed_in bs
removed_in (BodyLine.minus s ∷ bs) = s ∷ removed_in bs
removed_in (BodyLine.remark s ∷ bs) = removed_in bs

abbrev pub changes_of : List Hunk → HunkLines
changes_of hs = record {
  added = flat_map (λ h. added_in h.body) hs;
  removed = flat_map (λ h. removed_in h.body) hs;
}

abbrev pub changes : JsMap String HunkLines → List FilePatch → JsMap String HunkLines
changes out [] = out
changes out (p ∷ ps) = changes (insert out p.path (changes_of p.hunks)) ps

abbrev combined : HunkLines → HunkLines → HunkLines
combined h k = record { added = h.added ++ k.added; removed = h.removed ++ k.removed }

pub hunk_lines-append :
    (st : HunkState) (xs ys : List String)
    → hunk_lines st (xs ++ ys) ≡ hunk_lines (hunk_lines st xs) ys
unfolding hunk_lines
hunk_lines-append st [] ys = refl
hunk_lines-append st (x ∷ xs) ys = hunk_lines-append (hunk_line st x) xs ys

pub insert_again :
    (m : JsMap String HunkLines) (k : String) (v w : HunkLines)
    → insert (insert m k v) k w ≡ insert m k w
insert_again [] k v w = ground (arith, eq_iff k k)
insert_again ((j, u) ∷ m) k v w = ground (arith, insert_again m k v w, eq_iff j k)

-- In a hunk of `path`, whose lines so far are `h`.
abbrev pub inside : JsMap String HunkLines → String → HunkLines → Bool → HunkState
inside out path h b = record { out = insert out path h; current = some path; in_hunk = b }

abbrev one : BodyLine → HunkLines
one b = record { added = added_in (b ∷ []); removed = removed_in (b ∷ []) }

push_line-body_text :
    (h : HunkLines) (b : BodyLine) → push_line h (body_text b) ≡ combined h (one b)
unfolding body_text glue
push_line-body_text h (BodyLine.context s) =
    λ i. record { added = sym (append-nil h.added) i; removed = sym (append-nil h.removed) i }
push_line-body_text h (BodyLine.plus s) =
    λ i. record { added = h.added ++ s ∷ []; removed = sym (append-nil h.removed) i }
push_line-body_text h (BodyLine.minus s) =
    λ i. record { added = sym (append-nil h.added) i; removed = h.removed ++ s ∷ [] }
push_line-body_text h (BodyLine.remark s) =
    λ i. record { added = sym (append-nil h.added) i; removed = sym (append-nil h.removed) i }

hunk_line-body_line :
    (st : HunkState) (b : BodyLine)
    → st.in_hunk ≡ true
    → hunk_line st (body_text b) ≡ body_line st (body_text b)
unfolding hunk_line body_text glue strip_prefix
hunk_line-body_line st (BodyLine.context s) h = rw h refl
hunk_line-body_line st (BodyLine.plus s) h = rw h refl
hunk_line-body_line st (BodyLine.minus s) h = rw h refl
hunk_line-body_line st (BodyLine.remark s) h = rw h refl

pub lookup_inserted :
    (m : JsMap String HunkLines) (k : String) (v : HunkLines) → lookup (insert m k v) k ≡ some v
lookup_inserted m k v = ground (arith, lookup-insert m k k v, eq_iff k k)

-- A line of a hunk joins the lines of its file.
one_line :
    (out : JsMap String HunkLines) (path : String) (h : HunkLines) (b : BodyLine)
    → hunk_line (inside out path h true) (body_text b) ≡ inside out path (combined h (one b)) true
one_line out path h b =
    hunk_line-body_line (inside out path h true) b refl
    ∙ ap
        (λ o. record {
          out = insert (insert out path h) path (push_line (or_else o no_lines) (body_text b));
          current = some path;
          in_hunk = true;
        })
        (lookup_inserted out path h)
    ∙ ap (λ m. record { out = m; current = some path; in_hunk = true })
        (insert_again out path h (push_line h (body_text b)))
    ∙ ap (λ k. inside out path k true) (push_line-body_text h b)

combined_assoc : (a b c : HunkLines) → combined (combined a b) c ≡ combined a (combined b c)
combined_assoc a b c = λ i. record {
  added = append_assoc a.added b.added c.added i;
  removed = append_assoc a.removed b.removed c.removed i;
}

combined_none : (a : HunkLines) → combined a no_lines ≡ a
combined_none a = λ i. record { added = append-nil a.added i; removed = append-nil a.removed i }

abbrev body_changes : List BodyLine → HunkLines
body_changes bs = record { added = added_in bs; removed = removed_in bs }

body_changes-cons :
    (b : BodyLine) (bs : List BodyLine) → body_changes (b ∷ bs) ≡ combined (one b) (body_changes bs)
body_changes-cons (BodyLine.context s) bs = refl
body_changes-cons (BodyLine.plus s) bs = refl
body_changes-cons (BodyLine.minus s) bs = refl
body_changes-cons (BodyLine.remark s) bs = refl

each_line :
    (out : JsMap String HunkLines) (path : String) (h : HunkLines) (bs : List BodyLine)
    → hunk_lines (inside out path h true) (map body_text bs)
      ≡ inside out path (combined h (body_changes bs)) true
unfolding hunk_lines
each_line out path h [] = ap (λ k. inside out path k true) (sym (combined_none h))
each_line out path h (b ∷ bs) =
    ap (λ st. hunk_lines st (map body_text bs)) (one_line out path h b)
    ∙ each_line out path (combined h (one b)) bs
    ∙ ap (λ k. inside out path k true)
        (combined_assoc h (one b) (body_changes bs)
          ∙ ap (combined h) (sym (body_changes-cons b bs)))

-- A header of a hunk opens it.
opened :
    (out : JsMap String HunkLines) (path : String) (h : HunkLines) (b : Bool) (header : String)
    → hunk_line (inside out path h b) (glue "@@" header) ≡ inside out path h true
unfolding hunk_line glue strip_prefix
opened out path h true header = refl
opened out path h false header = refl

abbrev pub entered : Bool → List Hunk → Bool
entered b [] = b
entered b (h ∷ hs) = entered true hs

pub each_hunk :
    (out : JsMap String HunkLines) (path : String) (h : HunkLines) (b : Bool) (hs : List Hunk)
    → hunk_lines (inside out path h b) (flat_map hunk_text hs)
      ≡ inside out path (combined h (changes_of hs)) (entered b hs)
unfolding hunk_lines
each_hunk out path h b [] = ap (λ k. inside out path k b) (sym (combined_none h))
each_hunk out path h b (x ∷ hs) =
    ap (λ st. hunk_lines st (map body_text x.body ++ flat_map hunk_text hs))
      (opened out path h b x.header)
    ∙ hunk_lines-append (inside out path h true) (map body_text x.body) (flat_map hunk_text hs)
    ∙ ap (λ st. hunk_lines st (flat_map hunk_text hs)) (each_line out path h x.body)
    ∙ each_hunk out path (combined h (body_changes x.body)) true hs
    ∙ ap (λ k. inside out path k (entered true hs))
        (combined_assoc h (body_changes x.body) (changes_of hs))
