-- ===== src/Base/Text.antt =====
-- Path texts, walked character by character: the segment before the first `/` (`split("/")[0]`),
-- the part before the last one (`lastIndexOf("/")`), and a prefix taken off.
use Prim.Native.Nat.{ℕ, zero, suc, ◌+◌, ◌-◌}
use Prim.Native.Char.{Char, code}
use Prim.Native.String.{String}
use mathlib.Core.Bool.{Bool, true, false, ◌&&◌, ◌||◌}
use mathlib.Core.Option.{Option, none, some}
use mathlib.Core.List.{List, [], ◌∷◌}
use codewatch.Base.Tests.{eqb, ltb, leb, if◌then◌else◌}

abbrev pub same_char : Char → Char → Bool
same_char c d = eqb (code c) (code d)

abbrev pub is_slash : Char → Bool
is_slash c = eqb (code c) b'/'

abbrev pub push_front : Char → String → String
push_front c s = String.◌∷◌ c s

unfoldable pub first_segment : String → String
first_segment String.[] = ""
first_segment (String.◌∷◌ c s) = if is_slash c then "" else push_front c (first_segment s)

abbrev grow_last : Char → Option String → Option String
grow_last c none = if is_slash c then some "" else none
grow_last c (some p) = some (push_front c p)

-- `none` where there is no slash.
unfoldable pub before_last_slash : String → Option String
before_last_slash String.[] = none
before_last_slash (String.◌∷◌ c s) = grow_last c (before_last_slash s)

unfoldable pub strip_prefix : String → String → Option String
strip_prefix String.[] s = some s
strip_prefix (String.◌∷◌ c p) String.[] = none
strip_prefix (String.◌∷◌ c p) (String.◌∷◌ d s) = if same_char c d then strip_prefix p s else none

abbrev grow_head : Char → List String → List String
grow_head c [] = push_front c "" ∷ []
grow_head c (seg ∷ segs) = push_front c seg ∷ segs

-- `split("/")`
unfoldable pub segments : String → List String
segments String.[] = "" ∷ []
segments (String.◌∷◌ c s) = if is_slash c then "" ∷ segments s else grow_head c (segments s)

-- The white space and line ends that `trim` removes.
abbrev pub is_white : Char → Bool
is_white c =
    let n = code c in
    leb 9 n && leb n 13
    || eqb n 32
    || eqb n 160
    || eqb n 5760
    || leb 8192 n && leb n 8202
    || eqb n 8232
    || eqb n 8233
    || eqb n 8239
    || eqb n 8287
    || eqb n 12288
    || eqb n 65279

unfoldable pub trim_start : String → String
trim_start String.[] = ""
trim_start (String.◌∷◌ c s) = if is_white c then trim_start s else push_front c s

abbrev pub is_empty : String → Bool
is_empty String.[] = true
is_empty (String.◌∷◌ c s) = false

abbrev pub grow_trimmed : Char → String → String
grow_trimmed c s = if is_white c && is_empty s then "" else push_front c s

unfoldable pub trim_end : String → String
trim_end String.[] = ""
trim_end (String.◌∷◌ c s) = grow_trimmed c (trim_end s)

abbrev pub trim : String → String
trim s = trim_end (trim_start s)

-- `length`, which counts UTF-16 units.
unfoldable pub units : String → ℕ
units String.[] = 0
units (String.◌∷◌ c s) = (if ltb (code c) 65536 then 1 else 2) + units s

-- `s + t`
unfoldable pub glue : String → String → String
glue String.[] t = t
glue (String.◌∷◌ c s) t = push_front c (glue s t)

abbrev pub chars : String → ℕ
chars String.[] = 0
chars (String.◌∷◌ c s) = suc (chars s)

-- `text.split(line).join(word)`, where `line` is the text `push_front c l`: `skip` counts the
-- characters of a match that are still to be passed over.
unfoldable pub replace_all : Char → String → String → ℕ → String → String
replace_all c l word skip String.[] = ""
replace_all c l word (suc skip) (String.◌∷◌ d s) = replace_all c l word skip s
replace_all c l word zero (String.◌∷◌ d s) = elim (strip_prefix (push_front c l) (push_front d s)) [
  | none ↦ push_front d (replace_all c l word zero s)
  | some rest ↦ glue word (replace_all c l word (chars l) s)
]

-- `slice(0, n)`; a character of two units that `n` would cut in half goes too.
unfoldable pub first_units : ℕ → String → String
first_units n String.[] = ""
first_units n (String.◌∷◌ c s) =
    let u = if ltb (code c) 65536 then 1 else 2 in
    let rest = first_units (n - u) s in if ltb n u then "" else push_front c rest

-- `whole.includes(part)`
unfoldable pub includes : String → String → Bool
unfolding strip_prefix
includes String.[] part = is_empty part
includes (String.◌∷◌ c s) part = elim (strip_prefix part (push_front c s)) [
  | some rest ↦ true
  | none ↦ includes s part
]
