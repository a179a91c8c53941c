-- ===== src/Eval/Hardness/Lines.antt =====
-- The patterns of packages/cli/src/eval/coding-hardness.ts on one line: re-exports and type lines.
use Prim.Native.Char.{Char, code}
use codewatch.Base.{
  string_eq, ◌==◌, is_empty, ◌&&◌, not, trim_start, is_white, eqb, ◌||◌, push_front, false,
  strip_prefix, trim, true, some, is_some, none, leb, or_else, if◌then◌else◌, Option, String, Bool,
}

-- The white space at the front taken off, where there is some.
abbrev pub after_white : String → Option String
after_white String.[] = none
after_white (String.◌∷◌ c s) = if is_white c then some (trim_start s) else none

abbrev after_text : Option String → Option String
after_text none = none
after_text (some rest) = after_white rest

-- A word and the white space after it taken off.
abbrev pub after_word : String → String → Option String
after_word w s = after_text (strip_prefix w s)

-- The same, where the word may be missing.
abbrev past_word : String → String → String
past_word w s = or_else (after_word w s) s

-- `\w`, and `$` where `dollar` is true.
abbrev is_word_char : Bool → Char → Bool
is_word_char dollar c =
    let n = code c in
    leb 65 n && leb n 90
    || leb 97 n && leb n 122
    || leb 48 n && leb n 57
    || eqb n 95
    || dollar && eqb n 36

abbrev past_name : Bool → Bool → String → Option String
past_name dollar seen String.[] = if seen then some "" else none
past_name dollar seen (String.◌∷◌ c s) =
    let more = past_name dollar true s in
    if is_word_char dollar c then more else if seen then some (push_front c s) else none

-- `[^}]*}`
abbrev past_brace : String → Option String
past_brace String.[] = none
past_brace (String.◌∷◌ c s) = let more = past_brace s in if eqb (code c) 125 then some s else more

-- `\*|\{[^}]*\}`
abbrev past_names : String → Option String
past_names String.[] = none
past_names (String.◌∷◌ c s) =
    if eqb (code c) 42 then some s else if eqb (code c) 123 then past_brace s else none

abbrev named_as : Option String → Option String
named_as none = none
named_as (some rest) = after_text (past_name false false rest)

-- `(as\s+\w+\s+)?from\s`
abbrev from_follows : String → Bool
from_follows s = is_some (after_word "from" (or_else (named_as (after_word "as" s)) s))

abbrev names_from : Option String → Bool
names_from none = false
names_from (some rest) = from_follows (trim_start rest)

abbrev re_exported : Option String → Bool
re_exported none = false
re_exported (some rest) = names_from (past_names (past_word "type" rest))

-- `/^export\s+(type\s+)?(\*|\{[^}]*\})\s*(as\s+\w+\s+)?from\s/`
unfoldable pub is_re_export : String → Bool
is_re_export line = re_exported (after_word "export" (trim line))

-- `/^(export\s+)?(declare\s+)?(type|interface)\s/`
abbrev declares_type : String → Bool
declares_type t =
    let rest = past_word "declare" (past_word "export" t) in
    is_some (after_word "type" rest) || is_some (after_word "interface" rest)

abbrev imports_type : Option String → Bool
imports_type none = false
imports_type (some rest) = is_some (after_word "type" rest)

abbrev no_equals : String → Bool
no_equals String.[] = true
no_equals (String.◌∷◌ c s) = not (eqb (code c) 61) && no_equals s

-- `:\s*[^=]+;?$`
abbrev typed : Option String → Bool
typed none = false
typed (some rest) = not (rest == "") && no_equals rest

abbrev member_end : Option String → Bool
member_end none = false
member_end (some rest) =
    typed (strip_prefix ":" (trim_start (or_else (strip_prefix "?" rest) rest)))

-- `/^(readonly\s+)?[\w$]+\??\s*:\s*[^=]+;?$/`
abbrev is_member : String → Bool
is_member t =
    member_end (past_name true false (past_word "readonly" t))
    || member_end (past_name true false t)

-- `replace(/=>/g, "")`
abbrev drop_arrows : String → String
drop_arrows String.[] = ""
drop_arrows (String.◌∷◌ c String.[]) = push_front c ""
drop_arrows (String.◌∷◌ c (String.◌∷◌ d s)) =
    let past = drop_arrows s in
    let on = push_front c (drop_arrows (String.◌∷◌ d s)) in
    if eqb (code c) 61 && eqb (code d) 62 then past else on

abbrev ends_with_comma : String → Bool
ends_with_comma String.[] = false
ends_with_comma (String.◌∷◌ c s) = eqb (code c) 44 && is_empty s || ends_with_comma s

unfoldable pub is_type_line : String → Bool
is_type_line line =
    let t = drop_arrows (trim line) in
    if ends_with_comma t
    then false
    else is_re_export t
      || declares_type t
      || imports_type (after_word "import" t)
      || is_member t
      || is_some (strip_prefix "|" t)
