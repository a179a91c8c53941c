-- ===== src/Triage/Verify/Keys.antt =====
-- packages/cli/src/commands/triage-verify.ts, normaliseKey: a key copied together with the
-- brackets of its question's header is the key.
use Prim.Native.Char.{Char}
use codewatch.Base.{
  arith, ◌∙◌, grow_trimmed, refl, is_empty, ap, false, ◌≡◌, String, glue, trim_end, trim_start,
  push_front, trim,
}
use codewatch.Triage.Verify.{normalise_key, before_close, drop_open, is_close}

abbrev pub HasNoClose : String → Type 0
HasNoClose String.[] = Unit
HasNoClose (String.◌∷◌ c s) = (is_close c ≡ false) × HasNoClose s

-- What a header's label looks like once it is copied: `[key] path:lines`.
abbrev bracketed : String → String → String
bracketed key rest = push_front "[" (glue key (push_front "]" rest))

grow_trimmed-full : (c : Char) (s : String) → is_empty s ≡ false → grow_trimmed c s ≡ push_front c s
grow_trimmed-full c s h = ground arith

full-glue : (key : String) (s : String) → is_empty (glue key (push_front "]" s)) ≡ false
unfolding glue
full-glue String.[] s = refl
full-glue (String.◌∷◌ c key) s = refl

trim_end-glue :
    (key rest : String)
    → trim_end (glue key (push_front "]" rest)) ≡ glue key (push_front "]" (trim_end rest))
unfolding trim_end glue
trim_end-glue String.[] rest = refl
trim_end-glue (String.◌∷◌ c key) rest =
    ap (grow_trimmed c) (trim_end-glue key rest)
    ∙ grow_trimmed-full c (glue key (push_front "]" (trim_end rest)))
        (full-glue key (trim_end rest))

before_close-glue :
    (key rest : String) → HasNoClose key → before_close (glue key (push_front "]" rest)) ≡ key
unfolding before_close glue
before_close-glue String.[] rest h = refl
before_close-glue (String.◌∷◌ c key) rest (p, h) =
    rw p (ap (push_front c) (before_close-glue key rest h))

-- A key without `]` is what the reader's copy `[key] rest` of the question's header is read as,
-- up to the white space around it.
normalise_key-bracketed :
    (key rest : String) → HasNoClose key → normalise_key (bracketed key rest) ≡ trim key
unfolding normalise_key trim_start trim_end
normalise_key-bracketed key rest h =
    ap (λ s. trim (before_close (drop_open s)))
      (ap (grow_trimmed "[") (trim_end-glue key rest)
        ∙ grow_trimmed-full "[" (glue key (push_front "]" (trim_end rest)))
            (full-glue key (trim_end rest)))
    ∙ ap trim (before_close-glue key (trim_end rest) h)
