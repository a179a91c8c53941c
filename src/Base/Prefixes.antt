-- ===== src/Base/Prefixes.antt =====
-- Prefixes taken off and put back.
use Prim.Native.Char.{code}
use Prim.Native.String.{String}
use mathlib.Core.Path.{◌≡◌, refl, ap, sym, ◌∙◌}
use mathlib.Core.Logic.{inl, inr}
use mathlib.Core.Option.{none, some}
use native.Mathlib.Omega.{arith}
use text.Mathlib.TextEquality.{Char-path}
use codewatch.Base.Tests.{eqb, Bool-cases}
use codewatch.Base.Equality.{eqb_iff}
use codewatch.Base.Text.{glue, push_front, strip_prefix}

none_is_no_value : {A : Type 0} {a : A} → ¬ (none ≡ some a)
none_is_no_value h = cc

pub strip_prefix-eq : (p s rest : String) → strip_prefix p s ≡ some rest → s ≡ glue p rest
unfolding strip_prefix glue
strip_prefix-eq String.[] s rest h = ground (arith, h)
strip_prefix-eq (String.◌∷◌ c p) String.[] rest h = cc
strip_prefix-eq (String.◌∷◌ c p) (String.◌∷◌ d s) rest h =
    elim (Bool-cases (eqb (code c) (code d))) [
      | inl here ↦
          ap (λ e. push_front e s) (sym (Char-path c d (ground (arith, here))))
          ∙ ap (push_front c) (strip_prefix-eq p s rest (rw here at h))
      | inr other ↦ absurd (none_is_no_value (rw other at h))
    ]

pub strip_prefix-glue : (p s : String) → strip_prefix p (glue p s) ≡ some s
unfolding strip_prefix glue
strip_prefix-glue String.[] s = refl
strip_prefix-glue (String.◌∷◌ c p) s =
    rw ((eqb_iff (code c) (code c)).1 refl) (strip_prefix-glue p s)

pub glue_assoc : (a b c : String) → glue (glue a b) c ≡ glue a (glue b c)
unfolding glue
glue_assoc String.[] b c = refl
glue_assoc (String.◌∷◌ d a) b c = ap (push_front d) (glue_assoc a b c)
