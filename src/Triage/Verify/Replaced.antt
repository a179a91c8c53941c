-- ===== src/Triage/Verify/Replaced.antt =====
-- `text.split(line).join("<spec>")` of packages/cli/src/commands/triage-spec.ts: what a text holds
-- after the lines are taken out.
use Prim.Native.Char.{Char, code}
use codewatch.Base.{
  Bool, Bool-cases, Option, String, arith, chars, eqb, eqb_iff, false, glue, includes, inl, inr,
  is_empty, is_some, none, push_front, replace_all, refl, some, strip_prefix, true, units, zero,
  suc, ap, sym, ◌&&◌, ◌*◌, ◌+◌, ◌||◌, ◌∙◌, ◌≡◌, ◌≤◌, ℕ, same_char, if◌then◌else◌,
}
use codewatch.Triage.Verify.{spec_path}

abbrev pub starts : String → String → Bool
starts String.[] s = true
starts (String.◌∷◌ c p) String.[] = false
starts (String.◌∷◌ c p) (String.◌∷◌ d s) = same_char c d && starts p s

abbrev pub has_char : ℕ → String → Bool
has_char n String.[] = false
has_char n (String.◌∷◌ c s) = eqb (code c) n || has_char n s

-- The part stands somewhere in the text.
abbrev pub holds : String → String → Bool
holds String.[] p = is_empty p
holds (String.◌∷◌ d s) p = starts p (push_front d s) || holds s p

starts_lem : (p s : String) → is_some (strip_prefix p s) ≡ starts p s
unfolding strip_prefix
starts_lem String.[] s = refl
starts_lem (String.◌∷◌ c p) String.[] = refl
starts_lem (String.◌∷◌ c p) (String.◌∷◌ d s) = elim (Bool-cases (same_char c d)) [
  | inl t ↦ rw t (starts_lem p s)
  | inr f ↦ rw f refl
]

found_or {ℓ} :
    {A : Type ℓ} (o : Option String) (a : A) (b : A) (t : Bool)
    → is_some o ≡ t
    → (elim o [ none ↦ a | some rest ↦ b ]) ≡ (if t then b else a)
found_or none a b t e = rw (sym e) refl
found_or (some x) a b t e = rw (sym e) refl

pub includes_lem : (s p : String) → includes s p ≡ holds s p
unfolding includes
includes_lem String.[] p = refl
includes_lem (String.◌∷◌ d s) p =
    found_or (strip_prefix p (push_front d s)) (includes s p) true (starts p (push_front d s))
      (starts_lem p (push_front d s))
    ∙ rw (includes_lem s p) (ground arith)

-- The last character, if there is one, is `>`.
abbrev ends_closed : String → Bool
ends_closed String.[] = true
ends_closed (String.◌∷◌ c s) = if is_empty s then eqb (code c) b'>' else ends_closed s

not_both : (b : Bool) → b ≡ false → b ≡ true → ⊥
not_both b h k = cc

-- A text without `>` that a closed word starts with is shorter than the word.
starts-short :
    (c : Char) (r p rest : String)
    → has_char b'>' p ≡ false
    → ends_closed (push_front c r) ≡ true
    → starts p (glue (push_front c r) rest) ≡ true
    → units p + 2 ≤ 2 * chars (push_front c r)
unfolding units glue
starts-short c r String.[] rest n e h = ground arith
starts-short c String.[] (String.◌∷◌ d p) rest n e h = absurd (
    ground
      (arith, n, e, h, eqb_iff (code d) (code c), eqb_iff (code c) b'>', eqb_iff (code d) b'>'))
starts-short c (String.◌∷◌ a r) (String.◌∷◌ d p) rest n e h =
    let shorter = starts-short a r p rest (ground (arith, n)) e (ground (arith, h)) in
    ground (arith, shorter)

-- A long text without `>` is not found in a closed word put in front.
holds-glue :
    (r p rest : String)
    → has_char b'>' p ≡ false
    → 12 ≤ units p
    → ends_closed r ≡ true
    → chars r ≤ 6
    → holds (glue r rest) p ≡ true
    → holds rest p ≡ true
unfolding glue
holds-glue String.[] p rest n u e k h = h
holds-glue (String.◌∷◌ c r) p rest n u e k h =
    elim (Bool-cases (starts p (push_front c (glue r rest)))) [
      | inl here ↦ absurd (ground (arith, starts-short c r p rest n e here, u, k))
      | inr later ↦
          holds-glue r p rest n u (ends_tail c r e) (ground (arith, k)) (ground (arith, h, later))
    ]
  where
    ends_tail : (a : Char) (w : String) → ends_closed (push_front a w) ≡ true → ends_closed w ≡ true
    ends_tail a String.[] t = refl
    ends_tail a (String.◌∷◌ b w) t = t

module _ (c : Char) (l : String) where
  abbrev line : String
  line = push_front c l

  abbrev replaced : ℕ → String → String
  replaced = replace_all c l spec_path

  replaced-match :
      (d : Char) (s : String)
      → starts line (push_front d s) ≡ true
      → replaced zero (push_front d s) ≡ glue spec_path (replaced (chars l) s)
  unfolding replace_all
  replaced-match d s t =
      found_or (strip_prefix line (push_front d s)) (push_front d (replaced zero s))
        (glue spec_path (replaced (chars l) s)) true (starts_lem line (push_front d s) ∙ t)

  replaced-step :
      (d : Char) (s : String)
      → starts line (push_front d s) ≡ false
      → replaced zero (push_front d s) ≡ push_front d (replaced zero s)
  unfolding replace_all
  replaced-step d s f =
      found_or (strip_prefix line (push_front d s)) (push_front d (replaced zero s))
        (glue spec_path (replaced (chars l) s)) false (starts_lem line (push_front d s) ∙ f)

  opens :
      (b : Char) (q w : String)
      → has_char b'<' (push_front b q) ≡ false
      → starts (push_front b q) (glue spec_path w) ≡ true
      → ⊥
  unfolding glue
  opens b q w m k = ground (arith, m, k, eqb_iff (code b) b'<')

  -- A text without `<` that the result starts with was there before.
  starts-replaced :
      (p t : String)
      → has_char b'<' p ≡ false
      → starts p (replaced zero t) ≡ true
      → starts p t ≡ true
  unfolding replace_all
  starts-replaced String.[] t n h = refl
  starts-replaced (String.◌∷◌ a p) String.[] n h = absurd (not_both false refl (h))
  starts-replaced (String.◌∷◌ a p) (String.◌∷◌ d s) n h =
      elim (Bool-cases (starts line (push_front d s))) [
        | inl taken ↦
            let g = sym (ap (starts (push_front a p)) (replaced-match d s taken)) ∙ h in
            absurd (opens a p (replaced (chars l) s) n g)
        | inr left ↦
            let g = sym (ap (starts (push_front a p)) (replaced-step d s left)) ∙ h in
            let rest = starts-replaced p s (ground (arith, n)) (ground (arith, g)) in
            ground (arith, g, rest)
      ]

  -- Taking out one line brings in no other, if that has no angle bracket.
  pub holds-replaced :
      (p : String) (skip : ℕ) (t : String)
      → has_char b'<' p ≡ false
      → has_char b'>' p ≡ false
      → 12 ≤ units p
      → holds (replaced skip t) p ≡ true
      → holds t p ≡ true
  unfolding replace_all
  holds-replaced p skip String.[] n m u h = h
  holds-replaced p (suc skip) (String.◌∷◌ d s) n m u h =
      ground (arith, holds-replaced p skip s n m u (h))
  holds-replaced p zero (String.◌∷◌ d s) n m u h =
      elim (Bool-cases (starts line (push_front d s))) [
        | inl taken ↦
            let g = sym (ap (λ w. holds w p) (replaced-match d s taken)) ∙ h in
            let rest = holds-glue spec_path p (replaced (chars l) s) m u refl (ground arith) g in
            ground (arith, holds-replaced p (chars l) s n m u rest)
        | inr left ↦
            let g = sym (ap (λ w. holds w p) (replaced-step d s left)) ∙ h in
            elim (Bool-cases (starts p (push_front d (replaced zero s)))) [
              | inl here ↦
                  let i =
                    starts-replaced p (push_front d s) n
                      (ap (starts p) (replaced-step d s left) ∙ here) in
                  ground (arith, i)
              | inr later ↦ ground (arith, holds-replaced p zero s n m u (ground (arith, g, later)))
            ]
      ]

  -- The line itself is gone, if it is long and has no angle bracket.
  pub replaced-gone :
      (skip : ℕ) (t : String)
      → has_char b'<' line ≡ false
      → has_char b'>' line ≡ false
      → 12 ≤ units line
      → holds (replaced skip t) line ≡ false
  unfolding replace_all
  replaced-gone skip String.[] n m u = refl
  replaced-gone (suc skip) (String.◌∷◌ d s) n m u = replaced-gone skip s n m u
  replaced-gone zero (String.◌∷◌ d s) n m u =
      elim (Bool-cases (holds (replaced zero (push_front d s)) line)) [
        | inr gone ↦ gone
        | inl h ↦ absurd (elim (Bool-cases (starts line (push_front d s))) [
          | inl taken ↦
              let g = sym (ap (λ w. holds w line) (replaced-match d s taken)) ∙ h in
              not_both (holds (replaced (chars l) s) line) (replaced-gone (chars l) s n m u)
                (holds-glue spec_path line (replaced (chars l) s) m u refl (ground arith) g)
          | inr left ↦
              let g = sym (ap (λ w. holds w line) (replaced-step d s left)) ∙ h in
              elim (Bool-cases (starts line (push_front d (replaced zero s)))) [
                | inl here ↦ not_both (starts line (push_front d s)) left (
                    starts-replaced line (push_front d s) n
                      (ap (starts line) (replaced-step d s left) ∙ here))
                | inr later ↦
                    not_both (holds (replaced zero s) line) (replaced-gone zero s n m u)
                      (ground (arith, g, later))
              ]
        ])
      ]
