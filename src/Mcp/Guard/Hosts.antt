-- ===== src/Mcp/Guard/Hosts.antt =====
-- Which host headers name this machine.
use text.Mathlib.TextEquality.{Char-path}
use Prim.Native.Char.{Char, code}
use codewatch.Mcp.Guard.{
  host_and_port, non_empty, with_port, plain_host, closed_host, bracket_host, loopback_hostnames,
  port_number, split_at,
}
use codewatch.Base.{
  glue_assoc, strip_prefix-eq, string_eq, true, false, not-Memᴰ-nil, [], ◌∷◌, Memᴰ-cons, inr, sym,
  ◌∙◌, inl, refl, ◌⊎◌, arith, eqb, none, ap, Option, Bool-cases, strip_prefix, push_front, Memᴰ,
  some, ◌≡◌, ℕ, String, glue,
}

-- The host is a loopback name, a colon and the digits of the port.
abbrev pub IsLoopback : String → ℕ → Type 0
IsLoopback host port =
    (name : String) × (digits : String) × Memᴰ name loopback_hostnames
    × (host ≡ glue name (glue ":" digits))
    × (port_number digits ≡ some port)

pub false_is_no_truth : ¬ (false ≡ true)
false_is_no_truth h = cc

pub pair_parts : {A B : Type 0} (p q : A × B) → some p ≡ some q → (p.0 ≡ q.0) × (p.1 ≡ q.1)
pair_parts p q h = let same : p ≡ q = cc in (ap (λ r. r.0) same, ap (λ r. r.1) same)

pub split_or_none :
    (o : Option (String × String)) → (o ≡ none) ⊎ ((p : String × String) × (o ≡ some p))
split_or_none none = inl refl
split_or_none (some p) = inr (p, refl)

pub host_or_none : (o : Option (String × ℕ)) → (o ≡ none) ⊎ ((p : String × ℕ) × (o ≡ some p))
host_or_none none = inl refl
host_or_none (some p) = inr (p, refl)

pub text_or_none : (o : Option String) → (o ≡ none) ⊎ ((p : String) × (o ≡ some p))
text_or_none none = inl refl
text_or_none (some p) = inr (p, refl)

found_host : (o : Option ℕ) → (o ≡ none) ⊎ ((p : ℕ) × (o ≡ some p))
found_host none = inl refl
found_host (some p) = inr (p, refl)

pub none_is_no_value : {A : Type 0} {a : A} → ¬ (none ≡ some a)
none_is_no_value h = cc

split_at-glue :
    (stop : Char) (s front rest : String)
    → split_at (code stop) s ≡ some (front, rest)
    → s ≡ glue front (push_front stop rest)
unfolding split_at glue
split_at-glue stop String.[] front rest h = cc
split_at-glue stop (String.◌∷◌ c s) front rest h = elim (Bool-cases (eqb (code c) (code stop))) [
  | inl here ↦
      let (e, r) = pair_parts _ _ (rw here at h) in
      let same = Char-path c stop (ground (arith, here)) in
      ap (λ d. push_front d s) same
      ∙ ap (push_front stop) r
      ∙ ap (λ f. glue f (push_front stop rest)) e
  | inr later ↦ elim (split_or_none (split_at (code stop) s)) [
    | inl nothing ↦ absurd (none_is_no_value (rw (later, nothing) at h))
    | inr ((f, r), found) ↦
        let (e, q) = pair_parts _ _ (rw (later, found) at h) in
        ap (push_front c) (split_at-glue stop s f r found)
        ∙ ap (λ t. push_front c (glue f (push_front stop t))) q
        ∙ ap (λ t. glue t (push_front stop rest)) e
  ]
]

abbrev colon : Char
colon = ":"

abbrev closing : Char
closing = "]"

abbrev Names : String → String → ℕ → Type 0
Names host name port =
    (digits : String) × (host ≡ glue name (glue ":" digits)) × (port_number digits ≡ some port)

with_port-eq :
    (name : String) (o : Option ℕ) (found : String) (port : ℕ)
    → with_port name o ≡ some (found, port)
    → (name ≡ found) × (o ≡ some port)
with_port-eq name none found port h = cc
with_port-eq name (some p) found port h = let (e, q) = pair_parts _ _ h in (e, ap some q)

non_empty-eq :
    (o : Option (String × String)) (p : String × String) → non_empty o ≡ some p → o ≡ some p
non_empty-eq none p h = cc
non_empty-eq (some (front, rest)) p h = ground (arith, h)

plain_host-Names :
    (host name : String) (port : ℕ)
    → plain_host (non_empty (split_at 58 host)) ≡ some (name, port)
    → Names host name port
unfolding glue
plain_host-Names host name port h = elim (split_or_none (non_empty (split_at 58 host))) [
  | inl nothing ↦ absurd (none_is_no_value (rw nothing at h))
  | inr ((front, digits), found) ↦
      let (e, p) = with_port-eq front (port_number digits) name port (rw found at h) in
      (
        digits,
        split_at-glue colon host front digits (non_empty-eq (split_at 58 host) _ found)
            ∙ ap (λ n. glue n (push_front colon digits)) e,
        p,
      )
]

closed_host-Names :
    (inner rest name : String) (port : ℕ)
    → closed_host (some (inner, rest)) ≡ some (name, port)
    → Names (glue "[" (glue inner (push_front closing rest))) name port
closed_host-Names inner rest name port h = elim (text_or_none (strip_prefix ":" rest)) [
  | inl nothing ↦ absurd (none_is_no_value (rw nothing at h))
  | inr (digits, found) ↦
      let (e, p) =
        with_port-eq (glue "[" (glue inner "]")) (port_number digits) name port (rw found at h) in
      let all : rest ≡ glue ":" digits = strip_prefix-eq ":" rest digits found in
      let ends : glue (glue inner "]") rest ≡ glue inner (glue "]" rest) =
        glue_assoc inner "]" rest in
      (
        digits,
        unfold glue in
            ap (λ t. glue "[" t) (sym ends)
            ∙ sym (glue_assoc "[" (glue inner "]") rest)
            ∙ ap (glue (glue "[" (glue inner "]"))) all
            ∙ ap (λ n. glue n (glue ":" digits)) e,
        p,
      )
]

bracket_host-Names :
    (host name : String) (port : ℕ)
    → bracket_host (strip_prefix "[" host) ≡ some (name, port)
    → Names host name port
bracket_host-Names host name port h = elim (text_or_none (strip_prefix "[" host)) [
  | inl nothing ↦ absurd (none_is_no_value (rw nothing at h))
  | inr (inside, opened) ↦ elim (split_or_none (non_empty (split_at 93 inside))) [
    | inl nothing ↦ absurd (none_is_no_value (rw (opened, nothing) at h))
    | inr ((inner, rest), found) ↦
        let parts =
          split_at-glue closing inside inner rest (non_empty-eq (split_at 93 inside) _ found) in
        let whole = strip_prefix-eq "[" host inside opened ∙ ap (glue "[") parts in
        let (digits, e, p) = closed_host-Names inner rest name port (rw (opened, found) at h) in
        (digits, whole ∙ e, p)
  ]
]

pub host_and_port-Names :
    (host name : String) (port : ℕ) → host_and_port host ≡ some (name, port) → Names host name port
unfolding host_and_port
host_and_port-Names host name port h = elim (host_or_none (bracket_host (strip_prefix "[" host))) [
  | inl nothing ↦ plain_host-Names host name port (rw nothing at h)
  | inr (found, e) ↦ bracket_host-Names host name port (e ∙ (rw e at h))
]

-- The three names are read back, whatever the digits.
pub host_and_port-loopback :
    (name digits : String) (port : ℕ)
    → Memᴰ name loopback_hostnames
    → port_number digits ≡ some port
    → host_and_port (glue name (glue ":" digits)) ≡ some (name, port)
unfolding host_and_port glue strip_prefix split_at
host_and_port-loopback name digits port m p =
    elim ((Memᴰ-cons name "127.0.0.1" ("localhost" ∷ ("[::1]" ∷ []))).0 m) [
      | inl e ↦ rw (e, p) refl
      | inr m ↦ elim ((Memᴰ-cons name "localhost" ("[::1]" ∷ [])).0 m) [
        | inl e ↦ rw (e, p) refl
        | inr m ↦ elim ((Memᴰ-cons name "[::1]" []).0 m) [
          | inl e ↦ rw (e, p) refl
          | inr m ↦ absurd (not-Memᴰ-nil name m)
        ]
      ]
    ]
