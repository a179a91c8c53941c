-- ===== src/Base/Equality.antt =====
-- Keys that can be compared by `===`, as an interface with the instances that the program needs.
use Prim.Native.Nat.{ℕ}
use Prim.Native.String.{String}
use mathlib.Core.Path.{◌≡◌, refl}
use mathlib.Core.Logic.{◌↔◌}
use mathlib.Core.Bool.{Bool, true, false, ◌&&◌}
use mathlib.Core.Option.{Option, none, some}
use native.Mathlib.Omega.{arith}
use text.Mathlib.Text.{◌==◌ as str_eq}
use text.Mathlib.TextEquality.{eq_iff}
use codewatch.Base.Tests.{eqb}

pub eqb_iff : (a b : ℕ) → (eqb a b ≡ true) ↔ (a ≡ b)
eqb_iff a b = ground arith

-- `beq` is `===` on the keys of this type.
pub record Eq {ℓ} (K : Type ℓ) : Type ℓ where
  pub beq : K → K → Bool
  pub beq_iff : (x y : K) → (beq x y ≡ true) ↔ (x ≡ y)

instance abbrev pub string_eq : Eq String
string_eq = record { beq = str_eq; beq_iff = eq_iff }

infix 50 ◌==◌
abbrev pub ◌==◌ {ℓ} : {K : Type ℓ} ⦃key : Eq K⦄ → K → K → Bool
◌==◌ ⦃key⦄ = key.beq

instance abbrev pub nat_eq : Eq ℕ
nat_eq = record { beq = eqb; beq_iff = eqb_iff }

module _ {ℓ} {A : Type ℓ} ⦃e : Eq A⦄ where
  pub beq_refl : (a : A) → a == a ≡ true
  beq_refl a = (e.beq_iff a a).1 refl

  pub beq_sym : (a b : A) → a == b ≡ b == a
  beq_sym a b = ground (arith, e.beq_iff a b, e.beq_iff b a)

  abbrev pub pair_beq {κ} : {B : Type κ} ⦃f : Eq B⦄ → A × B → A × B → Bool
  pair_beq p q = p.0 == q.0 && p.1 == q.1

  pub pair_beq_iff {κ} : {B : Type κ} ⦃f : Eq B⦄ (p q : A × B) → (pair_beq p q ≡ true) ↔ (p ≡ q)
  pair_beq_iff ⦃f⦄ p q = ground (arith, e.beq_iff p.0 q.0, f.beq_iff p.1 q.1)

  abbrev pub opt_beq : Option A → Option A → Bool
  opt_beq none none = true
  opt_beq (some a) (some b) = a == b
  opt_beq _ _ = false

-- The key `JSON.stringify([a, b])` stands for the pair: the encoding is one to one.
instance abbrev pub pair_eq {ℓ κ} : {A : Type ℓ} {B : Type κ} ⦃e : Eq A⦄ ⦃f : Eq B⦄ → Eq (A × B)
pair_eq = record { beq = pair_beq; beq_iff = pair_beq_iff }
