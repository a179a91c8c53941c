-- ===== src/Dashboard/Health.antt =====
-- packages/cli/src/commands/dashboard-health.ts: the score of the repository's health.
use codewatch.Base.{
  map, sum, [], ◌-◌, arith, ◌+◌, numeral, ◌↔◌, ◌∷◌, leb, glue, ◌≡◌, ◌≤◌, if◌then◌else◌, String,
  List, ◌*◌, ℕ,
}

pub record HealthInput : Type 0 where
  pub scary : ℕ
  pub new_violations : ℕ
  pub carry_violations : ℕ
  pub max_complexity : ℕ
  pub hidden_coupling : ℕ

pub record HealthComponent : Type 0 where
  pub label : String
  pub penalty : ℕ
  pub detail : String

pub record Health : Type 0 where
  pub health : ℕ
  pub health_breakdown : List HealthComponent

abbrev capped : ℕ → ℕ → ℕ
capped most n = if leb most n then most else n

abbrev note : ℕ → String → String
note n text = glue (numeral n) text

-- `Math.max(0, 100 - total)` and `Math.max(0, maxComplexity - 30)` are the subtraction that stops
-- at zero.
unfoldable pub compute_health : HealthInput → Health
compute_health x =
    let breakdown =
      record {
        label = "scary hotspots";
        penalty = capped 30 (x.scary * 10);
        detail = note x.scary " file(s) ≥ 3000";
      }
      ∷ (record {
        label = "fitness violations";
        penalty = capped 20 (x.new_violations * 8 + x.carry_violations * 3);
        detail =
            glue (note x.new_violations " new, ")
              (note x.carry_violations " parked (non-hotspot rules)");
      }
          ∷ (record {
            label = "complexity over budget";
            penalty = capped 15 (x.max_complexity - 30);
            detail = glue "max " (note x.max_complexity " vs budget 30");
          }
              ∷ (record {
                label = "hidden coupling";
                penalty = capped 10 (x.hidden_coupling * 2);
                detail = note x.hidden_coupling " pair(s) co-change without an import";
              }
                  ∷ []))) in
    record { health = 100 - sum (map (λ c. c.penalty) breakdown); health_breakdown = breakdown }

-- The score lies between 25 and 100, and is 100 exactly if no hotspot is scary, no rule is broken,
-- the complexity stays within 30 and no coupling is hidden.
pub compute_health_bounds :
    (x : HealthInput)
    → (25 ≤ (compute_health x).health)
      × ((compute_health x).health ≤ 100)
      × (((compute_health x).health ≡ 100) ↔ (
          (x.scary ≡ 0)
          × (x.new_violations ≡ 0)
          × (x.carry_violations ≡ 0)
          × (x.max_complexity ≤ 30)
          × (x.hidden_coupling ≡ 0)))
unfolding compute_health
compute_health_bounds x = ground arith
