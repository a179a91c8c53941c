-- ===== src/Dashboard/Windows/Keys.antt =====
-- Different windows have different keys, and the list of windows has none twice.
use mathlib.Core.List.Memᴰ
use codewatch.Base.{
  contains-add_all, contains_iff, Memᴰ, contains-sort_by, add_all, nat_eq, inr, HasNodup-concat,
  inl, ◌||◌, Bool-cases, [], ap, eqb_iff, HasNodup-add_all, ◌∙◌, false, ◌∷◌, ltb, ◌↔◌,
  read_digits-numeral, refl, map, HasNodup-sort_by, contains, true, arith, none, ◌≡◌, read_digits,
  Eq, List, HasNodup, ℕ,
}
use codewatch.Dashboard.Windows.{
  ChurnWindow, StoredWindows, same_window, window_key, windows_list, finite_windows, offered_days,
}

pub same_window_iff : (v w : ChurnWindow) → (same_window v w ≡ true) ↔ (v ≡ w)
same_window_iff (ChurnWindow.days m) (ChurnWindow.days n) = ground (arith, eqb_iff m n)
same_window_iff ChurnWindow.lifetime ChurnWindow.lifetime = (λ h. refl, λ h. refl)
same_window_iff (ChurnWindow.days m) ChurnWindow.lifetime = (λ h. cc, λ h. cc)
same_window_iff ChurnWindow.lifetime (ChurnWindow.days n) = (λ h. cc, λ h. cc)

instance abbrev pub window_eq : Eq ChurnWindow
window_eq = record { beq = same_window; beq_iff = same_window_iff }

lifetime_no_digits : read_digits 0 "lifetime" ≡ none
unfolding read_digits
lifetime_no_digits = refl

pub window_key-eq : (v w : ChurnWindow) → window_key v ≡ window_key w → v ≡ w
window_key-eq (ChurnWindow.days m) (ChurnWindow.days n) h =
    ground (arith, read_digits-numeral m, read_digits-numeral n, ap (read_digits 0) h)
window_key-eq ChurnWindow.lifetime ChurnWindow.lifetime h = refl
window_key-eq (ChurnWindow.days m) ChurnWindow.lifetime h =
    cc (read_digits-numeral m, lifetime_no_digits)
window_key-eq ChurnWindow.lifetime (ChurnWindow.days n) h =
    cc (read_digits-numeral n, lifetime_no_digits)

contains-map_days :
    (ns : List ℕ) (n : ℕ) → contains (map ChurnWindow.days ns) (ChurnWindow.days n) ≡ contains ns n
contains-map_days [] n = refl
contains-map_days (m ∷ ns) n = ground (arith, contains-map_days ns n)

no_lifetime : (ns : List ℕ) → contains (map ChurnWindow.days ns) ChurnWindow.lifetime ≡ false
no_lifetime [] = refl
no_lifetime (n ∷ ns) = no_lifetime ns

HasNodup-map_days : (ns : List ℕ) → HasNodup ns → HasNodup (map ChurnWindow.days ns)
HasNodup-map_days [] h = tt
HasNodup-map_days (n ∷ ns) h = (contains-map_days ns n ∙ h.0, HasNodup-map_days ns h.1)

pub windows_list-HasNodup :
    (stored : StoredWindows) (primary : ChurnWindow) → HasNodup (windows_list stored primary)
unfolding windows_list
windows_list-HasNodup stored primary =
    let days = HasNodup-map_days (finite_windows stored primary) (
      HasNodup-sort_by ltb (add_all [] (offered_days stored primary))
        (HasNodup-add_all [] (offered_days stored primary) tt)) in
    elim (Bool-cases (same_window primary ChurnWindow.lifetime || stored.lifetime)) [
      | inl t ↦ rw t (
          HasNodup-concat _ ChurnWindow.lifetime days (no_lifetime (finite_windows stored primary)))
      | inr f ↦ rw f days
    ]

days_listed :
    (stored : StoredWindows) (n : ℕ)
    → contains
        (map ChurnWindow.days (finite_windows stored (ChurnWindow.days n)))
        (ChurnWindow.days n)
      ≡ true
days_listed stored n =
    let offered = offered_days stored (ChurnWindow.days n) in
    contains-map_days (finite_windows stored (ChurnWindow.days n)) n
    ∙ contains-sort_by ltb (add_all [] offered) n
    ∙ contains-add_all [] offered n
    ∙ ground (arith, eqb_iff n n)

-- The primary window is among those that the dashboard offers.
pub primary_listed :
    (stored : StoredWindows) (primary : ChurnWindow) → Memᴰ primary (windows_list stored primary)
unfolding windows_list
primary_listed stored ChurnWindow.lifetime =
    Memᴰ.append_right (map ChurnWindow.days (finite_windows stored ChurnWindow.lifetime))
      (Memᴰ.head refl)
primary_listed stored (ChurnWindow.days n) =
    let m =
      (contains_iff (map ChurnWindow.days (finite_windows stored (ChurnWindow.days n)))
          (ChurnWindow.days n)).0
        (days_listed stored n) in
    elim (Bool-cases stored.lifetime) [
      | inl t ↦ rw t (Memᴰ.append_left (ChurnWindow.lifetime ∷ []) m)
      | inr f ↦ rw f m
    ]
