-- ===== src/Rapl/Energy.antt =====
-- The energy counter of linux/turbomac/daemon/rapl.py: `energy_delta_w` over a counter that wraps.
use native.Mathlib.Nat.{mod-add-mod, mod-eq_of_lt, mod-lt, add-mod_right}
use turbo_mac.Prelude.{
  ℕ, ◌+◌, ◌-◌, ◌%◌, ◌≤◌, ◌<◌, ◌≡◌, refl, sym, ap, ◌∙◌, Option, some, arith, ltb, inl, inr, ◌⊎◌,
  Bool-cases,
}
use turbo_mac.Rapl.{Power, energy_delta_w}

mod_past : (x range : ℕ) → range ≤ x → x < range + range → x % range + range ≡ x
mod_past x range h top =
    let split : x ≡ (x - range) + range = omega (arith, h) in
    let low : x % range ≡ x - range =
      ap (λ y. y % range) split
      ∙ add-mod_right (x - range) range
      ∙ mod-eq_of_lt (omega (arith, h, top)) in
    omega (arith, low, h)

wrapped_once :
    (total used range : ℕ)
    → used < range
    → ((total + used) % range ≡ total % range + used)
      ⊎ ((total + used) % range + range ≡ total % range + used)
wrapped_once total used range h =
    let low : total % range < range = mod-lt total (omega (arith, h)) in
    let shift : (total + used) % range ≡ (total % range + used) % range =
      sym (mod-add-mod total range used) in
    elim (Bool-cases (ltb (total % range + used) range)) [
      | inl e ↦ inl (shift ∙ mod-eq_of_lt (ground (arith, e)))
      | inr e ↦ inr (
          ap (λ y. y + range) shift
          ∙ mod_past (total % range + used) range (ground (arith, e)) (omega (arith, low, h)))
    ]

-- The result is the power of `used` microjoules over the span.
abbrev pub Means : (used span : ℕ) → Option Power → Type 0
Means used span r =
    (p : Power) × (r ≡ some p) × (p.gained_uj ≡ p.lost_uj + used) × (p.span_ns ≡ span)

-- Over a positive span, from the readings of a counter that counts modulo `range`, `energy_delta_w`
-- returns the power of the energy that was really used between them, whether or not the counter
-- wrapped, if less than `range` was used.
pub energy_delta_w-Means :
    (total used range span : ℕ)
    → used < range
    → 0 < span
    → Means used span (energy_delta_w (total % range) ((total + used) % range) range span)
unfolding energy_delta_w
energy_delta_w-Means total used range span h p =
    let low : total % range < range = mod-lt total (omega (arith, h)) in
    let high : (total + used) % range < range = mod-lt (total + used) (omega (arith, h)) in
    by_readings (total % range) ((total + used) % range) low high (wrapped_once total used range h)
  where
    by_readings :
        (before after : ℕ)
        → before < range
        → after < range
        → (after ≡ before + used) ⊎ (after + range ≡ before + used)
        → Means used span (energy_delta_w before after range span)
    by_readings before after low high (inl e) =
        let power : Power = record { gained_uj = after; lost_uj = before; span_ns = span } in
        (power, ground (arith, e, h, p), e, refl)
    by_readings before after low high (inr e) =
        let power : Power = record {
          gained_uj = after + range;
          lost_uj = before;
          span_ns = span;
        } in
        (power, ground (arith, e, h, p, low), e, refl)
