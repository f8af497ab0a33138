-- ===== src/Gpu/Off.antt =====
-- What `Gpu.apply_mode` of linux/turbomac/daemon/gpu.py reports, against the device it leaves.
use turbo_mac.Prelude.{
  ℕ, ◌≡◌, refl, true, false, none, some, inl, inr, ◌⊎◌, Bool-cases, Option-cases, arith, is_none,
}
use turbo_mac.Gpu.{
  low, off, Device, Gpu, Outcome, apply_mode, turn_off, revert, apply_off, switch_off, verify_twice,
  verify_off, dis_off, lacks, fbcon_bind,
}

module _ (d : Device) where
  verify_off-dis_off : (w : d.World) → verify_off d w ≡ none → dis_off d w ≡ true
  unfolding verify_off
  verify_off-dis_off w h = ground arith

  verify_twice-dis_off :
      (w : d.World) → (verify_twice d w).0 ≡ none → dis_off d (verify_twice d w).1 ≡ true
  unfolding verify_twice
  verify_twice-dis_off w h = elim (Option-cases (verify_off d w)) [
    | inl e ↦ rw (e, verify_twice) (verify_off-dis_off (d.sleep w) (rw (e, verify_twice) at h))
    | inr (err, e) ↦ cc (rw (e, verify_twice) at h)
  ]

  switch_off-dis_off :
      (w : d.World) → (switch_off d w).0 ≡ none → dis_off d (switch_off d w).1 ≡ true
  unfolding switch_off
  switch_off-dis_off w h =
      let first = d.write_switcheroo "IGD" w in
      elim (Option-cases first.0) [
        | inr (err, e) ↦ cc (rw (e, switch_off) at h)
        | inl e ↦ elim (Option-cases (d.write_switcheroo "OFF" first.1).0) [
          | inr (err, e') ↦ cc (rw (e, switch_off, e') at h)
          | inl e' ↦
              rw (e, switch_off, e')
                (verify_twice-dis_off (d.write_switcheroo "OFF" first.1).1
                  (rw (e, switch_off, e') at h))
        ]
      ]

  apply_off-dis_off : (w : d.World) → (apply_off d w).0 ≡ none → dis_off d (apply_off d w).2 ≡ true
  unfolding apply_off
  apply_off-dis_off w h = elim (Bool-cases (lacks (d.switcheroo w))) [
    | inl e ↦ cc (rw (e, apply_off) at h)
    | inr e ↦ elim (Bool-cases (dis_off d w)) [
      | inl already ↦ rw (e, apply_off, already) already
      | inr running ↦ elim (Option-cases (fbcon_bind d "0" w).0) [
        | inr (err, u) ↦ cc (rw (e, apply_off, running, u) at h)
        | inl u ↦
            rw (e, apply_off, running, u)
              (switch_off-dis_off (fbcon_bind d "0" w).1 (rw (e, apply_off, running, u) at h))
      ]
    ]
  ]

  -- What the request for `off` reports of the card, and what it leaves.
  abbrev pub OffReport : Outcome × Gpu × d.World → Type 0
  OffReport r =
      (r.1.mode ≡ some r.0.mode)
      × (((r.0.ok ≡ true) × (r.0.mode ≡ off) × (dis_off d r.2 ≡ true))
          ⊎ ((r.0.ok ≡ false) × (r.0.mode ≡ low) × (is_none r.0.error ≡ false)))

  -- A request for `off`, on every device: the mode that is kept is the one reported. Either it is
  -- reported done, and then the switcheroo of the device that is left reports DIS Off; or it is
  -- reported as failed, with an error, and then the mode is `low`.
  pub apply_mode-OffReport :
      (cap_w : ℕ) (g : Gpu) (w : d.World) → OffReport (apply_mode d off cap_w g w)
  unfolding apply_mode turn_off revert
  apply_mode-OffReport cap_w g w = elim (Option-cases (apply_off d w).0) [
    | inl e ↦ rw (e, turn_off) (refl, inl (refl, refl, apply_off-dis_off w e))
    | inr (err, e) ↦ rw (e, turn_off) (refl, inr (refl, refl, refl))
  ]
