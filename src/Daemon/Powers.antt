-- ===== src/Daemon/Powers.antt =====
-- What a tick of the daemon (linux/turbomac/daemon/main.py) may write to the power limits.
use turbo_mac.Prelude.{
  ℕ, ◌≤◌, ◌≡◌, refl, Bool, Option, none, List, [], ◌∷◌, arith, if_keeps, option_keeps, Bool-cases,
  inl, inr, String,
}
use turbo_mac.Governor.{hard_max_w, Action, set_limits, event}
use turbo_mac.Governor.Control.{step}
use turbo_mac.Rapl.{Firmware, w_to_uw, clamp_limits}
use turbo_mac.Rapl.Port.{
  File, long_term_uw, short_term_uw, enabled_file, Device, write_limits as write_files,
  apply_and_verify,
}
use turbo_mac.Rapl.Clamped.{clamp_limits-FirmwareAllows}
use turbo_mac.Rapl.Verified.{w_to_uw-exact}
use turbo_mac.Daemon.{Machine, Daemon}
use turbo_mac.Daemon.Tick.{
  Inputs, write_limits, note_write, apply, apply_all, note_error, fast_sample, slow_sample,
  sample_of, governor_step, fan_step, retry_step, is_fresh, tick,
}

-- What may be written to a file: a limit of at most 45 W, in microwatts, or the 1 that enables.
abbrev pub Allowed : File → ℕ → Type 0
Allowed long_term_uw v = v ≤ 45_000_000
Allowed short_term_uw v = v ≤ 45_000_000
Allowed enabled_file v = v ≡ 1

-- A property of the world that no allowed write breaks.
abbrev pub KeptBy : (d : Device) → (d.World → Type 0) → Type 0
KeptBy d P = (f : File) (v : ℕ) (w : d.World) → Allowed f v → P w → P (d.write f v w).1

module _ (d : Device) (P : d.World → Type 0) (kept : KeptBy d P) where
  write_files-Kept :
      (pl1 pl2 : ℕ) (w : d.World)
      → w_to_uw pl1 ≤ 45_000_000
      → w_to_uw pl2 ≤ 45_000_000
      → P w
      → P (write_files d pl1 pl2 w).1
  unfolding write_files
  write_files-Kept pl1 pl2 w h1 h2 p =
      kept enabled_file 1 _ refl (kept short_term_uw _ _ h2 (kept long_term_uw _ w h1 p))

  pub apply_and_verify-Kept :
      (pl1 pl2 : ℕ) (firmware : Option Firmware) (w : d.World)
      → P w
      → P (apply_and_verify d pl1 pl2 hard_max_w firmware w).world
  unfolding apply_and_verify
  apply_and_verify-Kept pl1 pl2 firmware w p =
      let r = clamp_limits pl1 pl2 hard_max_w firmware in
      let fits = clamp_limits-FirmwareAllows pl1 pl2 hard_max_w firmware in
      write_files-Kept r.0 r.1 w (omega (arith, w_to_uw-exact r.0 fits.0.2, fits.0, fits.2))
        (omega (arith, w_to_uw-exact r.1 fits.1.2, fits.1, fits.3)) p

module _ {m : Machine} (P : m.power.World → Type 0) (kept : KeptBy m.power P) where
  abbrev Good : Daemon m → Type 0
  Good d = P d.power

  apply-Good : (i : Inputs) (a : Action) (d : Daemon m) → Good d → Good (apply i a d)
  unfolding apply note_write write_limits
  apply-Good i (event e) d p = p
  apply-Good i (set_limits pl1 pl2 why) d p = elim (Bool-cases i.available) [
    | inl e ↦ rw e (apply_and_verify-Kept m.power P kept pl1 pl2 d.firmware d.power p)
    | inr e ↦ rw e p
  ]

  apply_all-Good :
      (i : Inputs) (actions : List Action) (d : Daemon m) → Good d → Good (apply_all i actions d)
  unfolding apply_all
  apply_all-Good i [] d p = p
  apply_all-Good i (a ∷ rest) d p = apply_all-Good i rest (apply i a d) (apply-Good i a d p)

  note_error-Good :
      (typ message : String) (now : ℕ) (d : Daemon m) → Good d → Good (note_error typ message now d)
  unfolding note_error
  note_error-Good typ message now d p = if_keeps Good _ d _ p p

  fast_sample-Good :
      (now : ℕ) (slow : Bool) (i : Inputs) (d : Daemon m) → Good d → Good (fast_sample now slow i d)
  unfolding fast_sample
  fast_sample-Good now slow i d p =
      option_keeps Good i.sample _ _ (note_error-Good "sample_error" i.error now _ p) (λ reads. p)

  slow_sample-Good :
      (now : ℕ) (slow : Bool) (i : Inputs) (d : Daemon m) → Good d → Good (slow_sample now slow i d)
  unfolding slow_sample
  slow_sample-Good now slow i d p =
      if_keeps Good slow _ d
        (option_keeps Good i.slow_sample _ _ (note_error-Good "slow_sample_error" i.error now d p)
          (λ pkg_c. p))
        p

  governor_step-Good : (now : ℕ) (i : Inputs) (d : Daemon m) → Good d → Good (governor_step now i d)
  unfolding governor_step
  governor_step-Good now i d p =
      let r = step d.gov (sample_of now d) d.config.governor now in
      apply_all-Good i r.1 (record d { gov = r.0; readback = none }) p

  fan_step-Good : (now : ℕ) (fresh : Bool) (d : Daemon m) → Good d → Good (fan_step now fresh d)
  unfolding fan_step
  fan_step-Good now fresh d p = option_keeps Good d.fanctl d _ p (λ c. p)

  tick-Good :
      (now : ℕ) (slow : Bool) (i : Inputs) (d : Daemon m) → Good d → Good (tick now slow i d)
  unfolding tick retry_step
  tick-Good now slow i d p =
      let sampled = slow_sample-Good now slow i _ (fast_sample-Good now slow i d p) in
      let stepped = governor_step-Good now i _ sampled in
      if_keeps Good slow _ _ (fan_step-Good now (is_fresh slow i) _ stepped) stepped

-- A call of `tick`.
pub record Call : Type 0 where
  pub now : ℕ
  pub slow : Bool
  pub inputs : Inputs

unfoldable pub run : {m : Machine} → Daemon m → List Call → Daemon m
run d [] = d
run d (c ∷ rest) = run (tick c.now c.slow c.inputs d) rest

-- No run of ticks writes more than 45 W to a power limit, whatever the configuration, the firmware
-- limits, the governor's state, the sensors and the device do: every property of the device's world
-- that is kept by each write of at most 45 W to one of the two limits, and by the write of 1 to
-- `enabled`, holds after the run if it held before.
pub run-Good :
    {m : Machine} (P : m.power.World → Type 0) (d : Daemon m) (calls : List Call)
    → KeptBy m.power P
    → P d.power
    → P (run d calls).power
unfolding run
run-Good P d [] kept p = p
run-Good P d (c ∷ rest) kept p =
    run-Good P (tick c.now c.slow c.inputs d) rest kept (tick-Good P kept c.now c.slow c.inputs d p)
