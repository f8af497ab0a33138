-- ===== src/Rapl/Port.antt =====
-- The access of linux/turbomac/daemon/rapl.py to the zone's files, and `apply_and_verify`. The file
-- system and the MSR device are parameters: a state of the world, `write_text`, `read_int` and
-- `Msr.pkg_limit`.
use turbo_mac.Prelude.{ℕ, Bool, false, Option, none, some, List, [], ◌∷◌, String}
use turbo_mac.Rapl.{
  Firmware, Sysfs, PkgLimit, Outcome, write_failed, w_to_uw, clamp_limits, compare_limits,
}

-- The files of the zone that are written.
pub data File : Type 0 where
  long_term_uw short_term_uw enabled_file : File

-- `write` returns the text of an error, and the world after it; `read` is `read_int`.
pub record Device : Type 1 where
  pub World : Type 0
  pub write : File → ℕ → World → Option String × World
  pub read : File → World → Option ℕ
  pub pkg_limit : World → Option PkgLimit

-- The record that `apply_and_verify` returns, and the world after the writes.
pub record Applied (World : Type 0) : Type 0 where
  pub ok : Bool
  pub outcome : Outcome
  pub pl1_w : ℕ
  pub pl2_w : ℕ
  pub write_errors : List String
  pub world : World

-- `[e for e in errs if e]`; an error's text is never empty.
unfoldable pub errors : List (Option String) → List String
errors [] = []
errors (none ∷ rest) = errors rest
errors (some e ∷ rest) = e ∷ errors rest

-- The result of the comparison, which write errors override.
unfoldable pub judged : List String → Bool × Outcome → Bool × Outcome
judged [] r = r
judged (e ∷ rest) r = (false, write_failed (e ∷ rest))

module _ (d : Device) where
  unfoldable pub write_limits : (pl1_w pl2_w : ℕ) → d.World → List String × d.World
  write_limits pl1_w pl2_w world =
      let first = d.write long_term_uw (w_to_uw pl1_w) world in
      let second = d.write short_term_uw (w_to_uw pl2_w) first.1 in
      let third = d.write enabled_file 1 second.1 in
      (errors (first.0 ∷ second.0 ∷ third.0 ∷ []), third.1)

  unfoldable pub read_limits : d.World → Sysfs
  read_limits world = record {
    pl1_uw = d.read long_term_uw world;
    pl2_uw = d.read short_term_uw world;
    enabled = d.read enabled_file world;
  }

  unfoldable pub apply_and_verify :
      (pl1_w pl2_w hard_max_w : ℕ) → Option Firmware → d.World → Applied d.World
  apply_and_verify pl1_w pl2_w hard_max_w firmware world =
      let limits = clamp_limits pl1_w pl2_w hard_max_w firmware in
      let written = write_limits limits.0 limits.1 world in
      let r =
        judged written.0
          (compare_limits limits.0 limits.1 (read_limits written.1) (d.pkg_limit written.1)) in
      record {
        ok = r.0;
        outcome = r.1;
        pl1_w = limits.0;
        pl2_w = limits.1;
        write_errors = written.0;
        world = written.1;
      }
