-- ===== src/Daemon/Tick.antt =====
-- `Daemon.tick` of linux/turbomac/daemon/main.py, in its order: the fast and the slow sample, the
-- governor's step, its actions, the fan step and the retry of the graphics card. An exception of a
-- sample comes in as an input, as one that is raised before anything changed; no other call raises. The record that is
-- logged, the self-metering and the status are reports, and are left out.
use text.Mathlib.Text.{◌==◌ as str_eq}
use turbo_mac.Prelude.{
  ℕ, ◌+◌, ◌*◌, Bool, true, false, ◌&&◌, Option, none, some, String, List, [], ◌∷◌, ◌++◌, one,
  if◌then◌else◌, leb,
}
use turbo_mac.Dict.{get, put}
use turbo_mac.Governor.{hard_max_w, Sample, Action, set_limits, event, Why}
use turbo_mac.Governor.Control.{step}
use turbo_mac.Rapl.Port.{apply_and_verify}
use turbo_mac.Fan.Control.{Controller}
use turbo_mac.Fan.Control
use turbo_mac.Sampler.Fast.{Powers, SmcReads, Latest, fast, gov_input, derived, nothing_held}
use turbo_mac.Daemon.{Machine, Daemon, LastWrite, governed, wrote, failed, Seen}
use turbo_mac.Daemon.Retry.{maybe_retry}

-- What the outside does during a tick. `sample` is what the sensors give to the fast sample, none if
-- it raises, and `slow_sample` the package temperature, if any, of the slow one, likewise; `error` is the text of the exception;
-- `available` is `rapl.available()`, `gpu_busy` is `gpu.busy`.
pub record Inputs : Type 0 where
  pub wall : ℕ
  pub sample : Option (Powers × SmcReads)
  pub slow_sample : Option (Option ℕ)
  pub error : String
  pub available : Bool
  pub gpu_busy : Bool

unfoldable pub seen_lately : Option Seen → String → ℕ → Bool
seen_lately none message now = false
seen_lately (some s) message now = str_eq message s.message && leb now (s.at + 60 * one)

-- The readback and the limits of `apply` for a `set_limits` action, and the world after it.
pub record Written (World : Type 0) : Type 0 where
  pub ok : Bool
  pub reason : String
  pub pl1_w : ℕ
  pub pl2_w : ℕ
  pub world : World

-- `latest` after an exception: a sample that is not valid.
abbrev pub no_sample : (now wall : ℕ) → Latest
no_sample now wall = record {
  ts = wall;
  mono = now;
  valid = false;
  pdtr_w = none;
  held = nothing_held;
  powers = record { pkg = none; core = none; uncore = none; dram = none };
}

unfoldable pub is_fresh : Bool → Inputs → Bool
is_fresh slow i = slow && (elim i.slow_sample [ none ↦ false | some pkg_c ↦ true ])

module _ {m : Machine} where
  -- `_error`: an event at most once a minute for the same message.
  unfoldable pub note_error : (typ message : String) → ℕ → Daemon m → Daemon m
  unfolding seen_lately
  note_error typ message now d =
      if seen_lately (get typ d.errors) message now then d else record d {
        events = d.events ++ failed typ message ∷ [];
        errors = put typ (record { message = message; at = now }) d.errors;
      }

  unfoldable pub write_limits : Bool → (pl1_w pl2_w : ℕ) → Daemon m → Written m.power.World
  write_limits available pl1_w pl2_w d =
      let r = apply_and_verify m.power pl1_w pl2_w hard_max_w d.firmware d.power in
      if available
      then record {
        ok = r.ok;
        reason = m.describe r.outcome;
        pl1_w = r.pl1_w;
        pl2_w = r.pl2_w;
        world = r.world;
      }
      else record {
        ok = false;
        reason = "RAPL powercap unavailable";
        pl1_w = pl1_w;
        pl2_w = pl2_w;
        world = d.power;
      }

  -- The end of `apply`.
  unfoldable pub note_write : (wall : ℕ) → Why → Written m.power.World → Daemon m → Daemon m
  note_write wall why r d =
      let last : LastWrite = record {
        ts = wall;
        why = why;
        ok = r.ok;
        reason = r.reason;
        pl1_w = r.pl1_w;
        pl2_w = r.pl2_w;
      } in
      record d {
        power = r.world;
        readback = some (record { ok = r.ok; reason = r.reason });
        last_write = some last;
        events = d.events ++ wrote last ∷ [];
      }

  unfoldable pub apply : Inputs → Action → Daemon m → Daemon m
  apply i (event e) d = record d { events = d.events ++ governed e ∷ [] }
  apply i (set_limits pl1_w pl2_w why) d =
      note_write i.wall why (write_limits i.available pl1_w pl2_w d) d

  unfoldable pub apply_all : Inputs → List Action → Daemon m → Daemon m
  apply_all i [] d = d
  apply_all i (a ∷ rest) d = apply_all i rest (apply i a d)

  unfoldable pub fast_sample : ℕ → Bool → Inputs → Daemon m → Daemon m
  fast_sample now slow i d = elim i.sample [
    | none ↦
        note_error "sample_error" i.error now
          (record d { sampler = record d.sampler { latest = some (no_sample now i.wall) } })
    | some (p, smc) ↦ record d { sampler = fast now i.wall slow p smc d.sampler }
  ]

  unfoldable pub slow_sample : ℕ → Bool → Inputs → Daemon m → Daemon m
  slow_sample now slow i d =
      if slow
      then elim i.slow_sample [
        | none ↦ note_error "slow_sample_error" i.error now d
        | some pkg_c ↦ record d {
          sampler = record d.sampler { pkg_c = pkg_c; slow_mono = some now };
        }
      ]
      else d

  -- `sample["readback"], self.readback = self.readback, None`
  unfoldable pub sample_of : ℕ → Daemon m → Sample
  sample_of now d =
      let g = gov_input d.sampler now in
      record {
        pdtr_w = g.pdtr_w;
        input_mean_1s = g.input_mean_1s;
        acpw_w = g.acpw_w;
        pkg_c = g.pkg_c;
        readback = d.readback;
      }

  -- The governor's step and its actions, up to `last_step_ok`.
  unfoldable pub governor_step : ℕ → Inputs → Daemon m → Daemon m
  governor_step now i d =
      let r = step d.gov (sample_of now d) d.config.governor now in
      record (apply_all i r.1 (record d { gov = r.0; readback = none })) { last_step_ok = some now }

  -- `_fan_step`: the temperature counts only from this tick's slow sample.
  unfoldable pub fan_step : ℕ → (fresh : Bool) → Daemon m → Daemon m
  fan_step now fresh d = elim d.fanctl [
    | none ↦ d
    | some c ↦
        let temp = if fresh then d.sampler.pkg_c else none in
        let pkg = (derived d.sampler now).pkg_median_1s in
        let r = Control.tick m.fans d.config.fan_mode d.config.fan temp pkg now c d.fans in
        record d { fanctl = some r.0; fans = r.1 }
  ]

  unfoldable pub retry_step : ℕ → Inputs → Daemon m → Daemon m
  retry_step now i d =
      let r = maybe_retry i.gpu_busy now d.retries in
      record d { retries = r.0; events = d.events ++ r.1 }

  unfoldable pub tick : ℕ → Bool → Inputs → Daemon m → Daemon m
  tick now slow i d =
      let sampled = slow_sample now slow i (fast_sample now slow i d) in
      let stepped = governor_step now i sampled in
      retry_step now i (if slow then fan_step now (is_fresh slow i) stepped else stepped)
