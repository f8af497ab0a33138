-- ===== src/Sampler/Tests.antt =====
-- The theorems on the sampler at concrete samples.
use turbo_mac.Prelude.{
  ℕ, ◌*◌, ◌≡◌, refl, true, false, Option, none, some, List, [], ◌∷◌, arith, one,
}
use turbo_mac.Sampler.Window.{
  values, values_of, push, mean, median, max, mean_of, median_of, max_of,
}
use turbo_mac.Sampler.Fast.{floating, whole, other, Powers, gov_input, new_sampler}
use turbo_mac.Sampler.Forgets.{push_all, record_all, Window_refines}
use turbo_mac.Sampler.Sane.{Tick, run, GivesSane, run-GivesSane}

abbrev samples : List (ℕ × Option ℕ)
samples =
    (1 * one, some (40 * one))
    ∷ (2 * one, none)
    ∷ (9 * one, some (50 * one))
    ∷ (20 * one, some (60 * one))
    ∷ []

window_forgets :
    push_all (record { keep = 12 * one; entries = [] }) samples
    ≡ record { keep = 12 * one; entries = (9 * one, 50 * one) ∷ (20 * one, 60 * one) ∷ [] }
unfolding push_all push
window_forgets = refl

Window_refines_example :
    let w = push_all (record { keep = 12 * one; entries = [] }) samples in
    let all = values_of (20 * one) (12 * one) (record_all [] samples) in
    (values w (20 * one) (12 * one) ≡ all)
    × (mean w (20 * one) (12 * one) ≡ mean_of all)
    × (median w (20 * one) (12 * one) ≡ median_of all)
    × (max w (20 * one) (12 * one) ≡ max_of all)
Window_refines_example =
    Window_refines (12 * one) (20 * one) (12 * one) samples (omega arith)
      (omega arith, (omega arith, (omega arith, (omega arith, tt))))

abbrev no_power : Powers
no_power = record { pkg = some (20 * one); core = none; uncore = none; dram = none }

abbrev ticks : List Tick
ticks =
    record {
      now = one;
      wall = 0;
      full = true;
      powers = no_power;
      smc = record {
        pdtr = floating (55 * one);
        vd0r = floating (20 * one);
        id0r = other;
        acpw = whole 60_000;
      };
    }
    ∷ record {
      now = 2 * one;
      wall = one;
      full = false;
      powers = no_power;
      smc = record { pdtr = floating (300 * one); vd0r = other; id0r = other; acpw = whole 5 };
    }
    ∷ []

run-GivesSane_example : GivesSane (gov_input (run new_sampler ticks) (2 * one))
run-GivesSane_example = run-GivesSane ticks (2 * one)
