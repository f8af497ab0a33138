-- ===== src/Fan/Control/Tests.antt =====
-- The theorems on `FanController` with two fans and a device that is a store.
use turbo_mac.Prelude.{
  ℕ, ◌≤◌, ◌≡◌, refl, true, none, some, [], ◌∷◌, All, arith, inr, if◌then◌else◌, ◌==◌, one, ◌*◌,
}
use turbo_mac.Fan.{initial}
use turbo_mac.Fan.Tests.{settings}
use turbo_mac.Fan.Control.{
  Device, Fan, auto, floor, Controller, not_started, restore, tick, sweep, restore_fan, restore_to,
  settle, write_floor, check_readback,
}
use turbo_mac.Fan.Control.Kept.{KeptBy, GoodPair, tick-GoodPair}
use turbo_mac.Fan.Control.Restored as Restored
use turbo_mac.Fan.Control.Restored.{IsRestored, Apart, restore-IsRestored}

abbrev pub store : Device
store = record {
  World = ℕ → ℕ;
  write_min = λ n rpm w. (none, λ m. if m == n then rpm else w m);
  read_min = λ n w. some (w n);
  read_rpm = λ n w. some 3000;
}

abbrev minimum : ℕ → ℕ
minimum n = if n == 1 then 2160 else 2000

abbrev fan : ℕ → Fan
fan n = record {
  n = n;
  label = "fan";
  max = some 5927;
  rpm = none;
  written = none;
  failed = none;
  default = some (minimum n);
}

abbrev pub controller : Controller
controller = record {
  state = initial;
  mode = some floor;
  target_rpm = 0;
  reason = not_started;
  last_change_ts = none;
  write_errors = 0;
  fans = fan 1 ∷ fan 2 ∷ [];
  events = [];
}

-- No fan is below its captured minimum.
abbrev NoneBelow : store.World → Type 0
NoneBelow w = (n : ℕ) → minimum n ≤ w n

store-KeptBy : KeptBy store minimum 5900 NoneBelow
store-KeptBy n rpm w low high p m = ground (arith, low, p m)

tick-GoodPair_example :
    GoodPair store minimum NoneBelow
      (tick store auto settings (some (85 * one)) none one controller (λ n. 4500))
tick-GoodPair_example =
    tick-GoodPair store minimum NoneBelow auto settings (some (85 * one)) none one controller
      (λ n. 4500) store-KeptBy (inr refl, (inr refl, tt)) (λ n. ground arith)

restore_result : (restore store one controller (λ n. 4500)).2 ≡ true
unfolding restore sweep restore_fan restore_to settle write_floor check_readback
restore_result = refl

store-Apart : Apart store
store-Apart n m rpm w h = ground (arith, h)

restore-IsRestored_example :
    All (Restored.Holds store (restore store one controller (λ n. 4500)).1) controller.fans
    × All IsRestored (restore store one controller (λ n. 4500)).0.fans
    × ((restore store one controller (λ n. 4500)).0.write_errors ≡ 0)
    × ((restore store one controller (λ n. 4500)).0.state ≡ initial)
    × ((restore store one controller (λ n. 4500)).0.target_rpm ≡ 0)
restore-IsRestored_example =
    restore-IsRestored store store-Apart one controller (λ n. 4500) ((refl, tt), (tt, tt))
      restore_result
