-- ===== src/Rapl/Tests.antt =====
-- The theorems on the power limits at concrete readings, and a device that is a store of three files.
use turbo_mac.Prelude.{
  ℕ, ◌+◌, ◌*◌, ◌%◌, ◌≡◌, ◌==◌, refl, true, false, Option, none, some, arith, one, if◌then◌else◌,
}
use turbo_mac.Config.{number}
use turbo_mac.Rapl.{
  Firmware, energy_delta_w, clamp_limits, floor_eighth, maxima, valid_firmware, positive_w,
}
use turbo_mac.Rapl.Energy.{Means, energy_delta_w-Means}
use turbo_mac.Rapl.Port.{
  File, long_term_uw, short_term_uw, enabled_file, Device, read_limits, apply_and_verify,
}
use turbo_mac.Rapl.Capture.{
  Store, cap_active, captured, capture, keep, looks, load_or_capture_firmware,
}
use turbo_mac.Rapl.Captured.{IsTrusted, load_or_capture_firmware-IsTrusted}
use turbo_mac.Rapl.Verified.{
  Holds, IsFaithful, MsrAgrees, same_file, stored, apply_and_verify-Holds, apply_and_verify-ok,
}

abbrev firmware : Option Firmware
firmware = some (record {
  suspect = false;
  pl1_w = some (number (100 * one));
  pl2_w = some (number (40 * one));
})

clamp_example :
    clamp_limits (35 * one + 100_000_000) (60 * one) (45 * one) firmware ≡ (35 * one, 40 * one)
unfolding clamp_limits floor_eighth maxima valid_firmware positive_w
clamp_example = refl

-- The counter wraps at 1000 between 990 and 1015.
energy_delta_w-Means_example :
    Means 25 one (energy_delta_w (990 % 1000) ((990 + 25) % 1000) 1000 one)
energy_delta_w-Means_example = energy_delta_w-Means 990 25 1000 one (omega arith) (omega arith)

-- A world is what the three files hold; the MSR shows the same.
abbrev pub store : Device
store = record {
  World = File → ℕ;
  write = λ f v w. (none, λ g. if same_file f g then stored f v else w g);
  read = λ f w. some (w f);
  pkg_limit = λ w. some (record {
    pl1_w = w long_term_uw * 1000;
    pl1_enable = w enabled_file == 1;
    pl2_w = w short_term_uw * 1000;
  });
}

store-reads_back :
    (f g : File) (v : ℕ) (w : store.World)
    → store.read g (store.write f v w).1
      ≡ (if same_file f g then some (stored f v) else store.read g w)
store-reads_back f g v w = ground arith

store-msr_follows :
    (w : store.World) (u1 u2 : ℕ)
    → store.read enabled_file w ≡ some 1
    → store.read long_term_uw w ≡ some u1
    → store.read short_term_uw w ≡ some u2
    → MsrAgrees (u1 * 1000) (u2 * 1000) (store.pkg_limit w)
store-msr_follows w u1 u2 on e e' = ground (arith, on, e, e')

pub store-IsFaithful : IsFaithful store
store-IsFaithful = record {
  succeeds = λ f v w fits. refl;
  reads_back = λ f g v w fits. store-reads_back f g v w;
  msr_follows = store-msr_follows;
}

store-verified :
    (apply_and_verify store (35 * one) (60 * one) (45 * one) firmware (λ f. 0)).ok ≡ true
store-verified =
    apply_and_verify-ok store store-IsFaithful (35 * one) (60 * one) (45 * one) firmware (λ f. 0)
      (omega arith)

apply_and_verify-Holds_example :
    Holds store
      (45 * one)
      firmware
      (apply_and_verify store (35 * one) (60 * one) (45 * one) firmware (λ f. 0))
apply_and_verify-Holds_example =
    apply_and_verify-Holds store (35 * one) (60 * one) (45 * one) firmware (λ f. 0) store-verified

-- No file yet, and a PL1 of 30 W in force.
abbrev no_file : Store store.World
no_file = record { exists = λ w. false; load = λ w. none; save = λ fw w. some w }

capture-suspect :
    load_or_capture_firmware store no_file false (λ f. 30_000_000)
    ≡ some (record {
      firmware = some (captured 30_000_000 30_000_000);
      warning = some (cap_active false);
      world = λ f. 30_000_000;
    })
unfolding load_or_capture_firmware capture keep looks captured valid_firmware read_limits
capture-suspect = refl

load_or_capture_firmware-IsTrusted_example :
    IsTrusted store no_file false
      (λ f. 30_000_000)
      (load_or_capture_firmware store no_file false (λ f. 30_000_000))
load_or_capture_firmware-IsTrusted_example =
    load_or_capture_firmware-IsTrusted store no_file false (λ f. 30_000_000)
