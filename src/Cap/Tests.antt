-- ===== src/Cap/Tests.antt =====
-- The theorems on the static cap at a store of three files.
use mathlib.Core.Option.{some-injective}
use mathlib.Core.Path.{subst}
use turbo_mac.Prelude.{ℕ, ◌≡◌, refl, true, false, none, some, arith}
use turbo_mac.Dict.{Dict}
use turbo_mac.Config.{Value, Reason}
use turbo_mac.Rapl.Tests as RaplTests
use turbo_mac.Gpu.Tests as GpuTests
use turbo_mac.Daemon.Tests.{AtMost45, AtMost45-KeptBy}
use turbo_mac.Daemon.Settings.{no_file, load}
use turbo_mac.Cap.{Machine, exited, apply}
use turbo_mac.Cap.Safe.{Capped, IsStatic, apply-Capped, apply-exited}
use turbo_mac.Cap.Writes.{apply-Kept}

abbrev machine : Machine
machine = record {
  power = RaplTests.store;
  store = record { exists = λ w. false; load = λ w. none; save = λ fw w. some w };
  available = λ w. true;
  gpu = GpuTests.store;
}

apply-exited_example : (apply machine no_file (λ f. 100_000_000) GpuTests.running).exit ≡ exited 0
apply-exited_example =
    apply-exited machine no_file (λ f. 100_000_000) GpuTests.running RaplTests.store-IsFaithful refl
      (λ fw w. refl) (unfold load in refl)

apply-Capped_example :
    (r : Dict Value × Dict Reason) × (static : ℕ) × (load no_file ≡ some r)
    × IsStatic machine r.0 static
    × Capped machine static (apply machine no_file (λ f. 100_000_000) GpuTests.running).power
apply-Capped_example =
    apply-Capped machine no_file (λ f. 100_000_000) GpuTests.running apply-exited_example

apply-Kept_example : AtMost45 (apply machine no_file (λ f. 0) GpuTests.running).power
apply-Kept_example =
    apply-Kept machine AtMost45 AtMost45-KeptBy
      (λ fw w w' e p. subst AtMost45 (some-injective _ _ e) p) no_file (λ f. 0) GpuTests.running
      (omega arith, omega arith)
