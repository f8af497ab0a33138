-- ===== src/Sampler/Fast.antt =====
-- `Sampler` of linux/turbomac/daemon/sampler.py: `fast`, the peaks, `derived`, `gov_input` and the
-- history, with times as they come, not rounded. The powers of RAPL, the SMC keys and the package temperature come in as they were read.
use turbo_mac.Prelude.{
  ℕ, ◌+◌, ◌-◌, ◌*◌, Bool, true, false, ◌&&◌, Option, none, some, List, [], ◌∷◌, ◌++◌, leb, ltb,
  if◌then◌else◌, length, String, one, is_some, round_div, drop, lesser,
}
use turbo_mac.Dict.{Dict, get, put}
use turbo_mac.Sampler.Window.{Window, push, mean, median, max}

-- A value of `SMC.read`: a float, an int, or anything else, with None among it.
pub data Reading : Type 0 where
  floating : ℕ → Reading
  whole : ℕ → Reading
  other : Reading

-- The keys that `fast` reads; each is `other` where the SMC is not there.
pub record SmcReads : Type 0 where
  pub pdtr : Reading
  pub vd0r : Reading
  pub id0r : Reading
  pub acpw : Reading

pub record Powers : Type 0 where
  pub pkg : Option ℕ
  pub core : Option ℕ
  pub uncore : Option ℕ
  pub dram : Option ℕ

-- `held`: the last 1 Hz values.
pub record Held : Type 0 where
  pub v : Reading
  pub a : Reading
  pub acpw_w : Option ℕ

pub record Windows : Type 0 where
  pub input : Window
  pub pkg : Window
  pub core : Window
  pub uncore : Window
  pub dram : Window
  pub acpw : Window
  pub v : Window
  pub a : Window

-- `latest`, the result of `fast`.
pub record Latest : Type 0 where
  pub ts : ℕ
  pub mono : ℕ
  pub valid : Bool
  pub pdtr_w : Option ℕ
  pub held : Held
  pub powers : Powers

pub record Peak : Type 0 where
  pub value : ℕ
  pub ts : ℕ

-- `slow_mono` and the package temperature of `slow_data` stand for the slow sample.
pub record Sampler : Type 0 where
  pub held : Held
  pub w : Windows
  pub latest : Option Latest
  pub pkg_c : Option ℕ
  pub slow_mono : Option ℕ
  pub peaks : Dict Peak
  pub last_valid_mono : Option ℕ

-- `_valid_input`: a float below 250.
unfoldable pub valid_input : Reading → Option ℕ
valid_input (floating n) = if ltb n (250 * one) then some n else none
valid_input _ = none

-- `type(acpw) is int and 30_000 <= acpw <= 100_000`, in milliwatts, then in watts.
unfoldable pub valid_acpw : Reading → Option ℕ
valid_acpw (whole n) = if leb 30_000 n && leb n 100_000 then some (n * 1_000_000) else none
valid_acpw _ = none

-- What `Window.push` keeps of a reading.
unfoldable pub number_of : Reading → Option ℕ
number_of (floating n) = some n
number_of (whole n) = some (n * one)
number_of other = none

abbrev pub new_window : Window
new_window = record { keep = 12 * one; entries = [] }

abbrev pub nothing_held : Held
nothing_held = record { v = other; a = other; acpw_w = none }

-- `__init__`
abbrev pub new_sampler : Sampler
new_sampler = record {
  held = nothing_held;
  w = record {
    input = new_window;
    pkg = new_window;
    core = new_window;
    uncore = new_window;
    dram = new_window;
    acpw = new_window;
    v = new_window;
    a = new_window;
  };
  latest = none;
  pkg_c = none;
  slow_mono = none;
  peaks = [];
  last_valid_mono = none;
}

-- `round(v, 2)`, in billionths
unfoldable pub round_centi : ℕ → ℕ
round_centi v = round_div v 10_000_000 * 10_000_000

-- `_peak`: a value that exceeds the peak, as it was rounded, takes its place.
unfoldable pub peak : String → Option ℕ → ℕ → Dict Peak → Dict Peak
peak key none wall ps = ps
peak key (some v) wall ps =
    if (elim (get key ps) [ none ↦ true | some p ↦ ltb p.value v ])
    then put key (record { value = round_centi v; ts = wall }) ps
    else ps

-- The values that the windows get besides the powers: those of this tick, if it is a full one.
unfoldable pub fresh_of : Bool → Held → Held
fresh_of full held = if full then held else nothing_held

unfoldable pub held_after : Bool → SmcReads → Held → Held
unfolding valid_acpw
held_after full smc held =
    if full then record { v = smc.vd0r; a = smc.id0r; acpw_w = valid_acpw smc.acpw } else held

unfoldable pub push_windows : ℕ → Option ℕ → Powers → Held → Windows → Windows
push_windows now pdtr_w p fresh w = record {
  input = push w.input now pdtr_w;
  pkg = push w.pkg now p.pkg;
  core = push w.core now p.core;
  uncore = push w.uncore now p.uncore;
  dram = push w.dram now p.dram;
  acpw = push w.acpw now fresh.acpw_w;
  v = push w.v now (number_of fresh.v);
  a = push w.a now (number_of fresh.a);
}

unfoldable pub is_valid : Option ℕ → Windows → ℕ → Bool
is_valid pdtr_w w now = is_some pdtr_w && is_some (median w.acpw now (10 * one))

unfoldable pub fast : (now wall : ℕ) → Bool → Powers → SmcReads → Sampler → Sampler
fast now wall full p smc s =
    let pdtr_w = valid_input smc.pdtr in
    let held = held_after full smc s.held in
    let fresh = fresh_of full held in
    let w = push_windows now pdtr_w p fresh s.w in
    let valid = is_valid pdtr_w w now in
    record s {
      held = held;
      w = w;
      last_valid_mono = (if valid then some now else s.last_valid_mono);
      latest = some (record {
        ts = wall;
        mono = now;
        valid = valid;
        pdtr_w = pdtr_w;
        held = held;
        powers = p;
      });
      peaks =
          peak "a" (number_of fresh.a) wall
            (peak "pkg_w" p.pkg wall (peak "input_w" pdtr_w wall s.peaks));
    }

-- What the governor's step consumes. `TEMP_FRESH_S` is 3 s.
pub record GovInput : Type 0 where
  pub pdtr_w : Option ℕ
  pub input_mean_1s : Option ℕ
  pub acpw_w : Option ℕ
  pub pkg_c : Option ℕ

unfoldable pub latest_pdtr : Option Latest → Option ℕ
latest_pdtr none = none
latest_pdtr (some l) = if l.valid then l.pdtr_w else none

-- `now - self.slow_mono <= TEMP_FRESH_S`
unfoldable pub is_fresh : Option ℕ → ℕ → Bool
is_fresh none now = false
is_fresh (some t) now = leb now (t + 3 * one)

unfoldable pub gov_input : Sampler → ℕ → GovInput
gov_input s now = record {
  pdtr_w = latest_pdtr s.latest;
  input_mean_1s = mean s.w.input now one;
  acpw_w = median s.w.acpw now (10 * one);
  pkg_c = (if is_fresh s.slow_mono now then s.pkg_c else none);
}

-- A difference, as what is added and what is taken away; none if either is missing.
unfoldable pub difference : Option ℕ → Option ℕ → Option (ℕ × ℕ)
difference none b = none
difference (some a) none = none
difference (some a) (some b) = some (a, b)

pub record Derived : Type 0 where
  pub input_mean_1s : Option ℕ
  pub input_max_1s : Option ℕ
  pub pkg_median_1s : Option ℕ
  pub acpw_median_10s : Option ℕ
  pub noncpu_est_w : Option (ℕ × ℕ)
  pub headroom_w : Option (ℕ × ℕ)

-- `derived`, without the prediction at the ceiling.
unfoldable pub derived : Sampler → ℕ → Derived
derived s now =
    let input = mean s.w.input now one in
    let pkg_med = median s.w.pkg now one in
    let supply = median s.w.acpw now (10 * one) in
    record {
      input_mean_1s = input;
      input_max_1s = max s.w.input now one;
      pkg_median_1s = pkg_med;
      acpw_median_10s = supply;
      noncpu_est_w = difference input pkg_med;
      headroom_w = difference supply input;
    }

abbrev pub history_len : ℕ
history_len = 600

-- The ring of records: an append drops the oldest past `history_len`.
unfoldable pub remember {ℓ} : {A : Type ℓ} → A → List A → List A
remember rec history =
    let all = history ++ rec ∷ [] in if ltb history_len (length all) then drop 1 all else all

-- The rows of `history_slice`; a negative count comes in as 0.
unfoldable pub history_rows {ℓ} : {A : Type ℓ} → ℕ → List A → List A
history_rows seconds history = drop (length history - lesser seconds history_len) history
