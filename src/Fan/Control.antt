-- ===== src/Fan/Control.antt =====
-- linux/turbomac/daemon/fans.py: `FanController`, from its clamp to `tick`. The applesmc files are a
-- parameter: a state of the world, the write of fan{N}_min and `read_int` of three attributes. The
-- dictionaries that are keyed by the fan's number stand in one record for each fan. One `now` stands for
-- the monotonic time of a tick, which `decide` reads, and for `self.clock()`, which `apply` and `restore`
-- read; the code never compares the one with the other.
pub mod Kept
pub mod Restored
pub mod Tests
use turbo_mac.Prelude.{
  ℕ, suc, ◌+◌, ◌-◌, ◌*◌, Bool, true, false, ◌&&◌, Option, none, some, List, [], ◌∷◌, ◌++◌, leb, ltb,
  ◌==◌, not, String, if◌then◌else◌, one, is_some, holds, lesser, greater, round_div, length,
}
use turbo_mac.Dict.{Dict, put}
use turbo_mac.Fan.{FanState, FanConfig, Cause, Decision, initial, decide}

-- `write_min` returns the text of an error, and the world after it.
pub record Device : Type 1 where
  pub World : Type 0
  pub write_min : (n rpm : ℕ) → World → Option String × World
  pub read_min : ℕ → World → Option ℕ
  pub read_rpm : ℕ → World → Option ℕ

-- `written` is what fan{N}_min is known to hold, `failed` the value and time of a write that failed,
-- `default` the captured minimum.
pub record Fan : Type 0 where
  pub n : ℕ
  pub label : String
  pub max : Option ℕ
  pub rpm : Option ℕ
  pub written : Option ℕ
  pub failed : Option (ℕ × ℕ)
  pub default : Option ℕ

pub data FanMode : Type 0 where
  auto floor : FanMode

pub data WriteError : Type 0 where
  refused : String → WriteError
  unreadable : ℕ → WriteError
  reads : (got wanted : ℕ) → WriteError
  above_max : (got max : ℕ) → WriteError

pub data Note : Type 0 where
  not_started no_fans auto_curve waiting restoring : Note
  decided : Cause → Option ℕ → Note

pub data FanEvent : Type 0 where
  fan_floor_error : String → ℕ → WriteError → Note → FanEvent
  fan_floor : ℕ → Dict ℕ → (temp_c pkg_w : Option ℕ) → Note → FanEvent
  fan_restore : Dict ℕ → FanEvent
  fan_mode : FanMode → FanEvent

pub record Controller : Type 0 where
  pub state : FanState
  pub mode : Option FanMode
  pub target_rpm : ℕ
  pub reason : Note
  pub last_change_ts : Option ℕ
  pub write_errors : ℕ
  pub fans : List Fan
  pub events : List FanEvent

abbrev pub readback_tol_rpm : ℕ
readback_tol_rpm = 50

abbrev pub retry_s : ℕ
retry_s = 30 * one

-- The upper end of the clamp, `hi`.
unfoldable pub top_rpm : (lo max_rpm : ℕ) → Option ℕ → ℕ
top_rpm lo max_rpm none = greater lo max_rpm
top_rpm lo max_rpm (some mx) = greater lo (lesser max_rpm mx)

-- `_clamp`, with the fan's captured minimum.
unfoldable pub clamp : (lo : ℕ) → Option ℕ → (target max_rpm : ℕ) → ℕ
clamp lo mx target max_rpm =
    if target == 0 then lo else lesser (greater target lo) (top_rpm lo max_rpm mx)

-- The checks of `_write` on what is read back.
unfoldable pub check_readback : Option ℕ → ℕ → Option ℕ → Option WriteError
check_readback none rpm mx = some (unreadable rpm)
check_readback (some got) rpm mx =
    if (if ltb (rpm + readback_tol_rpm) got then true else ltb (got + readback_tol_rpm) rpm)
    then some (reads got rpm)
    else elim mx [ none ↦ none | some m ↦ if ltb m got then some (above_max got m) else none ]

-- `now - fail[1] < RETRY_S` for a failed write of the same value.
unfoldable pub too_soon : Option (ℕ × ℕ) → (want now : ℕ) → Bool
too_soon none want now = false
too_soon (some (value, at)) want now = (value == want) && ltb now (at + retry_s)

-- The locals of the loop over the fans that outlive a fan.
pub record Sweep (World : Type 0) : Type 0 where
  pub world : World
  pub done : Dict ℕ
  pub ok : Bool
  pub errors : List FanEvent

unfoldable pub is_filled : Dict ℕ → Bool
is_filled [] = false
is_filled (_ ∷ _) = true

unfoldable pub same_mode : FanMode → Option FanMode → Bool
same_mode auto (some auto) = true
same_mode floor (some floor) = true
same_mode _ _ = false

module _ (d : Device) where
  -- `_write`
  unfoldable pub write_floor : Fan → ℕ → d.World → Option WriteError × d.World
  write_floor f rpm world =
      let w = d.write_min f.n rpm world in
      (
        (elim w.0 [
          | some err ↦ some (refused err)
          | none ↦ check_readback (d.read_min f.n w.1) rpm f.max
        ]),
        w.1,
      )

  -- The write of a fan, and what is noted of it. `restore` leaves `failed` as it is on an error.
  unfoldable pub settle :
      Fan → (want : ℕ) → Option (ℕ × ℕ) → Note → Sweep d.World → Fan × Sweep d.World
  settle f want failed why s =
      let r = write_floor f want s.world in
      elim r.0 [
        | some err ↦ (
          record f { written = none; failed = failed },
          record s {
            world = r.1;
            ok = false;
            errors = s.errors ++ (fan_floor_error f.label want err why ∷ []);
          },
        )
        | none ↦ (
          record f { written = some want; failed = none },
          record s { world = r.1; done = put f.label want s.done },
        )
      ]

  -- The body of the loop of `apply`; the first argument is the fan's captured minimum.
  unfoldable pub apply_from :
      Option ℕ → (target max_rpm now : ℕ) → Note → Fan → Sweep d.World → Fan × Sweep d.World
  apply_from none target max_rpm now why f s = (f, s)
  apply_from (some lo) target max_rpm now why f s =
      let want = clamp lo f.max target max_rpm in
      if holds f.written want
      then (f, s)
      else if too_soon f.failed want now
      then (f, s)
      else settle f want (some (want, now)) why s

  unfoldable pub apply_fan :
      (target max_rpm now : ℕ) → Note → Fan → Sweep d.World → Fan × Sweep d.World
  apply_fan target max_rpm now why f s = apply_from f.default target max_rpm now why f s

  -- The body of the loop of `restore`.
  unfoldable pub restore_to : Option ℕ → Fan → Sweep d.World → Fan × Sweep d.World
  restore_to none f s = (f, s)
  restore_to (some lo) f s =
      if holds (d.read_min f.n s.world) lo
      then (record f { written = some lo }, s)
      else settle f lo f.failed restoring s

  unfoldable pub restore_fan : Fan → Sweep d.World → Fan × Sweep d.World
  restore_fan f s = restore_to f.default f s

  unfoldable pub sweep :
      (Fan → Sweep d.World → Fan × Sweep d.World)
      → List Fan
      → Sweep d.World
      → List Fan × Sweep d.World
  sweep step [] s = ([], s)
  sweep step (f ∷ rest) s =
      let r = step f s in let later = sweep step rest r.1 in (r.0 ∷ later.0, later.1)

  abbrev pub start_sweep : d.World → Sweep d.World
  start_sweep world = record { world = world; done = []; ok = true; errors = [] }

  -- The end of `apply` and of `restore`.
  unfoldable pub conclude : ℕ → FanEvent → Controller → List Fan × Sweep d.World → Controller
  conclude now event c r =
      let some_done = is_filled r.1.done in
      record c {
        fans = r.0;
        write_errors = c.write_errors + length r.1.errors;
        last_change_ts = (if some_done then some now else c.last_change_ts);
        events = c.events ++ r.1.errors ++ (if some_done then event ∷ [] else []);
      }

  -- `round(pkg_w, 2)` in billionths
  unfoldable pub round_centi : Option ℕ → Option ℕ
  round_centi none = none
  round_centi (some w) = some (round_div w 10_000_000 * 10_000_000)

  unfoldable pub apply :
      (target max_rpm : ℕ)
      → Note
      → (temp pkg : Option ℕ) → (now : ℕ) → Controller
      → d.World
      → Controller × d.World
  apply target max_rpm why temp pkg now c world =
      let r = sweep (apply_fan target max_rpm now why) c.fans (start_sweep world) in
      (conclude now (fan_floor target r.1.done temp (round_centi pkg) why) c r, r.1.world)

  -- The controller and the world after `restore`, and its result.
  unfoldable pub restore : (now : ℕ) → Controller → d.World → Controller × d.World × Bool
  restore now c world =
      let r = sweep restore_fan c.fans (start_sweep world) in
      let c1 = record c { state = initial; target_rpm = 0 } in
      (conclude now (fan_restore r.1.done) c1 r, r.1.world, r.1.ok)

  unfoldable pub set_mode : FanMode → (now : ℕ) → Controller → d.World → Controller × d.World
  set_mode mode now c world =
      let c1 = record c {
        mode = some mode;
        state = initial;
        events = c.events ++ (fan_mode mode ∷ []);
      } in
      elim mode [
        | auto ↦ (let r = restore now c1 world in (record r.0 { reason = auto_curve }, r.1))
        | floor ↦ (c1, world)
      ]

  -- `start` at the start of the daemon.
  unfoldable pub start : FanMode → (now : ℕ) → Controller → d.World → Controller × d.World
  start mode now c world =
      let c1 = record c { mode = some mode } in
      if length c.fans == 0 then (record c1 { reason = no_fans }, world) else elim mode [
        | auto ↦ (let r = restore now c1 world in (record r.0 { reason = auto_curve }, r.1))
        | floor ↦ (record c1 { reason = waiting }, world)
      ]

  unfoldable pub on_config : FanMode → (now : ℕ) → Controller → d.World → Controller × d.World
  on_config floor now c world = (c, world)
  on_config auto now c world =
      if same_mode auto c.mode then (c, world) else set_mode auto now c world

  unfoldable pub refresh : d.World → List Fan → List Fan
  refresh world [] = []
  refresh world (f ∷ rest) = record f { rpm = d.read_rpm f.n world } ∷ refresh world rest

  -- `tick` after the mode is set and the speeds are read.
  unfoldable pub follow :
      FanConfig → (temp pkg : Option ℕ) → (now : ℕ) → Controller → d.World → Controller × d.World
  follow cfg temp pkg now c world =
      let r = decide c.state temp pkg cfg now in
      if length c.fans == 0
      then (record c { reason = no_fans }, world)
      else if same_mode floor c.mode
      then apply r.target cfg.max_rpm (decided r.cause r.cap) temp pkg now
          (record c { state = r.state; target_rpm = r.target; reason = decided r.cause r.cap })
          world
      else (c, world)

  unfoldable pub tick :
      FanMode
      → FanConfig
      → (temp pkg : Option ℕ) → (now : ℕ) → Controller
      → d.World
      → Controller × d.World
  tick mode cfg temp pkg now c world =
      let r = if same_mode mode c.mode then (c, world) else set_mode mode now c world in
      follow cfg temp pkg now (record r.0 { fans = refresh r.1 r.0.fans }) r.1
