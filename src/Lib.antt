-- ===== src/Lib.antt =====
-- TurboMac's Linux daemon (linux/turbomac): the control logic in Python, as functions and theorems.
--
-- Parts. The daemon samples power and temperature, runs the governor (daemon/governor.py) and writes the
-- limits that it asks for (daemon/rapl.py), keeps a floor under the fans' speed (daemon/fans.py), changes
-- the mode of the graphics card (daemon/gpu.py), takes settings that config.py checks, logs samples
-- (daemon/logger.py), and at its start judges how the boot before ended (daemon/incidents.py). A control
-- socket (daemon/server.py, protocol.py) takes commands and answers them; the terminal interface (tui)
-- subscribes to it, or replays a log. Before the daemon runs, cap.py sets a static cap. All these paths
-- are below linux/turbomac.
--
-- daemon/governor.py. Governor.antt has the governor's state, its configuration, the sample and the
-- actions; Governor/Working.antt the methods of `_Step`, one function each; Governor/Step.antt and
-- Governor/Control.antt the body of `step`, in its order. The theorems stand in Governor/Emergency,
-- Limits (with Rules and Steps), Fallback, Bounds, Hold and Quiet.
-- config.py. Config.antt has SPEC and `_check_one`, Config/Validate.antt the cross rules and
-- `validate`, Config/Defaults.antt the defaults; Config/Rules and Config/Accepts have the theorems. A
-- configuration is a dictionary by dotted keys (Dict.antt). `flatten` is left out.
-- daemon/fans.py. Fan.antt is `decide`, with theorems in Fan/Engages and Fan/Holds; Fan/Capture.antt the
-- capture of the hardware minimums, with Fan/Captured; Fan/Control.antt is `FanController` over a
-- device, with theorems in Fan/Control/Kept and Fan/Control/Restored.
-- daemon/rapl.py. Rapl.antt has the clamp, the comparison of the readback and the energy delta,
-- Rapl/Port.antt the writes and `apply_and_verify` over a device, Rapl/Capture.antt the limits of the
-- firmware; Rapl/Clamped, Rapl/Energy, Rapl/Verified and Rapl/Captured have the theorems.
-- daemon/gpu.py. Gpu.antt is `apply_mode` and what it calls, over a device; theorems in Gpu/Off and
-- Gpu/Cap. The telemetry is left out.
-- daemon/msr.py. Msr.antt decodes the registers; Msr/Fields.antt has their layout and the theorem.
-- daemon/smc.py. Smc/Decode.antt is `decode`, Smc.antt the class `SMC` over the files of the selector;
-- theorems in Smc/Signed and Smc/Verified. Sensors.antt has the readers of temperatures and fans, with
-- Sensors/Recent.
-- daemon/sampler.py. Sampler/Window.antt is `Window`, Sampler/Fast.antt the fast sample, `derived` and
-- `gov_input`; theorems in Sampler/Forgets and Sampler/Sane. The slow sample is its package temperature.
-- daemon/logger.py. Logger.antt has the two threads of `SampleLogger` as steps over the queue,
-- Logger/Flow.antt their interleavings, Logger/Episodes.antt the episodes of a backlog, Logger/Prune.antt
-- `prune`; theorems in Logger/Order, Left and Kept. Compression and the rotation of the files are left out.
-- daemon/incidents.py. Incidents.antt is the check of the previous boot, Incidents/Samples.antt
-- `last_samples`; theorems in Incidents/Sound, Incidents/Once and Incidents/Rows.
-- daemon/cpu.py. Cpu.antt is `apply_settings`. The readers are left out.
-- daemon/main.py. Daemon.antt has the daemon's state, Daemon/Tick.antt `tick`, which calls the models of
-- the sampler, the governor, the power limits and the fans in the order of the code, Daemon/Loop.antt
-- `loop_once`, Daemon/Retry.antt the retries of the graphics card, and Daemon/Settings.antt `set_config`,
-- `set_gpu` and `reload_config`; theorems in Daemon/Powers, Feedback, Watchdog, Retry, Legal and Obeys.
-- A tick reads the sections of the configuration as records; the requests change it as a dictionary.
-- daemon/server.py, protocol.py. Server.antt is one connection of the control socket as a list of turns,
-- with the client's call, Server/Dispatch.antt the dispatch of its commands to Daemon/Settings; theorems in
-- Server/Ids and Calls.
-- cap.py. Cap.antt composes the load of the configuration, the limits of the firmware, the verified write
-- and the mode of the card; theorems in Cap/Static, Safe and Writes.
-- tui. Tui/Subscription.antt is the thread that keeps the interface connected, with theorems in its Told
-- and Backoff; Tui/Backend.antt has the settings of a simulated backend, Tui/Replay.antt the replay of a
-- log, with theorems in its Plays, Moves and Agrees.
-- Not modelled: the texts and reports of the status, the start and the end of the daemon, the socket of
-- the control server and JSON, and the screens of the interface, the simulated machine and the tools,
-- which show what the daemon answers.
--
-- A device is a record of functions on a state of the world: the reads and writes of sysfs files, with
-- the errors that a write may return. Theorems hold for every device unless they name what they need.
--
-- Numbers. A Python float is read as the exact decimal that it stands for, as a count of billionths
-- (nanowatts, nanoseconds); rounding of the float operations is not modelled. A comparison of a power
-- with a product of a power and a ratio is exact. A temperature below 0 °C takes the branches of 0.
-- A difference of times is compared as a sum. Sysfs values are not negative. Texts of reasons and of
-- errors are kept by their parts.
--
-- The only loop with a fixed count that could be too small is that of `validate`: it has one pass more
-- than there are rules, and each pass that breaks a rule leaves fewer rules that can break, so the last
-- pass breaks none. All other loops are over lists or over a count that the code gives.
pub mod Prelude
pub mod Governor
pub mod Config
pub mod Rapl
pub mod Msr
pub mod Smc
pub mod Sampler
pub mod Gpu
pub mod Incidents
pub mod Logger
pub mod Daemon
pub mod Server
pub mod Cap
pub mod Cpu
pub mod Dict
pub mod Fan
pub mod Sensors
pub mod Tui
