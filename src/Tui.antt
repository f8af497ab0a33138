-- ===== src/Tui.antt =====
-- linux/turbomac/tui: what stands behind the terminal interface, without its screens.
pub mod Backend
pub mod Replay
pub mod Subscription
