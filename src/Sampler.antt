-- ===== src/Sampler.antt =====
-- linux/turbomac/daemon/sampler.py: the trailing windows and the fast sampler. Times and values are in
-- billionths. A reading that is negative or not finite counts as no number: the sensors give none.
pub mod Window
pub mod Fast
pub mod Forgets
pub mod Sane
mod Tests
